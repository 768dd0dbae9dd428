-- ===== src/Abstraction.antt =====
-- src/iota/abstraction.c but for its choice of the parser: what the protocol and the coin call for.
use ledger_iota_app.Prelude.{
  ℕ, ◌+◌, ◌*◌, Option, none, some, le, u8, List, ltb, test_bit, ◌==◌, if◌then◌else◌,
}
use ledger_iota_app.Exec.{Result, ok, fail, thrown, ◌⟫◌}
use ledger_iota_app.Constants.Status
use ledger_iota_app.Constants.AppMode
use ledger_iota_app.Types.{ApiCtx, sizeof_basic_output, offset_amount, offset_address_type}
use ledger_iota_app.Sdk.{Sdk}
use ledger_iota_app.Bech32.{Bech32}
use ledger_iota_app.Address.{address_encode_bech32_hrp}
use ledger_iota_app.Text.{codes}
use ledger_iota_app.Text.Numbers.{format_value_full_decimals}
use ledger_iota_app.Reader.{read, deref}

-- The pointer to the address type of an output; 0, which is NULL, for an index out of range.
unfoldable pub get_output_address_ptr : ApiCtx → ℕ → Result (Option ℕ)
get_output_address_ptr api index =
    if ltb index api.essence.outputs_count
    then if api.protocol == AppMode.protocol_stardust
      then deref api.essence.outputs
        ⟫ (λ tmp. ok (some (tmp + sizeof_basic_output * index + offset_address_type)))
      else thrown Status.unknown
    else ok none

unfoldable pub get_output_amount : ApiCtx → ℕ → Result ℕ
get_output_amount api index =
    if ltb index api.essence.outputs_count
    then if api.protocol == AppMode.protocol_stardust
      then deref api.essence.outputs ⟫ (λ tmp.
        read api.api_data.buffer (tmp + sizeof_basic_output * index + offset_amount) 8
        ⟫ (λ r. ok (le r)))
      else thrown Status.unknown
    else ok 0

-- The prefix for a coin, on its network or its testnet.
abbrev pub coin_hrp : ℕ → ℕ → Option (List ℕ)
coin_hrp coin app_mode =
    if coin == AppMode.coin_iota
    then some (if test_bit app_mode 7 then codes "atoi" else codes "iota")
    else if coin == AppMode.coin_shimmer
    then some (if test_bit app_mode 7 then codes "rms" else codes "smr")
    else none

unfoldable pub address_encode_bech32 : Bech32 → ApiCtx → List ℕ → ℕ → Result (List ℕ)
address_encode_bech32 bech32 api addr_with_type bech32_max_length =
    elim (coin_hrp api.coin api.app_mode) [
      | none ↦ thrown Status.unknown
      | some hrp ↦ elim (address_encode_bech32_hrp bech32 addr_with_type bech32_max_length hrp) [
        | none ↦ fail
        | some text ↦ ok text
      ]
    ]

-- An amount of 0 is a return value of 0. Both coins are shown in the same way.
unfoldable pub get_amount : Sdk → ApiCtx → ℕ → ℕ → Result (List ℕ)
unfolding get_output_amount
get_amount sdk api index dst_len = get_output_amount api (u8 index) ⟫ λ amount.
    if amount == 0
    then fail
    else if api.coin == AppMode.coin_iota
    then format_value_full_decimals sdk dst_len amount
    else if api.coin == AppMode.coin_shimmer
    then format_value_full_decimals sdk dst_len amount
    else thrown Status.unknown
