-- ===== src/Ui/Screens.antt =====
-- The texts on the screens of src/ui/nano: what the steps of a flow put into the two buffers of
-- `flowdata_t` before they are drawn.
use ledger_iota_app.Prelude.{
  ℕ, zero, suc, ◌+◌, ◌-◌, ◌/◌, ◌%◌, ◌^◌, Bool, List, [], ◌∷◌, ◌++◌, Option, none, some, take,
  replicate, ltb, ◌==◌, not, get_or, if◌then◌else◌,
}
use ledger_iota_app.Exec.{
  Result, ok, fail, thrown, fault, Exec, ◌>>=◌, ◌>>◌, ◌⟫◌, pure, lift, modify, or_thrown,
}
use ledger_iota_app.Constants.{
  Target, target_nanos, target_nanox, target_nanos2, address_with_type_size_bytes,
}
use ledger_iota_app.Constants.Status
use ledger_iota_app.Constants.Bip32
use ledger_iota_app.Constants.AppMode
use ledger_iota_app.Types.{ApiCtx}
use ledger_iota_app.Sdk.{Sdk}
use ledger_iota_app.Bech32.{Bech32}
use ledger_iota_app.Reader.{read}
use ledger_iota_app.Device.{Device}
use ledger_iota_app.Abstraction.{get_amount, get_output_address_ptr, address_encode_bech32}
use ledger_iota_app.Nv.{nv_get_blindsigning}
use ledger_iota_app.Text.{codes, snprintf, print_u}
use ledger_iota_app.Text.Paths.{format_bip32_with_line_breaks}

-- `sizeof(flow_data.scratch[0])`
abbrev pub scratch_size : ℕ
scratch_size = 81

-- `flow_data.scratch`, the text and its header
pub record Scratch : Type 0 where
  pub text : List ℕ
  pub header : List ℕ

abbrev pub set_text : List ℕ → Exec Scratch (Unit {0})
set_text text = modify (λ s. record s { text = text })

abbrev pub set_header : List ℕ → Exec Scratch (Unit {0})
set_header header = modify (λ s. record s { header = header })

-- The text in a buffer, up to its first zero.
unfoldable pub c_string : List ℕ → List ℕ
c_string [] = []
c_string (c ∷ cs) = let rest = c_string cs in if c == 0 then [] else c ∷ rest

-- flow_user_confirm_transaction.c
unfoldable pub cb_amount_preinit : Sdk → Device → Exec Scratch (Unit {0})
cb_amount_preinit sdk d = do
  set_text []
  text ← lift (or_thrown Status.unknown (get_amount sdk d.api d.flow_data.read_index scratch_size))
  set_text text
  set_header (
      take scratch_size
        (if d.api.coin == AppMode.coin_shimmer then codes "Amount SMR" else codes "Amount IOTA"))

unfoldable pub cb_bip32_preinit : Device → Exec Scratch (Unit {0})
cb_bip32_preinit d = set_text (
    c_string
      (format_bip32_with_line_breaks d.api.bip32_path scratch_size (replicate scratch_size 0)).1)

-- A return value of 0 of the coder leaves the buffer as it was cleared.
abbrev pub show_address_text : Bech32 → ApiCtx → List ℕ → Exec Scratch (Unit {0})
show_address_text bech32 api address s =
    elim (address_encode_bech32 bech32 api address scratch_size) [
      | ok text ↦ set_text text s
      | fail ↦ pure tt s
      | thrown e ↦ lift (thrown e) s
      | fault ↦ lift fault s
    ]

-- `MUST_THROW` of a pointer
abbrev pub not_null : Option ℕ → Result ℕ
not_null none = thrown Status.unknown
not_null (some at) = ok at

unfoldable pub cb_address_preinit : Bech32 → Device → Exec Scratch (Unit {0})
cb_address_preinit bech32 d = do
  set_text []
  set_header []
  address_with_type_ptr ←
      lift
        (or_thrown Status.unknown (get_output_address_ptr d.api d.flow_data.read_index) ⟫ not_null)
  address ← lift (read d.api.api_data.buffer address_with_type_ptr address_with_type_size_bytes)
  show_address_text bech32 d.api address

unfoldable pub cb_output_preinit : Device → Exec Scratch (Unit {0})
cb_output_preinit d = do
  set_header
      (if d.api.app_mode == AppMode.shimmer_claiming then codes "Claim SMR" else codes "Review")
  set_text (
      if ltb 1 d.flow_data.num_non_remainder_outputs
      then snprintf (scratch_size - 1)
          (codes "Output [" ++ (print_u (d.flow_data.flow_outputs_index_current + 1) ++ codes "]"))
      else codes "Output")

-- flow_user_confirm_new_address.c
abbrev pub address_header : Target → Bool → List ℕ
address_header target_nanos change = if change then codes "Remainder" else codes "Address"
address_header target_nanox change =
    if change then codes "New Remainder" else codes "Receive Address"
address_header target_nanos2 change =
    if change then codes "New Remainder" else codes "Receive Address"

unfoldable pub new_address_preinit : Target → Bech32 → Device → Exec Scratch (Unit {0})
new_address_preinit t bech32 d = do
  set_text []
  set_header (
      take (scratch_size - 1)
        (address_header t (not (get_or d.api.bip32_path Bip32.change_index 0 % 2 == 0))))
  address ← lift (read d.api.api_data.buffer 0 address_with_type_size_bytes)
  show_address_text bech32 d.api address

-- flow_user_confirm_blindsigning.c
abbrev pub hex_char : ℕ → ℕ
hex_char d = get_or (codes "0123456789ABCDEF") d 0

-- The loop from byte `i`, with `left` rounds to go.
unfoldable pub hex_digits : List ℕ → ℕ → ℕ → List ℕ
hex_digits src zero i = []
hex_digits src (suc left) i =
    let byte = get_or src i 0 in
    hex_char (byte / 2 ^ 4) ∷ hex_char (byte % 2 ^ 4) ∷ hex_digits src left (i + 1)

unfoldable pub cb_hash_preinit : Device → Exec Scratch (Unit {0})
unfolding hex_digits
cb_hash_preinit d = set_text (codes "0x" ++ hex_digits d.api.essence.hash 32 0)

-- flow_main_menu.c: the text for the switch.
unfoldable pub cb_settings_preinit : Device → List ℕ
cb_settings_preinit d = if nv_get_blindsigning d == 0 then codes "disabled" else codes "enabled"
