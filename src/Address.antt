-- ===== src/Address.antt =====
-- src/iota/ed25519.c and src/iota/address.c.
use ledger_iota_app.Prelude.{
  ℕ, zero, suc, ◌+◌, ◌-◌, Option, none, some, List, [], ◌∷◌, get_or, set, test_bit, if◌then◌else◌,
  ltb,
}
use Prim.Native.Nat.{bit_or}
use ledger_iota_app.Constants.{pubkey_size_bytes, address_type_ed25519, address_size_bech32_max}
use ledger_iota_app.Sdk.{Sdk}
use ledger_iota_app.Bech32.{Bech32}

-- The loop `output[i] = raw_pubkey[64 - i]` from `i`, with `left` rounds to go.
unfoldable pub reversed_pubkey : List ℕ → ℕ → ℕ → List ℕ
reversed_pubkey raw zero i = []
reversed_pubkey raw (suc left) i = get_or raw (64 - i) 0 ∷ reversed_pubkey raw left (i + 1)

unfoldable pub ed25519_public_key_to_bytes : List ℕ → List ℕ
unfolding reversed_pubkey
ed25519_public_key_to_bytes raw =
    let output = reversed_pubkey raw pubkey_size_bytes 0 in
    if test_bit (get_or raw 32 0) 0
    then set output 31 (bit_or (get_or output 31 0) 0x80)
    else output

-- The address behind its type byte; `none` is a return value of 0.
unfoldable pub address_generate : Sdk → List ℕ → Option (List ℕ)
address_generate sdk bip32_path = elim (sdk.get_pubkey bip32_path) [
  | none ↦ none
  | some raw ↦ elim (sdk.blake2b (ed25519_public_key_to_bytes raw)) [
    | none ↦ none
    | some hash ↦ some (address_type_ed25519 ∷ hash)
  ]
]

-- The bytes of an address with its type, as a text; `none` is a return value of 0.
unfoldable pub address_encode_bech32_hrp : Bech32 → List ℕ → ℕ → List ℕ → Option (List ℕ)
address_encode_bech32_hrp bech32 addr_with_type bech32_max_length hrp =
    if ltb bech32_max_length (address_size_bech32_max + 1)
    then none
    else elim (bech32.base32_encode addr_with_type) [
      | none ↦ none
      | some base32 ↦ bech32.bech32_encode bech32_max_length hrp base32
    ]
