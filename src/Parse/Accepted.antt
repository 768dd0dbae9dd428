-- ===== src/Parse/Accepted.antt =====
-- The checks on an essence that was read: the remainder, the duplicates and the hash
-- (src/iota/essence_stardust.c).
use ledger_iota_app.Prelude.{
  ℕ, ◌+◌, ◌*◌, ◌≤◌, ◌<◌, ◌≡◌, ◌≢◌, ◌⊎◌, inl, inr, refl, true, none, some, List, arith, length,
  slice, test_bit, same_bytes, same_bytes→≡, same_bytes_refl, Option-cases,
}
use ledger_iota_app.Exec.{Result, ok, fail}
use ledger_iota_app.Constants.{address_with_type_size_bytes}
use ledger_iota_app.Types.{
  ApiCtx, sizeof_utxo_input, sizeof_basic_output, sizeof_bip32_index, offset_address_type,
}
use ledger_iota_app.Sdk.{Sdk}
use ledger_iota_app.Reader.{read, records}
use ledger_iota_app.Reader.Laws.{read_in_range}
use ledger_iota_app.Address.{address_generate}
use ledger_iota_app.InternalTransfer.{at_index}
use ledger_iota_app.InternalTransfer.Ownership.{internal_transfer-Answers}
use ledger_iota_app.Constants.AppMode
use ledger_iota_app.Essence.Duplicates.{Distinct, validate_inputs_duplicates_lem}
use ledger_iota_app.Parse.{
  essence_verify_remainder_address, essence_hash, check_and_hash, tell_internal_transfer,
}

-- The address of the output at the index of the remainder.
abbrev pub remainder_address : ApiCtx → ℕ → List ℕ
remainder_address c outputs =
    slice (outputs + sizeof_basic_output * c.essence.remainder_index + offset_address_type)
      address_with_type_size_bytes c.api_data.buffer

-- The remainder is one of the outputs, its path ends in two hardened places, and it pays to the
-- device's own address at that path.
abbrev pub IsOwn : Sdk → ApiCtx → ℕ → Type 0
IsOwn sdk c outputs =
    (c.essence.remainder_index < c.essence.outputs_count)
    × (test_bit c.essence.remainder_bip32.bip32_change 31 ≡ true)
    × (test_bit c.essence.remainder_bip32.bip32_index 31 ≡ true)
    × (address_generate sdk (at_index c.bip32_path c.essence.remainder_bip32)
        ≡ some (remainder_address c outputs))

-- The path is left at the remainder.
abbrev pub at_remainder : ApiCtx → ApiCtx
at_remainder c = record c { bip32_path = at_index c.bip32_path c.essence.remainder_bip32 }

module _ (sdk : Sdk) (c : ApiCtx) (outputs : ℕ) where
  -- If the outputs lie in the buffer, the check of the remainder returns 1, with the path left at the
  -- remainder, exactly if the remainder is the device's own, and 0 otherwise.
  pub remainder_lem :
      c.essence.outputs ≡ some outputs
      → outputs + sizeof_basic_output * c.essence.outputs_count ≤ length c.api_data.buffer
      → ((essence_verify_remainder_address sdk c ≡ (ok tt, at_remainder c)) × IsOwn sdk c outputs)
        ⊎ (((essence_verify_remainder_address sdk c).0 ≡ fail) × ¬ (IsOwn sdk c outputs))
  unfolding essence_verify_remainder_address
  remainder_lem at fits =
      let in_range : c.essence.remainder_index < c.essence.outputs_count
          → read c.api_data.buffer
              (outputs + sizeof_basic_output * c.essence.remainder_index + offset_address_type)
              address_with_type_size_bytes
            ≡ ok (remainder_address c outputs) =
        λ h. read_in_range _ _ _ (omega (arith, h, fits)) in
      elim (Option-cases (address_generate sdk (at_index c.bip32_path c.essence.remainder_bip32))) [
        | inl e ↦ ground arith
        | inr (tmp, e) ↦
            let same : same_bytes (remainder_address c outputs) tmp ≡ true
                → remainder_address c outputs ≡ tmp =
              same_bytes→≡ _ _ in
            let refl' : same_bytes tmp tmp ≡ true = same_bytes_refl tmp in ground arith
      ]

-- The hash of the essence bytes.
abbrev pub IsHashed : Sdk → ApiCtx → List ℕ → Type 0
IsHashed sdk c hash = sdk.blake2b (slice 0 c.essence.length c.api_data.buffer) ≡ some hash

module _ (sdk : Sdk) (c : ApiCtx) where
  pub hash_lem :
      c.essence.length ≤ length c.api_data.buffer
      → ((hash : List ℕ) × IsHashed sdk c hash
          × (essence_hash sdk c ≡ (ok tt, record c { essence = record c.essence { hash = hash } })))
        ⊎ (((essence_hash sdk c).0 ≡ fail)
            × (sdk.blake2b (slice 0 c.essence.length c.api_data.buffer) ≡ none))
  unfolding essence_hash
  hash_lem fits =
      rw (read_in_range c.api_data.buffer 0 c.essence.length (omega (arith, fits)))
        (elim (Option-cases (sdk.blake2b (slice 0 c.essence.length c.api_data.buffer))) [
          | inl e ↦ ground arith
          | inr (h, e) ↦ inl (h, e, rw e refl)
        ])

-- What the parser has found before the checks: the three pointers point into the buffer.
pub record Located (c : ApiCtx) (inputs outputs bip32 : ℕ) : Type 0 where
  pub stardust : c.protocol ≡ AppMode.protocol_stardust
  pub inputs_at : c.essence.inputs ≡ some inputs
  pub outputs_at : c.essence.outputs ≡ some outputs
  pub bip32_at : c.essence.inputs_bip32_index ≡ some bip32
  pub inputs_fit : inputs + sizeof_utxo_input * c.essence.inputs_count ≤ length c.api_data.buffer
  pub outputs_fit :
      outputs + sizeof_basic_output * c.essence.outputs_count ≤ length c.api_data.buffer
  pub bip32_fit : bip32 + sizeof_bip32_index * c.essence.inputs_count ≤ length c.api_data.buffer
  pub essence_fits : c.essence.length ≤ length c.api_data.buffer

module _ (sdk : Sdk) (inputs outputs bip32 : ℕ) where
  -- The inputs differ, and the hash function gives a hash of the essence.
  abbrev pub Sound : ApiCtx → Type 0
  Sound c =
      Distinct (records c.api_data.buffer sizeof_utxo_input inputs c.essence.inputs_count)
      × (sdk.blake2b (slice 0 c.essence.length c.api_data.buffer) ≢ none)

  tell_lem :
      (c : ApiCtx)
      → Located c inputs outputs bip32
      → ((tell_internal_transfer sdk c).0 ≡ ok tt)
        × ((tell_internal_transfer sdk c).1.essence.hash ≡ c.essence.hash)
  unfolding tell_internal_transfer
  tell_lem c l =
      let answers =
        internal_transfer-Answers sdk c outputs bip32 l.stardust l.outputs_at l.bip32_at
          l.outputs_fit l.bip32_fit in
      ground arith

  -- The outcome of the checks: 1 with the hash stored, or 0.
  abbrev pub Checked : Type 0 → ApiCtx → Result (Unit {0}) × ApiCtx → Type 0
  Checked P c o = ((o.0 ≡ ok tt) × P × IsHashed sdk c o.1.essence.hash) ⊎ ((o.0 ≡ fail) × ¬ P)

  pub check_and_hash_lem :
      (c : ApiCtx) → Located c inputs outputs bip32 → Checked (Sound c) c (check_and_hash sdk c)
  unfolding check_and_hash
  check_and_hash_lem c l =
      let distinct =
        validate_inputs_duplicates_lem c.api_data.buffer inputs c.essence.inputs_count
          l.inputs_fit in
      let hashed = hash_lem sdk c l.essence_fits in grind (arith, tell_lem)
