-- ===== src/Essence/Records.antt =====
-- What the loops of the validator ask of the structures, stated over lists of them.
use ledger_iota_app.Prelude.{
  ℕ, ◌+◌, ◌^◌, ◌<◌, ◌≡◌, ◌⊎◌, inl, inr, refl, ap, ◌∙◌, none, some, List, [], ◌∷◌, arith, All, slice,
  AreBytes, AreBytes-slice, length-slice_le, zero, suc, le-lt_eight, test_bit, true,
}
use ledger_iota_app.Types.{
  read_utxo_input, read_basic_output, read_bip32_index, sizeof_basic_output, offset_amount,
}
use ledger_iota_app.Reader.{over, records}
use ledger_iota_app.Essence.{check_input, check_output, check_bip32_index}

-- An input that the app accepts: of type UTXO, with an output index below 128.
abbrev pub IsInput : List ℕ → Type 0
IsInput r = ((read_utxo_input r).input_type ≡ 0) × ((read_utxo_input r).transaction_output_id < 128)

-- A basic output of a positive amount, with no native token, no block and one address unlock
-- condition for an Ed25519 address.
abbrev pub IsOutput : List ℕ → Type 0
IsOutput r =
    ((read_basic_output r).output_type ≡ 3)
    × (0 < (read_basic_output r).amount)
    × ((read_basic_output r).native_tokens_count ≡ 0)
    × ((read_basic_output r).unlock_conditions_count ≡ 1)
    × ((read_basic_output r).unlock_condition_type ≡ 0)
    × ((read_basic_output r).address_type ≡ 0)
    × ((read_basic_output r).blocks_count ≡ 0)

-- Both words have their top bit set.
abbrev pub IsHardened : List ℕ → Type 0
IsHardened r =
    (test_bit (read_bip32_index r).bip32_index 31 ≡ true)
    × (test_bit (read_bip32_index r).bip32_change 31 ≡ true)

abbrev pub amount_of : List ℕ → ℕ
amount_of r = (read_basic_output r).amount

-- The sum of the amounts, as a number without bound.
abbrev pub total_of : List (List ℕ) → ℕ
total_of [] = 0
total_of (r ∷ rs) = amount_of r + total_of rs

pub over_inputs :
    (rs : List (List ℕ))
    → ((over check_input tt rs ≡ some tt) × All IsInput rs)
      ⊎ ((over check_input tt rs ≡ none) × ¬ (All IsInput rs))
unfolding over check_input
over_inputs [] = inl (refl, tt)
over_inputs (r ∷ rs) = ground (arith, over_inputs rs)

pub over_bip32 :
    (rs : List (List ℕ))
    → ((over check_bip32_index tt rs ≡ some tt) × All IsHardened rs)
      ⊎ ((over check_bip32_index tt rs ≡ none) × ¬ (All IsHardened rs))
unfolding over check_bip32_index
over_bip32 [] = inl (refl, tt)
over_bip32 (r ∷ rs) = ground (arith, over_bip32 rs)

-- The outputs that the loop accepts from a running total, whose sum does not overflow.
abbrev pub AreOutputs : ℕ → List (List ℕ) → Type 0
AreOutputs total rs = All IsOutput rs × (total + total_of rs < 2 ^ 64)

abbrev pub FitsAmount : List ℕ → Type 0
FitsAmount r = amount_of r < 2 ^ 64

-- One output: the wrapped sum is compared with the amount, which tells whether it wrapped.
check_output_decided :
    (total : ℕ) (r : List ℕ)
    → total < 2 ^ 64
    → FitsAmount r
    → ((check_output total r ≡ some (total + amount_of r))
        × IsOutput r
        × (total + amount_of r < 2 ^ 64))
      ⊎ ((check_output total r ≡ none) × (IsOutput r → total + amount_of r < 2 ^ 64 → ⊥))
unfolding check_output
check_output_decided total r h f = ground arith

pub over_outputs :
    (total : ℕ) (rs : List (List ℕ))
    → total < 2 ^ 64
    → All FitsAmount rs
    → ((over check_output total rs ≡ some (total + total_of rs)) × AreOutputs total rs)
      ⊎ ((over check_output total rs ≡ none) × ¬ (AreOutputs total rs))
unfolding over
over_outputs total [] h f = inl (ground arith, (tt, omega arith))
over_outputs total (r ∷ rs) h f = elim (check_output_decided total r h f.0) [
  | inl (e, one, small) ↦
      let sum : total + amount_of r + total_of rs ≡ total + (amount_of r + total_of rs) =
        omega arith in
      elim (over_outputs (total + amount_of r) rs small f.1) [
        | inl (e', both) ↦
            inl (rw (e, over) (e' ∙ ap some sum), ((one, both.0), omega (arith, both.1)))
        | inr (e', bad) ↦ inr (rw (e, over) e', λ all. bad (all.0.1, omega (arith, all.1)))
      ]
  | inr (e, bad) ↦ inr (rw (e, over), λ all. bad all.0.0 (omega (arith, all.1)))
]

FitsAmount-of_bytes : (r : List ℕ) → AreBytes r → FitsAmount r
unfolding read_basic_output
FitsAmount-of_bytes r h =
    le-lt_eight (slice offset_amount 8 r) (AreBytes-slice offset_amount 8 r h)
      (length-slice_le offset_amount 8 r)

-- Any structure cut out of a byte array has an amount of 64 bits.
pub All-FitsAmount :
    (bytes : List ℕ) (idx n : ℕ)
    → AreBytes bytes
    → All FitsAmount (records bytes sizeof_basic_output idx n)
unfolding records read_basic_output
All-FitsAmount bytes idx zero h = tt
All-FitsAmount bytes idx (suc n) h = (
  FitsAmount-of_bytes _ (AreBytes-slice idx sizeof_basic_output bytes h),
  All-FitsAmount bytes (idx + sizeof_basic_output) n h,
)
