-- ===== src/Essence/Duplicates.antt =====
-- `validate_inputs_duplicates` (src/iota/essence_stardust.c): its two nested loops against the list
-- of the inputs.
use ledger_iota_app.Prelude.{
  ℕ, zero, suc, ◌+◌, ◌*◌, ◌≤◌, ◌<◌, ◌≡◌, ◌≢◌, ◌⊎◌, inl, inr, refl, some, List, [], ◌∷◌, arith, All,
  length, slice, same_bytes, same_bytes→≡, same_bytes_refl, Bool-cases, true, false, le→ltb,
}
use ledger_iota_app.Exec.{Result, ok, fail}
use ledger_iota_app.Types.{sizeof_utxo_input}
use ledger_iota_app.Reader.{records}
use ledger_iota_app.Reader.Laws.{read_in_range}
use ledger_iota_app.Essence.{duplicates_of, duplicates_from, validate_inputs_duplicates}

-- No two elements are equal.
abbrev pub Distinct : List (List ℕ) → Type 0
Distinct [] = Unit
Distinct (x ∷ xs) = All (λ y. x ≢ y) xs × Distinct xs

-- A check that returns 1 exactly when `P` holds, and 0 otherwise.
abbrev pub Decides : Type 0 → Result (Unit {0}) → Type 0
Decides P r = ((r ≡ ok tt) × P) ⊎ ((r ≡ fail) × ¬ P)

pub differ→≢ : (xs ys : List ℕ) → same_bytes xs ys ≡ false → xs ≢ ys
differ→≢ xs ys h e = let same : same_bytes xs ys ≡ true = rw e (same_bytes_refl ys) in cc

module _ (bytes : List ℕ) (inputs : ℕ) where
  abbrev input_at : ℕ → List ℕ
  input_at i = slice (inputs + sizeof_utxo_input * i) sizeof_utxo_input bytes

  abbrev inputs_from : ℕ → ℕ → List (List ℕ)
  inputs_from i n = records bytes sizeof_utxo_input (inputs + sizeof_utxo_input * i) n

  inputs_from-suc : (i n : ℕ) → inputs_from i (suc n) ≡ input_at i ∷ inputs_from (i + 1) n
  unfolding records
  inputs_from-suc i n =
      let e : inputs + sizeof_utxo_input * i + sizeof_utxo_input
          ≡ inputs + sizeof_utxo_input * (i + 1) =
        omega arith in
      rw e

  inputs_from-zero : (i : ℕ) → inputs_from i zero ≡ []
  unfolding records
  inputs_from-zero i = refl

  duplicates_of_step :
      (i left j : ℕ)
      → inputs + sizeof_utxo_input * i + sizeof_utxo_input ≤ length bytes
      → inputs + sizeof_utxo_input * j + sizeof_utxo_input ≤ length bytes
      → Decides
          (All (λ y. input_at i ≢ y) (inputs_from (j + 1) left))
          (duplicates_of bytes inputs i left (j + 1))
      → Decides
          (All (λ y. input_at i ≢ y) (input_at j ∷ inputs_from (j + 1) left))
          (duplicates_of bytes inputs i (suc left) j)
  unfolding duplicates_of
  duplicates_of_step i left j hi hj ih =
      rw
        (
          read_in_range bytes (inputs + sizeof_utxo_input * i) sizeof_utxo_input hi,
          read_in_range bytes (inputs + sizeof_utxo_input * j) sizeof_utxo_input hj,
        )
        (elim (Bool-cases (same_bytes (input_at i) (input_at j))) [
          | inl same ↦ rw same (inr (refl, λ all. all.0 (same_bytes→≡ _ _ same)))
          | inr differ ↦ rw differ (elim ih [
            | inl (e, all) ↦ inl (e, (differ→≢ _ _ differ, all))
            | inr (e, bad) ↦ inr (e, λ all. bad all.1)
          ])
        ])

  duplicates_of_lem :
      (i left j : ℕ)
      → i < j
      → inputs + sizeof_utxo_input * (j + left) ≤ length bytes
      → Decides
          (All (λ y. input_at i ≢ y) (inputs_from j left))
          (duplicates_of bytes inputs i left j)
  unfolding duplicates_of
  duplicates_of_lem i zero j h fits = rw (inputs_from-zero j) (inl (refl, tt))
  duplicates_of_lem i (suc left) j h fits = rw (inputs_from-suc j left) (
      duplicates_of_step i left j (omega arith) (omega arith)
        (duplicates_of_lem i left (j + 1) (omega arith) (omega arith)))

  duplicates_from_lem :
      (left i : ℕ)
      → inputs + sizeof_utxo_input * (i + left) ≤ length bytes
      → Decides (Distinct (inputs_from i left)) (duplicates_from bytes inputs left i)
  unfolding duplicates_from
  duplicates_from_lem zero i fits = rw (inputs_from-zero i) (inl (refl, tt))
  duplicates_from_lem (suc left) i fits =
      rw (inputs_from-suc i left)
        (elim (duplicates_of_lem i left (i + 1) (omega arith) (omega arith)) [
          | inl (e, all) ↦ rw e (elim (duplicates_from_lem left (i + 1) (omega arith)) [
            | inl (e', rest) ↦ inl (e', (all, rest))
            | inr (e', bad) ↦ inr (e', λ d. bad d.1)
          ])
          | inr (e, bad) ↦ rw e (inr (refl, λ d. bad d.0))
        ])

duplicates_of_several :
    (bytes : List ℕ) (inputs n : ℕ)
    → inputs + sizeof_utxo_input * suc (suc n) ≤ length bytes
    → Decides
        (Distinct (records bytes sizeof_utxo_input inputs (suc (suc n))))
        (validate_inputs_duplicates bytes (some inputs) (suc (suc n)))
unfolding validate_inputs_duplicates
duplicates_of_several bytes inputs n fits =
    let start : inputs + sizeof_utxo_input * 0 ≡ inputs = omega arith in
    rw (le→ltb (suc (suc n)) 2 (omega arith))
      (rw start at (duplicates_from_lem bytes inputs (suc (suc n)) 0 (omega arith)))

-- With the inputs in the buffer, `validate_inputs_duplicates` returns 1 exactly when no two of the inputs are byte for byte equal,
-- and 0 otherwise; it never reads outside the buffer.
pub validate_inputs_duplicates_lem :
    (bytes : List ℕ) (inputs n : ℕ)
    → inputs + sizeof_utxo_input * n ≤ length bytes
    → Decides
        (Distinct (records bytes sizeof_utxo_input inputs n))
        (validate_inputs_duplicates bytes (some inputs) n)
unfolding records validate_inputs_duplicates
validate_inputs_duplicates_lem bytes inputs zero fits = inl (refl, tt)
validate_inputs_duplicates_lem bytes inputs (suc zero) fits = inl (refl, (tt, tt))
validate_inputs_duplicates_lem bytes inputs (suc (suc n)) fits =
    duplicates_of_several bytes inputs n fits
