-- ===== src/Signing/Reference.antt =====
-- The search for an earlier input with the same key: `sign_get_reference_index` of
-- src/iota/signing.c.
use ledger_iota_app.Prelude.{
  sym, ℕ, zero, suc, ◌+◌, ◌*◌, ◌≤◌, ◌<◌, ◌≡◌, ◌≢◌, ◌⊎◌, inl, inr, refl, List, arith, length, slice,
  same_bytes, same_bytes→≡, Bool-cases,
}
use ledger_iota_app.Exec.{Result, ok}
use ledger_iota_app.Essence.Duplicates.{differ→≢}
use ledger_iota_app.Types.{sizeof_bip32_index}
use ledger_iota_app.Reader.Laws.{read_in_range}
use ledger_iota_app.Signing.{find_reference, no_reference}

eq_or_above : (i j : ℕ) → i ≤ j → (i ≡ j) ⊎ (i + 1 ≤ j)
eq_or_above i j l = ground arith

-- The BIP32 indices of an input.
abbrev pub indices_of : List ℕ → ℕ → ℕ → List ℕ
indices_of bytes inputs i = slice (inputs + sizeof_bip32_index * i) sizeof_bip32_index bytes

module _ (bytes : List ℕ) (inputs signature_index : ℕ) where
  abbrev indices_at : ℕ → List ℕ
  indices_at = indices_of bytes inputs

  -- The first input from `i` on with the same indices.
  abbrev pub IsFirstFrom : ℕ → ℕ → Type 0
  IsFirstFrom i k =
      (i ≤ k)
      × (k < signature_index)
      × (indices_at signature_index ≡ indices_at k)
      × ((j : ℕ) → i ≤ j → j < k → indices_at signature_index ≢ indices_at j)

  abbrev pub Found : ℕ → ℕ → Result ℕ → Type 0
  Found i left r =
      ((k : ℕ) × (r ≡ ok k) × IsFirstFrom i k)
      ⊎ ((r ≡ ok no_reference)
          × ((j : ℕ) → i ≤ j → j < signature_index → indices_at signature_index ≢ indices_at j))

  abbrev Differs : ℕ → Type 0
  Differs j = indices_at signature_index ≢ indices_at j

  Differs-from : (i j : ℕ) → Differs i → i ≤ j → (i + 1 ≤ j → Differs j) → Differs j
  Differs-from i j n l f = elim (eq_or_above i j l) [ inl e ↦ rw (sym e) n | inr h ↦ f h ]

  -- One place further on, if `i` is none of those looked for.
  after : (i left : ℕ) {r : Result ℕ} → Differs i → Found (i + 1) left r → Found i (suc left) r
  after i left n (inl (k, e, first)) = inl (
    k,
    e,
    (omega (arith, first.0), first.1, first.2, λ j l h. Differs-from i j n l (λ m. first.3 j m h)),
  )
  after i left n (inr (e, all)) = inr (e, λ j l h. Differs-from i j n l (λ m. all j m h))

  -- The search from `i` up to an index below 128, whose BIP32 indices lie in the buffer, returns the
  -- first place with the same BIP32 indices, or 0xff if there is none.
  pub find_reference_lem :
      (left i : ℕ)
      → i + left ≡ signature_index
      → signature_index < 128
      → inputs + sizeof_bip32_index * (signature_index + 1) ≤ length bytes
      → Found i left (find_reference bytes inputs signature_index left i)
  unfolding find_reference
  find_reference_lem zero i e small fits = inr (refl, λ j l h. ground arith)
  find_reference_lem (suc left) i e small fits =
      rw
        (
          read_in_range bytes (inputs + sizeof_bip32_index * signature_index) sizeof_bip32_index
              (omega arith),
          read_in_range bytes (inputs + sizeof_bip32_index * i) sizeof_bip32_index (omega arith),
        )
        (elim (Bool-cases (same_bytes (indices_at signature_index) (indices_at i))) [
          | inl same ↦ rw same (
              inl (
                i,
                ground arith,
                (omega arith, omega arith, same_bytes→≡ _ _ same, λ j l h. ground arith),
              ))
          | inr differ ↦ rw differ (
              after i left (differ→≢ _ _ differ)
                (find_reference_lem left (i + 1) (omega arith) small fits))
        ])
