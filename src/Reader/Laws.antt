-- ===== src/Reader/Laws.antt =====
-- The getters and the loops over structures, in closed form: what they return, and that no read
-- leaves the buffer.
use ledger_iota_app.Prelude.{
  ◌⊎◌, ℕ, zero, suc, ◌+◌, ◌*◌, ◌^◌, ◌≤◌, ◌<◌, ◌≡◌, refl, Option, none, some, Bool, true, false,
  List, u32, le, slice, length, ltb, if◌then◌else◌, arith, le→leb, ltb→lt, ltb→le, lt→ltb, le→ltb,
  Bool-cases, Option-cases, inl, inr,
}
use ledger_iota_app.Exec.{Result, ok, fail, ◌⟫◌}
use ledger_iota_app.Exec.Laws.{Yields}
use ledger_iota_app.Constants.{Target, api_buffer_size_bytes, api_buffer_size_bytes_bounds}
use ledger_iota_app.Reader.{read, get_uint32, get_uint16, get_uint8, scan, records, over}

pub read_in_range :
    (bytes : List ℕ) (off n : ℕ)
    → off + n ≤ length bytes
    → read bytes off n ≡ ok (slice off n bytes)
unfolding read
read_in_range bytes off n h = rw (le→leb _ _ h)

-- A value behind a test.
pub Yields-guard :
    {A : Type 0} (c : Bool) (a : A) (P : Type 0)
    → (c ≡ true → P)
    → (P → c ≡ true)
    → Yields P a (if c then ok a else fail)
Yields-guard true a P f g = inl (refl, f refl)
Yields-guard false a P f g = inr (refl, λ p. let no' = g p in cc)

-- The same where the value is the one meant only if the test passes.
pub Yields-guarded :
    {A : Type 0} (c : Bool) (a a' : A) (P : Type 0)
    → (c ≡ true → P)
    → (P → c ≡ true)
    → (P → a' ≡ a)
    → Yields P a (if c then ok a' else fail)
Yields-guarded true a a' P f g e = rw (e (f refl)) (inl (refl, f refl))
Yields-guarded false a a' P f g e = inr (refl, λ p. let no' = g p in cc)

-- The common step: the addition does not wrap, and the read that follows the test is in range.
module _ (t : Target) (bytes : List ℕ) (full : length bytes ≡ api_buffer_size_bytes t) where
  guarded_read :
      {A : Type 0} (idx n : ℕ) (f : List ℕ → Result A)
      → idx < 2 ^ 16
      → n < 2 ^ 16
      → (if ltb (u32 (idx + n)) (api_buffer_size_bytes t) then read bytes idx n ⟫ f else fail)
        ≡ (if ltb (idx + n) (api_buffer_size_bytes t) then f (slice idx n bytes) else fail)
  guarded_read idx n f h k =
      let small : u32 (idx + n) ≡ idx + n = omega arith in
      rw small (elim (Bool-cases (ltb (idx + n) (api_buffer_size_bytes t))) [
        | inl e ↦ rw (
          e,
          read_in_range bytes idx n (omega (arith, ltb→lt (idx + n) (api_buffer_size_bytes t) e)),
        )
        | inr e ↦ rw e
      ])

  -- The getter succeeds exactly when the value ends before the last byte of the buffer.
  pub get_uint32_lem :
      (idx : ℕ)
      → idx < 2 ^ 16
      → Yields
          (idx + 4 < api_buffer_size_bytes t)
          (le (slice idx 4 bytes), idx + 4)
          (get_uint32 t bytes idx)
  unfolding get_uint32
  get_uint32_lem idx h =
      let small : u32 (idx + 4) ≡ idx + 4 = omega arith in
      rw (guarded_read {A = ℕ × ℕ} idx 4 (λ r. ok (le r, u32 (idx + 4))) h (omega arith), small)
        (Yields-guard (ltb (idx + 4) (api_buffer_size_bytes t)) _ _ (ltb→lt _ _) (lt→ltb _ _))

  -- The getter succeeds exactly when the value ends before the last byte of the buffer.
  pub get_uint16_lem :
      (idx : ℕ)
      → idx < 2 ^ 16
      → Yields
          (idx + 2 < api_buffer_size_bytes t)
          (le (slice idx 2 bytes), idx + 2)
          (get_uint16 t bytes idx)
  unfolding get_uint16
  get_uint16_lem idx h =
      let small : u32 (idx + 2) ≡ idx + 2 = omega arith in
      rw (guarded_read {A = ℕ × ℕ} idx 2 (λ r. ok (le r, u32 (idx + 2))) h (omega arith), small)
        (Yields-guard (ltb (idx + 2) (api_buffer_size_bytes t)) _ _ (ltb→lt _ _) (lt→ltb _ _))

  -- The getter succeeds exactly when the value ends before the last byte of the buffer.
  pub get_uint8_lem :
      (idx : ℕ)
      → idx < 2 ^ 16
      → Yields
          (idx + 1 < api_buffer_size_bytes t)
          (le (slice idx 1 bytes), idx + 1)
          (get_uint8 t bytes idx)
  unfolding get_uint8
  get_uint8_lem idx h =
      let small : u32 (idx + 1) ≡ idx + 1 = omega arith in
      rw (guarded_read {A = ℕ × ℕ} idx 1 (λ r. ok (le r, u32 (idx + 1))) h (omega arith), small)
        (Yields-guard (ltb (idx + 1) (api_buffer_size_bytes t)) _ _ (ltb→lt _ _) (lt→ltb _ _))

-- A loop over structures that ends at `end`: it succeeds exactly when they fit, and the body accepts
-- them in turn.
abbrev pub scanned : {A : Type 0} → ℕ → Option A → Bool → Result (ℕ × A)
scanned end o false = fail
scanned end none true = fail
scanned end (some a) true = ok (end, a)

scanned-none : {A : Type 0} (end : ℕ) (b : Bool) → scanned {A = A} end none b ≡ fail
scanned-none end true = refl
scanned-none end false = refl

module _ (t : Target) (bytes : List ℕ) (full : length bytes ≡ api_buffer_size_bytes t) {A : Type 0}
    (size : ℕ) (body : A → List ℕ → Option A) (small : size < 2 ^ 15) where
  abbrev fits : ℕ → Bool
  fits end = ltb end (api_buffer_size_bytes t)

  pub scan_lem :
      (n idx : ℕ) (a : A)
      → idx < api_buffer_size_bytes t
      → scan t bytes size body n idx a
        ≡ scanned (idx + size * n) (over body a (records bytes size idx n)) (fits (idx + size * n))
  unfolding scan over records
  scan_lem zero idx a h =
      let e : idx + size * zero ≡ idx = omega arith in
      rw (e, lt→ltb idx (api_buffer_size_bytes t) h)
  scan_lem (suc n) idx a h =
      let e : idx + size * suc n ≡ idx + size + size * n = omega arith in
      let whole : u32 (idx + size) ≡ idx + size = omega (arith, api_buffer_size_bytes_bounds t) in
      rw (e, whole)
        (elim (Bool-cases (fits (idx + size))) [
          | inl yes' ↦
              rw
                (
                  yes',
                  read_in_range bytes idx size
                      (omega (arith, ltb→lt (idx + size) (api_buffer_size_bytes t) yes')),
                )
                (elim (Option-cases (body a (slice idx size bytes))) [
                  | inl none' ↦ rw none' (rw (scanned-none))
                  | inr (a', some') ↦
                      rw (some', whole)
                        (scan_lem n (idx + size) a'
                          (ltb→lt (idx + size) (api_buffer_size_bytes t) yes'))
                ])
          | inr no' ↦ rw (
            no',
            le→ltb (idx + size + size * n) (api_buffer_size_bytes t)
                (omega (arith, ltb→le (idx + size) (api_buffer_size_bytes t) no')),
          )
        ])

  -- The loop over structures succeeds exactly when they fit and the body accepts them.
  pub scan-Yields :
      {P : Type 0} {a' : A} (n idx : ℕ) (a : A)
      → idx < api_buffer_size_bytes t
      → ((over body a (records bytes size idx n) ≡ some a') × P)
        ⊎ ((over body a (records bytes size idx n) ≡ none) × ¬ P)
      → Yields
          ((idx + size * n < api_buffer_size_bytes t) × P)
          (idx + size * n, a')
          (scan t bytes size body n idx a)
  scan-Yields {P = P} {a' = a'} n idx a h decided = rw (scan_lem n idx a h) (go decided)
    where
      go :
          ((over body a (records bytes size idx n) ≡ some a') × P)
            ⊎ ((over body a (records bytes size idx n) ≡ none) × ¬ P)
          → Yields
              ((idx + size * n < api_buffer_size_bytes t) × P)
              (idx + size * n, a')
              (scanned
                (idx + size * n)
                (over body a (records bytes size idx n))
                (fits (idx + size * n)))
      go (inr (e, bad)) = rw (e, scanned-none) (inr (refl, λ both. bad both.1))
      go (inl (e, p)) = rw e (elim (Bool-cases (fits (idx + size * n))) [
        | inl b ↦ rw b (inl (refl, (ltb→lt _ _ b, p)))
        | inr b ↦ rw b (inr (refl, λ both. absurd (omega (arith, both.0, ltb→le _ _ b))))
      ])
