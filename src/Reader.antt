-- ===== src/Reader.antt =====
-- Reading the data buffer: the getters of src/iota/essence_stardust.c, and the shape that its loops
-- over packed structures share.
pub mod Laws
use ledger_iota_app.Prelude.{
  ℕ, zero, suc, ◌+◌, ◌*◌, ◌%◌, ◌^◌, Option, none, some, List, [], ◌∷◌, u32, le, slice, length, ltb,
  leb, if◌then◌else◌,
}
use ledger_iota_app.Exec.{Result, ok, fail, fault, ◌⟫◌}
use ledger_iota_app.Constants.{Target, api_buffer_size_bytes}

-- A copy of `n` bytes out of an array.
unfoldable pub read : List ℕ → ℕ → ℕ → Result (List ℕ)
read bytes off n = if leb (off + n) (length bytes) then ok (slice off n bytes) else fault

-- What a pointer points at; NULL may not be followed.
abbrev pub deref : Option ℕ → Result ℕ
deref none = fault
deref (some off) = ok off

module _ (t : Target) (bytes : List ℕ) where
  -- The value read, and the index behind it.
  unfoldable pub get_uint32 : ℕ → Result (ℕ × ℕ)
  get_uint32 idx =
      if ltb (u32 (idx + 4)) (api_buffer_size_bytes t)
      then read bytes idx 4 ⟫ (λ r. ok (le r, u32 (idx + 4)))
      else fail

  unfoldable pub get_uint16 : ℕ → Result (ℕ × ℕ)
  get_uint16 idx =
      if ltb (u32 (idx + 2)) (api_buffer_size_bytes t)
      then read bytes idx 2 ⟫ (λ r. ok (le r, u32 (idx + 2)))
      else fail

  unfoldable pub get_uint8 : ℕ → Result (ℕ × ℕ)
  get_uint8 idx =
      if ltb (u32 (idx + 1)) (api_buffer_size_bytes t)
      then read bytes idx 1 ⟫ (λ r. ok (le r, u32 (idx + 1)))
      else fail

-- `for (i = 0; i < n; i++) { MUST(*idx + size < API_BUFFER_SIZE_BYTES); memcpy(&tmp, &data[*idx],
-- size); body; *idx = *idx + size; }`, where the body may carry a value along and may return 0.
module _ {A : Type 0} (t : Target) (bytes : List ℕ) (size : ℕ) (body : A → List ℕ → Option A) where
  unfoldable pub scan : ℕ → ℕ → A → Result (ℕ × A)
  scan zero idx a = ok (idx, a)
  scan (suc n) idx a =
      if ltb (u32 (idx + size)) (api_buffer_size_bytes t)
      then read bytes idx size
        ⟫ (λ r. elim (body a r) [ none ↦ fail | some a' ↦ scan n (u32 (idx + size)) a' ])
      else fail

-- The `n` structures that stand one behind the other from an index.
unfoldable pub records : List ℕ → ℕ → ℕ → ℕ → List (List ℕ)
records bytes size idx zero = []
records bytes size idx (suc n) = slice idx size bytes ∷ records bytes size (idx + size) n

-- The body over a list of structures.
unfoldable pub over {ℓ} : {A : Type ℓ} → (A → List ℕ → Option A) → A → List (List ℕ) → Option A
over body a [] = some a
over body a (r ∷ rs) = elim (body a r) [ none ↦ none | some a' ↦ over body a' rs ]
