-- ===== src/Api/Buffer/Blocks.antt =====
-- Blocks of the data buffer: `api_write_data_block` and `api_read_data_block` of src/api.c.
use ledger_iota_app.Prelude.{
  ℕ, zero, suc, ◌+◌, ◌*◌, ◌≤◌, ◌<◌, ◌≡◌, ◌⊎◌, inl, inr, refl, sym, ap, List, [], ◌∷◌, ◌++◌, arith,
  length, take, drop, slice, blit, length-take,
}
use ledger_iota_app.Exec.{ok, thrown}
use ledger_iota_app.Constants.{
  Build, Target, data_block_size, data_block_count, api_buffer_size_bytes, target_nanos,
  target_nanox, target_nanos2,
}
use ledger_iota_app.Types.{empty}
use ledger_iota_app.Sdk.{Sdk}
use ledger_iota_app.Device.{Device, io_send}
use ledger_iota_app.Api.Core.{answered}
use ledger_iota_app.Api.Buffer.{api_write_data_block}

-- Every block lies within the buffer.
pub block_fits :
    (t : Target) (n : ℕ)
    → n < data_block_count t
    → n * data_block_size + data_block_size ≤ api_buffer_size_bytes t
block_fits target_nanos n h = omega arith
block_fits target_nanox n h = omega arith
block_fits target_nanos2 n h = omega arith

drop-append : {A : Type 0} (xs ys : List A) (n : ℕ) → length xs ≡ n → drop n (xs ++ ys) ≡ ys
drop-append [] ys zero h = refl
drop-append [] ys (suc n) h = cc
drop-append (x ∷ xs) ys zero h = cc
drop-append (x ∷ xs) ys (suc n) h = drop-append xs ys n (omega (arith, h))

take-append : {A : Type 0} (xs ys : List A) (n : ℕ) → length xs ≡ n → take n (xs ++ ys) ≡ xs
take-append [] [] zero h = refl
take-append [] (y ∷ ys) zero h = refl
take-append [] ys (suc n) h = cc
take-append (x ∷ xs) ys zero h = cc
take-append (x ∷ xs) ys (suc n) h = ap (λ zs. x ∷ zs) (take-append xs ys n (omega (arith, h)))

drop-append_two :
    {A : Type 0} (xs ys zs : List A) (n : ℕ)
    → length xs + length ys ≡ n
    → drop n (xs ++ (ys ++ zs)) ≡ zs
drop-append_two [] ys zs n h = drop-append ys zs n (omega (arith, h))
drop-append_two (x ∷ xs) ys zs zero h = let no' : ⊥ = omega (arith, h) in elim no' [ ]
drop-append_two (x ∷ xs) ys zs (suc n) h = drop-append_two xs ys zs n (omega (arith, h))

slice-blit :
    (off : ℕ) (src bytes : List ℕ)
    → off + length src ≤ length bytes
    → slice off (length src) (blit off src bytes) ≡ src
unfolding slice blit
slice-blit off src bytes h =
    let len : length (take off bytes) ≡ off = omega (arith, length-take off bytes) in
    rw (drop-append (take off bytes) (src ++ drop (off + length src) bytes) off len)
      (take-append src (drop (off + length src) bytes) (length src) refl)

-- What lies before the place written to, and behind it, is as it was.
around_blit :
    (off : ℕ) (src bytes : List ℕ)
    → off + length src ≤ length bytes
    → (take off (blit off src bytes) ≡ take off bytes)
      × (drop (off + length src) (blit off src bytes) ≡ drop (off + length src) bytes)
unfolding blit
around_blit off src bytes h =
    let len : length (take off bytes) ≡ off = omega (arith, length-take off bytes) in
    (
      take-append (take off bytes) _ off len,
      drop-append_two (take off bytes) src _ (off + length src) (omega (arith, len)),
    )

-- A write of `n` bytes, in one statement.
written :
    (off n : ℕ) (src bytes : List ℕ)
    → length src ≡ n
    → off + n ≤ length bytes
    → (slice off n (blit off src bytes) ≡ src)
      × (take off (blit off src bytes) ≡ take off bytes)
      × (drop (off + n) (blit off src bytes) ≡ drop (off + n) bytes)
written off n src bytes e h =
    let h' : off + length src ≤ length bytes = omega (arith, e, h) in
    rw (sym e) (
      slice-blit off src bytes h',
      (around_blit off src bytes h').0,
      (around_blit off src bytes h').1,
    )

-- A block may be written to an empty buffer, whole and in range.
abbrev pub MayWrite : Build → Device → ℕ → List ℕ → Type 0
MayWrite b d n bytes =
    (d.api.api_data.type ≡ empty)
    × (length bytes ≡ data_block_size)
    × (n < data_block_count b.target)

module _ (b : Build) (sdk : Sdk) (n : ℕ) (bytes : List ℕ) (d : Device) where
  write_outcome :
      2 ≤ sdk.io_apdu_buffer_size
      → let (r, d') = api_write_data_block b sdk n bytes d in
        (MayWrite b d n bytes
          × (r ≡ ok answered)
          × (d'.api.api_data.buffer ≡ blit (n * data_block_size) bytes d.api.api_data.buffer))
        ⊎ (¬ (MayWrite b d n bytes) × ((e : ℕ) × (r ≡ thrown e)) × (d' ≡ d))
  unfolding api_write_data_block io_send
  write_outcome room = ground arith

  -- With room for a status word and a buffer of the full size, the command writes exactly if the buffer is free, the block is whole and its number in range:
  -- then the block can be read back at its place, and the buffer before and behind it is as it was.
  -- Otherwise it throws and changes nothing.
  pub write_data_block_lem :
      2 ≤ sdk.io_apdu_buffer_size
      → length d.api.api_data.buffer ≡ api_buffer_size_bytes b.target
      → let off = n * data_block_size in
        let buffer = d.api.api_data.buffer in
        let (r, d') = api_write_data_block b sdk n bytes d in
        (MayWrite b d n bytes
          × (r ≡ ok answered)
          × ((slice off data_block_size d'.api.api_data.buffer ≡ bytes)
              × (take off d'.api.api_data.buffer ≡ take off buffer)
              × (drop (off + data_block_size) d'.api.api_data.buffer
                  ≡ drop (off + data_block_size) buffer)))
        ⊎ (¬ (MayWrite b d n bytes) × ((e : ℕ) × (r ≡ thrown e)) × (d' ≡ d))
  write_data_block_lem room full = elim (write_outcome room) [
    | inl (may, e, buffer) ↦
        let at_block =
          written (n * data_block_size) data_block_size bytes d.api.api_data.buffer may.1
            (omega (arith, full, block_fits b.target n may.2)) in
        inl (may, e, rw buffer at_block)
    | inr refused ↦ inr refused
  ]
