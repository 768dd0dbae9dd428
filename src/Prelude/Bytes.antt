-- ===== src/Prelude/Bytes.antt =====
-- Machine words and byte arrays: a byte is a number, an array a list, and a word its unsigned value.
use Prim.Native.Nat.{ℕ, zero, suc, ◌+◌, ◌*◌, ◌/◌, ◌%◌, ◌^◌, ◌≤◌, ◌<◌}
use mathlib.Core.Path.{◌≡◌, refl, ap, ◌∙◌}
use mathlib.Core.Bool.{Bool, true, false, ◌&&◌}
use mathlib.Core.List.{List, [], ◌∷◌, ◌++◌}
use native.Mathlib.Omega.{arith}
use ledger_iota_app.Prelude.Tests.{◌==◌}
use ledger_iota_app.Prelude.Lists.{
  length, take, drop, All, length-take, length-drop, take-drop-take, drop-drop, All-take, All-drop,
  All-append, length-append,
}

abbrev pub u8 : ℕ → ℕ
u8 n = n % 2 ^ 8

abbrev pub u16 : ℕ → ℕ
u16 n = n % 2 ^ 16

abbrev pub u32 : ℕ → ℕ
u32 n = n % 2 ^ 32

abbrev pub u64 : ℕ → ℕ
u64 n = n % 2 ^ 64

-- The value of little-endian bytes.
unfoldable pub le : List ℕ → ℕ
le [] = 0
le (b ∷ bs) = b + 256 * le bs

-- The `n` little-endian bytes of a value.
pub to_le : ℕ → ℕ → List ℕ
to_le zero v = []
to_le (suc n) v = v % 256 ∷ to_le n (v / 256)

-- `n` bytes from offset `off`.
unfoldable pub slice : ℕ → ℕ → List ℕ → List ℕ
slice off n bytes = take n (drop off bytes)

-- `!memcmp(a, b, n)` of two arrays of one length.
unfoldable pub same_bytes : List ℕ → List ℕ → Bool
same_bytes [] [] = true
same_bytes [] (y ∷ ys) = false
same_bytes (x ∷ xs) [] = false
same_bytes (x ∷ xs) (y ∷ ys) = x == y && same_bytes xs ys

-- `memcpy(&bytes[off], src, length(src))`
unfoldable pub blit : ℕ → List ℕ → List ℕ → List ℕ
blit off src bytes = take off bytes ++ (src ++ drop (off + length src) bytes)

abbrev pub IsByte : ℕ → Type 0
IsByte b = b < 256

abbrev pub AreBytes : List ℕ → Type 0
AreBytes = All IsByte

pub length-slice :
    (off n : ℕ) (bytes : List ℕ) → off + n ≤ length bytes → length (slice off n bytes) ≡ n
unfolding slice
length-slice off n bytes h = omega (arith, length-take n (drop off bytes), length-drop off bytes)

pub AreBytes-slice : (off n : ℕ) (bytes : List ℕ) → AreBytes bytes → AreBytes (slice off n bytes)
unfolding slice
AreBytes-slice off n bytes h = All-take IsByte n (drop off bytes) (All-drop IsByte off bytes h)

pub length-to_le : (n v : ℕ) → length (to_le n v) ≡ n
unfolding to_le
length-to_le zero v = refl
length-to_le (suc n) v = omega (arith, length-to_le n (v / 256))

pub AreBytes-to_le : (n v : ℕ) → AreBytes (to_le n v)
unfolding to_le
AreBytes-to_le zero v = tt
AreBytes-to_le (suc n) v = (omega arith, AreBytes-to_le n (v / 256))

-- A word survives being written and read back.
pub le-to_le_two : (v : ℕ) → v < 2 ^ 16 → le (to_le 2 v) ≡ v
unfolding le to_le
le-to_le_two v h = omega arith

pub le-to_le_four : (v : ℕ) → v < 2 ^ 32 → le (to_le 4 v) ≡ v
unfolding le to_le
le-to_le_four v h = omega arith

-- The value of at most `n` bytes, for the word sizes in use.
pub le-lt_one : (bytes : List ℕ) → AreBytes bytes → length bytes ≤ 1 → le bytes < 2 ^ 8
unfolding le
le-lt_one [] h e = omega arith
le-lt_one (a ∷ []) h e = omega arith
le-lt_one (a ∷ b ∷ bs) h e = absurd (omega arith)

pub le-lt_two : (bytes : List ℕ) → AreBytes bytes → length bytes ≤ 2 → le bytes < 2 ^ 16
unfolding le
le-lt_two [] h e = omega arith
le-lt_two (a ∷ bs) h e = omega (arith, h.0, le-lt_one bs h.1 (omega arith))

pub le-lt_four : (bytes : List ℕ) → AreBytes bytes → length bytes ≤ 4 → le bytes < 2 ^ 32
unfolding le
le-lt_four [] h e = omega arith
le-lt_four (a ∷ []) h e = omega (arith, h.0)
le-lt_four (a ∷ b ∷ bs) h e = omega (arith, h.0, h.1.0, le-lt_two bs h.1.1 (omega arith))

pub le-lt_eight : (bytes : List ℕ) → AreBytes bytes → length bytes ≤ 8 → le bytes < 2 ^ 64
unfolding le
le-lt_eight [] h e = omega arith
le-lt_eight (a ∷ []) h e = omega (arith, h.0)
le-lt_eight (a ∷ b ∷ []) h e = omega (arith, h.0, h.1.0)
le-lt_eight (a ∷ b ∷ c ∷ []) h e = omega (arith, h.0, h.1.0, h.1.1.0)
le-lt_eight (a ∷ b ∷ c ∷ d ∷ bs) h e =
    omega (arith, h.0, h.1.0, h.1.1.0, h.1.1.1.0, le-lt_four bs h.1.1.1.1 (omega arith))

pub length-slice_le : (off n : ℕ) (bytes : List ℕ) → length (slice off n bytes) ≤ n
unfolding slice
length-slice_le off n bytes = omega (arith, length-take n (drop off bytes))

pub same_bytes→≡ : (xs ys : List ℕ) → same_bytes xs ys ≡ true → xs ≡ ys
unfolding same_bytes
same_bytes→≡ [] [] h = refl
same_bytes→≡ [] (y ∷ ys) h = cc
same_bytes→≡ (x ∷ xs) [] h = cc
same_bytes→≡ (x ∷ xs) (y ∷ ys) h = ground (arith, same_bytes→≡ xs ys)

pub same_bytes_refl : (xs : List ℕ) → same_bytes xs xs ≡ true
unfolding same_bytes
same_bytes_refl [] = refl
same_bytes_refl (x ∷ xs) = ground (arith, same_bytes_refl xs)

pub length-blit :
    (off : ℕ) (src bytes : List ℕ)
    → off + length src ≤ length bytes
    → length (blit off src bytes) ≡ length bytes
unfolding blit
length-blit off src bytes h = omega (
  arith,
  length-append (take off bytes) (src ++ drop (off + length src) bytes),
  length-append src (drop (off + length src) bytes),
  length-take off bytes,
  length-drop (off + length src) bytes,
)

pub AreBytes-blit :
    (off : ℕ) (src bytes : List ℕ) → AreBytes src → AreBytes bytes → AreBytes (blit off src bytes)
unfolding blit
AreBytes-blit off src bytes hs hb =
    All-append IsByte (take off bytes) _ (All-take IsByte off bytes hb)
      (All-append IsByte src _ hs (All-drop IsByte (off + length src) bytes hb))

-- A part of a part.
pub slice-slice :
    (at size off n : ℕ) (bytes : List ℕ)
    → off + n ≤ size
    → slice off n (slice at size bytes) ≡ slice (at + off) n bytes
unfolding slice
slice-slice at size off n bytes h =
    take-drop-take off n size (drop at bytes) h ∙ ap (take n) (drop-drop off at bytes)
