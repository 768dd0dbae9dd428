-- ===== src/Text/Digits.antt =====
-- Reading a decimal text back.
use ledger_iota_app.Prelude.{
  ℕ, zero, suc, ◌+◌, ◌-◌, ◌*◌, ◌/◌, ◌%◌, ◌^◌, ◌≤◌, ◌<◌, ◌≡◌, refl, List, [], ◌∷◌, ◌++◌, length,
  length-append, length-replicate, replicate, All, All-append, All-replicate, ltb, arith, ◌∙◌, u32,
  Bool-cases, inl, inr, lt→ltb, le→ltb, ltb→lt, ltb→le,
}
use native.Mathlib.Numerals.{unary_clauses}
use ledger_iota_app.Text.{digits, print_u, print_padded}

abbrev pub IsDigit : ℕ → Type 0
IsDigit c = b'0' ≤ c × c ≤ b'9'

-- The number that decimal digits stand for, behind a number that was read before them.
unfoldable pub read_digits : ℕ → List ℕ → ℕ
read_digits acc [] = acc
read_digits acc (c ∷ cs) = read_digits (acc * 10 + (c - b'0')) cs

pub read_digits-append :
    (acc : ℕ) (xs ys : List ℕ) → read_digits acc (xs ++ ys) ≡ read_digits (read_digits acc xs) ys
unfolding read_digits
read_digits-append acc [] ys = refl
read_digits-append acc (x ∷ xs) ys = read_digits-append (acc * 10 + (x - b'0')) xs ys

ten_pow : (n : ℕ) → 10 ^ suc n ≡ 10 * 10 ^ n
ten_pow n = simp unary_clauses (omega arith)

positive : (n : ℕ) → 0 < 10 ^ n
positive zero = omega arith
positive (suc n) = omega (arith, ten_pow n, positive n)

-- One more digit, and none before it for a number below ten.
digits_small : (fuel v : ℕ) → v < 10 → digits 10 (suc fuel) v ≡ (b'0' + v) ∷ []
unfolding digits
digits_small fuel v h =
    let same : v % 10 ≡ v = omega arith in rw (lt→ltb v 10 h, same, lt→ltb v 10 h) refl

digits_large :
    (fuel v : ℕ)
    → 10 ≤ v
    → digits 10 (suc fuel) v ≡ digits 10 fuel (v / 10) ++ ((b'0' + v % 10) ∷ [])
unfolding digits
digits_large fuel v h =
    let last : v % 10 < 10 = omega arith in rw (le→ltb v 10 h, lt→ltb (v % 10) 10 last) refl

-- What holds of a digit alone, and of the digits of a tenth with one behind them, holds of all.
digits_elim :
    (P : ℕ → List ℕ → Type 0) (fuel v : ℕ)
    → v < 10 ^ fuel
    → P 0 []
    → ((u : ℕ) → u < 10 → P u ((b'0' + u) ∷ []))
    → ((u : ℕ) (xs : List ℕ) → 10 ≤ u → P (u / 10) xs → P u (xs ++ ((b'0' + u % 10) ∷ [])))
    → P v (digits 10 fuel v)
unfolding digits
digits_elim P zero v h none one more = let nothing : v ≡ 0 = omega arith in rw nothing none
digits_elim P (suc fuel) v h none one more =
    let p = ten_pow fuel in
    elim (Bool-cases (ltb v 10)) [
      | inl small ↦ let l = ltb→lt v 10 small in rw (digits_small fuel v l) (one v l)
      | inr large ↦
          let l = ltb→le v 10 large in
          rw (digits_large fuel v l)
            (more v _ l (digits_elim P fuel (v / 10) (omega (arith, p, h)) none one more))
    ]

-- A number of at most `fuel` digits is read back.
pub read_digits-digits : (fuel v : ℕ) → v < 10 ^ fuel → read_digits 0 (digits 10 fuel v) ≡ v
unfolding read_digits
read_digits-digits fuel v h =
    digits_elim (λ u xs. read_digits 0 xs ≡ u) fuel v h refl (λ u l. omega arith)
      (λ u xs l e. rw (read_digits-append 0 xs ((b'0' + u % 10) ∷ []), e) (omega arith))

pub digits-IsDigit : (fuel v : ℕ) → v < 10 ^ fuel → All IsDigit (digits 10 fuel v)
digits-IsDigit fuel v h =
    digits_elim (λ u xs. All IsDigit xs) fuel v h tt (λ u l. ground arith)
      (λ u xs l e. All-append IsDigit xs _ e (ground arith))

-- As many digits as the number needs, at least one.
pub length-digits_le :
    (fuel v w : ℕ) → v < 10 ^ fuel → v < 10 ^ suc w → length (digits 10 fuel v) ≤ suc w
length-digits_le fuel v w h =
    digits_elim (λ u xs. (k : ℕ) → u < 10 ^ suc k → length xs ≤ suc k) fuel v h (λ k l. omega arith)
      (λ u l k m. omega arith) bigger w
  where
    bigger :
        (u : ℕ) (xs : List ℕ)
        → 10 ≤ u
        → ((k : ℕ) → u / 10 < 10 ^ suc k → length xs ≤ suc k)
        → (k : ℕ) → u < 10 ^ suc k
        → length (xs ++ ((b'0' + u % 10) ∷ [])) ≤ suc k
    bigger u xs l e zero m = absurd (omega arith)
    bigger u xs l e (suc k) m =
        let p = ten_pow (suc k) in
        omega (arith, length-append xs ((b'0' + u % 10) ∷ []), e k (omega (arith, p, m)))

pub length-digits_ge :
    (fuel v w : ℕ) → v < 10 ^ fuel → 10 ^ w ≤ v → suc w ≤ length (digits 10 fuel v)
length-digits_ge fuel v w h =
    digits_elim (λ u xs. (k : ℕ) → 10 ^ k ≤ u → suc k ≤ length xs) fuel v h none one bigger w
  where
    none : (k : ℕ) → 10 ^ k ≤ 0 → suc k ≤ 0
    none k l = absurd (omega (arith, positive k))

    one : (u : ℕ) → u < 10 → (k : ℕ) → 10 ^ k ≤ u → suc k ≤ 1
    one u l zero m = omega arith
    one u l (suc k) m = absurd (omega (arith, ten_pow k, positive k, l, m))

    bigger :
        (u : ℕ) (xs : List ℕ)
        → 10 ≤ u
        → ((k : ℕ) → 10 ^ k ≤ u / 10 → suc k ≤ length xs)
        → (k : ℕ) → 10 ^ k ≤ u
        → suc k ≤ length (xs ++ ((b'0' + u % 10) ∷ []))
    bigger u xs l e zero m = omega (arith, length-append xs ((b'0' + u % 10) ∷ []))
    bigger u xs l e (suc k) m =
        let p = ten_pow k in
        omega (arith, length-append xs ((b'0' + u % 10) ∷ []), e k (omega (arith, p, m)))

shifted :
    (acc d p q r whole rest : ℕ)
    → q ≡ 10 * p
    → whole ≡ (acc * 10 + d) * p + r
    → rest ≡ (0 * 10 + d) * p + r
    → whole ≡ acc * q + rest
shifted acc d p q r whole rest e f g = rw (f, g, e) (grind arith)

-- What was read before counts once for each place that follows.
pub read_digits-acc :
    (acc : ℕ) (xs : List ℕ) → read_digits acc xs ≡ acc * 10 ^ length xs + read_digits 0 xs
unfolding read_digits
read_digits-acc acc [] = omega arith
read_digits-acc acc (x ∷ xs) =
    let d = x - b'0' in
    shifted acc d (10 ^ length xs) (10 ^ suc (length xs)) _ _ _ (ten_pow (length xs))
      (read_digits-acc (acc * 10 + d) xs) (read_digits-acc (0 * 10 + d) xs)

-- Zeros in front count nothing.
pub read_digits-zeros :
    (n : ℕ) (xs : List ℕ) → read_digits 0 (replicate n b'0' ++ xs) ≡ read_digits 0 xs
unfolding read_digits
read_digits-zeros zero xs = refl
read_digits-zeros (suc n) xs = read_digits-zeros n xs

-- What a decimal text of a number is.
pub record Prints (v : ℕ) (text : List ℕ) : Type 0 where
  pub reads_back : read_digits 0 text ≡ v
  pub only_digits : All IsDigit text

pub print_u-Prints : (v : ℕ) → v < 2 ^ 32 → Prints v (print_u v)
print_u-Prints v h =
    let same : u32 v ≡ v = omega arith in
    rw same (record {
      reads_back = read_digits-digits 10 v (omega arith);
      only_digits = digits-IsDigit 10 v (omega arith);
    })

pub print_padded-Prints : (w v : ℕ) → v < 2 ^ 32 → Prints v (print_padded w v)
print_padded-Prints w v h =
    let text = print_u-Prints v h in
    record {
      reads_back = read_digits-zeros (w - length (print_u v)) (print_u v) ∙ text.reads_back;
      only_digits =
          All-append IsDigit (replicate (w - length (print_u v)) b'0') (print_u v)
            (All-replicate IsDigit (w - length (print_u v)) b'0' (ground arith)) text.only_digits;
    }

pub length-print_u : (v w : ℕ) → v < 2 ^ 32 → v < 10 ^ suc w → length (print_u v) ≤ suc w
length-print_u v w h m =
    let same : u32 v ≡ v = omega arith in rw same (length-digits_le 10 v w (omega arith) m)

pub length-print_padded :
    (w v : ℕ) → v < 2 ^ 32 → v < 10 ^ suc w → length (print_padded (suc w) v) ≡ suc w
length-print_padded w v h m = omega (
  arith,
  length-print_u v w h m,
  length-append (replicate (suc w - length (print_u v)) b'0') (print_u v),
  length-replicate {A = ℕ} (suc w - length (print_u v)) b'0',
)
