-- ===== src/Text/Hex.antt =====
-- `hex_len` of src/ui/ui_common.c counts the digits that `%x` prints.
use ledger_iota_app.Prelude.{
  ℕ, zero, suc, ◌-◌, ◌*◌, ◌/◌, ◌^◌, ◌≤◌, ◌<◌, ◌≡◌, refl, ◌∙◌, length, length-append, ltb, ◌==◌, u32,
  arith, Bool-cases, inl, inr, ltb→lt, ltb→le, lt→ltb, le→ltb,
}
use native.Mathlib.Numerals.{unary_clauses}
use ledger_iota_app.Text.{digits, print_x}
use ledger_iota_app.Text.Paths.{hex_len_from, hex_len}

sixteen_pow : (n : ℕ) → 16 ^ suc n ≡ 16 * 16 ^ n
sixteen_pow n = simp unary_clauses (omega arith)

positive : (n : ℕ) → 0 < 16 ^ n
positive zero = omega arith
positive (suc n) = omega (arith, sixteen_pow n, positive n)

-- Every number above 0 has a top digit.
top_digit : (n v : ℕ) → 0 < v → v < 16 ^ n → (k : ℕ) × (k < n) × (16 ^ k ≤ v) × (v < 16 ^ suc k)
top_digit zero v l h = absurd (omega (arith, l, h))
top_digit (suc n) v l h = elim (Bool-cases (ltb v (16 ^ n))) [
  | inl below ↦
      let (k, lt, low, high) = top_digit n v l (ltb→lt v (16 ^ n) below) in
      (k, omega (arith, lt), low, high)
  | inr above ↦ (n, omega arith, ltb→le v (16 ^ n) above, h)
]

length-digits_is :
    (k fuel v : ℕ) → k < fuel → 16 ^ k ≤ v → v < 16 ^ suc k → length (digits 16 fuel v) ≡ suc k
unfolding digits
length-digits_is k zero v l low high = absurd (omega (arith, l))
length-digits_is zero (suc fuel) v l low high = rw (lt→ltb v 16 high) refl
length-digits_is (suc k) (suc fuel) v l low high =
    let p = sixteen_pow k in
    let q = sixteen_pow (suc k) in
    let one = positive k in
    let large : 16 ≤ v = omega (arith, p, low, one) in
    let rest =
      length-digits_is k fuel (v / 16) (omega (arith, l)) (omega (arith, p, low))
        (omega (arith, q, high)) in
    rw (le→ltb v 16 large) (omega (arith, rest, length-append (digits 16 fuel (v / 16))))

-- The loop, when `j` shifts bring the top digit to the top of the word.
hex_len_from_top : (left v len : ℕ) → 2 ^ 28 ≤ v → v < 2 ^ 32 → hex_len_from (suc left) v len ≡ len
unfolding hex_len_from
hex_len_from_top left v len low high = ground arith

hex_len_from_shift :
    (left v len : ℕ)
    → 0 < v
    → v < 2 ^ 28
    → hex_len_from (suc left) v len ≡ hex_len_from left (v * 16) (len - 1)
unfolding hex_len_from
hex_len_from_shift left v len low high =
    let same : u32 (v * 2 ^ 4) ≡ v * 16 = omega arith in rw same (ground arith)

le_times : (a p : ℕ) → 0 < p → a ≤ a * p
le_times a zero h = absurd (omega (arith, h))
le_times a (suc p) h = simp unary_clauses (omega arith)

hex_len_from_is :
    (j left v len : ℕ)
    → 0 < v
    → j < left
    → 2 ^ 28 ≤ v * 16 ^ j
    → v * 16 ^ j < 2 ^ 32
    → hex_len_from left v len ≡ len - j
hex_len_from_is j zero v len some_digit l low high = absurd (omega (arith, l))
hex_len_from_is zero (suc left) v len some_digit l low high =
    hex_len_from_top left v len (omega (arith, low)) (omega (arith, high)) ∙ omega arith
hex_len_from_is (suc j) (suc left) v len some_digit l low high =
    let same : v * 16 ^ suc j ≡ v * 16 * 16 ^ j = rw (sixteen_pow j) (grind arith) in
    let most = le_times (v * 16) (16 ^ j) (positive j) in
    hex_len_from_shift left v len some_digit (omega (arith, same, most, high))
    ∙ (hex_len_from_is j left (v * 16) (len - 1) (omega (arith, some_digit)) (omega (arith, l))
          (omega (arith, same, low)) (omega (arith, same, high))
        ∙ omega arith)

scaled :
    (k v : ℕ)
    → k < 8
    → 16 ^ k ≤ v
    → v < 16 ^ suc k
    → (2 ^ 28 ≤ v * 16 ^ (7 - k)) × (v * 16 ^ (7 - k) < 2 ^ 32)
scaled zero v l low high = omega (arith, low, high)
scaled (suc zero) v l low high = omega (arith, low, high)
scaled (suc (suc zero)) v l low high = omega (arith, low, high)
scaled (suc (suc (suc zero))) v l low high = omega (arith, low, high)
scaled (suc (suc (suc (suc zero)))) v l low high = omega (arith, low, high)
scaled (suc (suc (suc (suc (suc zero))))) v l low high = omega (arith, low, high)
scaled (suc (suc (suc (suc (suc (suc zero)))))) v l low high = omega (arith, low, high)
scaled (suc (suc (suc (suc (suc (suc (suc zero))))))) v l low high = omega (arith, low, high)
scaled (suc (suc (suc (suc (suc (suc (suc (suc k)))))))) v l low high = absurd (omega (arith, l))

hex_len_some : (v : ℕ) → 0 < v → v < 2 ^ 32 → hex_len v ≡ length (digits 16 8 v)
unfolding hex_len
hex_len_some v l h =
    let (k, lt, low, high) = top_digit 8 v l (omega (arith, h)) in
    let (least, most) = scaled k v lt low high in
    hex_len_from_is (7 - k) 9 v 8 l (omega arith) least most
    ∙ omega (arith, lt, length-digits_is k 8 v lt low high)

zero_lem : hex_len 0 ≡ length (print_x 0)
unfolding hex_len hex_len_from digits
zero_lem = refl

pub hex_len_lem : (v : ℕ) → v < 2 ^ 32 → hex_len v ≡ length (print_x v)
unfolding hex_len
hex_len_lem v h =
    let same : u32 v ≡ v = omega arith in
    elim (Bool-cases (v == 0)) [
      | inl nothing ↦ ground (arith, zero_lem)
      | inr something ↦ rw same (hex_len_some v (ground arith) h)
    ]
