-- ===== src/Text/Short.antt =====
-- The short form of an amount: `format_value_short` of src/ui/ui_common.c, whose loop divides by a
-- thousand until six digits are left.
use ledger_iota_app.Prelude.{
  ℕ, zero, suc, ◌+◌, ◌*◌, ◌/◌, ◌%◌, ◌^◌, ◌<◌, ◌≤◌, ◌≡◌, ◌⊎◌, inl, inr, refl, ap, ◌∙◌, sym, List, [],
  ◌++◌, get_or, ltb, leb, Bool-cases, arith,
}
use native.Mathlib.Numerals.{unary_clauses}
use native.Mathlib.Nat.{div-div-eq-div-mul}
use ledger_iota_app.Exec.{ok, thrown}
use ledger_iota_app.Sdk.{Sdk}
use ledger_iota_app.Text.{codes, snprintf, print_u, print_padded}
use ledger_iota_app.Text.Numbers.{shorten, iota_units, max_iota_unit, format_value_short}

thousand_pow : (n : ℕ) → 1000 ^ suc n ≡ 1000 * 1000 ^ n
thousand_pow n = simp unary_clauses (omega arith)

div_thousands : (val j : ℕ) → val / 1000 / 1000 ^ j ≡ val / 1000 ^ suc j
div_thousands val j =
    div-div-eq-div-mul val 1000 (1000 ^ j) ∙ ap (λ p. val / p) (sym (thousand_pow j))

-- A value divided by a thousand until it is below 10 ^ 6, so many times, which `base` counts.
abbrev pub IsShortened : ℕ → ℕ → ℕ → ℕ × ℕ → Type 0
IsShortened n val base (short, b) =
    (j : ℕ) × (j ≤ n)
    × (b ≡ base + j)
    × (short ≡ val / 1000 ^ j)
    × (short < 10 ^ 6)
    × ((j ≡ 0) ⊎ (1000 ≤ short))

-- No round is needed for a value that is short.
done : (k val base : ℕ) → val < 10 ^ 6 → shorten k val base ≡ (val, base)
unfolding shorten
done zero val base l = refl
done (suc k) val base l = ground arith

one_round :
    (k val base : ℕ) → 10 ^ 6 ≤ val → shorten (suc k) val base ≡ shorten k (val / 1000) (base + 1)
unfolding shorten
one_round k val base l = ground arith

IsShortened-round :
    (n val base : ℕ) (o : ℕ × ℕ)
    → 10 ^ 6 ≤ val
    → IsShortened n (val / 1000) (base + 1) o
    → IsShortened (suc n) val base o
IsShortened-round n val base (short, b) l (j, le, at, is, small, big) = (
  suc j,
  omega (arith, le),
  omega (arith, at),
  is ∙ div_thousands val j,
  small,
  inr (enough j big is),
)
  where
    enough : (j : ℕ) → (j ≡ 0) ⊎ (1000 ≤ short) → short ≡ val / 1000 / 1000 ^ j → 1000 ≤ short
    enough j (inr h) e = h
    enough j (inl h) e = let e' : short ≡ val / 1000 / 1000 ^ 0 = rw h at e in omega (arith, e', l)

short_already :
    (n k val base : ℕ)
    → val < 10 ^ 6
    → (shorten (n + k) val base ≡ shorten n val base) × IsShortened n val base (shorten n val base)
short_already n k val base less = (
  done (n + k) val base less ∙ sym (done n val base less),
  rw (done n val base less) (0, omega arith, omega arith, omega arith, less, inl refl),
)

-- Rounds enough for the value, and any more.
shorten-IsShortened :
    (n k val base : ℕ)
    → val < 10 ^ 6 * 1000 ^ n
    → (shorten (n + k) val base ≡ shorten n val base) × IsShortened n val base (shorten n val base)
shorten-IsShortened zero k val base l = short_already zero k val base (omega (arith, l))
shorten-IsShortened (suc n) k val base l = elim (Bool-cases (ltb val (10 ^ 6))) [
  | inl small ↦ short_already (suc n) k val base (ground arith)
  | inr large ↦
      let h : 10 ^ 6 ≤ val = ground arith in
      let next =
        shorten-IsShortened n k (val / 1000) (base + 1) (omega (arith, thousand_pow n, l)) in
      let same : suc n + k ≡ suc (n + k) = omega arith in
      (
        ap (λ m. shorten m val base) same
            ∙ one_round (n + k) val base h
            ∙ next.0
            ∙ sym (one_round n val base h),
        rw (one_round n val base h) (IsShortened-round n val base _ h next.1),
      )
]

-- For a value of 64 bits, five rounds of the loop are enough: with any more the outcome is the same,
-- the value divided by a thousand as often as it takes to come below 10 ^ 6, and no more often.
pub shorten_lem :
    (k val : ℕ)
    → val < 2 ^ 64
    → (shorten (5 + k) val 1 ≡ shorten 5 val 1) × IsShortened 5 val 1 (shorten 5 val 1)
shorten_lem k val l = shorten-IsShortened 5 k val 1 (omega (arith, l))

-- The text of a value in thousands of a unit, with three digits behind the point.
abbrev pub short_text : ℕ → ℕ → List ℕ
short_text short base =
    print_u (short / 1000)
    ++ (codes "." ++ (print_padded 3 (short % 1000) ++ (codes " " ++ get_or iota_units base [])))

-- Four divisions are enough below 10 ^ 18 alone.
below : (j val : ℕ) → j ≤ 4 → val / 1000 ^ j < 10 ^ 6 → val < 10 ^ 18
below zero val l h = omega (arith, h)
below (suc zero) val l h = omega (arith, h)
below (suc (suc zero)) val l h = omega (arith, h)
below (suc (suc (suc zero))) val l h = omega (arith, h)
below (suc (suc (suc (suc zero)))) val l h = omega (arith, h)
below (suc (suc (suc (suc (suc j))))) val l h = absurd (omega (arith, l))

large_enough : (j val : ℕ) → 1000 ≤ val → (j ≡ 0) ⊎ (1000 ≤ val / 1000 ^ j) → 1000 ≤ val / 1000 ^ j
large_enough j val l (inr h) = h
large_enough j val l (inl h) = rw h (omega (arith, l))

-- A value of 64 bits below a thousand is written out; one below 10 ^ 18 is divided by a thousand as
-- often as it takes to come below 10 ^ 6, and written with three digits behind the point, which are
-- followed by the unit for one division more; any other throws.
pub format_value_short_lem :
    (sdk : Sdk) (n val : ℕ)
    → val < 2 ^ 64
    → let r = format_value_short sdk n val in
      ((val < 1000) × (r ≡ ok (snprintf n (print_u val ++ (codes " " ++ get_or iota_units 0 [])))))
      ⊎ (((1000 ≤ val)
            × (val < 10 ^ 18)
            × ((j : ℕ) × (j ≤ 4)
                × (1000 ≤ val / 1000 ^ j)
                × (val / 1000 ^ j < 10 ^ 6)
                × (r ≡ ok (snprintf n (short_text (val / 1000 ^ j) (1 + j))))))
          ⊎ ((10 ^ 18 ≤ val) × (r ≡ thrown sdk.invalid_parameter)))
unfolding format_value_short
format_value_short_lem sdk n val l = elim (Bool-cases (ltb val 1000)) [
  | inl few ↦ inl (ground arith, rw few refl)
  | inr many ↦
      let enough : 1000 ≤ val = ground arith in
      let (j, le, at, is, small, big) = (shorten_lem 0 val l).1 in
      let small' : val / 1000 ^ j < 10 ^ 6 = rw is at small in
      let big' : (j ≡ 0) ⊎ (1000 ≤ val / 1000 ^ j) = rw is at big in
      let large = large_enough j val enough big' in
      elim (Bool-cases (leb max_iota_unit (1 + j))) [
        | inl out ↦
            let five : j ≡ 5 = ground arith in
            let large' : 1000 ≤ val / 1000 ^ 5 = rw five at large in
            inr (inr (omega (arith, large'), rw (many, at, out) refl))
        | inr unit ↦
            let four : j ≤ 4 = ground arith in
            inr (
              inl (
                enough,
                below j val four small',
                (j, four, large, small', rw (many, at, is, unit) refl),
              ))
      ]
]
