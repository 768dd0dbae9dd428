-- ===== src/Text/Amounts.antt =====
-- The amount that is shown: `format_value_full_decimals` of src/ui/ui_common.c.
use ledger_iota_app.Prelude.{
  take_all, ℕ, zero, suc, ◌+◌, ◌-◌, ◌*◌, ◌/◌, ◌%◌, ◌^◌, ◌≤◌, ◌<◌, ◌≡◌, ◌⊎◌, refl, List, [], ◌∷◌,
  ◌++◌, length, take, drop, length-append, All-append, length-take, length-drop, ltb, leb, arith,
  ◌∙◌, ap, true, false, u32, Bool-cases, inl, inr, le→ltb, ltb→lt, ltb→le,
}
use ledger_iota_app.Exec.{ok, thrown}
use ledger_iota_app.Sdk.{Sdk}
use ledger_iota_app.Text.{codes, print_u, print_padded}
use ledger_iota_app.Text.Numbers.{
  max_int_dec, print_u64, format_u64, add_point, format_value_full_decimals, u64_buffer,
}
use ledger_iota_app.Text.Digits.{
  IsDigit, read_digits, read_digits-append, read_digits-acc, read_digits-zeros, Prints,
  print_u-Prints, print_padded-Prints, length-print_u, length-print_padded, length-digits_ge,
}

print_large-Prints :
    (val : ℕ)
    → val < 10 ^ 18
    → Prints val (print_u (val / max_int_dec) ++ print_padded 9 (val % max_int_dec))
print_large-Prints val h =
    let high = print_u-Prints (val / max_int_dec) (omega arith) in
    let low = print_padded-Prints 9 (val % max_int_dec) (omega arith) in
    let nine = length-print_padded 8 (val % max_int_dec) (omega arith) (omega arith) in
    record {
      reads_back =
          rw
            (
              read_digits-append 0 (print_u (val / max_int_dec))
                  (print_padded 9 (val % max_int_dec)),
              read_digits-acc (read_digits 0 (print_u (val / max_int_dec)))
                  (print_padded 9 (val % max_int_dec)),
              nine,
              high.reads_back,
              low.reads_back,
            )
            (omega arith);
      only_digits =
          All-append IsDigit (print_u (val / max_int_dec)) _ high.only_digits low.only_digits;
    }

print_u64-Prints : (val : ℕ) → val < 10 ^ 18 → Prints val (print_u64 val)
print_u64-Prints val h = elim (Bool-cases (ltb val max_int_dec)) [
  | inl small ↦ rw small (print_u-Prints val (omega (arith, ltb→lt val max_int_dec small)))
  | inr large ↦ rw large (print_large-Prints val h)
]

length-print_u64_le : (val : ℕ) → val < 10 ^ 18 → length (print_u64 val) ≤ 19
length-print_u64_le val h = elim (Bool-cases (ltb val max_int_dec)) [
  | inl small ↦
      let l = ltb→lt val max_int_dec small in
      let most = length-print_u val 9 (omega arith) (omega arith) in rw small (omega (arith, most))
  | inr large ↦ rw large (
      omega (
        arith,
        length-print_u (val / max_int_dec) 9 (omega arith) (omega arith),
        length-print_padded 8 (val % max_int_dec) (omega arith) (omega arith),
        length-append (print_u (val / max_int_dec)) (print_padded 9 (val % max_int_dec)),
      ))
]

length-print_u64_ge : (val : ℕ) → val < 10 ^ 18 → 10 ^ 6 ≤ val → 7 ≤ length (print_u64 val)
length-print_u64_ge val h m = elim (Bool-cases (ltb val max_int_dec)) [
  | inl small ↦
      let l = ltb→lt val max_int_dec small in
      let same : u32 val ≡ val = omega arith in
      rw (small, same) (length-digits_ge 10 val 6 (omega arith) m)
  | inr large ↦ rw large (
      omega (
        arith,
        length-print_padded 8 (val % max_int_dec) (omega arith) (omega arith),
        length-append (print_u (val / max_int_dec)) (print_padded 9 (val % max_int_dec)),
      ))
]

-- Past its place the loop copies.
add_point_past : (num i : ℕ) (xs : List ℕ) → num - 6 < i → add_point num i xs ≡ xs
unfolding add_point
add_point_past num i [] h = refl
add_point_past num i (x ∷ xs) h =
    let rest = add_point_past num (i + 1) xs (omega (arith, h)) in ground arith

add_point_lem :
    (num i k : ℕ) (xs : List ℕ)
    → i + k ≡ num - 6
    → k < length xs
    → add_point num i xs ≡ take k xs ++ (b'.' ∷ drop k xs)
unfolding add_point
add_point_lem num i k [] e h = absurd (omega (arith, h))
add_point_lem num i zero (x ∷ xs) e h =
    let rest = add_point_past num (i + 1) xs (omega (arith, e)) in ground arith
add_point_lem num i (suc k) (x ∷ xs) e h =
    let rest = add_point_lem num (i + 1) k xs (omega (arith, e)) (omega (arith, h)) in ground arith

take-drop : (n : ℕ) (xs : List ℕ) → take n xs ++ drop n xs ≡ xs
take-drop zero xs = refl
take-drop (suc n) [] = refl
take-drop (suc n) (x ∷ xs) = ap (λ ys. x ∷ ys) (take-drop n xs)

-- The number of millionths, with a point before the last six digits and a digit before the point.
pub record ShowsMillionths (val : ℕ) (text : List ℕ) : Type 0 where
  pub whole : List ℕ
  pub fraction : List ℕ
  pub is : text ≡ whole ++ (b'.' ∷ fraction)
  pub six : length fraction ≡ 6
  pub some_digit : 1 ≤ length whole
  pub prints : Prints val (whole ++ fraction)

below_one : (val : ℕ) → val < 10 ^ 6 → ShowsMillionths val (codes "0." ++ print_padded 6 val)
below_one val h =
    let padded = print_padded-Prints 6 val (omega arith) in
    record {
      whole = b'0' ∷ [];
      fraction = print_padded 6 val;
      is = refl;
      six = length-print_padded 5 val (omega arith) (omega arith);
      some_digit = omega arith;
      prints = record {
        reads_back = read_digits-zeros 1 (print_padded 6 val) ∙ padded.reads_back;
        only_digits = ground arith;
      };
    }

above_one :
    (val : ℕ)
    → val < 10 ^ 18
    → 10 ^ 6 ≤ val
    → let text = print_u64 val in ShowsMillionths val (add_point (length text) 0 text)
above_one val h m =
    let text = print_u64 val in
    let seven = length-print_u64_ge val h m in
    let all = print_u64-Prints val h in
    let joined = take-drop (length text - 6) text in
    record {
      whole = take (length text - 6) text;
      fraction = drop (length text - 6) text;
      is =
          add_point_lem (length text) 0 (length text - 6) text (omega arith) (omega (arith, seven));
      six = omega (arith, length-drop (length text - 6) text, seven);
      some_digit = omega (arith, length-take (length text - 6) text, seven);
      prints = rw joined all;
    }

format_u64_lem :
    (sdk : Sdk) (val : ℕ) → val < 10 ^ 18 → format_u64 sdk u64_buffer val ≡ ok (print_u64 val)
unfolding format_u64
format_u64_lem sdk val h =
    let few = length-print_u64_le val h in
    let small : leb (max_int_dec * max_int_dec) val ≡ false = ground arith in
    rw small (ap ok (take_all 20 (print_u64 val) (omega (arith, few))))

format_u64_thrown :
    (sdk : Sdk) (val : ℕ)
    → 10 ^ 18 ≤ val
    → format_u64 sdk u64_buffer val ≡ thrown sdk.invalid_parameter
unfolding format_u64
format_u64_thrown sdk val h =
    let large : leb (max_int_dec * max_int_dec) val ≡ true = ground arith in rw large refl

module _ (sdk : Sdk) (n val : ℕ) (room : 21 ≤ n) where
  decimals_printed :
      val < 10 ^ 18
      → (text : List ℕ) × (format_value_full_decimals sdk n val ≡ ok text)
        × ShowsMillionths val text
  unfolding format_value_full_decimals
  decimals_printed h =
      let few = length-print_u64_le val h in
      let fits = le→ltb n (length (print_u64 val) + 2) (omega (arith, few, room)) in
      elim (Bool-cases (ltb val 1000000)) [
        | inl below ↦
            let l = ltb→lt val 1000000 below in
            let six = length-print_padded 5 val (omega arith) (omega arith) in
            let whole =
              take_all (n - 1) (codes "0." ++ print_padded 6 val) (omega (arith, six, room)) in
            (_, rw (format_u64_lem sdk val h, fits, below, whole) refl, below_one val l)
        | inr above ↦ (
          _,
          rw (format_u64_lem sdk val h, fits, above) refl,
          above_one val h (ltb→le val 1000000 above),
        )
      ]

  -- With room for 21 characters: an amount below 10 ^ 18 is shown with six digits behind the point,
  -- at least one before it, and reads back as the amount; any other throws.
  pub decimals_lem :
      ((val < 10 ^ 18)
        × ((text : List ℕ) × (format_value_full_decimals sdk n val ≡ ok text)
            × ShowsMillionths val text))
      ⊎ ((10 ^ 18 ≤ val) × (format_value_full_decimals sdk n val ≡ thrown sdk.invalid_parameter))
  unfolding format_value_full_decimals
  decimals_lem = elim (Bool-cases (ltb val (10 ^ 18))) [
    | inl small ↦ let l = ltb→lt val (10 ^ 18) small in inl (l, decimals_printed l)
    | inr large ↦
        let l = ltb→le val (10 ^ 18) large in inr (l, rw (format_u64_thrown sdk val l) refl)
  ]
