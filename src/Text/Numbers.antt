-- ===== src/Text/Numbers.antt =====
-- The amounts of src/ui/ui_common.c. A text is the value that is left in the buffer.
use ledger_iota_app.Prelude.{
  ℕ, zero, suc, ◌+◌, ◌-◌, ◌*◌, ◌/◌, ◌%◌, List, [], ◌∷◌, ◌++◌, length, ltb, leb, ◌==◌, get_or,
  if◌then◌else◌,
}
use ledger_iota_app.Exec.{Result, ok, thrown, ◌⟫◌}
use ledger_iota_app.Constants.Status
use ledger_iota_app.Sdk.{Sdk}
use ledger_iota_app.Text.{codes, snprintf, print_u, print_padded}

-- `MAX_INT_DEC`
abbrev pub max_int_dec : ℕ
max_int_dec = 1000000000

-- `MAX_IOTA_UNIT`
abbrev pub max_iota_unit : ℕ
max_iota_unit = 6

abbrev pub iota_units : List (List ℕ)
iota_units = codes "i" ∷ codes "Ki" ∷ codes "Mi" ∷ codes "Gi" ∷ codes "Ti" ∷ codes "Pi" ∷ []

-- The loop: a comma behind a character whenever the counter is at 1.
unfoldable pub add_commas : ℕ → List ℕ → List ℕ
add_commas commas [] = []
add_commas commas (c ∷ src) =
    let rest = add_commas ((commas + 1) % 3) src in
    if commas == 1 then c ∷ b',' ∷ rest else c ∷ rest

-- `*--p_dst = '\0'`
unfoldable pub drop_last : List ℕ → List ℕ
drop_last [] = []
drop_last (c ∷ []) = []
drop_last (c ∷ d ∷ cs) = c ∷ drop_last (d ∷ cs)

-- A leading minus is not counted.
unfoldable pub str_add_commas : List ℕ → ℕ → List ℕ
str_add_commas [] num_len = drop_last (add_commas (2 - num_len % 3) [])
str_add_commas (c ∷ src) num_len = drop_last (
    if c == b'-'
    then c ∷ add_commas (2 - (num_len - 1) % 3) src
    else add_commas (2 - num_len % 3) (c ∷ src))

-- The decimal digits; those above 10 ^ 9 are printed first.
abbrev pub print_u64 : ℕ → List ℕ
print_u64 val =
    if ltb val max_int_dec
    then print_u val
    else print_u (val / max_int_dec) ++ print_padded 9 (val % max_int_dec)

unfoldable pub format_u64 : Sdk → ℕ → ℕ → Result (List ℕ)
format_u64 sdk n val =
    if leb (max_int_dec * max_int_dec) val
    then thrown sdk.invalid_parameter
    else ok (snprintf n (print_u64 val))

-- The size of the local buffer.
abbrev pub u64_buffer : ℕ
u64_buffer = 21

unfoldable pub format_value_full : Sdk → ℕ → ℕ → Result (List ℕ)
format_value_full sdk n val =
    let unit = codes " " ++ get_or iota_units 0 [] in
    format_u64 sdk u64_buffer val ⟫ λ buffer.
    let num_len = length buffer in
    let num_len_comma = num_len + (num_len - 1) / 3 in
    if ltb n (num_len_comma + 3)
    then ok (snprintf n (buffer ++ unit))
    else let written = str_add_commas buffer num_len in
      ok (written ++ snprintf (n - length written) unit)

-- The loop from place `i`: a point before the last six digits.
unfoldable pub add_point : ℕ → ℕ → List ℕ → List ℕ
add_point num_len i [] = []
add_point num_len i (c ∷ src) =
    let rest = add_point num_len (i + 1) src in
    if i == num_len - 6 then b'.' ∷ c ∷ rest else c ∷ rest

unfoldable pub format_value_full_decimals : Sdk → ℕ → ℕ → Result (List ℕ)
format_value_full_decimals sdk n val = format_u64 sdk u64_buffer val ⟫ λ buffer.
    let num_len = length buffer in
    if ltb n (num_len + 2)
    then thrown Status.unknown
    else if ltb val 1000000
    then ok (snprintf n (codes "0." ++ print_padded 6 val))
    else ok (add_point num_len 0 buffer)

-- The loop, which a value of 64 bits leaves after five rounds at the latest.
unfoldable pub shorten : ℕ → ℕ → ℕ → ℕ × ℕ
shorten zero val base = (val, base)
shorten (suc fuel) val base =
    let rest = shorten fuel (val / 1000) (base + 1) in
    if leb (1000 * 1000) val then rest else (val, base)

unfoldable pub format_value_short : Sdk → ℕ → ℕ → Result (List ℕ)
unfolding shorten
format_value_short sdk n val =
    let (short, base) = shorten 5 val 1 in
    if ltb val 1000
    then ok (snprintf n (print_u val ++ (codes " " ++ get_or iota_units 0 [])))
    else if leb max_iota_unit base
    then thrown sdk.invalid_parameter
    else ok (
        snprintf n (
          print_u (short / 1000)
          ++ (codes "."
              ++ (print_padded 3 (short % 1000) ++ (codes " " ++ get_or iota_units base [])))))
