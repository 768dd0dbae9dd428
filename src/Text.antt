-- ===== src/Text.antt =====
-- Texts as src/ui/ui_common.c writes them: a C string is the list of its characters, without the
-- zero at its end, and `snprintf` prints into a buffer of `n` characters, of which the zero is one.
pub mod Numbers
pub mod Digits
pub mod Amounts
pub mod Paths
pub mod Lines
pub mod Hex
pub mod Wrap
pub mod Short
pub mod Whole
use Prim.Native.Char.{code}
use Prim.Native.String.{String}
use ledger_iota_app.Prelude.{
  ℕ, zero, suc, ◌+◌, ◌-◌, ◌*◌, ◌/◌, ◌%◌, List, [], ◌∷◌, ◌++◌, take, length, replicate, ltb, u32,
  if◌then◌else◌,
}

-- The characters of an ASCII text. `String` has its own `[]` and `∷`.
abbrev pub codes : String → List ℕ
codes String.[] = []
codes (String.◌∷◌ c s) = code c ∷ codes s

-- What `snprintf` leaves of a text: there is no room for more than `n - 1` characters.
abbrev pub snprintf : ℕ → List ℕ → List ℕ
snprintf n text = take (n - 1) text

abbrev pub digit_char : ℕ → ℕ
digit_char d = if ltb d 10 then b'0' + d else b'a' - 10 + d

-- The digits of a number in a base, of which it has at most `fuel`.
unfoldable pub digits : ℕ → ℕ → ℕ → List ℕ
digits base zero v = []
digits base (suc fuel) v =
    let rest = digits base fuel (v / base) in
    (if ltb v base then [] else rest) ++ (digit_char (v % base) ∷ [])

-- `%u`: a word of 32 bits has at most 10 digits.
abbrev pub print_u : ℕ → List ℕ
print_u v = digits 10 10 (u32 v)

-- `%x`
abbrev pub print_x : ℕ → List ℕ
print_x v = digits 16 8 (u32 v)

-- `%06u` and the like: zeros up to a width.
abbrev pub print_padded : ℕ → ℕ → List ℕ
print_padded width v = let text = print_u v in replicate (width - length text) b'0' ++ text
