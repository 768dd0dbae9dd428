-- ===== src/Ui/Shown.antt =====
-- What the user reads is what the buffer holds: the amount of an output and the hash of an essence,
-- as `cb_amount_preinit` and `cb_hash_preinit` of src/ui/nano show them.
use ledger_iota_app.Prelude.{
  append_assoc, ℕ, ◌+◌, ◌-◌, ◌*◌, ◌/◌, ◌%◌, ◌^◌, ◌≤◌, ◌<◌, ◌≡◌, ◌≢◌, ◌⊎◌, refl, List, [], ◌∷◌, ◌++◌,
  some, length, le, slice, AreBytes, ltb, ◌==◌, get_or, arith, u8, inl, inr, if◌then◌else◌,
  length-append,
}
use mathlib.Core.Path.{subst}
use ledger_iota_app.Exec.{ok, thrown}
use ledger_iota_app.Constants.AppMode
use ledger_iota_app.Types.{ApiCtx, sizeof_basic_output, offset_amount}
use ledger_iota_app.Sdk.{Sdk}
use ledger_iota_app.Device.{Device}
use ledger_iota_app.Reader.Laws.{read_in_range}
use ledger_iota_app.Abstraction.{get_amount, get_output_amount}
use ledger_iota_app.Text.{codes}
use ledger_iota_app.Text.Numbers.{format_value_full_decimals}
use ledger_iota_app.Text.Amounts.{ShowsMillionths, decimals_lem}
use ledger_iota_app.Ui.Screens.{
  Scratch, scratch_size, cb_amount_preinit, cb_hash_preinit, hex_digits, hex_char,
}

-- The amount of an output, as the buffer holds it.
abbrev pub amount_at : List ℕ → ℕ → ℕ → ℕ
amount_at bytes outputs i = le (slice (outputs + sizeof_basic_output * i + offset_amount) 8 bytes)

get_output_amount_lem :
    (c : ApiCtx) (outputs i : ℕ)
    → c.essence.outputs ≡ some outputs
    → c.protocol ≡ AppMode.protocol_stardust
    → i < c.essence.outputs_count
    → outputs + sizeof_basic_output * c.essence.outputs_count ≤ length c.api_data.buffer
    → get_output_amount c i ≡ ok (amount_at c.api_data.buffer outputs i)
unfolding get_output_amount
get_output_amount_lem c outputs i at p inside fits =
    let reads =
      read_in_range c.api_data.buffer (outputs + sizeof_basic_output * i + offset_amount) 8
        (omega (arith, inside, fits)) in
    ground arith

-- An output of the essence, with an amount, in the buffer.
pub record IsShown (c : ApiCtx) (outputs i : ℕ) : Type 0 where
  pub outputs_at : c.essence.outputs ≡ some outputs
  pub stardust : c.protocol ≡ AppMode.protocol_stardust
  pub has_coin : c.coin ≡ AppMode.coin_iota ⊎ c.coin ≡ AppMode.coin_shimmer
  pub fits : outputs + sizeof_basic_output * c.essence.outputs_count ≤ length c.api_data.buffer
  pub few : c.essence.outputs_count ≤ 128
  pub inside : i < c.essence.outputs_count
  pub some_amount : amount_at c.api_data.buffer outputs i ≢ 0

get_amount_lem :
    (sdk : Sdk) (c : ApiCtx) (outputs i n : ℕ)
    → IsShown c outputs i
    → get_amount sdk c i n
      ≡ format_value_full_decimals sdk n (amount_at c.api_data.buffer outputs i)
unfolding get_amount
get_amount_lem sdk c outputs i n h =
    let same : u8 i ≡ i = omega (arith, h.few, h.inside) in
    let is = get_output_amount_lem c outputs i h.outputs_at h.stardust h.inside h.fits in
    rw (same, is) (ground arith)

abbrev pub amount_header : ℕ → List ℕ
amount_header coin =
    if coin == AppMode.coin_shimmer then codes "Amount SMR" else codes "Amount IOTA"

module _ (sdk : Sdk) (d : Device) (outputs : ℕ) (s : Scratch) where
  -- In a review of an essence in the buffer: the amount of the output that is shown, if it is below
  -- 10 ^ 18, is the number that the text on the screen reads back to, with six digits behind the
  -- point and at least one before it, under a header that names the coin; a larger one throws.
  pub cb_amount_preinit_lem :
      IsShown d.api outputs d.flow_data.read_index
      → let amount = amount_at d.api.api_data.buffer outputs d.flow_data.read_index in
        let (r, s') = cb_amount_preinit sdk d s in
        ((amount < 10 ^ 18)
          × (r ≡ ok tt)
          × ShowsMillionths amount s'.text
          × (s'.header ≡ amount_header d.api.coin))
        ⊎ ((10 ^ 18 ≤ amount) × (r ≡ thrown sdk.invalid_parameter))
  unfolding cb_amount_preinit
  cb_amount_preinit_lem h =
      let i = d.flow_data.read_index in
      let is = get_amount_lem sdk d.api outputs i scratch_size h in
      elim (decimals_lem sdk scratch_size (amount_at d.api.api_data.buffer outputs i)
        (omega arith)) [
          | inl (small, (text, e, shows)) ↦ rw (is, e) (inl (small, refl, shows, ground arith))
          | inr (large, e) ↦ rw (is, e) (inr (large, refl))
        ]

-- The value of a hexadecimal character.
abbrev pub hex_value : ℕ → ℕ
hex_value c = if ltb c b'A' then c - b'0' else c - b'A' + 10

-- The bytes that a hexadecimal text stands for.
unfoldable pub read_hex : List ℕ → List ℕ
read_hex [] = []
read_hex (h ∷ []) = []
read_hex (h ∷ l ∷ cs) = (hex_value h * 2 ^ 4 + hex_value l) ∷ read_hex cs

hex_value-hex_char : (d : ℕ) → d < 2 ^ 4 → hex_value (hex_char d) ≡ d
hex_value-hex_char d h = ground arith

get_or-append : (xs : List ℕ) (y : ℕ) (ys : List ℕ) → get_or (xs ++ (y ∷ ys)) (length xs) 0 ≡ y
get_or-append [] y ys = refl
get_or-append (x ∷ xs) y ys = get_or-append xs y ys

read_hex-hex_digits :
    (before bytes : List ℕ)
    → AreBytes bytes
    → read_hex (hex_digits (before ++ bytes) (length bytes) (length before)) ≡ bytes
unfolding read_hex hex_digits
read_hex-hex_digits before [] h = refl
read_hex-hex_digits before (b ∷ bytes) h =
    let here = get_or-append before b bytes in
    let shifted : length (before ++ (b ∷ [])) ≡ length before + 1 = length-append before (b ∷ []) in
    let joined = append_assoc before (b ∷ []) bytes in
    let behind = read_hex-hex_digits (before ++ (b ∷ [])) bytes h.1 in
    let rest = rw (shifted, joined) at behind in
    let high = hex_value-hex_char (b / 2 ^ 4) (omega (arith, h.0)) in
    let low = hex_value-hex_char (b % 2 ^ 4) (omega arith) in
    let whole : b / 2 ^ 4 * 2 ^ 4 + b % 2 ^ 4 ≡ b = omega arith in
    rw (here, high, low, rest, whole) refl

-- The text on the screen before a blind signature is `0x` with the digits of the stored hash of 32
-- bytes: they read back to it.
pub cb_hash_preinit_lem :
    (d : Device) (s : Scratch)
    → length d.api.essence.hash ≡ 32
    → AreBytes d.api.essence.hash
    → let (r, s') = cb_hash_preinit d s in
      (r ≡ ok tt)
      × ((digits : List ℕ) × (s'.text ≡ codes "0x" ++ digits)
          × (read_hex digits ≡ d.api.essence.hash))
unfolding cb_hash_preinit
cb_hash_preinit_lem d s full are =
    let hash = d.api.essence.hash in
    let read : read_hex (hex_digits hash 32 0) ≡ hash =
      subst (λ n. read_hex (hex_digits hash n 0) ≡ hash) full (read_hex-hex_digits [] hash are) in
    (refl, (hex_digits d.api.essence.hash 32 0, refl, read))
