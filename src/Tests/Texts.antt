-- ===== src/Tests/Texts.antt =====
-- The theorems on texts, on a device that shows an output of 256 units and on the hash of its essence.
use ledger_iota_app.Prelude.{
  drop, length, get_or, ℕ, ◌+◌, ◌/◌, ◌^◌, ◌<◌, ◌≤◌, ◌≡◌, ◌⊎◌, refl, inr, List, [], ◌∷◌, ◌++◌, some,
  replicate, All-replicate, IsByte, arith, slice, le,
}
use ledger_iota_app.Exec.{ok, thrown}
use ledger_iota_app.Device.{Device}
use ledger_iota_app.Text.{codes, snprintf, print_u}
use ledger_iota_app.Text.Numbers.{
  format_value_full_decimals, format_value_short, shorten, iota_units,
}
use ledger_iota_app.Text.Short.{IsShortened, short_text, shorten_lem, format_value_short_lem}
use ledger_iota_app.Text.Amounts.{ShowsMillionths, decimals_lem}
use ledger_iota_app.Text.Paths.{bip32_line_length, format_bip32, format_bip32_with_line_breaks}
use ledger_iota_app.Text.Lines.{line_breaks_le}
use ledger_iota_app.Text.Wrap.{path_text}
use ledger_iota_app.Text.Whole.{line, format_bip32_lem}
use ledger_iota_app.Ui.Screens.{Scratch, cb_amount_preinit, cb_hash_preinit}
use ledger_iota_app.Ui.Shown.{
  IsShown, amount_at, amount_header, read_hex, cb_amount_preinit_lem, cb_hash_preinit_lem,
}
use ledger_iota_app.Tests.{sdk, context, device, filled, filled_length}

decimals_example :
    ((1234567 < 10 ^ 18)
      × ((text : List ℕ) × (format_value_full_decimals sdk 81 1234567 ≡ ok text)
          × ShowsMillionths 1234567 text))
    ⊎ ((10 ^ 18 ≤ 1234567)
        × (format_value_full_decimals sdk 81 1234567 ≡ thrown sdk.invalid_parameter))
decimals_example = decimals_lem sdk 81 1234567 (omega arith)

line_breaks_example :
    (format_bip32_with_line_breaks
      (0x8000002c ∷ 0x8000107b ∷ 0x80000000 ∷ 0x80000000 ∷ 0xffffffff ∷ [])
      81
      (replicate 81 0)).0
    ≤ 69
line_breaks_example = line_breaks_le _ _ 81

abbrev showing : Device
showing = record device {
  api = record context {
    essence = record context.essence { outputs_count = 1; outputs = some 80 };
  };
}

abbrev blank : Scratch
blank = record { text = []; header = [] }

showing-IsShown : IsShown showing.api 80 0
unfolding slice le
showing-IsShown = record {
  outputs_at = refl;
  stardust = refl;
  has_coin = inr refl;
  fits = omega (arith, filled_length);
  few = omega arith;
  inside = omega arith;
  some_amount = λ e. omega (arith, e);
}

cb_amount_preinit_example :
    ((amount_at filled 80 0 < 10 ^ 18)
      × ((cb_amount_preinit sdk showing blank).0 ≡ ok tt)
      × ShowsMillionths (amount_at filled 80 0) (cb_amount_preinit sdk showing blank).1.text
      × ((cb_amount_preinit sdk showing blank).1.header ≡ amount_header 1))
    ⊎ ((10 ^ 18 ≤ amount_at filled 80 0)
        × ((cb_amount_preinit sdk showing blank).0 ≡ thrown sdk.invalid_parameter))
cb_amount_preinit_example = cb_amount_preinit_lem sdk showing 80 blank showing-IsShown

cb_hash_preinit_example :
    ((cb_hash_preinit device blank).0 ≡ ok tt)
    × ((digits : List ℕ) × ((cb_hash_preinit device blank).1.text ≡ codes "0x" ++ digits)
        × (read_hex digits ≡ device.api.essence.hash))
cb_hash_preinit_example =
    cb_hash_preinit_lem device blank refl (All-replicate IsByte 32 0 (omega arith))

abbrev path : List ℕ
path = 0x8000002c ∷ 0x8000107b ∷ 0x80000000 ∷ 0x80000000 ∷ 0xffffffff ∷ []

format_bip32_example :
    (path_text 0 path ≡ line path 0 ++ (line path 1 ++ line path 2))
    × (length (line path 1) ≤ bip32_line_length)
    × (format_bip32 path 1 0 81 (0 ∷ replicate 80 0)
        ≡ (length (line path 1), line path 1 ++ (0 ∷ drop (length (line path 1)) (replicate 80 0))))
format_bip32_example =
    format_bip32_lem path 1 0 81 [] (replicate 80 0) (omega arith) (omega arith) (omega arith)

shorten_example :
    (shorten 8 1234567890 1 ≡ shorten 5 1234567890 1)
    × IsShortened 5 1234567890 1 (shorten 5 1234567890 1)
shorten_example = shorten_lem 3 1234567890 (omega arith)

format_value_short_example :
    let r = format_value_short sdk 81 1234567890 in
    ((1234567890 < 1000)
      × (r ≡ ok (snprintf 81 (print_u 1234567890 ++ (codes " " ++ get_or iota_units 0 [])))))
    ⊎ (((1000 ≤ 1234567890)
          × (1234567890 < 10 ^ 18)
          × ((j : ℕ) × (j ≤ 4)
              × (1000 ≤ 1234567890 / 1000 ^ j)
              × (1234567890 / 1000 ^ j < 10 ^ 6)
              × (r ≡ ok (snprintf 81 (short_text (1234567890 / 1000 ^ j) (1 + j))))))
        ⊎ ((10 ^ 18 ≤ 1234567890) × (r ≡ thrown sdk.invalid_parameter)))
format_value_short_example = format_value_short_lem sdk 81 1234567890 (omega arith)
