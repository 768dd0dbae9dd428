-- ===== src/Tests/Parsing.antt =====
-- The theorems on the parsers, on an essence.
use ledger_iota_app.Prelude.{◌+◌, ◌*◌, ◌≡◌, ◌⊎◌, refl, some, slice, le, arith}
use ledger_iota_app.Exec.{ok, fail}
use ledger_iota_app.Exec.Laws.{Settles}
use ledger_iota_app.Constants.{target_nanos}
use ledger_iota_app.Types.{sizeof_utxo_input}
use ledger_iota_app.Reader.{records}
use ledger_iota_app.Essence.{validate_inputs_duplicates, validate_outputs}
use ledger_iota_app.Essence.Duplicates.{Distinct, Decides, validate_inputs_duplicates_lem}
use ledger_iota_app.Essence.Validators.{OutputsAt, outputs_read, validate_outputs_lem}
use ledger_iota_app.Parse.{parse_layout, essence_parse_and_validate_stardust}
use ledger_iota_app.Parse.Layout.{IsEssence, parsed, parse_layout_lem, essence_end}
use ledger_iota_app.Parse.Whole.{IsAccepted, essence_parse_lem}
use ledger_iota_app.Blindsigning.{parse_and_validate_blindsigning}
use ledger_iota_app.Blindsigning.Layout.{
  IsBlind, parsed_blindly, parse_and_validate_blindsigning_lem,
}
use ledger_iota_app.Tests.{sdk, context, filled, filled_length, filled-AreBytes}

parse_layout_example :
    Settles (IsEssence target_nanos filled) tt (parsed context) (parse_layout target_nanos context)
parse_layout_example = parse_layout_lem target_nanos context filled_length filled-AreBytes

essence_parse_example :
    ((essence_parse_and_validate_stardust target_nanos sdk context).0 ≡ ok tt
      × IsAccepted target_nanos sdk context
      × (sdk.blake2b (slice 0 (essence_end filled) filled)
          ≡ some (essence_parse_and_validate_stardust target_nanos sdk context).1.essence.hash))
    ⊎ ((essence_parse_and_validate_stardust target_nanos sdk context).0 ≡ fail
        × ¬ (IsAccepted target_nanos sdk context))
essence_parse_example =
    essence_parse_lem target_nanos sdk context filled_length filled-AreBytes refl

duplicates_example :
    Decides
      (Distinct (records filled sizeof_utxo_input 11 2))
      (validate_inputs_duplicates filled (some 11) 2)
duplicates_example = validate_inputs_duplicates_lem filled 11 2 (omega (arith, filled_length))

parse_and_validate_blindsigning_example :
    Settles
      (IsBlind target_nanos filled)
      tt
      (parsed_blindly context)
      (parse_and_validate_blindsigning target_nanos context)
parse_and_validate_blindsigning_example =
    parse_and_validate_blindsigning_lem target_nanos context filled_length

validate_outputs_example :
    Settles
      (OutputsAt target_nanos context filled_length 78 (le (slice 78 2 filled)))
      (78 + 2 + 46 * le (slice 78 2 filled))
      (outputs_read target_nanos context filled_length 78 (le (slice 78 2 filled)))
      (validate_outputs target_nanos 78 context)
validate_outputs_example =
    validate_outputs_lem target_nanos context filled_length 78 filled-AreBytes (omega arith)
