-- ===== src/Api/Prepare.antt =====
-- `api_prepare_signing` and `api_prepare_blindsigning` of src/api.c.
pub mod Accepted
use ledger_iota_app.Prelude.{
  ℕ, Bool, true, false, not, ◌&&◌, ◌||◌, Option, none, some, List, [], get_or, length, leb, ◌==◌,
  test_bit, if◌then◌else◌,
}
use ledger_iota_app.Exec.{Result, ok, Exec, ◌>>=◌, ◌>>◌, pure, gets, throw_if, or_throw}
use ledger_iota_app.Constants.{Build, Target, outputs_max_count_stardust}
use ledger_iota_app.Constants.Status
use ledger_iota_app.Constants.Bip32
use ledger_iota_app.Constants.AppMode
use ledger_iota_app.Types.{
  ApiCtx, Essence, Bip32Index, validated_essence, locked, PrepareSigningRequest,
  read_prepare_signing_request, sizeof_prepare_signing_request,
}
use ledger_iota_app.Sdk.{Sdk}
use ledger_iota_app.Essence.{on_essence}
use ledger_iota_app.Parse.{essence_parse_and_validate}
use ledger_iota_app.Blindsigning.{parse_and_validate_blindsigning}
use ledger_iota_app.Device.{Device, on_api, modify_api, io_send}
use ledger_iota_app.Api.Core.{Answer, answered}
use ledger_iota_app.Api.Buffer.{is_empty, set_data_type}

-- The tests that a remainder must pass, in their order.
abbrev pub reject_remainder : ApiCtx → PrepareSigningRequest → Bool
reject_remainder api req =
    api.app_mode == AppMode.shimmer_claiming
    || ((not (test_bit req.remainder_bip32_change 31)
          || not (test_bit req.remainder_bip32_index 31))
        || (api.protocol == AppMode.protocol_stardust
            && leb outputs_max_count_stardust req.remainder_index))

-- The branch on `has_remainder`.
unfoldable pub store_remainder : ℕ → List ℕ → Exec Device (Unit {0})
store_remainder has_remainder bytes =
    if has_remainder == 0 then modify_api (on_essence (λ e. record e { has_remainder = 0 })) else do
      api ← gets (λ d. d.api)
      let req = read_prepare_signing_request bytes
      throw_if (reject_remainder api req) Status.command_invalid_data
      modify_api (
          on_essence (λ e. record e {
            has_remainder = 1;
            remainder_index = req.remainder_index;
            remainder_bip32 = record {
              bip32_index = req.remainder_bip32_index;
              bip32_change = req.remainder_bip32_change;
            };
          }))

-- `if (!essence_parse_and_validate(&api)) { THROW(SW_COMMAND_INVALID_DATA); }`
unfoldable pub parse_transaction : Build → Sdk → Exec Device (Unit {0})
parse_transaction b sdk =
    or_throw Status.command_invalid_data (on_api (essence_parse_and_validate b.target sdk))

unfoldable pub api_prepare_signing : Build → Sdk → ℕ → List ℕ → Exec Device Answer
unfolding store_remainder
api_prepare_signing b sdk has_remainder bytes = do
  api ← gets (λ d. d.api)
  throw_if (not (is_empty api.api_data.type)) Status.command_not_allowed
  modify_api (set_data_type locked)
  throw_if (not (test_bit (get_or api.bip32_path Bip32.account_index 0) 31))
      Status.account_not_valid
  throw_if (not (length bytes == sizeof_prepare_signing_request)) Status.incorrect_length
  store_remainder has_remainder bytes
  modify_api (on_essence (λ e. record e { blindsigning = 0 }))
  parse_transaction b sdk
  modify_api (set_data_type validated_essence)
  io_send sdk [] Status.ok
  pure answered

unfoldable pub api_prepare_blindsigning : Build → Sdk → Exec Device Answer
api_prepare_blindsigning b sdk = do
  api ← gets (λ d. d.api)
  throw_if (not (is_empty api.api_data.type)) Status.command_not_allowed
  throw_if
      (not (api.protocol == AppMode.protocol_stardust) || api.app_mode == AppMode.shimmer_claiming)
      Status.command_not_allowed
  modify_api (set_data_type locked)
  throw_if (not (test_bit (get_or api.bip32_path Bip32.account_index 0) 31))
      Status.account_not_valid
  modify_api (on_essence (λ e. record e { blindsigning = 1 }))
  or_throw Status.command_invalid_data (on_api (parse_and_validate_blindsigning b.target))
  modify_api (set_data_type validated_essence)
  io_send sdk [] Status.ok
  pure answered
