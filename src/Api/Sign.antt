-- ===== src/Api/Sign.antt =====
-- `api_sign` of src/api.c: the unlock block of one input of the confirmed essence.
use ledger_iota_app.Prelude.{ℕ, Bool, true, false, not, ltb, leb}
use ledger_iota_app.Exec.{Exec, ◌>>=◌, ◌>>◌, pure, gets, throw_if, modify, or_throw}
use ledger_iota_app.Constants.{Build}
use ledger_iota_app.Constants.Status
use ledger_iota_app.Types.{DataType, user_confirmed_essence}
use ledger_iota_app.Sdk.{Sdk}
use ledger_iota_app.Signing.{sign, sizeof_signature_unlock_block}
use ledger_iota_app.Device.{Device, on_api, io_send}
use ledger_iota_app.Ui.{flow_signing}
use ledger_iota_app.Api.Core.{Answer, answered}
use ledger_iota_app.Api.Confirm.{is_inconsistent}

abbrev pub is_confirmed : DataType → Bool
is_confirmed user_confirmed_essence = true
is_confirmed _ = false

unfoldable pub api_sign : Build → Sdk → ℕ → Exec Device Answer
api_sign b sdk p1 = do
  api ← gets (λ d. d.api)
  throw_if (not (is_confirmed api.api_data.type)) Status.command_not_allowed
  throw_if (is_inconsistent b.target api) Status.unknown
  throw_if (leb api.essence.inputs_count p1) Status.incorrect_p1p2
  throw_if (ltb sdk.io_apdu_buffer_size sizeof_signature_unlock_block) Status.unknown
  modify flow_signing
  output ← or_throw Status.unknown (on_api (sign sdk p1))
  io_send sdk output Status.ok
  pure answered
