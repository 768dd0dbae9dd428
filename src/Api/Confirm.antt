-- ===== src/Api/Confirm.antt =====
-- `api_user_confirm_essence` of src/api.c, and the functions that a flow calls back.
use ledger_iota_app.Prelude.{
  Bool, true, false, not, ◌&&◌, ◌||◌, some, [], get_or, ltb, leb, ◌==◌, test_bit, if◌then◌else◌,
}
use ledger_iota_app.Exec.{Exec, ◌>>=◌, ◌>>◌, pure, gets, throw_if, modify}
use ledger_iota_app.Constants.{
  Build, Target, api_buffer_size_bytes, inputs_min_count, inputs_max_count_stardust,
}
use ledger_iota_app.Constants.Status
use ledger_iota_app.Constants.Bip32
use ledger_iota_app.Constants.AppMode
use ledger_iota_app.Types.{
  ApiCtx, DataType, validated_essence, user_confirmed_essence, generated_addresses,
}
use ledger_iota_app.Sdk.{Sdk}
use ledger_iota_app.Device.{
  Device, AcceptCb, RejectCb, TimeoutCb, modify_api, io_send, api_generate_address_accepted,
  api_generate_address_timeout, api_user_confirm_essence_accepted,
  api_user_confirm_essence_rejected, api_user_confirm_essence_timeout,
}
use ledger_iota_app.Ui.{flow_start_user_confirm_transaction, flow_start_blindsigning}
use ledger_iota_app.Api.Core.{Answer, answered, io_asynch_reply, set_path, api_clear_data}
use ledger_iota_app.Api.Buffer.{set_data_type}

-- The functions passed to the flows.
unfoldable pub call_accept : Sdk → AcceptCb → Exec Device (Unit {0})
call_accept sdk api_generate_address_accepted = do
  modify_api (set_data_type generated_addresses)
  io_send sdk [] Status.ok
call_accept sdk api_user_confirm_essence_accepted = do
  modify_api (set_data_type user_confirmed_essence)
  io_send sdk [] Status.ok

unfoldable pub call_reject : Build → Sdk → RejectCb → Exec Device (Unit {0})
call_reject b sdk api_user_confirm_essence_rejected = do
  api_clear_data b
  io_send sdk [] Status.denied_by_user

unfoldable pub call_timeout : Build → Sdk → TimeoutCb → Exec Device (Unit {0})
call_timeout b sdk api_generate_address_timeout = do
  api_clear_data b
  io_send sdk [] Status.command_timeout
call_timeout b sdk api_user_confirm_essence_timeout = do
  api_clear_data b
  io_send sdk [] Status.command_timeout

abbrev pub is_validated : DataType → Bool
is_validated validated_essence = true
is_validated _ = false

-- The basic checks that confirming and signing share.
abbrev pub is_inconsistent : Target → ApiCtx → Bool
is_inconsistent t api =
    leb (api_buffer_size_bytes t) api.api_data.length
    || (leb (api_buffer_size_bytes t) api.essence.length
        || (ltb api.api_data.length api.essence.length
            || (ltb api.essence.inputs_count inputs_min_count
                || (api.protocol == AppMode.protocol_stardust
                    && ltb inputs_max_count_stardust api.essence.inputs_count))))

-- The non-interactive debug mode asks nobody.
unfoldable pub confirm_at_once : Sdk → Exec Device Answer
confirm_at_once sdk = do
  modify_api (set_data_type user_confirmed_essence)
  io_send sdk [] Status.ok
  pure answered

unfoldable pub start_flow : (Device → Device) → Exec Device Answer
start_flow start = do
  modify_api (λ c. record c { flow_locked = 1 })
  modify start
  pure io_asynch_reply

-- What the two branches share.
unfoldable pub confirm_by : Build → Sdk → (Device → Device) → Exec Device Answer
confirm_by b sdk start = do
  non_interactive_mode ← gets (λ d. d.api.non_interactive_mode)
  if b.app_debug && not (non_interactive_mode == 0) then confirm_at_once sdk else start_flow start

unfoldable pub confirm_transaction : Build → Sdk → Exec Device Answer
confirm_transaction b sdk = do
  api ← gets (λ d. d.api)
  throw_if (is_inconsistent b.target api) Status.unknown
  modify_api (set_path Bip32.address_index api.essence.remainder_bip32.bip32_index)
  modify_api (set_path Bip32.change_index api.essence.remainder_bip32.bip32_change)
  confirm_by b sdk (
      flow_start_user_confirm_transaction (some api_user_confirm_essence_accepted)
        (some api_user_confirm_essence_rejected) (some api_user_confirm_essence_timeout))

unfoldable pub confirm_blindly : Build → Sdk → Exec Device Answer
confirm_blindly b sdk = confirm_by b sdk (
    flow_start_blindsigning (some api_user_confirm_essence_accepted)
      (some api_user_confirm_essence_rejected) (some api_user_confirm_essence_timeout))

unfoldable pub api_user_confirm_essence : Build → Sdk → Exec Device Answer
api_user_confirm_essence b sdk = do
  api ← gets (λ d. d.api)
  throw_if (not (api.flow_locked == 0)) Status.command_not_allowed
  throw_if (not (is_validated api.api_data.type)) Status.command_not_allowed
  throw_if (not (test_bit (get_or api.bip32_path Bip32.account_index 0) 31))
      Status.account_not_valid
  if api.essence.blindsigning == 0 then confirm_transaction b sdk else confirm_blindly b sdk
