-- ===== src/Ui.antt =====
-- The flows of src/ui/nano: how a flow starts and ends, and which output it shows. The layout of
-- the screens and the moves inside one flow belong to the SDK.
pub mod Events
pub mod Steps
pub mod Screens
pub mod Shown
pub mod Review
pub mod Acceptance
use ledger_iota_app.Prelude.{
  ℕ, zero, suc, ◌+◌, ◌-◌, Bool, true, false, not, ◌&&◌, ◌||◌, Option, none, some, ltb, leb, ◌==◌,
  if◌then◌else◌, ◌≡◌, arith,
}
use ledger_iota_app.Constants.AppMode
use ledger_iota_app.Types.{ApiCtx, Essence}
use ledger_iota_app.Device.{
  Device, FlowData, Flow, AcceptCb, RejectCb, TimeoutCb, ux_main_menu, ux_flow_new_address,
  ux_flow_base, ux_flow_has_accept_reject, ux_flow_smr_claiming_start, ux_flow_internal_transfer,
  ux_flow_blindsigning, ux_flow_bs_not_enabled, ux_flow_generating_addresses, ux_flow_signing,
}
use ledger_iota_app.Nv.{nv_get_blindsigning}

abbrev pub flow_cleared : FlowData
flow_cleared = record {
  flow_outputs_index_current = 0;
  accept_cb = none;
  reject_cb = none;
  timeout_cb = none;
  read_index = 0;
  num_non_remainder_outputs = 0;
  flow_timer_start = 0;
  flow_active = 0;
}

abbrev pub flow_init : Device → Device
flow_init d = record d { flow_data = flow_cleared }

abbrev pub ux_flow_init : Flow → Device → Device
ux_flow_init f d = record d { screen = f }

abbrev pub flow_main_menu : Device → Device
flow_main_menu = ux_flow_init ux_main_menu

abbrev pub flow_stop : Device → Device
flow_stop d = flow_main_menu (flow_init d)

abbrev pub flow_start_user_confirm :
    Option AcceptCb → Option RejectCb → Option TimeoutCb → Device → Device
flow_start_user_confirm accept reject timeout d = record d {
  flow_data = record flow_cleared {
    accept_cb = accept;
    reject_cb = reject;
    timeout_cb = timeout;
    flow_timer_start = d.timer_events;
    flow_active = 1;
  };
}

abbrev pub flow_start_new_address : Option AcceptCb → Option TimeoutCb → Device → Device
flow_start_new_address accept timeout d =
    ux_flow_init ux_flow_new_address (flow_start_user_confirm accept none timeout d)

abbrev pub flow_generating_addresses : Device → Device
flow_generating_addresses = ux_flow_init ux_flow_generating_addresses

abbrev pub flow_signing : Device → Device
flow_signing = ux_flow_init ux_flow_signing

-- The output shown for a place in the review: the remainder is skipped.
pub read_index_of : Essence → ℕ → ℕ
read_index_of e current =
    if e.has_remainder == 0
    then current
    else if leb e.remainder_index current
    then current + 1
    else current

abbrev pub get_read_index : Device → Device
get_read_index d = record d {
  flow_data = record d.flow_data {
    read_index = read_index_of d.api.essence d.flow_data.flow_outputs_index_current;
  };
}

-- `!!x`
abbrev pub as_flag : ℕ → ℕ
as_flag x = if x == 0 then 0 else 1

-- The flow data are set before the kind of transaction is told apart. The subtraction does not go
-- below 0, since a validated essence has an output.
unfoldable pub flow_start_user_confirm_transaction :
    Option AcceptCb → Option RejectCb → Option TimeoutCb → Device → Device
flow_start_user_confirm_transaction accept reject timeout d =
    let started = flow_start_user_confirm accept reject timeout d in
    let e = d.api.essence in
    let counted = record started {
      flow_data = record started.flow_data {
        flow_outputs_index_current = 0;
        num_non_remainder_outputs = e.outputs_count - as_flag e.has_remainder;
      };
    } in
    if not (e.is_internal_transfer == 0) || (not (e.has_remainder == 0) && e.outputs_count == 1)
    then ux_flow_init ux_flow_internal_transfer counted
    else let indexed = get_read_index counted in
      if d.api.app_mode == AppMode.shimmer_claiming
      then ux_flow_init ux_flow_smr_claiming_start indexed
      else ux_flow_init ux_flow_base indexed

unfoldable pub flow_start_blindsigning :
    Option AcceptCb → Option RejectCb → Option TimeoutCb → Device → Device
flow_start_blindsigning accept reject timeout d =
    let started = flow_start_user_confirm accept reject timeout d in
    if nv_get_blindsigning started == 0
    then ux_flow_init ux_flow_bs_not_enabled started
    else ux_flow_init ux_flow_blindsigning started

-- Starting a flow leaves the context alone.
pub api-flow_start_user_confirm_transaction :
    (accept : Option AcceptCb) (reject : Option RejectCb) (timeout : Option TimeoutCb) (d : Device)
    → (flow_start_user_confirm_transaction accept reject timeout d).api ≡ d.api
unfolding flow_start_user_confirm_transaction
api-flow_start_user_confirm_transaction accept reject timeout d = ground arith

pub api-flow_start_blindsigning :
    (accept : Option AcceptCb) (reject : Option RejectCb) (timeout : Option TimeoutCb) (d : Device)
    → (flow_start_blindsigning accept reject timeout d).api ≡ d.api
unfolding flow_start_blindsigning
api-flow_start_blindsigning accept reject timeout d = ground arith
