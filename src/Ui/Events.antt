-- ===== src/Ui/Events.antt =====
-- What the user and the timer do to a running flow: the callbacks of
-- src/ui/nano/flow_user_confirm_transaction.c and its neighbours, and the ticker of src/main.c. The
-- SDK calls such a function only for a step of the flow on the screen.
use ledger_iota_app.Prelude.{
  ℕ, zero, suc, ◌+◌, ◌-◌, ◌^◌, Bool, true, false, not, ◌&&◌, Option, none, some, u32, leb, ◌==◌,
  if◌then◌else◌,
}
use ledger_iota_app.Exec.{ok, Exec, ◌>>=◌, ◌>>◌, pure, gets, modify}
use ledger_iota_app.Constants.{Build}
use ledger_iota_app.Sdk.{Sdk}
use ledger_iota_app.Device.{
  Device, FlowData, Flow, ux_main_menu, ux_flow_settings, ux_flow_generating_addresses,
  ux_flow_signing, ux_flow_new_address, ux_flow_base, ux_flow_has_accept_reject,
  ux_flow_smr_claiming_start, ux_flow_internal_transfer, ux_flow_blindsigning,
  ux_flow_bs_not_enabled,
}
use ledger_iota_app.Nv.{nv_toggle_blindsigning}
use ledger_iota_app.Ui.{flow_stop, ux_flow_init, get_read_index}
use ledger_iota_app.Api.Confirm.{call_accept, call_reject, call_timeout}
use ledger_iota_app.Main.{catch_other}

-- `if (cb) { cb(); }`
abbrev pub call : {C : Type 0} → (C → Exec Device (Unit {0})) → Option C → Exec Device (Unit {0})
call f none = pure tt
call f (some cb) = f cb

unfoldable pub cb_accept : Sdk → Exec Device (Unit {0})
cb_accept sdk = do
  cb ← gets (λ d. d.flow_data.accept_cb)
  call (call_accept sdk) cb
  modify flow_stop

unfoldable pub cb_reject : Build → Sdk → Exec Device (Unit {0})
cb_reject b sdk = do
  cb ← gets (λ d. d.flow_data.reject_cb)
  call (call_reject b sdk) cb
  modify flow_stop

-- A write to the place in the review.
abbrev pub set_current : ℕ → Device → Device
set_current i d = record d { flow_data = record d.flow_data { flow_outputs_index_current = i } }

abbrev pub is_last : FlowData → Bool
is_last f = suc f.flow_outputs_index_current == f.num_non_remainder_outputs

-- Behind the last output come the steps to accept and to reject.
unfoldable pub cb_switch : Device → Device
cb_switch d =
    if is_last d.flow_data
    then ux_flow_init ux_flow_has_accept_reject d
    else ux_flow_init ux_flow_base d

abbrev pub next_place : ℕ → ℕ → ℕ
next_place n i = if leb n (i + 1) then 0 else i + 1

-- Below 0 the review goes on at its end.
abbrev pub prev_place : ℕ → ℕ → ℕ
prev_place n zero = n - 1
prev_place n (suc i) = i

unfoldable pub cb_next_dataset : Device → Device
cb_next_dataset d =
    let f = d.flow_data in
    ux_flow_init ux_flow_base (
      get_read_index
        (set_current (next_place f.num_non_remainder_outputs f.flow_outputs_index_current) d))

unfoldable pub cb_prev_dataset : Device → Device
cb_prev_dataset d =
    let f = d.flow_data in
    let moved =
      get_read_index
        (set_current (prev_place f.num_non_remainder_outputs f.flow_outputs_index_current) d) in
    if is_last moved.flow_data
    then ux_flow_init ux_flow_has_accept_reject moved
    else ux_flow_init ux_flow_base moved

abbrev pub cb_back : Device → Device
cb_back = ux_flow_init ux_flow_base

abbrev pub cb_continue_claiming : Device → Device
cb_continue_claiming = ux_flow_init ux_flow_base

abbrev pub cb_toggle_blindsigning : Device → Device
cb_toggle_blindsigning d =
    ux_flow_init ux_flow_settings (record d { nv = nv_toggle_blindsigning d.nv })

abbrev pub is_expired : Device → Bool
is_expired d =
    not (d.flow_data.flow_active == 0)
    && leb 1000 (u32 (d.timer_events + 2 ^ 32 - d.flow_data.flow_timer_start))

unfoldable pub expire : Build → Sdk → Exec Device (Unit {0})
expire b sdk = do
  cb ← gets (λ d. d.flow_data.timeout_cb)
  call (call_timeout b sdk) cb
  modify flow_stop

-- `flow_timer_event`, after 100 s of an active flow
unfoldable pub flow_timer_event : Build → Sdk → Exec Device (Unit {0})
flow_timer_event b sdk = do d ← gets (λ d. d); if is_expired d then expire b sdk else pure tt

-- The ticker event.
unfoldable pub timer_event : Build → Sdk → Exec Device (Unit {0})
timer_event b sdk = do
  modify (λ d. record d { timer_events = u32 (d.timer_events + 1) })
  flow_timer_event b sdk

pub data Event : Type 0 where
  accept reject switch next_dataset prev_dataset back continue_claiming : Event
  settings_enter toggle_blindsigning settings_back ticker shown : Event
  -- the text of a step cannot be prepared: an exception
  unprepared : ℕ → Event

-- The events that the steps of a flow give rise to; the ticker runs under every flow, and `shown`
-- is the end of the two seconds for which a notice stands. The flows with texts that are prepared when
-- their step comes up may fail to prepare one, at any time.
abbrev pub offers : Flow → Event → Bool
offers ux_flow_new_address accept = true
offers ux_flow_has_accept_reject accept = true
offers ux_flow_internal_transfer accept = true
offers ux_flow_blindsigning accept = true
offers ux_flow_has_accept_reject reject = true
offers ux_flow_internal_transfer reject = true
offers ux_flow_blindsigning reject = true
offers ux_flow_bs_not_enabled reject = true
offers ux_flow_smr_claiming_start reject = true
offers ux_flow_base switch = true
offers ux_flow_base next_dataset = true
offers ux_flow_has_accept_reject next_dataset = true
offers ux_flow_base prev_dataset = true
offers ux_flow_has_accept_reject back = true
offers ux_flow_smr_claiming_start continue_claiming = true
offers ux_main_menu settings_enter = true
offers ux_flow_settings toggle_blindsigning = true
offers ux_flow_settings settings_back = true
offers ux_flow_generating_addresses shown = true
offers ux_flow_signing shown = true
offers ux_flow_new_address (unprepared e) = true
offers ux_flow_base (unprepared e) = true
offers ux_flow_blindsigning (unprepared e) = true
offers _ ticker = true
offers _ _ = false

-- An exception from the preparation of a text reaches the loop of src/main.c.
unfoldable pub run_event : Build → Sdk → Event → Exec Device (Unit {0})
run_event b sdk accept = cb_accept sdk
run_event b sdk reject = cb_reject b sdk
run_event b sdk switch = modify cb_switch
run_event b sdk next_dataset = modify cb_next_dataset
run_event b sdk prev_dataset = modify cb_prev_dataset
run_event b sdk back = modify cb_back
run_event b sdk continue_claiming = modify cb_continue_claiming
run_event b sdk settings_enter = modify (ux_flow_init ux_flow_settings)
run_event b sdk toggle_blindsigning = modify cb_toggle_blindsigning
run_event b sdk settings_back = modify (ux_flow_init ux_main_menu)
run_event b sdk shown = modify (ux_flow_init ux_main_menu)
run_event b sdk ticker = timer_event b sdk
run_event b sdk (unprepared e) = catch_other b sdk e

-- An event that the screen does not offer does not happen.
unfoldable pub ui_event : Build → Sdk → Event → Exec Device (Unit {0})
ui_event b sdk e d = if offers d.screen e then run_event b sdk e d else (ok tt, d)
