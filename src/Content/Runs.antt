-- ===== src/Content/Runs.antt =====
-- The context is backed by its buffer in every state of a run, under the flows of src/ui/nano too.
use ledger_iota_app.Prelude.{inr, ◌≤◌, arith, ◌+◌, u32}
use ledger_iota_app.Constants.{Build}
use ledger_iota_app.Sdk.{Sdk}
use ledger_iota_app.Device.{Device, io_send}
use ledger_iota_app.Api.Core.{app_mode_init, api_clear_data}
use ledger_iota_app.Api.Confirm.{call_accept, call_reject, call_timeout}
use ledger_iota_app.Ui.Events.{
  Event, accept, reject, switch, next_dataset, prev_dataset, back, continue_claiming,
  settings_enter, toggle_blindsigning, settings_back, ticker, shown, unprepared, cb_accept,
  cb_reject, cb_switch, cb_next_dataset, cb_prev_dataset, expire, flow_timer_event, timer_event,
  run_event, ui_event,
}
use ledger_iota_app.Main.{io_initialize, iota_main_start, start}
use ledger_iota_app.Safety.{IsSdk}
use ledger_iota_app.Safety.Runs.{Runs}
use ledger_iota_app.Safety.Invariants.{catch_other-keeps, invariant_lem}
use ledger_iota_app.Content.{IsBacked, no_inputs}
use ledger_iota_app.Content.Commands.{initialize_no_inputs, clear_data_no_inputs}
use ledger_iota_app.Content.Rounds.{switch-LeavesBacked}

module _ (b : Build) (sdk : Sdk) where
  -- Wiping the data keeps nothing to sign.
  wiped-IsBacked : (d : Device) → IsBacked b.target sdk (api_clear_data b d).1.api
  wiped-IsBacked d = no_inputs b.target sdk _ (clear_data_no_inputs b d)

  -- The user's acceptance changes only the type, and not to that of a free buffer.
  accept-IsBacked :
      (d : Device) → IsBacked b.target sdk d.api → IsBacked b.target sdk (cb_accept sdk d).1.api
  unfolding cb_accept call_accept io_send
  accept-IsBacked d s = let backed = s.backed in ground arith

  reject-IsBacked :
      (d : Device) → IsBacked b.target sdk d.api → IsBacked b.target sdk (cb_reject b sdk d).1.api
  unfolding cb_reject call_reject io_send
  reject-IsBacked d s = let clear = wiped-IsBacked d in ground arith

  expire-IsBacked :
      (d : Device) → IsBacked b.target sdk d.api → IsBacked b.target sdk (expire b sdk d).1.api
  unfolding expire call_timeout io_send
  expire-IsBacked d s = let clear = wiped-IsBacked d in ground arith

  timer_event-IsBacked :
      (d : Device) → IsBacked b.target sdk d.api → IsBacked b.target sdk (timer_event b sdk d).1.api
  unfolding timer_event flow_timer_event
  timer_event-IsBacked d s =
      let d' : Device = record d { timer_events = u32 (d.timer_events + 1) } in
      let e = expire-IsBacked d' s in ground arith

  run_event-IsBacked :
      (e : Event) (d : Device)
      → IsBacked b.target sdk d.api
      → IsBacked b.target sdk (run_event b sdk e d).1.api
  unfolding run_event cb_switch cb_next_dataset cb_prev_dataset
  run_event-IsBacked accept d s = accept-IsBacked d s
  run_event-IsBacked reject d s = reject-IsBacked d s
  run_event-IsBacked switch d s = ground arith
  run_event-IsBacked next_dataset d s = ground arith
  run_event-IsBacked prev_dataset d s = ground arith
  run_event-IsBacked back d s = s
  run_event-IsBacked continue_claiming d s = s
  run_event-IsBacked settings_enter d s = s
  run_event-IsBacked toggle_blindsigning d s = s
  run_event-IsBacked settings_back d s = s
  run_event-IsBacked ticker d s = timer_event-IsBacked d s
  run_event-IsBacked shown d s = s
  run_event-IsBacked (unprepared e) d s =
      catch_other-keeps b sdk (λ d. IsBacked b.target sdk d.api)
        (λ d. no_inputs b.target sdk _ (initialize_no_inputs b (app_mode_init b.app) 0 d))
        (λ d sent h. h) e d (inr s)

  pub ui_event-IsBacked :
      (e : Event) (d : Device)
      → IsBacked b.target sdk d.api
      → IsBacked b.target sdk (ui_event b sdk e d).1.api
  unfolding ui_event
  ui_event-IsBacked e d s = let runs = run_event-IsBacked e d s in ground arith

  pub start-IsBacked : (d : Device) → IsBacked b.target sdk (start b d).1.api
  unfolding start iota_main_start io_initialize
  start-IsBacked d = no_inputs b.target sdk _ (initialize_no_inputs b (app_mode_init b.app) 0 _)

-- With room for a status word and a hash function that gives 32 bytes: in every state of a run, either
-- the context has no inputs; or its buffer holds an essence that the app can sign, with distinct
-- inputs, and the counts, the pointers and the hash stored are those of that essence, and the
-- remainder, if there is one, is among its outputs; or the buffer holds a hash to sign blindly, with
-- the counts and the hash stored. While the buffer is free to be written, there are no inputs.
pub content_lem :
    (b : Build) (sdk : Sdk) (d : Device)
    → 2 ≤ sdk.io_apdu_buffer_size
    → IsSdk sdk
    → Runs b sdk d
    → IsBacked b.target sdk d.api
content_lem b sdk d room k r =
    invariant_lem b sdk (λ d. IsBacked b.target sdk d.api)
      (λ d. no_inputs b.target sdk _ (initialize_no_inputs b (app_mode_init b.app) 0 d))
      (λ d sent h. h) (switch-LeavesBacked b sdk) (start-IsBacked b sdk) (ui_event-IsBacked b sdk)
      room k d r
