-- ===== src/Safety/Runs.antt =====
-- Every state that the app comes to, from its start in src/main.c on: packets from the host, acts of
-- the user and the ticker, in any order.
use ledger_iota_app.Prelude.{ℕ, ◌≡◌, ◌≤◌, inr, Bool, List, arith, ◌+◌, AreBytes, u32}
use ledger_iota_app.Exec.{Result, ok}
use ledger_iota_app.Constants.{Build}
use ledger_iota_app.Sdk.{Sdk}
use ledger_iota_app.Device.{Device, io_send}
use ledger_iota_app.Api.Core.{Answer, app_mode_init}
use ledger_iota_app.Api.Core.Account.{app_mode_init-IsMode}
use ledger_iota_app.Api.Confirm.{call_accept, call_reject, call_timeout}
use ledger_iota_app.Ui.Events.{
  Event, accept, reject, switch, next_dataset, prev_dataset, back, continue_claiming,
  settings_enter, toggle_blindsigning, settings_back, ticker, shown, unprepared, cb_accept,
  cb_reject, cb_switch, cb_next_dataset, cb_prev_dataset, expire, flow_timer_event, timer_event,
  run_event, ui_event,
}
use ledger_iota_app.Main.{round, io_initialize, iota_main_start, start}
use ledger_iota_app.Safety.{IsSound, IsSdk}
use ledger_iota_app.Safety.Commands.{initialize-IsSound, clear_data-IsSound}
use ledger_iota_app.Safety.Rounds.{round_lem, catch_other-IsSound}

-- The action has succeeded, and left a sound context.
abbrev pub Succeeds : {A : Type 0} → Build → A → Result A × Device → Type 0
Succeeds b a o = (o.0 ≡ ok a) × IsSound b o.1.api

module _ (b : Build) (sdk : Sdk) (room : 2 ≤ sdk.io_apdu_buffer_size) where
  accept-Succeeds : (d : Device) → IsSound b d.api → Succeeds b tt (cb_accept sdk d)
  unfolding cb_accept call_accept io_send
  accept-Succeeds d s = ground arith

  reject-Succeeds : (d : Device) → IsSound b d.api → Succeeds b tt (cb_reject b sdk d)
  unfolding cb_reject call_reject io_send
  reject-Succeeds d s = let clear = clear_data-IsSound b d s in ground arith

  expire-Succeeds : (d : Device) → IsSound b d.api → Succeeds b tt (expire b sdk d)
  unfolding expire call_timeout io_send
  expire-Succeeds d s = let clear = clear_data-IsSound b d s in ground arith

  flow_timer_event-Succeeds :
      (d : Device) → IsSound b d.api → Succeeds b tt (flow_timer_event b sdk d)
  unfolding flow_timer_event
  flow_timer_event-Succeeds d s = let e = expire-Succeeds d s in ground arith

  run_event-Succeeds :
      (e : Event) (d : Device) → IsSound b d.api → Succeeds b tt (run_event b sdk e d)
  unfolding run_event cb_switch cb_next_dataset cb_prev_dataset timer_event
  run_event-Succeeds accept d s = accept-Succeeds d s
  run_event-Succeeds reject d s = reject-Succeeds d s
  run_event-Succeeds switch d s = ground arith
  run_event-Succeeds next_dataset d s = ground arith
  run_event-Succeeds prev_dataset d s = ground arith
  run_event-Succeeds back d s = ground arith
  run_event-Succeeds continue_claiming d s = ground arith
  run_event-Succeeds settings_enter d s = ground arith
  run_event-Succeeds toggle_blindsigning d s = ground arith
  run_event-Succeeds settings_back d s = ground arith
  run_event-Succeeds shown d s = ground arith
  run_event-Succeeds (unprepared e) d s = catch_other-IsSound b sdk e d room (inr s)
  run_event-Succeeds ticker d s =
      flow_timer_event-Succeeds (record d { timer_events = u32 (d.timer_events + 1) }) s

  pub ui_event-Succeeds :
      (e : Event) (d : Device) → IsSound b d.api → Succeeds b tt (ui_event b sdk e d)
  unfolding ui_event
  ui_event-Succeeds e d s = let runs = run_event-Succeeds e d s in ground arith

pub start-Succeeds : (b : Build) (d : Device) → Succeeds b tt (start b d)
unfolding start iota_main_start io_initialize
start-Succeeds b d =
    let init = initialize-IsSound b (app_mode_init b.app) 0 _ (app_mode_init-IsMode b.app) in
    (init.0, init.1)

-- The states of a run.
pub data Runs (b : Build) (sdk : Sdk) : Device → Type 0 where
  started : (d : Device) → Runs b sdk (start b d).1
  packet :
      {d : Device} (bytes : List ℕ) (is_locked : Bool)
      → AreBytes bytes
      → Runs b sdk d
      → Runs b sdk (round b sdk bytes is_locked d).1
  event : {d : Device} (e : Event) → Runs b sdk d → Runs b sdk (ui_event b sdk e d).1

-- With room for a status word and a hash function that gives 32 bytes: every state of a run is sound.
-- A run starts the app and goes on with packets of bytes from the host and events in any order; a
-- sound context has a buffer of the full size that holds bytes, a path of five places, a mode of the
-- app, and at most 128 inputs, whose BIP32 indices lie within the buffer.
pub runs_lem :
    (b : Build) (sdk : Sdk) (d : Device)
    → 2 ≤ sdk.io_apdu_buffer_size
    → IsSdk sdk
    → Runs b sdk d
    → IsSound b d.api
runs_lem b sdk _ room k (started d) = (start-Succeeds b d).1
runs_lem b sdk _ room k (packet {d = d} bytes l are r) =
    (round_lem b sdk bytes l d room k are (runs_lem b sdk d room k r)).1
runs_lem b sdk _ room k (event {d = d} e r) =
    (ui_event-Succeeds b sdk room e d (runs_lem b sdk d room k r)).1

-- With room for a status word and a hash function that gives 32 bytes: in every state of a run, the
-- round for a packet of bytes comes to its end, with an answer or with a flow that is to answer. It
-- reads nothing outside an array, and no exception gets past the loop.
pub run_round_lem :
    (b : Build) (sdk : Sdk) (d : Device) (bytes : List ℕ) (is_locked : Bool)
    → 2 ≤ sdk.io_apdu_buffer_size
    → IsSdk sdk
    → Runs b sdk d
    → AreBytes bytes
    → (a : Answer) × ((round b sdk bytes is_locked d).0 ≡ ok a)
run_round_lem b sdk d bytes l room k r are =
    (round_lem b sdk bytes l d room k are (runs_lem b sdk d room k r)).0

pub run_event_lem :
    (b : Build) (sdk : Sdk) (d : Device) (e : Event)
    → 2 ≤ sdk.io_apdu_buffer_size
    → IsSdk sdk
    → Runs b sdk d
    → (ui_event b sdk e d).0 ≡ ok tt
run_event_lem b sdk d e room k r = (ui_event-Succeeds b sdk room e d (runs_lem b sdk d room k r)).0
