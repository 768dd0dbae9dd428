-- ===== src/Consent/Trace.antt =====
-- Every run of the app: packets from the host and acts of the user, in any order.
use ledger_iota_app.Prelude.{
  ℕ, ◌≡◌, ◌≢◌, ◌⊎◌, inl, inr, refl, sym, ◌∙◌, Bool, true, false, List, arith, some, Bool-cases, u32,
  ◌+◌,
}
use ledger_iota_app.Constants.{Build}
use ledger_iota_app.Types.{ApiCtx, user_confirmed_essence}
use ledger_iota_app.Sdk.{Sdk}
use ledger_iota_app.Device.{Device, io_send, api_user_confirm_essence_accepted}
use ledger_iota_app.Api.Confirm.{call_accept, call_reject, call_timeout}
use ledger_iota_app.Ui.Events.{
  Event, accept, reject, switch, next_dataset, prev_dataset, back, continue_claiming,
  settings_enter, toggle_blindsigning, settings_back, ticker, shown, unprepared, offers, cb_accept,
  cb_reject, cb_switch, cb_next_dataset, cb_prev_dataset, expire, flow_timer_event, timer_event,
  run_event, ui_event,
}
use ledger_iota_app.Main.{round}
use ledger_iota_app.Consent.{SameContent, Quiet}
use ledger_iota_app.Consent.Commands.{Asks, clear_data_empties, api_sent}
use ledger_iota_app.Consent.Rounds.{round-Quiet, catch_other-Quiet, Quiet-refl}

-- The press on a step to accept while the review of an essence is on.
pub record Accepts (d : Device) (e : Event) : Type 0 where
  pub is_accept : e ≡ accept
  pub offered : offers d.screen accept ≡ true
  pub reviewing : d.flow_data.accept_cb ≡ some api_user_confirm_essence_accepted

abbrev pub Kept : ApiCtx → ApiCtx → Type 0
Kept c c' = (c'.essence ≡ c.essence) × (c'.api_data.buffer ≡ c.api_data.buffer)

cb_accept_lem :
    (sdk : Sdk) (d : Device)
    → Quiet d.api (cb_accept sdk d).1.api
      ⊎ ((d.flow_data.accept_cb ≡ some api_user_confirm_essence_accepted)
          × Kept d.api (cb_accept sdk d).1.api)
unfolding cb_accept call_accept io_send
cb_accept_lem sdk d = ground arith

cb_reject-Quiet : (b : Build) (sdk : Sdk) (d : Device) → Quiet d.api (cb_reject b sdk d).1.api
unfolding cb_reject call_reject
cb_reject-Quiet b sdk d = grind (arith, clear_data_empties, api_sent)

expire-Quiet : (b : Build) (sdk : Sdk) (d : Device) → Quiet d.api (expire b sdk d).1.api
unfolding expire call_timeout
expire-Quiet b sdk d = grind (arith, clear_data_empties, api_sent)

flow_timer_event-Quiet :
    (b : Build) (sdk : Sdk) (d : Device) → Quiet d.api (flow_timer_event b sdk d).1.api
unfolding flow_timer_event
flow_timer_event-Quiet b sdk d = ground (arith, expire-Quiet b sdk d)

timer_event-Quiet : (b : Build) (sdk : Sdk) (d : Device) → Quiet d.api (timer_event b sdk d).1.api
unfolding timer_event
timer_event-Quiet b sdk d =
    flow_timer_event-Quiet b sdk (record d { timer_events = u32 (d.timer_events + 1) })

abbrev Outcome : Build → Sdk → Event → Device → Type 0
Outcome b sdk e d =
    Quiet d.api (run_event b sdk e d).1.api
    ⊎ ((e ≡ accept)
        × (d.flow_data.accept_cb ≡ some api_user_confirm_essence_accepted)
        × Kept d.api (run_event b sdk e d).1.api)

run_event_lem : (b : Build) (sdk : Sdk) (e : Event) (d : Device) → Outcome b sdk e d
unfolding run_event cb_switch cb_next_dataset cb_prev_dataset
run_event_lem b sdk accept d = ground (arith, cb_accept_lem sdk d)
run_event_lem b sdk reject d = inl (cb_reject-Quiet b sdk d)
run_event_lem b sdk switch d = ground arith
run_event_lem b sdk next_dataset d = ground arith
run_event_lem b sdk prev_dataset d = ground arith
run_event_lem b sdk back d = ground arith
run_event_lem b sdk continue_claiming d = ground arith
run_event_lem b sdk settings_enter d = ground arith
run_event_lem b sdk toggle_blindsigning d = ground arith
run_event_lem b sdk settings_back d = ground arith
run_event_lem b sdk ticker d = inl (timer_event-Quiet b sdk d)
run_event_lem b sdk shown d = ground arith
run_event_lem b sdk (unprepared e) d = inl (catch_other-Quiet b sdk e d)

ui_event_lem :
    (b : Build) (sdk : Sdk) (e : Event) (d : Device)
    → Quiet d.api (ui_event b sdk e d).1.api ⊎ (Accepts d e × Kept d.api (ui_event b sdk e d).1.api)
unfolding ui_event
ui_event_lem b sdk e d = elim (Bool-cases (offers d.screen e)) [
  | inl on ↦ rw on (elim (run_event_lem b sdk e d) [
    | inl q ↦ inl q
    | inr (is, reviewing, kept) ↦
        let on' : offers d.screen accept ≡ true = rw is at on in
        inr (record { is_accept = is; offered = on'; reviewing = reviewing }, kept)
  ])
  | inr off ↦ rw off (inl (Quiet-refl d.api))
]

-- One step of the app.
pub data Step (b : Build) (sdk : Sdk) (d : Device) : Device → Type 0 where
  packet : (bytes : List ℕ) (is_locked : Bool) → Step b sdk d (round b sdk bytes is_locked d).1
  event : (e : Event) → Step b sdk d (ui_event b sdk e d).1

-- What the app can come to from a state.
pub data Reach (b : Build) (sdk : Sdk) (start : Device) : Device → Type 0 where
  stay : Reach b sdk start start
  go : {d d' : Device} → Reach b sdk start d → Step b sdk d d' → Reach b sdk start d'

-- On the run, the user pressed a step to accept while the review of an essence was on; the press
-- left the essence and the buffer and made the essence a confirmed one; and every step of the run since
-- has left the type, the essence and the buffer.
pub data Consented (b : Build) (sdk : Sdk) (start : Device)
    : (d : Device) → Reach b sdk start d → Type 0 where
  pressed :
      {d : Device} (r : Reach b sdk start d) (e : Event)
      → Accepts d e
      → Kept d.api (ui_event b sdk e d).1.api
      → (ui_event b sdk e d).1.api.api_data.type ≡ user_confirmed_essence
      → Consented b sdk start (ui_event b sdk e d).1 (go r (event e))
  since :
      {d d' : Device} {r : Reach b sdk start d} (s : Step b sdk d d')
      → Consented b sdk start d r
      → SameContent d.api d'.api
      → Consented b sdk start d' (go r s)

Consented-Quiet :
    (b : Build) (sdk : Sdk) (start d d' : Device) (r : Reach b sdk start d) (s : Step b sdk d d')
    → (d.api.api_data.type ≡ user_confirmed_essence → Consented b sdk start d r)
    → Quiet d.api d'.api
    → d'.api.api_data.type ≡ user_confirmed_essence
    → Consented b sdk start d' (go r s)
Consented-Quiet b sdk start d d' r s ih (inl n) e = absurd (n e)
Consented-Quiet b sdk start d d' r s ih (inr same) e = since s (ih (sym same.same_type ∙ e)) same

Asks-release : (b : Build) (c : ApiCtx) → b.app_debug ≡ false → Asks b c
Asks-release b c h = rw h refl

-- In a build without the debug commands, from a state in which no essence is confirmed: whatever
-- packets the host sends and whatever the user and the timer do, an essence is confirmed at the end of
-- a run only if the user has pressed on that run a step to accept, in a review of an essence, and no
-- step since has changed the type, the essence or the buffer.
pub consent_lem :
    (b : Build) (sdk : Sdk) (start d : Device)
    → b.app_debug ≡ false
    → start.api.api_data.type ≢ user_confirmed_essence
    → (r : Reach b sdk start d) → d.api.api_data.type ≡ user_confirmed_essence
    → Consented b sdk start d r
consent_lem b sdk start d release fresh stay e = absurd (fresh e)
consent_lem b sdk start d release fresh (go {d = d0} r (packet bytes l)) e =
    Consented-Quiet b sdk start d0 _ r (packet bytes l) (consent_lem b sdk start d0 release fresh r)
      (round-Quiet b sdk bytes l d0 (Asks-release b d0.api release)) e
consent_lem b sdk start d release fresh (go {d = d0} r (event ev)) e =
    elim (ui_event_lem b sdk ev d0) [
      | inl q ↦
          Consented-Quiet b sdk start d0 _ r (event ev) (consent_lem b sdk start d0 release fresh r)
            q e
      | inr (a, kept) ↦ pressed r ev a kept e
    ]
