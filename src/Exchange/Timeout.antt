-- ===== src/Exchange/Timeout.antt =====
-- A flow that nobody answers: `flow_timer_event` of src/ui/nano/flow_user_confirm.c, tick by tick.
use mathlib.Core.Path.{subst}
use ledger_iota_app.Prelude.{
  ℕ, zero, suc, ◌+◌, ◌-◌, ◌/◌, ◌%◌, ◌^◌, ◌≡◌, ◌≢◌, ◌≤◌, ◌<◌, ◌∙◌, ap, refl, Bool, true, false, leb,
  List, [], ◌∷◌, none, arith, u32, inl, inr, sym, get_or, ◌⊎◌, AreBytes,
}
use ledger_iota_app.Exec.{ok}
use ledger_iota_app.Constants.{Build}
use ledger_iota_app.Constants.Status
use ledger_iota_app.Types.{empty}
use ledger_iota_app.Sdk.{Sdk}
use ledger_iota_app.Device.{Device, io_send, ux_main_menu}
use ledger_iota_app.Api.Core.{Answer, answered, io_asynch_reply}
use ledger_iota_app.Api.Confirm.{call_timeout}
use ledger_iota_app.Ui.{flow_cleared}
use ledger_iota_app.Ui.Events.{timer_event, flow_timer_event, expire}
use ledger_iota_app.Constants.Ins
use ledger_iota_app.Main.{round}
use ledger_iota_app.Safety.{IsSound, IsSdk}
use ledger_iota_app.Safety.Runs.{Runs, packet, runs_lem}
use ledger_iota_app.Exchange.Clock.{clock_lem}
use ledger_iota_app.Exchange.Rounds.{ExchangedUnless, exchange_lem}
use ledger_iota_app.Safety.Commands.{clear_data-IsSound}
use ledger_iota_app.Consent.Commands.{clear_data_empties}
use ledger_iota_app.Exchange.{AnsweredOnce, IsPending}

-- A number of ticks, in which neither the host nor the user does anything.
unfoldable pub ticks : Build → Sdk → ℕ → Device → Device
ticks b sdk zero d = d
ticks b sdk (suc n) d = (timer_event b sdk (ticks b sdk n d)).1

-- After some ticks, nothing but the counter has changed.
abbrev pub at_tick : ℕ → Device → Device
at_tick n d = record d { timer_events = u32 (d.timer_events + n) }

tick_quiet :
    (b : Build) (sdk : Sdk) (n : ℕ) (d : Device)
    → IsPending d
    → d.timer_events < 2 ^ 32
    → n < 999
    → (timer_event b sdk (at_tick n d)).1 ≡ at_tick (suc n) d
unfolding timer_event flow_timer_event
tick_quiet b sdk n d j word l =
    let start = j.started_now in
    let next : u32 (u32 (d.timer_events + n) + 1) ≡ u32 (d.timer_events + suc n) = omega arith in
    let early : leb 1000
          (u32 (u32 (d.timer_events + suc n) + 2 ^ 32 - d.flow_data.flow_timer_start))
        ≡ false =
      ground arith in
    ground arith

ticks_quiet :
    (b : Build) (sdk : Sdk) (n : ℕ) (d : Device)
    → IsPending d
    → d.timer_events < 2 ^ 32
    → n < 1000
    → ticks b sdk n d ≡ at_tick n d
unfolding ticks
ticks_quiet b sdk zero d j word l =
    let same : u32 (d.timer_events + 0) ≡ d.timer_events = omega arith in rw same refl
ticks_quiet b sdk (suc n) d j word l =
    ap (λ d'. (timer_event b sdk d').1) (ticks_quiet b sdk n d j word (omega (arith, l)))
    ∙ tick_quiet b sdk n d j word (omega (arith, l))

-- The data are gone, the flow has stopped, and the host is told of the timeout.
pub record IsTimedOut (d d' : Device) : Type 0 where
  pub answer_sent :
      d'.sent ≡ (Status.command_timeout / 256 ∷ Status.command_timeout % 256 ∷ []) ∷ d.sent
  pub type_empty : d'.api.api_data.type ≡ empty
  pub flow_stopped : d'.flow_data ≡ flow_cleared
  pub menu_shown : d'.screen ≡ ux_main_menu

expire-IsTimedOut :
    (b : Build) (sdk : Sdk) (d : Device)
    → 2 ≤ sdk.io_apdu_buffer_size
    → IsSound b d.api
    → d.flow_data.timeout_cb ≢ none
    → IsTimedOut d (expire b sdk d).1
unfolding expire call_timeout io_send
expire-IsTimedOut b sdk d room s some_cb =
    let clear = clear_data-IsSound b d s in let gone = clear_data_empties b d in ground arith

last_tick :
    (b : Build) (sdk : Sdk) (d : Device)
    → 2 ≤ sdk.io_apdu_buffer_size
    → IsSound b d.api
    → IsPending d
    → d.timer_events < 2 ^ 32
    → IsTimedOut d (timer_event b sdk (at_tick 999 d)).1
unfolding timer_event flow_timer_event
last_tick b sdk d room s j word =
    let start = j.started_now in
    let next : u32 (u32 (d.timer_events + 999) + 1) ≡ u32 (d.timer_events + 1000) = omega arith in
    let late : leb 1000 (u32 (u32 (d.timer_events + 1000) + 2 ^ 32 - d.flow_data.flow_timer_start))
        ≡ true =
      ground arith in
    let out = expire-IsTimedOut b sdk (at_tick 1000 d) room s j.has_timeout in ground arith

after_tick :
    (b : Build) (sdk : Sdk) (n : ℕ) (d : Device)
    → ticks b sdk n d ≡ at_tick n d
    → IsTimedOut d (timer_event b sdk (at_tick n d)).1
    → IsTimedOut d (ticks b sdk (suc n) d)
unfolding ticks
after_tick b sdk n d e = subst (λ d'. IsTimedOut d (timer_event b sdk d').1) (sym e)

-- The answer to a command that has started a flow comes with the thousandth tick, if nobody answers
-- before.
timeout_lem :
    (b : Build) (sdk : Sdk) (d : Device)
    → 2 ≤ sdk.io_apdu_buffer_size
    → IsSound b d.api
    → IsPending d
    → d.timer_events < 2 ^ 32
    → ((n : ℕ) → n < 1000 → ticks b sdk n d ≡ at_tick n d) × IsTimedOut d (ticks b sdk 1000 d)
timeout_lem b sdk d room s j word = (
  λ n l. ticks_quiet b sdk n d j word l,
  after_tick b sdk 999 d (ticks_quiet b sdk 999 d j word (omega arith))
      (last_tick b sdk d room s j word),
)

-- What an exchange comes to.
settled :
    (b : Build) (sdk : Sdk) (before : List (List ℕ)) (d' : Device) (a : Answer) {Idle : Type 0}
    → 2 ≤ sdk.io_apdu_buffer_size
    → IsSound b d'.api
    → d'.timer_events < 2 ^ 32
    → ¬ Idle
    → ExchangedUnless Idle before (ok a) d'
    → AnsweredOnce before d'.sent
      ⊎ ((d'.sent ≡ before)
          × ((n : ℕ) → n < 1000 → ticks b sdk n d' ≡ at_tick n d')
          × IsTimedOut d' (ticks b sdk 1000 d'))
settled b sdk before d' a room s word busy (inr (idle, _, _)) = elim (busy idle) [ ]
settled b sdk before d' answered room s word busy (inl once) = inl once
settled b sdk before d' io_asynch_reply room s word busy (inl (same, pending)) =
    let (quiet, out) = timeout_lem b sdk d' room s pending word in inr (same, quiet, out)

-- With room for a status word and a hash function that gives 32 bytes:
-- in every state of a run, a packet of bytes other than the instruction that does nothing is answered
-- once, by the end of its round or, when it starts a flow, after a thousand ticks in which neither
-- the host nor the user does anything; before the thousandth tick nothing changes but the counter.
pub answer_lem :
    (b : Build) (sdk : Sdk) (d : Device) (bytes : List ℕ) (is_locked : Bool)
    → 2 ≤ sdk.io_apdu_buffer_size
    → IsSdk sdk
    → Runs b sdk d
    → AreBytes bytes
    → get_or bytes 1 0 ≢ Ins.none
    → let d' = (round b sdk bytes is_locked d).1 in
      AnsweredOnce d.sent d'.sent
      ⊎ ((d'.sent ≡ d.sent)
          × ((n : ℕ) → n < 1000 → ticks b sdk n d' ≡ at_tick n d')
          × IsTimedOut d' (ticks b sdk 1000 d'))
answer_lem b sdk d bytes l room k r are busy =
    let (a, e, exchanged) = exchange_lem b sdk d bytes l room k r are in
    let sound = runs_lem b sdk _ room k (packet bytes l are r) in
    let word = clock_lem b sdk _ (packet bytes l are r) in
    settled b sdk d.sent _ a room sound word busy exchanged
