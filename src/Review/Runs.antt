-- ===== src/Review/Runs.antt =====
-- In every state of a run, a review under the lock shows the essence that was checked.
use ledger_iota_app.Prelude.{
  ℕ, ◌+◌, ◌≤◌, ◌≡◌, ◌≢◌, ◌⊎◌, inl, inr, refl, suc, Bool-cases, true, false, List, arith, u32,
}
use ledger_iota_app.Exec.{Result, ok, fail, thrown, fault}
use ledger_iota_app.Constants.{Build}
use ledger_iota_app.Sdk.{Sdk}
use ledger_iota_app.Device.{Device, ux_flow_base, io_send}
use ledger_iota_app.Api.Core.{app_mode_init}
use ledger_iota_app.Api.Confirm.{call_accept, call_reject, call_timeout}
use ledger_iota_app.Ui.{read_index_of}
use ledger_iota_app.Ui.Review.{places, IsReviewed, read_index_lem}
use ledger_iota_app.Ui.Events.{
  Event, accept, reject, switch, next_dataset, prev_dataset, back, continue_claiming,
  settings_enter, toggle_blindsigning, settings_back, ticker, shown, unprepared, cb_accept,
  cb_reject, cb_switch, cb_next_dataset, cb_prev_dataset, expire, flow_timer_event, timer_event,
  run_event, ui_event, offers,
}
use ledger_iota_app.Main.{io_initialize, iota_main_start, start}
use ledger_iota_app.Safety.{IsSdk, Leaves}
use ledger_iota_app.Safety.Runs.{Runs}
use ledger_iota_app.Safety.Invariants.{catch_other-keeps, invariant_lem}
use ledger_iota_app.Content.{IsBacked, IsPlain, no_inputs}
use ledger_iota_app.Content.Commands.{initialize_no_inputs}
use ledger_iota_app.Content.Rounds.{switch-LeavesBacked}
use ledger_iota_app.Content.Runs.{ui_event-IsBacked, start-IsBacked}
use ledger_iota_app.Review.{IsReviewing, IsShowing, unlocked-IsReviewing, is_review}
use ledger_iota_app.Review.Commands.{initialize_unlocks, clear_data_unlocks}
use ledger_iota_app.Review.Rounds.{switch-LeavesReviewing}

module _ (b : Build) (sdk : Sdk) where
  accept-IsReviewing :
      (d : Device) → IsReviewing b.target sdk d → IsReviewing b.target sdk (cb_accept sdk d).1
  unfolding cb_accept call_accept io_send
  accept-IsReviewing d s = let free = s.unlocked in ground arith

  reject-IsReviewing :
      (d : Device) → IsReviewing b.target sdk d → IsReviewing b.target sdk (cb_reject b sdk d).1
  unfolding cb_reject call_reject io_send
  reject-IsReviewing d s =
      let free = s.unlocked in let clear = clear_data_unlocks b d in ground arith

  expire-IsReviewing :
      (d : Device) → IsReviewing b.target sdk d → IsReviewing b.target sdk (expire b sdk d).1
  unfolding expire call_timeout io_send
  expire-IsReviewing d s =
      let free = s.unlocked in let clear = clear_data_unlocks b d in ground arith

  timer_event-IsReviewing :
      (d : Device) → IsReviewing b.target sdk d → IsReviewing b.target sdk (timer_event b sdk d).1
  unfolding timer_event flow_timer_event
  timer_event-IsReviewing d s =
      let free = s.unlocked in
      let shows = s.shows in
      let d' : Device = record d { timer_events = u32 (d.timer_events + 1) } in
      let same : IsReviewing b.target sdk d' = ground arith in
      let e = expire-IsReviewing d' same in ground arith

  -- A move from one place of the review to another.
  moved-IsReviewing :
      (d d' : Device)
      → is_review d.screen ≡ true
      → d'.api ≡ d.api
      → (IsShowing b.target sdk d → IsShowing b.target sdk d')
      → IsReviewing b.target sdk d
      → IsReviewing b.target sdk d'
  moved-IsReviewing d d' on same keeps s = record {
    unlocked = rw same s.unlocked;
    shows = elim s.shows [
      | inl free ↦ inl (rw same free)
      | inr (inl off) ↦ ground arith
      | inr (inr shows) ↦ inr (inr (keeps shows))
    ];
  }

  switch-IsShowing : (d : Device) → IsShowing b.target sdk d → IsShowing b.target sdk (cb_switch d)
  unfolding cb_switch
  switch-IsShowing d s = ground arith

  next-IsShowing :
      (d : Device) → IsShowing b.target sdk d → IsShowing b.target sdk (cb_next_dataset d)
  unfolding cb_next_dataset
  next-IsShowing d s = ground arith

  prev-IsShowing :
      (d : Device) → IsShowing b.target sdk d → IsShowing b.target sdk (cb_prev_dataset d)
  unfolding cb_prev_dataset
  prev-IsShowing d s = ground arith

  base-IsShowing :
      (d : Device)
      → IsShowing b.target sdk d
      → IsShowing b.target sdk (record d { screen = ux_flow_base })
  base-IsShowing d s = ground arith

  api-moved :
      (d : Device)
      → ((cb_switch d).api ≡ d.api)
        × ((cb_next_dataset d).api ≡ d.api)
        × ((cb_prev_dataset d).api ≡ d.api)
  unfolding cb_switch cb_next_dataset cb_prev_dataset
  api-moved d = ground arith

  -- The answers do not matter.
  silent-IsReviewing :
      (d : Device) (sent : List (List ℕ))
      → IsReviewing b.target sdk d
      → IsReviewing b.target sdk (record d { sent = sent })
  silent-IsReviewing d sent s = let free = s.unlocked in let shows = s.shows in ground arith

  run_event-IsReviewing :
      (e : Event) (d : Device)
      → offers d.screen e ≡ true
      → IsReviewing b.target sdk d
      → IsReviewing b.target sdk (run_event b sdk e d).1
  unfolding run_event
  run_event-IsReviewing accept d on s = accept-IsReviewing d s
  run_event-IsReviewing reject d on s = reject-IsReviewing d s
  run_event-IsReviewing switch d on s =
      moved-IsReviewing d (cb_switch d) (ground arith) (api-moved d).0 (switch-IsShowing d) s
  run_event-IsReviewing next_dataset d on s =
      moved-IsReviewing d (cb_next_dataset d) (ground arith) (api-moved d).1 (next-IsShowing d) s
  run_event-IsReviewing prev_dataset d on s =
      moved-IsReviewing d (cb_prev_dataset d) (ground arith) (api-moved d).2 (prev-IsShowing d) s
  run_event-IsReviewing back d on s =
      moved-IsReviewing d (record d { screen = ux_flow_base }) (ground arith) refl
        (base-IsShowing d) s
  run_event-IsReviewing continue_claiming d on s =
      moved-IsReviewing d (record d { screen = ux_flow_base }) (ground arith) refl
        (base-IsShowing d) s
  run_event-IsReviewing settings_enter d on s = let free = s.unlocked in ground arith
  run_event-IsReviewing toggle_blindsigning d on s = let free = s.unlocked in ground arith
  run_event-IsReviewing settings_back d on s = let free = s.unlocked in ground arith
  run_event-IsReviewing ticker d on s = timer_event-IsReviewing d s
  run_event-IsReviewing (unprepared e) d on s =
      catch_other-keeps b sdk (IsReviewing b.target sdk)
        (λ d. unlocked-IsReviewing b.target sdk _ (initialize_unlocks b (app_mode_init b.app) 0 d))
        silent-IsReviewing e d (inr s)
  run_event-IsReviewing shown d on s = let free = s.unlocked in ground arith

  ui_event-IsReviewing :
      (e : Event) (d : Device)
      → IsReviewing b.target sdk d
      → IsReviewing b.target sdk (ui_event b sdk e d).1
  unfolding ui_event
  ui_event-IsReviewing e d s = elim (Bool-cases (offers d.screen e)) [
    | inl on ↦ rw on (run_event-IsReviewing e d on s)
    | inr off ↦ rw off s
  ]

  start-IsReviewing : (d : Device) → IsReviewing b.target sdk (start b d).1
  unfolding start iota_main_start io_initialize
  start-IsReviewing d =
      unlocked-IsReviewing b.target sdk _ (initialize_unlocks b (app_mode_init b.app) 0 _)

  -- Both invariants.
  abbrev pub InStep : Device → Type 0
  InStep d = IsBacked b.target sdk d.api × IsReviewing b.target sdk d

  Leaves-both :
      {A : Type 0} (o : Result A × Device)
      → Leaves (λ d. IsBacked b.target sdk d.api) o
      → Leaves (IsReviewing b.target sdk) o
      → Leaves InStep o
  Leaves-both (ok a, d) h k = (h, k)
  Leaves-both (fail, d) h k = tt
  Leaves-both (thrown e, d) h k = tt
  Leaves-both (fault, d) h k = tt

  pub InStep_lem : (d : Device) → 2 ≤ sdk.io_apdu_buffer_size → IsSdk sdk → Runs b sdk d → InStep d
  InStep_lem d room k r =
      invariant_lem b sdk InStep
        (λ d. (
          no_inputs b.target sdk _ (initialize_no_inputs b (app_mode_init b.app) 0 d),
          unlocked-IsReviewing b.target sdk _ (initialize_unlocks b (app_mode_init b.app) 0 d),
        ))
        (λ d sent h. (h.0, silent-IsReviewing d sent h.1))
        (λ i a l d s h.
          Leaves-both _ (switch-LeavesBacked b sdk i a l d s h.0)
            (switch-LeavesReviewing b sdk i a l d h.0 h.1))
        (λ d. (start-IsBacked b sdk d, start-IsReviewing d))
        (λ e d h. (ui_event-IsBacked b sdk e d h.0, ui_event-IsReviewing e d h.1)) room k d r

  last_offers :
      (d : Device)
      → is_review d.screen ≡ true
      → IsShowing b.target sdk d
      → (offers d.screen accept ≡ false)
        ⊎ (suc d.flow_data.flow_outputs_index_current ≡ places d.api.essence)
  last_offers d on s = ground arith

  -- With room for a status word and a hash function that gives 32 bytes: in every state of a run in
  -- which the lock is set and an output of a transaction is on the screen, the buffer holds the
  -- essence that was checked, the output is one of it and not its remainder, and the screen offers to
  -- accept only at the last place of the review.
  pub review_lem :
      (d : Device)
      → 2 ≤ sdk.io_apdu_buffer_size
      → IsSdk sdk
      → Runs b sdk d
      → d.api.flow_locked ≢ 0
      → is_review d.screen ≡ true
      → IsPlain b.target sdk d.api.essence d.api.api_data.buffer
        × IsReviewed d.api.essence d.flow_data.read_index
        × ((offers d.screen accept ≡ false)
            ⊎ (suc d.flow_data.flow_outputs_index_current ≡ places d.api.essence))
  review_lem d room k r locked on =
      let shows = (InStep_lem d room k r).1.shows in
      elim shows [
        | inl free ↦ elim (locked free) [ ]
        | inr (inl off) ↦ ground arith
        | inr (inr s) ↦
            let e = d.api.essence in
            let place = d.flow_data.flow_outputs_index_current in
            let reviewed : IsReviewed e (read_index_of e place) =
              (read_index_lem e s.content.remainder_inside).0 place s.inside in
            (s.content, rw s.indexed reviewed, last_offers d on s)
      ]
