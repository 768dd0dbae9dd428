-- ===== src/Safety/Invariants.antt =====
-- What every command, every event and the reset keep holds in every state of a run.
use ledger_iota_app.Prelude.{
  ℕ, ◌≤◌, ◌⊎◌, inl, inr, Bool, List, arith, not, ◌&&◌, AreBytes, All-drop, IsByte, Bool-cases,
}
use ledger_iota_app.Exec.{Result, ok, fail, thrown, fault}
use ledger_iota_app.Constants.{Build}
use ledger_iota_app.Sdk.{Sdk}
use ledger_iota_app.Device.{Device, io_send}
use ledger_iota_app.Api.Core.{Answer, app_mode_init, api_initialize}
use ledger_iota_app.Ui.Events.{Event, ui_event}
use ledger_iota_app.Main.{
  switch, Apdu, Instruction, instruction_of, iota_dispatch, handle, catch_other, caught, round,
  read_apdu, sizeof_apdu_header, allowed_when_locked, start,
}
use ledger_iota_app.Safety.{IsSound, IsSdk, EndsSound, Resets, Leaves}
use ledger_iota_app.Safety.Rounds.{switch_ends}
use ledger_iota_app.Safety.Runs.{Runs, started, packet, event, runs_lem, run_round_lem}

-- An exception that reaches the loop resets, or changes nothing but the answers.
module _ (b : Build) (sdk : Sdk) (P : Device → Type 0)
    (wipes : (d : Device) → P (api_initialize b (app_mode_init b.app) 0 d).1)
    (silent : (d : Device) (sent : List (List ℕ)) → P d → P (record d { sent = sent })) where
  pub catch_other-keeps : (e : ℕ) (d : Device) → Resets e ⊎ P d → P (catch_other b sdk e d).1
  unfolding catch_other io_send
  catch_other-keeps e d h =
      let wiped = wipes d in
      let d' = (api_initialize b (app_mode_init b.app) 0 d).1 in grind (arith, silent)

-- A predicate that holds after the reset and does not look at the answers.
module _ (b : Build) (sdk : Sdk) (P : Device → Type 0)
    (wipes : (d : Device) → P (api_initialize b (app_mode_init b.app) 0 d).1)
    (silent : (d : Device) (sent : List (List ℕ)) → P d → P (record d { sent = sent }))
    (switches : (i : Instruction) (a : Apdu) (l : Bool) (d : Device)
      → IsSound b d.api
      → P d
      → Leaves P (switch b sdk i a l d)) where
  -- The outcome of the `TRY` block: the predicate, or an exception that resets.
  abbrev Handled : Result Answer × Device → Type 0
  Handled (ok a, d) = P d
  Handled (fail, d) = Unit
  Handled (thrown e, d) = Resets e ⊎ P d
  Handled (fault, d) = Unit

  Leaves-Handled : (o : Result Answer × Device) → EndsSound b o → Leaves P o → Handled o
  Leaves-Handled (ok a, d) ends leaves = leaves
  Leaves-Handled (fail, d) ends leaves = tt
  Leaves-Handled (thrown e, d) ends leaves = inl ends
  Leaves-Handled (fault, d) ends leaves = tt

  module _ (l : Bool) (d : Device) (k : IsSdk sdk) (s : IsSound b d.api) (p : P d) where
    dispatch-Handled : (a : Apdu) → AreBytes a.input_data → Handled (iota_dispatch b sdk a l d)
    unfolding iota_dispatch
    dispatch-Handled a are = elim (Bool-cases (l && not (allowed_when_locked a.ins))) [
      | inl locked ↦ rw locked (inr p)
      | inr free ↦ rw free (
          Leaves-Handled _ (switch_ends b sdk (instruction_of b a.ins) a l d k are s)
            (switches (instruction_of b a.ins) a l d s p))
    ]

    handle-Handled : (bytes : List ℕ) → AreBytes bytes → Handled (handle b sdk bytes l d)
    unfolding handle read_apdu
    handle-Handled bytes are =
        let inner =
          dispatch-Handled (read_apdu bytes) (All-drop IsByte sizeof_apdu_header bytes are) in
        ground arith

  caught-keeps : (o : Result Answer × Device) → Handled o → Leaves P (caught b sdk o.0 o.1)
  unfolding caught
  caught-keeps (ok a, d) h = h
  caught-keeps (fail, d) h = tt
  caught-keeps (thrown e, d) h =
      let c = catch_other-keeps b sdk P wipes silent e d h in ground arith
  caught-keeps (fault, d) h = tt

  round-keeps :
      (bytes : List ℕ) (l : Bool) (d : Device)
      → IsSdk sdk
      → AreBytes bytes
      → IsSound b d.api
      → P d
      → Leaves P (round b sdk bytes l d)
  unfolding round
  round-keeps bytes l d k are s p =
      caught-keeps (handle b sdk bytes l d) (handle-Handled l d k s p bytes are)

  -- With room for a status word and a hash function that gives 32 bytes: it holds in every state of a
  -- run if it holds at the start and every event keeps it.
  pub invariant_lem :
      ((d : Device) → P (start b d).1)
      → ((e : Event) (d : Device) → P d → P (ui_event b sdk e d).1)
      → 2 ≤ sdk.io_apdu_buffer_size
      → IsSdk sdk
      → (d : Device) → Runs b sdk d
      → P d
  invariant_lem starts events room k _ (started d) = starts d
  invariant_lem starts events room k _ (packet {d = d} bytes l are r) =
      let s = runs_lem b sdk d room k r in
      let p = round-keeps bytes l d k are s (invariant_lem starts events room k d r) in
      let e = run_round_lem b sdk d bytes l room k r are in ground arith
  invariant_lem starts events room k _ (event {d = d} e r) =
      events e d (invariant_lem starts events room k d r)
