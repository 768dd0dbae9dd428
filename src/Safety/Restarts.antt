-- ===== src/Safety/Restarts.antt =====
-- The loop of `main` in src/main.c around that of `IOTA_main` never ends by an exception.
use ledger_iota_app.Prelude.{ℕ, ◌≡◌, ◌≤◌, Bool, List, [], ◌∷◌, arith, AreBytes}
use ledger_iota_app.Exec.{ok}
use ledger_iota_app.Constants.{Build}
use ledger_iota_app.Sdk.{Sdk}
use ledger_iota_app.Device.{Device}
use ledger_iota_app.Main.{main_step, round}
use ledger_iota_app.Safety.{IsSdk}
use ledger_iota_app.Safety.Runs.{Runs, started, packet, run_round_lem, start-Succeeds}

-- With room for a status word and a hash function that gives 32 bytes: in every state of a run, `main`
-- takes a packet of bytes, an empty one too, without an exception that would end the app, and comes to
-- a state of a run again.
pub main_step_lem :
    (b : Build) (sdk : Sdk) (d : Device) (bytes : List ℕ) (is_locked : Bool)
    → 2 ≤ sdk.io_apdu_buffer_size
    → IsSdk sdk
    → Runs b sdk d
    → AreBytes bytes
    → ((main_step b sdk bytes is_locked d).0 ≡ ok tt)
      × Runs b sdk (main_step b sdk bytes is_locked d).1
unfolding main_step
main_step_lem b sdk d [] l room k r are = ((start-Succeeds b d).0, started d)
main_step_lem b sdk d (x ∷ bytes) l room k r are =
    let (a, e) = run_round_lem b sdk d (x ∷ bytes) l room k r are in
    let next : Runs b sdk (round b sdk (x ∷ bytes) l d).1 = packet (x ∷ bytes) l are r in
    ground arith
