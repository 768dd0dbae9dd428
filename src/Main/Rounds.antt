-- ===== src/Main/Rounds.antt =====
-- The loop of src/main.c as the host sees it: a locked device, and what an error leaves.
use ledger_iota_app.Prelude.{
  ℕ, ◌/◌, ◌%◌, ◌≤◌, ◌≡◌, ◌≢◌, Bool, true, false, List, [], ◌∷◌, arith, length, replicate,
}
use ledger_iota_app.Exec.{ok, thrown}
use ledger_iota_app.Constants.{Build, api_buffer_size_bytes}
use ledger_iota_app.Constants.Status
use ledger_iota_app.Constants.Ins
use ledger_iota_app.Types.{empty, wiped}
use ledger_iota_app.Sdk.{Sdk}
use ledger_iota_app.Device.{Device, io_send}
use ledger_iota_app.Api.Core.{answered, app_mode_init, api_initialize}
use ledger_iota_app.Exchange.Rounds.{handle_exchange}
use ledger_iota_app.Main.Throws.{RunsOn, handle_runs}
use ledger_iota_app.Main.{
  allowed_when_locked, iota_dispatch, read_apdu, handle, status_of, catch_other, caught, round,
}

module _ (b : Build) (sdk : Sdk) (d : Device) where
  -- With room for a status word, a locked device answers every instruction but the five that are allowed with the status word
  -- for a locked device, whatever the data, and nothing else of its state changes.
  pub locked_round_lem :
      (ins p1 p2 : ℕ) (bytes : List ℕ)
      → 2 ≤ sdk.io_apdu_buffer_size
      → allowed_when_locked ins ≡ false
      → round b sdk (Ins.cla ∷ ins ∷ p1 ∷ p2 ∷ length bytes ∷ bytes) true d
        ≡ (ok answered, record d { sent = (0x69 ∷ 0x82 ∷ []) ∷ d.sent })
  unfolding round handle read_apdu iota_dispatch caught catch_other io_send
  locked_round_lem ins p1 p2 bytes room locked = ground arith

-- What a reset leaves of the context does not depend on what was there.
initialize_same :
    (b : Build) (mode account : ℕ) (d d' : Device)
    → (api_initialize b mode account d).1.api ≡ (api_initialize b mode account d').1.api
unfolding api_initialize
initialize_same b mode account d d' = ground arith

initialized :
    (b : Build) (d : Device)
    → let c = (api_initialize b (app_mode_init b.app) 0 d).1.api in
      (c.api_data.type ≡ empty)
      × (c.api_data.buffer ≡ replicate (api_buffer_size_bytes b.target) 0)
      × (c.essence.inputs_count ≡ 0)
      × (c.flow_locked ≡ 0)
unfolding api_initialize wiped
initialized b d = ground arith

initialize_sent :
    (b : Build) (d : Device)
    → let (r, d') = api_initialize b (app_mode_init b.app) 0 d in
      (r ≡ ok tt) × (d'.sent ≡ d.sent) × (d'.flow_data ≡ d.flow_data) × (d'.screen ≡ d.screen)
unfolding api_initialize
initialize_sent b d = ground arith

-- A command that throws has not answered.
thrown_unanswered :
    (b : Build) (sdk : Sdk) (packet : List ℕ) (l : Bool) (d : Device) (e : ℕ)
    → (handle b sdk packet l d).0 ≡ thrown e
    → ((handle b sdk packet l d).1.sent ≡ d.sent) × RunsOn d (handle b sdk packet l d).1
thrown_unanswered b sdk packet l d e h =
    let exchanged = handle_exchange b sdk packet l d in
    let runs = handle_runs b sdk packet l d in let (r, d') = handle b sdk packet l d in ground arith

module _ (b : Build) (sdk : Sdk) (d other : Device) (packet : List ℕ) (l : Bool) (e : ℕ) where
  -- With room for a status word: a packet whose command ends in an exception, other than the two for a
  -- locked device and a wrong class, is answered with the status word of the exception and nothing
  -- else, and leaves a context that is that of a reset, whatever the state was before: empty, with a
  -- buffer of zeros, no inputs and no lock of a flow. A flow that ran before the packet keeps its data
  -- and its callbacks, and the screen is what it was before the packet, or the notice that a command
  -- works.
  pub reset_round_lem :
      2 ≤ sdk.io_apdu_buffer_size
      → (handle b sdk packet l d).0 ≡ thrown e
      → status_of e ≢ Status.device_is_locked
      → status_of e ≢ Status.cla_not_supported
      → let (r, d'') = round b sdk packet l d in
        (r ≡ ok answered)
        × (d''.sent ≡ (status_of e / 256 % 256 ∷ status_of e % 256 ∷ []) ∷ d.sent)
        × (d''.api ≡ (api_initialize b (app_mode_init b.app) 0 other).1.api)
        × (d''.api.api_data.type ≡ empty)
        × (d''.api.api_data.buffer ≡ replicate (api_buffer_size_bytes b.target) 0)
        × (d''.api.essence.inputs_count ≡ 0)
        × (d''.api.flow_locked ≡ 0)
        × RunsOn d d''
  unfolding round caught catch_other io_send
  reset_round_lem room h locked cla =
      let (same_sent, runs) = thrown_unanswered b sdk packet l d e h in
      let d' = (handle b sdk packet l d).1 in
      let same = initialize_same b (app_mode_init b.app) 0 d' other in
      let is = initialized b d' in let sent = initialize_sent b d' in rw h (ground arith)
