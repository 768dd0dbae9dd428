-- ===== src/Exchange.antt =====
-- The exchange with the host: a command is answered once, at once or by the flow that it starts.
pub mod Commands
pub mod Clock
pub mod Timeout
pub mod Rounds
use ledger_iota_app.Prelude.{ℕ, ◌+◌, ◌≡◌, ◌≢◌, List, drop, length, none}
use ledger_iota_app.Exec.{Result, ok, fail, thrown, fault}
use ledger_iota_app.Device.{Device, FlowData}
use ledger_iota_app.Api.Core.{Answer, answered, io_asynch_reply}

-- One answer was sent after those before.
abbrev pub AnsweredOnce : List (List ℕ) → List (List ℕ) → Type 0
AnsweredOnce before sent = (length sent ≡ length before + 1) × (drop 1 sent ≡ before)

-- A flow has just started that will answer, by its timeout if by nothing else.
pub record IsPending (d : Device) : Type 0 where
  pub active : d.flow_data.flow_active ≡ 1
  pub has_timeout : d.flow_data.timeout_cb ≢ none
  pub started_now : d.flow_data.flow_timer_start ≡ d.timer_events

-- A command has answered, or left the answer to a flow, or has not answered and failed.
abbrev pub Exchanged : List (List ℕ) → Result Answer → Device → Type 0
Exchanged before (ok answered) d = AnsweredOnce before d.sent
Exchanged before (ok io_asynch_reply) d = (d.sent ≡ before) × IsPending d
Exchanged before fail d = d.sent ≡ before
Exchanged before (thrown e) d = d.sent ≡ before
Exchanged before fault d = d.sent ≡ before
