-- ===== src/Ui/Acceptance.antt =====
-- What the user can accept, and what a refusal leaves: `flow_start_blindsigning`
-- (src/ui/nano/flow_user_confirm_blindsigning.c), `cb_reject` and the timer.
use ledger_iota_app.Prelude.{
  ℕ, ◌≡◌, ◌≢◌, ◌↔◌, ◌/◌, ◌%◌, ◌≤◌, true, Option, some, [], ◌∷◌, replicate, arith,
}
use ledger_iota_app.Constants.{Build, api_buffer_size_bytes}
use ledger_iota_app.Constants.Status
use ledger_iota_app.Types.{empty, wiped}
use ledger_iota_app.Sdk.{Sdk}
use ledger_iota_app.Device.{
  Device, AcceptCb, RejectCb, TimeoutCb, io_send, api_user_confirm_essence_rejected, ux_main_menu,
}
use ledger_iota_app.Ui.{flow_start_blindsigning, flow_cleared}
use ledger_iota_app.Ui.Events.{accept, offers, cb_reject}
use ledger_iota_app.Api.Core.{api_initialize, api_clear_data, app_mode_init}
use ledger_iota_app.Api.Confirm.{call_reject}

-- The flow for blind signing has a step to accept exactly if blind signing is enabled in the
-- settings; otherwise it can only be refused.
pub blindsigning_offers_lem :
    (a : Option AcceptCb) (r : Option RejectCb) (t : Option TimeoutCb) (d : Device)
    → (offers (flow_start_blindsigning a r t d).screen accept ≡ true) ↔ (d.nv.blindsigning ≢ 0)
unfolding flow_start_blindsigning
blindsigning_offers_lem a r t d = ground arith

-- The data are gone and no flow runs, and the host is told a status word.
pub record IsDropped (b : Build) (sw : ℕ) (d d' : Device) : Type 0 where
  pub type_empty : d'.api.api_data.type ≡ empty
  pub buffer_wiped : d'.api.api_data.buffer ≡ replicate (api_buffer_size_bytes b.target) 0
  pub nothing_signed : d'.api.essence.inputs_count ≡ 0
  pub unlocked : d'.api.flow_locked ≡ 0
  pub flow_stopped : d'.flow_data ≡ flow_cleared
  pub menu_shown : d'.screen ≡ ux_main_menu
  pub answer_sent : d'.sent ≡ (sw / 256 ∷ sw % 256 ∷ []) ∷ d.sent

-- With room for a status word and in the mode that the app starts in, a press on the step to refuse
-- an essence wipes the data and stops the flow, and the host is told that the user has denied.
pub reject_lem :
    (b : Build) (sdk : Sdk) (d : Device)
    → 2 ≤ sdk.io_apdu_buffer_size
    → d.flow_data.reject_cb ≡ some api_user_confirm_essence_rejected
    → d.api.app_mode ≡ app_mode_init b.app
    → IsDropped b Status.denied_by_user d (cb_reject b sdk d).1
unfolding cb_reject call_reject api_clear_data api_initialize wiped io_send
reject_lem b sdk d room h mode = ground arith
