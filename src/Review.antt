-- ===== src/Review.antt =====
-- A review that is on the screen shows the essence that the context holds: the state of
-- src/ui/nano/flow_user_confirm_transaction.c against that of src/api.c.
pub mod Commands
pub mod Rounds
pub mod Runs
pub mod Amounts
use ledger_iota_app.Prelude.{ℕ, suc, ◌<◌, ◌≡◌, ◌⊎◌, inl, Bool, true, false}
use ledger_iota_app.Constants.{Target}
use ledger_iota_app.Types.{empty}
use ledger_iota_app.Exec.{Result}
use ledger_iota_app.Sdk.{Sdk}
use ledger_iota_app.Device.{
  Device, Flow, ux_flow_base, ux_flow_has_accept_reject, ux_flow_smr_claiming_start,
}
use ledger_iota_app.Ui.{read_index_of}
use ledger_iota_app.Ui.Review.{places}
use ledger_iota_app.Content.{IsPlain}
use ledger_iota_app.Safety.{Leaves}

-- The flows that show an output, and the one before them.
abbrev pub is_review : Flow → Bool
is_review ux_flow_base = true
is_review ux_flow_has_accept_reject = true
is_review ux_flow_smr_claiming_start = true
is_review _ = false

-- The review is of the essence in the buffer, and stands at one of its places.
pub record IsShowing (t : Target) (sdk : Sdk) (d : Device) : Type 0 where
  pub content : IsPlain t sdk d.api.essence d.api.api_data.buffer
  pub counted : d.flow_data.num_non_remainder_outputs ≡ places d.api.essence
  pub inside : d.flow_data.flow_outputs_index_current < places d.api.essence
  pub indexed :
      d.flow_data.read_index ≡ read_index_of d.api.essence d.flow_data.flow_outputs_index_current
  pub at_end :
      d.screen ≡ ux_flow_has_accept_reject
      → suc d.flow_data.flow_outputs_index_current ≡ places d.api.essence

-- The invariant. The lock is set while a flow that a command has started may run; a review that is
-- left on the screen by a reset runs without it.
pub record IsReviewing (t : Target) (sdk : Sdk) (d : Device) : Type 0 where
  pub unlocked : d.api.api_data.type ≡ empty → d.api.flow_locked ≡ 0
  pub shows : (d.api.flow_locked ≡ 0) ⊎ ((is_review d.screen ≡ false) ⊎ IsShowing t sdk d)

abbrev pub LeavesReviewing : {A : Type 0} → Target → Sdk → Result A × Device → Type 0
LeavesReviewing t sdk = Leaves (IsReviewing t sdk)

-- Without the lock there is nothing to show.
pub unlocked-IsReviewing :
    (t : Target) (sdk : Sdk) (d : Device) → d.api.flow_locked ≡ 0 → IsReviewing t sdk d
unlocked-IsReviewing t sdk d h = record { unlocked = λ _. h; shows = inl h }
