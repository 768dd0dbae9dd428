-- ===== src/Device.antt =====
-- The state of the app beside the context: the settings of src/nv_mem.c, the data of a running flow
-- (src/ui/nano/flow_user_confirm.h), the timer of src/main.c and the answers sent.
use ledger_iota_app.Prelude.{ℕ, ◌-◌, ◌/◌, ◌%◌, Option, List, [], ◌∷◌, ◌++◌, length, ltb}
use ledger_iota_app.Exec.{ok, Exec, ◌>>◌, throw_if, modify}
use ledger_iota_app.Constants.Status
use ledger_iota_app.Types.{ApiCtx}
use ledger_iota_app.Sdk.{Sdk}

-- `nv_mem_t`
pub record NvMem : Type 0 where
  pub blindsigning : ℕ
  pub initialized : ℕ

-- The functions of src/api.c that a flow is given to call back, by the type under which it keeps
-- them: `accept_cb_t`, `reject_cb_t`, `timeout_cb_t`.
pub data AcceptCb : Type 0 where
  api_generate_address_accepted api_user_confirm_essence_accepted : AcceptCb

pub data RejectCb : Type 0 where
  api_user_confirm_essence_rejected : RejectCb

pub data TimeoutCb : Type 0 where
  api_generate_address_timeout api_user_confirm_essence_timeout : TimeoutCb

-- The flows of src/ui/nano, which `ux_flow_init` puts on the screen.
pub data Flow : Type 0 where
  ux_main_menu ux_flow_settings ux_flow_generating_addresses ux_flow_signing : Flow
  ux_flow_new_address ux_flow_base ux_flow_has_accept_reject : Flow
  ux_flow_smr_claiming_start ux_flow_internal_transfer : Flow
  ux_flow_blindsigning ux_flow_bs_not_enabled : Flow

-- `flowdata_t`, but for the text buffers, with the flow on the screen
pub record FlowData : Type 0 where
  pub flow_outputs_index_current : ℕ
  pub accept_cb : Option AcceptCb
  pub reject_cb : Option RejectCb
  pub timeout_cb : Option TimeoutCb
  pub read_index : ℕ
  pub num_non_remainder_outputs : ℕ
  pub flow_timer_start : ℕ
  pub flow_active : ℕ

pub record Device : Type 0 where
  pub api : ApiCtx
  pub nv : NvMem
  pub flow_data : FlowData
  pub screen : Flow
  pub timer_events : ℕ
  -- the answers, the latest first
  pub sent : List (List ℕ)

abbrev pub on_api : {A : Type 0} → Exec ApiCtx A → Exec Device A
on_api m d = let (r, c) = m d.api in (r, record d { api = c })

abbrev pub modify_api : (ApiCtx → ApiCtx) → Exec Device (Unit {0})
modify_api f d = (ok tt, record d { api = f d.api })

-- The answer is the bytes and the status word, high byte first.
unfoldable pub io_send : Sdk → List ℕ → ℕ → Exec Device (Unit {0})
io_send sdk bytes sw = do
  throw_if (ltb (sdk.io_apdu_buffer_size - 2) (length bytes)) Status.unknown
  modify (λ d. record d { sent = (bytes ++ (sw / 256 % 256 ∷ sw % 256 ∷ [])) ∷ d.sent })
