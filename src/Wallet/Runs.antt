-- ===== src/Wallet/Runs.antt =====
-- The flags of the essence over a run, and the flow for an internal transfer, which
-- `api_user_confirm_essence` of src/api.c starts.
use ledger_iota_app.Prelude.{
  ◌+◌, ◌≤◌, ◌≡◌, ◌≢◌, ◌⊎◌, true, false, not, ◌==◌, test_bit, get_or, inl, inr, Bool, arith, u32,
  if◌then◌else◌, some, Bool-cases,
}
use ledger_iota_app.Exec.{Exec, ◌>>◌, throw_if}
use ledger_iota_app.Constants.Status
use ledger_iota_app.Constants.Bip32
use ledger_iota_app.Constants.{Build}
use ledger_iota_app.Sdk.{Sdk}
use ledger_iota_app.Types.{Essence}
use ledger_iota_app.Device.{
  Device, io_send, ux_flow_internal_transfer, api_user_confirm_essence_accepted,
  api_user_confirm_essence_rejected, api_user_confirm_essence_timeout,
}
use ledger_iota_app.Api.Core.{Answer, app_mode_init, api_clear_data, set_path}
use ledger_iota_app.Api.Confirm.{
  call_accept, call_reject, call_timeout, api_user_confirm_essence, confirm_transaction,
  confirm_blindly, confirm_by, start_flow, confirm_at_once, is_inconsistent, is_validated,
}
use ledger_iota_app.Ui.{flow_start_user_confirm_transaction, flow_start_blindsigning}
use ledger_iota_app.Ui.Events.{
  Event, cb_accept, cb_reject, cb_switch, cb_next_dataset, cb_prev_dataset, expire,
  flow_timer_event, timer_event, run_event, ui_event,
}
use ledger_iota_app.Main.{switch, Apdu, Instruction, io_initialize, iota_main_start, start}
use ledger_iota_app.Safety.{IsSound, IsSdk}
use ledger_iota_app.Safety.Runs.{Runs}
use ledger_iota_app.Safety.Invariants.{catch_other-keeps, invariant_lem}
use ledger_iota_app.Wallet.{IsOurs, IsSwept, IsKept}
use ledger_iota_app.Wallet.Commands.{
  LeavesOurs, typed-IsOurs, Unflagged-IsOurs, initialize-Unflagged, clear_data-Unflagged,
  reset-LeavesOurs, set_account-LeavesOurs, clear_data_buffer-LeavesOurs,
  write_data_block-LeavesOurs, read_data_block-LeavesOurs, get_data_buffer_state-LeavesOurs,
  get_app_config-LeavesOurs, show_flow-LeavesOurs, dump_memory-LeavesOurs,
  set_non_interactive_mode-LeavesOurs, sign-LeavesOurs, generate_address-LeavesOurs,
  prepare_blindsigning-LeavesOurs, user_confirm_essence-LeavesOurs,
}
use ledger_iota_app.Wallet.Preparing.{prepare_signing-LeavesOurs}

abbrev Swept : Essence → Type 0
Swept e = (e.is_internal_transfer ≢ 0) ⊎ ((e.has_remainder ≢ 0) × (e.outputs_count ≡ 1))

-- Behind its guards, one of two functions shows the flow.
guarded_shows :
    (seen blind : Exec Device Answer) (d : Device) (locked free unset clear : Bool)
    → d.screen ≢ ux_flow_internal_transfer
    → (blind d).1.screen ≢ ux_flow_internal_transfer
    → ((throw_if locked Status.command_not_allowed
          >> (throw_if free Status.command_not_allowed
              >> (throw_if unset Status.account_not_valid >> (if clear then seen else blind))))
        d).1.screen
      ≡ ux_flow_internal_transfer
    → (seen d).1.screen ≡ ux_flow_internal_transfer
guarded_shows seen blind d true free unset clear off hides on = absurd (off on)
guarded_shows seen blind d false true unset clear off hides on = absurd (off on)
guarded_shows seen blind d false false true clear off hides on = absurd (off on)
guarded_shows seen blind d false false false true off hides on = on
guarded_shows seen blind d false false false false off hides on = absurd (hides on)

switch-LeavesOurs :
    (b : Build) (sdk : Sdk) (i : Instruction) (a : Apdu) (l : Bool) (d : Device)
    → IsSound b d.api
    → IsOurs sdk d.api
    → LeavesOurs sdk (switch b sdk i a l d)
unfolding switch
switch-LeavesOurs b sdk Instruction.none a l d s k = k
switch-LeavesOurs b sdk Instruction.get_app_config a l d s k =
    get_app_config-LeavesOurs b sdk d k (if l then 1 else 0)
switch-LeavesOurs b sdk Instruction.set_account a l d s k =
    set_account-LeavesOurs b sdk d a.p1 a.input_data
switch-LeavesOurs b sdk Instruction.reset a l d s k = reset-LeavesOurs b sdk d
switch-LeavesOurs b sdk Instruction.write_data_block a l d s k =
    write_data_block-LeavesOurs b sdk d k a.p1 a.input_data
switch-LeavesOurs b sdk Instruction.prepare_signing a l d s k =
    prepare_signing-LeavesOurs b sdk a.p2 a.input_data d s k
switch-LeavesOurs b sdk Instruction.prepare_blindsigning a l d s k =
    prepare_blindsigning-LeavesOurs b sdk d k s
switch-LeavesOurs b sdk Instruction.generate_address a l d s k =
    generate_address-LeavesOurs b sdk d k a.p1 a.input_data
switch-LeavesOurs b sdk Instruction.get_data_buffer_state a l d s k =
    get_data_buffer_state-LeavesOurs b sdk d k
switch-LeavesOurs b sdk Instruction.clear_data_buffer a l d s k =
    clear_data_buffer-LeavesOurs b sdk d
switch-LeavesOurs b sdk Instruction.user_confirm_essence a l d s k =
    user_confirm_essence-LeavesOurs b sdk d k
switch-LeavesOurs b sdk Instruction.sign_single a l d s k = sign-LeavesOurs b sdk d k a.p1
switch-LeavesOurs b sdk Instruction.read_data_block a l d s k =
    read_data_block-LeavesOurs b sdk d k a.p1
switch-LeavesOurs b sdk Instruction.show_flow a l d s k = show_flow-LeavesOurs b sdk d k
switch-LeavesOurs b sdk Instruction.dump_memory a l d s k = dump_memory-LeavesOurs b sdk d k a.p1
switch-LeavesOurs b sdk Instruction.set_non_interactive_mode a l d s k =
    set_non_interactive_mode-LeavesOurs b sdk d k a.p1
switch-LeavesOurs b sdk Instruction.unknown a l d s k = tt

module _ (b : Build) (sdk : Sdk) where
  -- The user's acceptance changes only the type, and not to that of a free buffer.
  accept-IsOurs : (d : Device) → IsOurs sdk d.api → IsOurs sdk (cb_accept sdk d).1.api
  unfolding cb_accept call_accept io_send
  accept-IsOurs d s = grind (arith, typed-IsOurs sdk d.api s)

  reject-IsOurs : (d : Device) → IsOurs sdk d.api → IsOurs sdk (cb_reject b sdk d).1.api
  unfolding cb_reject call_reject io_send
  reject-IsOurs d s =
      let wiped = Unflagged-IsOurs sdk (api_clear_data b d).1.api (clear_data-Unflagged b d) in
      ground arith

  expire-IsOurs : (d : Device) → IsOurs sdk d.api → IsOurs sdk (expire b sdk d).1.api
  unfolding expire call_timeout io_send
  expire-IsOurs d s =
      let wiped = Unflagged-IsOurs sdk (api_clear_data b d).1.api (clear_data-Unflagged b d) in
      ground arith

  timer_event-IsOurs : (d : Device) → IsOurs sdk d.api → IsOurs sdk (timer_event b sdk d).1.api
  unfolding timer_event flow_timer_event
  timer_event-IsOurs d s =
      let d' : Device = record d { timer_events = u32 (d.timer_events + 1) } in
      let e = expire-IsOurs d' s in ground arith

  run_event-IsOurs :
      (e : Event) (d : Device) → IsOurs sdk d.api → IsOurs sdk (run_event b sdk e d).1.api
  unfolding run_event cb_switch cb_next_dataset cb_prev_dataset
  run_event-IsOurs Event.accept d s = accept-IsOurs d s
  run_event-IsOurs Event.reject d s = reject-IsOurs d s
  run_event-IsOurs Event.ticker d s = timer_event-IsOurs d s
  run_event-IsOurs (Event.unprepared e) d s =
      catch_other-keeps b sdk (λ d. IsOurs sdk d.api)
        (λ d. Unflagged-IsOurs sdk _ (initialize-Unflagged b (app_mode_init b.app) 0 d))
        (λ d sent h. h) e d (inr s)
  run_event-IsOurs e d s = ground arith

  ui_event-IsOurs :
      (e : Event) (d : Device) → IsOurs sdk d.api → IsOurs sdk (ui_event b sdk e d).1.api
  unfolding ui_event
  ui_event-IsOurs e d s = let runs = run_event-IsOurs e d s in ground arith

  start-IsOurs : (d : Device) → IsOurs sdk (start b d).1.api
  unfolding start iota_main_start io_initialize
  start-IsOurs d = Unflagged-IsOurs sdk _ (initialize-Unflagged b (app_mode_init b.app) 0 _)

  pub ours_lem :
      (d : Device) → 2 ≤ sdk.io_apdu_buffer_size → IsSdk sdk → Runs b sdk d → IsOurs sdk d.api
  ours_lem d room k r =
      invariant_lem b sdk (λ d. IsOurs sdk d.api)
        (λ d. Unflagged-IsOurs sdk _ (initialize-Unflagged b (app_mode_init b.app) 0 d))
        (λ d sent h. h) (switch-LeavesOurs b sdk) start-IsOurs ui_event-IsOurs room k d r

  -- What the flow for an internal transfer is started for.
  transaction_shows :
      (d : Device)
      → (flow_start_user_confirm_transaction
          (some api_user_confirm_essence_accepted)
          (some api_user_confirm_essence_rejected)
          (some api_user_confirm_essence_timeout)
          d).screen
        ≡ ux_flow_internal_transfer
      → Swept d.api.essence
  unfolding flow_start_user_confirm_transaction
  transaction_shows d on = ground arith

  blindly_hides :
      (d : Device)
      → (flow_start_blindsigning
          (some api_user_confirm_essence_accepted)
          (some api_user_confirm_essence_rejected)
          (some api_user_confirm_essence_timeout)
          d).screen
        ≢ ux_flow_internal_transfer
  unfolding flow_start_blindsigning
  blindly_hides d = ground arith

  by_shows :
      (start : Device → Device) (d : Device)
      → d.screen ≢ ux_flow_internal_transfer
      → (confirm_by b sdk start d).1.screen ≡ ux_flow_internal_transfer
      → (start (record d { api = record d.api { flow_locked = 1 } })).screen
        ≡ ux_flow_internal_transfer
  unfolding confirm_by start_flow confirm_at_once io_send
  by_shows start d off on = ground arith

  confirm_transaction_shows :
      (d : Device)
      → d.screen ≢ ux_flow_internal_transfer
      → (confirm_transaction b sdk d).1.screen ≡ ux_flow_internal_transfer
      → Swept d.api.essence
  unfolding confirm_transaction
  confirm_transaction_shows d off on =
      let r = d.api.essence.remainder_bip32 in
      let d' : Device = record d {
        api = set_path 3 r.bip32_change (set_path 4 r.bip32_index d.api);
      } in
      let shown =
        by_shows
          (flow_start_user_confirm_transaction (some api_user_confirm_essence_accepted)
            (some api_user_confirm_essence_rejected) (some api_user_confirm_essence_timeout))
          d' off in
      let swept = transaction_shows (record d' { api = record d'.api { flow_locked = 1 } }) in
      elim (Bool-cases (is_inconsistent b.target d.api)) [
        | inl bad ↦ absurd (off (rw bad at on))
        | inr good ↦ swept (shown (rw good at on))
      ]

  confirm_blindly_hides :
      (d : Device)
      → d.screen ≢ ux_flow_internal_transfer
      → (confirm_blindly b sdk d).1.screen ≢ ux_flow_internal_transfer
  unfolding confirm_blindly
  confirm_blindly_hides d off on =
      blindly_hides (record d { api = record d.api { flow_locked = 1 } })
        (by_shows
          (flow_start_blindsigning (some api_user_confirm_essence_accepted)
            (some api_user_confirm_essence_rejected) (some api_user_confirm_essence_timeout))
          d off on)

  confirm_shows :
      (d : Device)
      → d.screen ≢ ux_flow_internal_transfer
      → (api_user_confirm_essence b sdk d).1.screen ≡ ux_flow_internal_transfer
      → Swept d.api.essence
  unfolding api_user_confirm_essence
  confirm_shows d off on =
      let account = get_or d.api.bip32_path Bip32.account_index 0 in
      confirm_transaction_shows d off (
        guarded_shows (confirm_transaction b sdk) (confirm_blindly b sdk) d
          (not (d.api.flow_locked == 0)) (not (is_validated d.api.api_data.type))
          (not (test_bit account 31)) (d.api.essence.blindsigning == 0) off
          (confirm_blindly_hides d off) on)

  -- With room for a status word and a hash function that gives 32 bytes: if in a state of a run, in
  -- which the flow for an internal transfer is not on the screen, the command to confirm an essence
  -- puts it there, then either the essence has a single output, which pays to the device's own address
  -- at the path of an input, or its single output is the remainder, which pays to the device's own
  -- address at its path.
  pub wallet_lem :
      (d : Device)
      → 2 ≤ sdk.io_apdu_buffer_size
      → IsSdk sdk
      → Runs b sdk d
      → d.screen ≢ ux_flow_internal_transfer
      → (api_user_confirm_essence b sdk d).1.screen ≡ ux_flow_internal_transfer
      → IsSwept sdk d.api ⊎ ((d.api.essence.outputs_count ≡ 1) × IsKept sdk d.api)
  wallet_lem d room k r off on =
      let ours = ours_lem d room k r in
      let transfer = ours.transfer in
      let remainder = ours.remainder in let shows = confirm_shows d off on in ground arith
