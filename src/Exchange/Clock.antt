-- ===== src/Exchange/Clock.antt =====
-- Only the ticker of src/main.c changes the count of ticks, which stays a word of 32 bits.
use ledger_iota_app.Prelude.{
  ℕ, zero, suc, ◌+◌, ◌^◌, ◌<◌, ◌≡◌, ◌∙◌, refl, Bool, true, false, List, arith, some, u32,
  if◌then◌else◌,
}
use ledger_iota_app.Exec.{Result, thrown}
use ledger_iota_app.Constants.{Build}
use ledger_iota_app.Types.{GenerateAddressRequest}
use ledger_iota_app.Sdk.{Sdk}
use ledger_iota_app.Device.{
  Device, io_send, AcceptCb, RejectCb, TimeoutCb, api_user_confirm_essence_accepted,
  api_user_confirm_essence_rejected, api_user_confirm_essence_timeout,
}
use ledger_iota_app.Prelude.{Option}
use ledger_iota_app.Api.Core.{
  api_initialize, api_reset, api_set_account, api_clear_data, app_mode_init, Answer,
}
use ledger_iota_app.Api.Buffer.{
  api_write_data_block, api_read_data_block, api_get_data_buffer_state, api_clear_data_buffer,
}
use ledger_iota_app.Api.Config.{api_get_app_config, api_show_flow}
use ledger_iota_app.Api.Debug.{api_dump_memory, api_set_non_interactive_mode}
use ledger_iota_app.Api.Address.{
  api_generate_address, finish_addresses, fill_buffer, generate_addresses, generate_address_at,
}
use ledger_iota_app.Api.Prepare.{api_prepare_signing, api_prepare_blindsigning, parse_transaction}
use ledger_iota_app.Api.Confirm.{
  api_user_confirm_essence, confirm_by, start_flow, confirm_transaction, confirm_blindly,
  confirm_at_once, call_accept, call_reject, call_timeout,
}
use ledger_iota_app.Api.Sign.{api_sign}
use ledger_iota_app.Ui.{flow_start_user_confirm_transaction, flow_start_blindsigning}
use ledger_iota_app.Ui.Events.{
  Event, cb_accept, cb_reject, cb_switch, cb_next_dataset, cb_prev_dataset, expire,
  flow_timer_event, timer_event, run_event, ui_event,
}
use ledger_iota_app.Main.{
  Apdu, Instruction, switch, handle, iota_dispatch, instruction_of, read_apdu, caught, catch_other,
  reset_unless, round, start, iota_main_start, io_initialize,
}
use ledger_iota_app.Safety.Runs.{Runs, started, packet, event}

-- The count of ticks is as it was.
abbrev Timeless : {A : Type 0} → Result A × Device → Device → Type 0
Timeless o d = o.1.timer_events ≡ d.timer_events

initialize-Timeless :
    (b : Build) (mode account : ℕ) (d : Device) → Timeless (api_initialize b mode account d) d
unfolding api_initialize
initialize-Timeless b mode account d = ground arith

clear_data-Timeless : (b : Build) (d : Device) → Timeless (api_clear_data b d) d
unfolding api_clear_data
clear_data-Timeless b d = grind (arith, initialize-Timeless)

send-Timeless :
    (sdk : Sdk) (bytes : List ℕ) (sw : ℕ) (d : Device) → Timeless (io_send sdk bytes sw d) d
unfolding io_send
send-Timeless sdk bytes sw d = ground arith

address_at-Timeless : (sdk : Sdk) (i : ℕ) (d : Device) → Timeless (generate_address_at sdk i d) d
unfolding generate_address_at
address_at-Timeless sdk i d = ground arith

addresses-Timeless :
    (sdk : Sdk) (left i : ℕ) (d : Device) → Timeless (generate_addresses sdk left i d) d
unfolding generate_addresses
addresses-Timeless sdk zero i d = refl
addresses-Timeless sdk (suc left) i d =
    grind (arith, address_at-Timeless, addresses-Timeless sdk left)

fill_buffer-Timeless :
    (b : Build) (sdk : Sdk) (show : ℕ) (req : GenerateAddressRequest) (d : Device)
    → Timeless (fill_buffer b sdk show req d) d
unfolding fill_buffer
fill_buffer-Timeless b sdk show req d = grind (arith, addresses-Timeless)

finish-Timeless :
    (b : Build) (sdk : Sdk) (show : ℕ) (req : GenerateAddressRequest) (d : Device)
    → Timeless (finish_addresses b sdk show req d) d
unfolding finish_addresses io_send
finish-Timeless b sdk show req d = ground arith

transaction-Timeless :
    (accept : Option AcceptCb) (reject : Option RejectCb) (timeout : Option TimeoutCb) (d : Device)
    → (flow_start_user_confirm_transaction accept reject timeout d).timer_events ≡ d.timer_events
unfolding flow_start_user_confirm_transaction
transaction-Timeless accept reject timeout d = ground arith

blindsigning-Timeless :
    (accept : Option AcceptCb) (reject : Option RejectCb) (timeout : Option TimeoutCb) (d : Device)
    → (flow_start_blindsigning accept reject timeout d).timer_events ≡ d.timer_events
unfolding flow_start_blindsigning
blindsigning-Timeless accept reject timeout d = ground arith

confirm_by-Timeless :
    (b : Build) (sdk : Sdk) (start' : Device → Device) (d : Device)
    → ((d' : Device) → (start' d').timer_events ≡ d'.timer_events)
    → Timeless (confirm_by b sdk start' d) d
unfolding confirm_by start_flow confirm_at_once io_send
confirm_by-Timeless b sdk start' d keeps = grind (arith, keeps)

confirm_transaction-Timeless :
    (b : Build) (sdk : Sdk) (d : Device) → Timeless (confirm_transaction b sdk d) d
unfolding confirm_transaction
confirm_transaction-Timeless b sdk d =
    let confirms = λ (d' : Device).
      confirm_by-Timeless b sdk
        (flow_start_user_confirm_transaction (some api_user_confirm_essence_accepted)
          (some api_user_confirm_essence_rejected) (some api_user_confirm_essence_timeout))
        d' (transaction-Timeless _ _ _) in
    grind arith

confirm_blindly-Timeless :
    (b : Build) (sdk : Sdk) (d : Device) → Timeless (confirm_blindly b sdk d) d
unfolding confirm_blindly
confirm_blindly-Timeless b sdk d = confirm_by-Timeless b sdk _ d (blindsigning-Timeless _ _ _)

module _ (b : Build) (sdk : Sdk) (d : Device) where
  get_app_config-Timeless : (l : ℕ) → Timeless (api_get_app_config b sdk l d) d
  unfolding api_get_app_config
  get_app_config-Timeless l = grind (arith, send-Timeless)

  set_account-Timeless : (m : ℕ) (bytes : List ℕ) → Timeless (api_set_account b sdk m bytes d) d
  unfolding api_set_account
  set_account-Timeless m bytes = grind (arith, initialize-Timeless, send-Timeless)

  reset-Timeless : Timeless (api_reset b sdk d) d
  unfolding api_reset
  reset-Timeless = grind (arith, initialize-Timeless, send-Timeless)

  write_data_block-Timeless :
      (n : ℕ) (bytes : List ℕ) → Timeless (api_write_data_block b sdk n bytes d) d
  unfolding api_write_data_block
  write_data_block-Timeless n bytes = grind (arith, send-Timeless)

  prepare_signing-Timeless :
      (p2 : ℕ) (bytes : List ℕ) → Timeless (api_prepare_signing b sdk p2 bytes d) d
  unfolding api_prepare_signing parse_transaction
  prepare_signing-Timeless p2 bytes = grind (arith, send-Timeless)

  prepare_blindsigning-Timeless : Timeless (api_prepare_blindsigning b sdk d) d
  unfolding api_prepare_blindsigning
  prepare_blindsigning-Timeless = grind (arith, send-Timeless)

  generate_address-Timeless :
      (show : ℕ) (bytes : List ℕ) → Timeless (api_generate_address b sdk show bytes d) d
  unfolding api_generate_address
  generate_address-Timeless show bytes = grind (arith, fill_buffer-Timeless, finish-Timeless)

  get_data_buffer_state-Timeless : Timeless (api_get_data_buffer_state b sdk d) d
  unfolding api_get_data_buffer_state
  get_data_buffer_state-Timeless = grind (arith, send-Timeless)

  clear_data_buffer-Timeless : Timeless (api_clear_data_buffer b sdk d) d
  unfolding api_clear_data_buffer
  clear_data_buffer-Timeless = grind (arith, clear_data-Timeless, send-Timeless)

  user_confirm_essence-Timeless : Timeless (api_user_confirm_essence b sdk d) d
  unfolding api_user_confirm_essence
  user_confirm_essence-Timeless =
      let seen = confirm_transaction-Timeless b sdk d in
      let blind = confirm_blindly-Timeless b sdk d in ground arith

  sign-Timeless : (p1 : ℕ) → Timeless (api_sign b sdk p1 d) d
  unfolding api_sign
  sign-Timeless p1 = grind (arith, send-Timeless)

  read_data_block-Timeless : (n : ℕ) → Timeless (api_read_data_block b sdk n d) d
  unfolding api_read_data_block
  read_data_block-Timeless n = grind (arith, send-Timeless)

  show_flow-Timeless : Timeless (api_show_flow sdk d) d
  unfolding api_show_flow
  show_flow-Timeless = grind (arith, send-Timeless)

  dump_memory-Timeless : (p : ℕ) → Timeless (api_dump_memory b sdk p d) d
  unfolding api_dump_memory
  dump_memory-Timeless p = grind (arith, send-Timeless)

  set_non_interactive_mode-Timeless : (m : ℕ) → Timeless (api_set_non_interactive_mode sdk m d) d
  unfolding api_set_non_interactive_mode
  set_non_interactive_mode-Timeless m = grind (arith, send-Timeless)

  switch-Timeless : (i : Instruction) (a : Apdu) (l : Bool) → Timeless (switch b sdk i a l d) d
  unfolding switch
  switch-Timeless Instruction.none a l = refl
  switch-Timeless Instruction.get_app_config a l = get_app_config-Timeless (if l then 1 else 0)
  switch-Timeless Instruction.set_account a l = set_account-Timeless a.p1 a.input_data
  switch-Timeless Instruction.reset a l = reset-Timeless
  switch-Timeless Instruction.write_data_block a l = write_data_block-Timeless a.p1 a.input_data
  switch-Timeless Instruction.prepare_signing a l = prepare_signing-Timeless a.p2 a.input_data
  switch-Timeless Instruction.prepare_blindsigning a l = prepare_blindsigning-Timeless
  switch-Timeless Instruction.generate_address a l = generate_address-Timeless a.p1 a.input_data
  switch-Timeless Instruction.get_data_buffer_state a l = get_data_buffer_state-Timeless
  switch-Timeless Instruction.clear_data_buffer a l = clear_data_buffer-Timeless
  switch-Timeless Instruction.user_confirm_essence a l = user_confirm_essence-Timeless
  switch-Timeless Instruction.sign_single a l = sign-Timeless a.p1
  switch-Timeless Instruction.read_data_block a l = read_data_block-Timeless a.p1
  switch-Timeless Instruction.show_flow a l = show_flow-Timeless
  switch-Timeless Instruction.dump_memory a l = dump_memory-Timeless a.p1
  switch-Timeless Instruction.set_non_interactive_mode a l = set_non_interactive_mode-Timeless a.p1
  switch-Timeless Instruction.unknown a l = refl

handle-Timeless :
    (b : Build) (sdk : Sdk) (bytes : List ℕ) (l : Bool) (d : Device)
    → Timeless (handle b sdk bytes l d) d
unfolding handle iota_dispatch
handle-Timeless b sdk bytes l d =
    let inner =
      switch-Timeless b sdk d (instruction_of b (read_apdu bytes).ins) (read_apdu bytes) l in
    ground arith

reset_unless-Timeless :
    (b : Build) (keeps : Bool) (d : Device) → Timeless (reset_unless b keeps d) d
reset_unless-Timeless b true d = refl
reset_unless-Timeless b false d = initialize-Timeless b (app_mode_init b.app) 0 d

catch_other-Timeless :
    (b : Build) (sdk : Sdk) (e : ℕ) (d : Device) → Timeless (catch_other b sdk e d) d
unfolding catch_other
catch_other-Timeless b sdk e d = grind (arith, reset_unless-Timeless, send-Timeless)

caught-Timeless :
    (b : Build) (sdk : Sdk) (r : Result Answer) (d : Device) → Timeless (caught b sdk r d) d
unfolding caught
caught-Timeless b sdk (thrown e) d = let same = catch_other-Timeless b sdk e d in ground arith
caught-Timeless b sdk _ d = refl

round-Timeless :
    (b : Build) (sdk : Sdk) (bytes : List ℕ) (l : Bool) (d : Device)
    → Timeless (round b sdk bytes l d) d
unfolding round
round-Timeless b sdk bytes l d =
    let (r, d') = handle b sdk bytes l d in
    caught-Timeless b sdk r d' ∙ handle-Timeless b sdk bytes l d

-- The count is a word.
abbrev InWord : Device → Type 0
InWord d = d.timer_events < 2 ^ 32

accept-Timeless : (sdk : Sdk) (d : Device) → Timeless (cb_accept sdk d) d
unfolding cb_accept call_accept io_send
accept-Timeless sdk d = ground arith

reject-Timeless : (b : Build) (sdk : Sdk) (d : Device) → Timeless (cb_reject b sdk d) d
unfolding cb_reject call_reject
reject-Timeless b sdk d = grind (arith, clear_data-Timeless, send-Timeless)

expire-Timeless : (b : Build) (sdk : Sdk) (d : Device) → Timeless (expire b sdk d) d
unfolding expire call_timeout
expire-Timeless b sdk d = grind (arith, clear_data-Timeless, send-Timeless)

-- The ticker counts, with its wrap-around.
timer_event-InWord : (b : Build) (sdk : Sdk) (d : Device) → InWord (timer_event b sdk d).1
unfolding timer_event flow_timer_event
timer_event-InWord b sdk d =
    let d' : Device = record d { timer_events = u32 (d.timer_events + 1) } in
    let e = expire-Timeless b sdk d' in ground arith

run_event-InWord :
    (b : Build) (sdk : Sdk) (e : Event) (d : Device) → InWord d → InWord (run_event b sdk e d).1
unfolding run_event cb_switch cb_next_dataset cb_prev_dataset
run_event-InWord b sdk Event.accept d h = rw (accept-Timeless sdk d) h
run_event-InWord b sdk Event.reject d h = rw (reject-Timeless b sdk d) h
run_event-InWord b sdk Event.ticker d h = timer_event-InWord b sdk d
run_event-InWord b sdk (Event.unprepared e) d h = rw (catch_other-Timeless b sdk e d) h
run_event-InWord b sdk e d h = ground arith

ui_event-InWord :
    (b : Build) (sdk : Sdk) (e : Event) (d : Device) → InWord d → InWord (ui_event b sdk e d).1
unfolding ui_event
ui_event-InWord b sdk e d h = let runs = run_event-InWord b sdk e d h in ground arith

start-InWord : (b : Build) (d : Device) → InWord (start b d).1
unfolding start iota_main_start io_initialize
start-InWord b d = rw (initialize-Timeless b (app_mode_init b.app) 0 _) (omega arith)

-- In every state of a run the count of ticks is a word of 32 bits.
pub clock_lem : (b : Build) (sdk : Sdk) (d : Device) → Runs b sdk d → d.timer_events < 2 ^ 32
clock_lem b sdk _ (started d) = start-InWord b d
clock_lem b sdk _ (packet {d = d} bytes l are r) =
    rw (round-Timeless b sdk bytes l d) (clock_lem b sdk d r)
clock_lem b sdk _ (event {d = d} e r) = ui_event-InWord b sdk e d (clock_lem b sdk d r)
