-- ===== src/Exchange/Rounds.antt =====
-- One round of the loop of src/main.c is one exchange with the host.
use mathlib.Core.Path.{subst}
use ledger_iota_app.Prelude.{
  ℕ, ◌≡◌, ◌⊎◌, ◌≤◌, inl, inr, refl, Bool, List, arith, get_or, if◌then◌else◌, AreBytes,
}
use ledger_iota_app.Exec.{Result, ok, fail, thrown, fault}
use ledger_iota_app.Constants.{Build}
use ledger_iota_app.Constants.Ins
use ledger_iota_app.Sdk.{Sdk}
use ledger_iota_app.Device.{Device, io_send}
use ledger_iota_app.Api.Core.{Answer, answered, app_mode_init}
use ledger_iota_app.Main.{
  Apdu, Instruction, instruction_of, switch, iota_dispatch, handle, catch_other, caught, round,
  read_apdu,
}
use ledger_iota_app.Safety.{IsSdk}
use ledger_iota_app.Safety.Runs.{Runs, run_round_lem}
use ledger_iota_app.Exchange.{AnsweredOnce, Exchanged}
use ledger_iota_app.Exchange.Commands.{
  reset_exchange, set_account_exchange, clear_data_buffer_exchange, write_data_block_exchange,
  read_data_block_exchange, get_data_buffer_state_exchange, get_app_config_exchange,
  show_flow_exchange, dump_memory_exchange, set_non_interactive_mode_exchange, sign_exchange,
  prepare_signing_exchange, prepare_blindsigning_exchange, generate_address_exchange,
  user_confirm_essence_exchange, initialize_sent,
}

-- The instruction that does nothing is not answered.
abbrev pub ExchangedUnless : Type 0 → List (List ℕ) → Result Answer → Device → Type 0
ExchangedUnless Idle before r d =
    Exchanged before r d ⊎ (Idle × (r ≡ ok answered) × (d.sent ≡ before))

switch_exchange :
    (b : Build) (sdk : Sdk) (i : Instruction) (a : Apdu) (l : Bool) (d : Device)
    → let (r, d') = switch b sdk i a l d in ExchangedUnless (i ≡ Instruction.none) d.sent r d'
unfolding switch
switch_exchange b sdk Instruction.none a l d = inr (refl, refl, refl)
switch_exchange b sdk Instruction.get_app_config a l d =
    inl (get_app_config_exchange b sdk (if l then 1 else 0) d)
switch_exchange b sdk Instruction.set_account a l d =
    inl (set_account_exchange b sdk a.p1 a.input_data d)
switch_exchange b sdk Instruction.reset a l d = inl (reset_exchange b sdk d)
switch_exchange b sdk Instruction.write_data_block a l d =
    inl (write_data_block_exchange b sdk a.p1 a.input_data d)
switch_exchange b sdk Instruction.prepare_signing a l d =
    inl (prepare_signing_exchange b sdk a.p2 a.input_data d)
switch_exchange b sdk Instruction.prepare_blindsigning a l d =
    inl (prepare_blindsigning_exchange b sdk d)
switch_exchange b sdk Instruction.generate_address a l d =
    inl (generate_address_exchange b sdk a.p1 a.input_data d)
switch_exchange b sdk Instruction.get_data_buffer_state a l d =
    inl (get_data_buffer_state_exchange b sdk d)
switch_exchange b sdk Instruction.clear_data_buffer a l d = inl (clear_data_buffer_exchange b sdk d)
switch_exchange b sdk Instruction.user_confirm_essence a l d =
    inl (user_confirm_essence_exchange b sdk d)
switch_exchange b sdk Instruction.sign_single a l d = inl (sign_exchange b sdk a.p1 d)
switch_exchange b sdk Instruction.read_data_block a l d =
    inl (read_data_block_exchange b sdk a.p1 d)
switch_exchange b sdk Instruction.show_flow a l d = inl (show_flow_exchange sdk d)
switch_exchange b sdk Instruction.dump_memory a l d = inl (dump_memory_exchange b sdk a.p1 d)
switch_exchange b sdk Instruction.set_non_interactive_mode a l d =
    inl (set_non_interactive_mode_exchange sdk a.p1 d)
switch_exchange b sdk Instruction.unknown a l d = inl refl

idle_code : (b : Build) (ins : ℕ) → instruction_of b ins ≡ Instruction.none → ins ≡ Ins.none
unfolding instruction_of
idle_code b ins h = ground arith

pub handle_exchange :
    (b : Build) (sdk : Sdk) (packet : List ℕ) (l : Bool) (d : Device)
    → let (r, d') = handle b sdk packet l d in
      ExchangedUnless (get_or packet 1 0 ≡ Ins.none) d.sent r d'
unfolding handle iota_dispatch read_apdu
handle_exchange b sdk packet l d =
    let a = read_apdu packet in
    let inner = switch_exchange b sdk (instruction_of b a.ins) a l d in
    let idle = idle_code b a.ins in ground arith

-- An exception is answered with its status word.
catch_other_once :
    (b : Build) (sdk : Sdk) (e : ℕ) (d : Device)
    → (catch_other b sdk e d).0 ≡ ok tt
    → AnsweredOnce d.sent (catch_other b sdk e d).1.sent
unfolding catch_other io_send
catch_other_once b sdk e d h =
    let same = initialize_sent b (app_mode_init b.app) 0 d in ground arith

caught_exchange :
    (b : Build) (sdk : Sdk) (Idle : Type 0) (before : List (List ℕ)) (r : Result Answer)
    (d : Device) (a : Answer)
    → ExchangedUnless Idle before r d
    → (caught b sdk r d).0 ≡ ok a
    → ExchangedUnless Idle before (ok a) (caught b sdk r d).1
unfolding caught
caught_exchange b sdk Idle before (ok a') d a h e = subst (λ r. ExchangedUnless Idle before r d) e h
caught_exchange b sdk Idle before fail d a h e = cc
caught_exchange b sdk Idle before (thrown s) d a h e =
    let once = catch_other_once b sdk s d in ground arith
caught_exchange b sdk Idle before fault d a h e = cc

-- With room for a status word and a hash function that gives 32 bytes: in every state of a run, a
-- packet of bytes is answered once, or starts a flow with a timeout that is to answer, unless its
-- instruction is the one that does nothing.
pub exchange_lem :
    (b : Build) (sdk : Sdk) (d : Device) (bytes : List ℕ) (is_locked : Bool)
    → 2 ≤ sdk.io_apdu_buffer_size
    → IsSdk sdk
    → Runs b sdk d
    → AreBytes bytes
    → let (r, d') = round b sdk bytes is_locked d in
      (a : Answer) × (r ≡ ok a) × ExchangedUnless (get_or bytes 1 0 ≡ Ins.none) d.sent (ok a) d'
unfolding round
exchange_lem b sdk d bytes l room k r are =
    let (a, e) = run_round_lem b sdk d bytes l room k r are in
    let handled = handle b sdk bytes l d in
    (a, e, caught_exchange b sdk _ d.sent handled.0 handled.1 a (handle_exchange b sdk bytes l d) e)
