-- ===== src/Consent/Rounds.antt =====
-- No packet confirms an essence by itself: the dispatcher and the loop of src/main.c.
use ledger_iota_app.Prelude.{ℕ, inl, inr, refl, Bool, true, false, List, arith, if◌then◌else◌}
use ledger_iota_app.Exec.{Result, thrown}
use ledger_iota_app.Constants.{Build}
use ledger_iota_app.Types.{ApiCtx}
use ledger_iota_app.Sdk.{Sdk}
use ledger_iota_app.Device.{Device, io_send}
use ledger_iota_app.Api.Core.{Answer, app_mode_init}
use ledger_iota_app.Api.Debug.{api_dump_memory, api_set_non_interactive_mode}
use ledger_iota_app.Main.{
  Apdu, Instruction, instruction_of, switch, iota_dispatch, handle, catch_other, reset_unless,
  caught, round, read_apdu,
}
use ledger_iota_app.Consent.{Quiet}
use ledger_iota_app.Consent.Commands.{
  Asks, api_initialize_empties, api_sent, write_data_block-Quiet, read_data_block-Quiet,
  get_data_buffer_state-Quiet, get_app_config-Quiet, show_flow-Quiet, reset-Quiet,
  set_account-Quiet, clear_data_buffer-Quiet, generate_address-Quiet, prepare_signing-Quiet,
  prepare_blindsigning-Quiet, user_confirm_essence-Quiet, sign-Quiet,
}

pub Quiet-refl : (c : ApiCtx) → Quiet c c
Quiet-refl c = inr (record { same_type = refl; same_essence = refl; same_buffer = refl })

dump_memory-Quiet :
    (b : Build) (sdk : Sdk) (p1 : ℕ) (d : Device) → Quiet d.api (api_dump_memory b sdk p1 d).1.api
unfolding api_dump_memory io_send
dump_memory-Quiet b sdk p1 d = ground arith

set_non_interactive_mode-Quiet :
    (sdk : Sdk) (p1 : ℕ) (d : Device) → Quiet d.api (api_set_non_interactive_mode sdk p1 d).1.api
unfolding api_set_non_interactive_mode io_send
set_non_interactive_mode-Quiet sdk p1 d = ground arith

switch-Quiet :
    (b : Build) (sdk : Sdk) (i : Instruction) (a : Apdu) (l : Bool) (d : Device)
    → Asks b d.api
    → Quiet d.api (switch b sdk i a l d).1.api
unfolding switch
switch-Quiet b sdk Instruction.none a l d h = Quiet-refl d.api
switch-Quiet b sdk Instruction.get_app_config a l d h =
    get_app_config-Quiet b sdk (if l then 1 else 0) d
switch-Quiet b sdk Instruction.set_account a l d h = set_account-Quiet b sdk a.p1 a.input_data d
switch-Quiet b sdk Instruction.reset a l d h = reset-Quiet b sdk d
switch-Quiet b sdk Instruction.write_data_block a l d h =
    write_data_block-Quiet b sdk a.p1 a.input_data d
switch-Quiet b sdk Instruction.prepare_signing a l d h =
    prepare_signing-Quiet b sdk a.p2 a.input_data d
switch-Quiet b sdk Instruction.prepare_blindsigning a l d h = prepare_blindsigning-Quiet b sdk d
switch-Quiet b sdk Instruction.generate_address a l d h =
    generate_address-Quiet b sdk a.p1 a.input_data d
switch-Quiet b sdk Instruction.get_data_buffer_state a l d h = get_data_buffer_state-Quiet b sdk d
switch-Quiet b sdk Instruction.clear_data_buffer a l d h = clear_data_buffer-Quiet b sdk d
switch-Quiet b sdk Instruction.user_confirm_essence a l d h = user_confirm_essence-Quiet b sdk d h
switch-Quiet b sdk Instruction.sign_single a l d h = sign-Quiet b sdk a.p1 d
switch-Quiet b sdk Instruction.read_data_block a l d h = read_data_block-Quiet b sdk a.p1 d
switch-Quiet b sdk Instruction.show_flow a l d h = show_flow-Quiet sdk d
switch-Quiet b sdk Instruction.dump_memory a l d h = dump_memory-Quiet b sdk a.p1 d
switch-Quiet b sdk Instruction.set_non_interactive_mode a l d h =
    set_non_interactive_mode-Quiet sdk a.p1 d
switch-Quiet b sdk Instruction.unknown a l d h = Quiet-refl d.api

handle-Quiet :
    (b : Build) (sdk : Sdk) (packet : List ℕ) (l : Bool) (d : Device)
    → Asks b d.api
    → Quiet d.api (handle b sdk packet l d).1.api
unfolding handle iota_dispatch
handle-Quiet b sdk packet l d h =
    ground
      (arith, switch-Quiet b sdk (instruction_of b (read_apdu packet).ins) (read_apdu packet) l d h)

reset_unless-Quiet :
    (b : Build) (keep : Bool) (d : Device) → Quiet d.api (reset_unless b keep d).1.api
reset_unless-Quiet b true d = Quiet-refl d.api
reset_unless-Quiet b false d =
    inl (rw (api_initialize_empties b (app_mode_init b.app) 0 d) (λ e. cc))

-- What `catch_other` does is a wipe, or nothing.
pub catch_other-Quiet :
    (b : Build) (sdk : Sdk) (e : ℕ) (d : Device) → Quiet d.api (catch_other b sdk e d).1.api
unfolding catch_other
catch_other-Quiet b sdk e d = grind (arith, reset_unless-Quiet, api_sent)

pub Quiet-trans : (c c' c'' : ApiCtx) → Quiet c c' → Quiet c' c'' → Quiet c c''
Quiet-trans c c' c'' p q = ground arith

caught-Quiet :
    (b : Build) (sdk : Sdk) (r : Result Answer) (d : Device) → Quiet d.api (caught b sdk r d).1.api
unfolding caught
caught-Quiet b sdk (thrown e) d = ground (arith, catch_other-Quiet b sdk e d)
caught-Quiet b sdk _ d = Quiet-refl d.api

-- No packet that the host sends confirms an essence by itself, unless the debug build is told to ask
-- nobody: behind it no essence is confirmed, or the type, the essence and the buffer are as they
-- were.
pub round-Quiet :
    (b : Build) (sdk : Sdk) (packet : List ℕ) (l : Bool) (d : Device)
    → Asks b d.api
    → Quiet d.api (round b sdk packet l d).1.api
unfolding round
round-Quiet b sdk packet l d h =
    let (r, d') = handle b sdk packet l d in
    Quiet-trans d.api d'.api _ (handle-Quiet b sdk packet l d h) (caught-Quiet b sdk r d')
