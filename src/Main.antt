-- ===== src/Main.antt =====
-- The dispatcher of src/iota_io.c, and one round of the loop of `IOTA_main` (src/main.c): a command
-- arrives, is checked and carried out, and an exception is turned into an answer.
pub mod Rounds
pub mod Throws
use ledger_iota_app.Prelude.{
  ℕ, ◌+◌, ◌*◌, ◌/◌, ◌%◌, Bool, true, false, not, ◌&&◌, ◌||◌, List, [], ◌∷◌, drop, get_or, u16, ◌^◌,
  length, ltb, leb, ◌==◌, if◌then◌else◌,
}
use Prim.Native.Nat.{bit_or}
use ledger_iota_app.Exec.{
  Result, ok, fail, thrown, fault, Exec, ◌>>=◌, ◌>>◌, pure, throw, lift, throw_if, validate, modify,
}
use ledger_iota_app.Constants.{Build}
use ledger_iota_app.Constants.Status
use ledger_iota_app.Constants.Ins
use ledger_iota_app.Sdk.{Sdk}
use ledger_iota_app.Nv.{nv_init}
use ledger_iota_app.Device.{Device, io_send}
use ledger_iota_app.Ui.{as_flag, flow_init, flow_main_menu}
use ledger_iota_app.Api.Core.{
  Answer, answered, io_asynch_reply, app_mode_init, api_initialize, api_reset, api_set_account,
}
use ledger_iota_app.Api.Buffer.{
  api_write_data_block, api_read_data_block, api_get_data_buffer_state, api_clear_data_buffer,
}
use ledger_iota_app.Api.Config.{api_get_app_config, api_show_flow}
use ledger_iota_app.Api.Address.{api_generate_address}
use ledger_iota_app.Api.Prepare.{api_prepare_signing, api_prepare_blindsigning}
use ledger_iota_app.Api.Confirm.{api_user_confirm_essence}
use ledger_iota_app.Api.Sign.{api_sign}
use ledger_iota_app.Api.Debug.{api_dump_memory, api_set_non_interactive_mode}

-- `APDU_HEADER` and the data behind it
pub record Apdu : Type 0 where
  pub cla : ℕ
  pub ins : ℕ
  pub p1 : ℕ
  pub p2 : ℕ
  pub p3 : ℕ
  pub input_data : List ℕ

-- The instructions that a locked device carries out.
abbrev pub allowed_when_locked : ℕ → Bool
allowed_when_locked ins =
    ins == Ins.none
    || (ins == Ins.get_app_config
        || (ins == Ins.set_account || (ins == Ins.reset || ins == Ins.clear_data_buffer)))

-- The cases of the `switch` of `iota_dispatch`.
pub data Instruction : Type 0 where
  none get_app_config set_account reset write_data_block : Instruction
  prepare_signing prepare_blindsigning generate_address get_data_buffer_state : Instruction
  clear_data_buffer user_confirm_essence sign_single read_data_block show_flow : Instruction
  dump_memory set_non_interactive_mode : Instruction
  -- `default`
  unknown : Instruction

-- The cases that only the debug build has.
abbrev pub debug_instruction : Bool → ℕ → Instruction
debug_instruction app_debug ins =
    if app_debug && ins == Ins.dump_memory
    then Instruction.dump_memory
    else if app_debug && ins == Ins.set_non_interactive_mode
    then Instruction.set_non_interactive_mode
    else Instruction.unknown

-- The table of codes, as a list that is searched in order.
abbrev pub instruction_codes : List (ℕ × Instruction)
instruction_codes =
    (Ins.none, Instruction.none)
    ∷ (Ins.get_app_config, Instruction.get_app_config)
    ∷ (Ins.set_account, Instruction.set_account)
    ∷ (Ins.reset, Instruction.reset)
    ∷ (Ins.write_data_block, Instruction.write_data_block)
    ∷ (Ins.prepare_signing, Instruction.prepare_signing)
    ∷ (Ins.prepare_blindsigning, Instruction.prepare_blindsigning)
    ∷ (Ins.generate_address, Instruction.generate_address)
    ∷ (Ins.get_data_buffer_state, Instruction.get_data_buffer_state)
    ∷ (Ins.clear_data_buffer, Instruction.clear_data_buffer)
    ∷ (Ins.user_confirm_essence, Instruction.user_confirm_essence)
    ∷ (Ins.sign_single, Instruction.sign_single)
    ∷ (Ins.read_data_block, Instruction.read_data_block)
    ∷ (Ins.show_flow, Instruction.show_flow)
    ∷ []

unfoldable pub find_instruction : ℕ → List (ℕ × Instruction) → Instruction → Instruction
find_instruction ins [] otherwise = otherwise
find_instruction ins ((code, i) ∷ rest) otherwise =
    if ins == code then i else find_instruction ins rest otherwise

unfoldable pub instruction_of : Build → ℕ → Instruction
unfolding find_instruction
instruction_of b ins = find_instruction ins instruction_codes (debug_instruction b.app_debug ins)

unfoldable pub switch : Build → Sdk → Instruction → Apdu → Bool → Exec Device Answer
switch b sdk Instruction.none a l = pure answered
switch b sdk Instruction.get_app_config a l = api_get_app_config b sdk (if l then 1 else 0)
switch b sdk Instruction.set_account a l = api_set_account b sdk a.p1 a.input_data
switch b sdk Instruction.reset a l = api_reset b sdk
switch b sdk Instruction.write_data_block a l = api_write_data_block b sdk a.p1 a.input_data
switch b sdk Instruction.prepare_signing a l = api_prepare_signing b sdk a.p2 a.input_data
switch b sdk Instruction.prepare_blindsigning a l = api_prepare_blindsigning b sdk
switch b sdk Instruction.generate_address a l = api_generate_address b sdk a.p1 a.input_data
switch b sdk Instruction.get_data_buffer_state a l = api_get_data_buffer_state b sdk
switch b sdk Instruction.clear_data_buffer a l = api_clear_data_buffer b sdk
switch b sdk Instruction.user_confirm_essence a l = api_user_confirm_essence b sdk
switch b sdk Instruction.sign_single a l = api_sign b sdk a.p1
switch b sdk Instruction.read_data_block a l = api_read_data_block b sdk a.p1
switch b sdk Instruction.show_flow a l = api_show_flow sdk
switch b sdk Instruction.dump_memory a l = api_dump_memory b sdk a.p1
switch b sdk Instruction.set_non_interactive_mode a l = api_set_non_interactive_mode sdk a.p1
switch b sdk Instruction.unknown a l = throw Status.ins_not_supported

unfoldable pub iota_dispatch : Build → Sdk → Apdu → Bool → Exec Device Answer
iota_dispatch b sdk a is_locked = do
  throw_if (is_locked && not (allowed_when_locked a.ins)) Status.device_is_locked
  switch b sdk (instruction_of b a.ins) a is_locked

abbrev pub sizeof_apdu_header : ℕ
sizeof_apdu_header = 5

unfoldable pub read_apdu : List ℕ → Apdu
read_apdu packet = record {
  cla = get_or packet 0 0;
  ins = get_or packet 1 0;
  p1 = get_or packet 2 0;
  p2 = get_or packet 3 0;
  p3 = get_or packet 4 0;
  input_data = drop sizeof_apdu_header packet;
}

-- The body of the `TRY` block for a packet that is not empty.
unfoldable pub handle : Build → Sdk → List ℕ → Bool → Exec Device Answer
handle b sdk packet is_locked = do
  validate (leb sizeof_apdu_header (length packet)) Status.incorrect_length
  let a = read_apdu packet
  validate (a.cla == Ins.cla) Status.cla_not_supported
  validate (length packet == a.p3 + sizeof_apdu_header) Status.incorrect_length_p3
  iota_dispatch b sdk a is_locked

-- The status word for an exception; those that start with 6 stand for themselves.
abbrev pub status_of : ℕ → ℕ
status_of e = if e / 0x1000 % 16 == 6 then u16 e else u16 (bit_or Status.unknown (e % 256))

abbrev pub reset_unless : Build → Bool → Exec Device (Unit {0})
reset_unless b keep = if keep then pure tt else api_initialize b (app_mode_init b.app) 0

-- `CATCH_OTHER`: reset everything, but for two errors, and send the status word.
unfoldable pub catch_other : Build → Sdk → ℕ → Exec Device (Unit {0})
catch_other b sdk e = do
  let sw = status_of e
  reset_unless b (sw == Status.device_is_locked || sw == Status.cla_not_supported)
  io_send sdk [] sw

-- What becomes of the outcome of the `TRY` block.
unfoldable pub caught : Build → Sdk → Result Answer → Exec Device Answer
caught b sdk (thrown e) = do catch_other b sdk e; pure answered
caught b sdk r = lift r

-- One round of the loop.
unfoldable pub round : Build → Sdk → List ℕ → Bool → Exec Device Answer
round b sdk packet is_locked d = let (r, d') = handle b sdk packet is_locked d in caught b sdk r d'

unfoldable pub io_initialize : Build → Exec Device (Unit {0})
io_initialize b = api_initialize b (app_mode_init b.app) 0

abbrev pub ui_init : Device → Device
ui_init d = flow_main_menu (flow_init d)

-- `IOTA_main` before its loop.
unfoldable pub iota_main_start : Build → Exec Device (Unit {0})
iota_main_start b = do modify (λ d. record d { timer_events = 0 }); modify ui_init; io_initialize b

-- From the start of the app, or a reset of its I/O, to the loop.
unfoldable pub start : Build → Exec Device (Unit {0})
start b = do modify (λ d. record d { nv = nv_init d.nv }); iota_main_start b

-- What `main` does for a packet: an empty one throws `EXCEPTION_IO_RESET` past the loop of
-- `IOTA_main`, and the app starts anew.
unfoldable pub main_step : Build → Sdk → List ℕ → Bool → Exec Device (Unit {0})
main_step b sdk [] is_locked = start b
main_step b sdk packet is_locked = do round b sdk packet is_locked; pure tt
