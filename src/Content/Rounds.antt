-- ===== src/Content/Rounds.antt =====
-- The commands that src/main.c tells apart leave the context backed by its buffer.
use ledger_iota_app.Prelude.{Bool, if◌then◌else◌}
use ledger_iota_app.Constants.{Build}
use ledger_iota_app.Sdk.{Sdk}
use ledger_iota_app.Device.{Device}
use ledger_iota_app.Main.{switch, Apdu, Instruction}
use ledger_iota_app.Safety.{IsSound}
use ledger_iota_app.Content.{IsBacked, LeavesBacked}
use ledger_iota_app.Content.Commands.{
  reset-LeavesBacked, set_account-LeavesBacked, clear_data_buffer-LeavesBacked,
  write_data_block-LeavesBacked, read_data_block-LeavesBacked, get_data_buffer_state-LeavesBacked,
  get_app_config-LeavesBacked, show_flow-LeavesBacked, dump_memory-LeavesBacked,
  set_non_interactive_mode-LeavesBacked, sign-LeavesBacked, generate_address-LeavesBacked,
  user_confirm_essence-LeavesBacked,
}
use ledger_iota_app.Content.Preparing.{
  prepare_signing-LeavesBacked, prepare_blindsigning-LeavesBacked,
}

pub switch-LeavesBacked :
    (b : Build) (sdk : Sdk) (i : Instruction) (a : Apdu) (l : Bool) (d : Device)
    → IsSound b d.api
    → IsBacked b.target sdk d.api
    → LeavesBacked b.target sdk (switch b sdk i a l d)
unfolding switch
switch-LeavesBacked b sdk Instruction.none a l d s k = k
switch-LeavesBacked b sdk Instruction.get_app_config a l d s k =
    get_app_config-LeavesBacked b sdk d k (if l then 1 else 0)
switch-LeavesBacked b sdk Instruction.set_account a l d s k =
    set_account-LeavesBacked b sdk d a.p1 a.input_data
switch-LeavesBacked b sdk Instruction.reset a l d s k = reset-LeavesBacked b sdk d
switch-LeavesBacked b sdk Instruction.write_data_block a l d s k =
    write_data_block-LeavesBacked b sdk d k a.p1 a.input_data
switch-LeavesBacked b sdk Instruction.prepare_signing a l d s k =
    prepare_signing-LeavesBacked b sdk a.p2 a.input_data d s
switch-LeavesBacked b sdk Instruction.prepare_blindsigning a l d s k =
    prepare_blindsigning-LeavesBacked b sdk d s
switch-LeavesBacked b sdk Instruction.generate_address a l d s k =
    generate_address-LeavesBacked b sdk a.p1 a.input_data d k
switch-LeavesBacked b sdk Instruction.get_data_buffer_state a l d s k =
    get_data_buffer_state-LeavesBacked b sdk d k
switch-LeavesBacked b sdk Instruction.clear_data_buffer a l d s k =
    clear_data_buffer-LeavesBacked b sdk d
switch-LeavesBacked b sdk Instruction.user_confirm_essence a l d s k =
    user_confirm_essence-LeavesBacked b sdk d k
switch-LeavesBacked b sdk Instruction.sign_single a l d s k = sign-LeavesBacked b sdk d k a.p1
switch-LeavesBacked b sdk Instruction.read_data_block a l d s k =
    read_data_block-LeavesBacked b sdk d k a.p1
switch-LeavesBacked b sdk Instruction.show_flow a l d s k = show_flow-LeavesBacked b sdk d k
switch-LeavesBacked b sdk Instruction.dump_memory a l d s k =
    dump_memory-LeavesBacked b sdk d k a.p1
switch-LeavesBacked b sdk Instruction.set_non_interactive_mode a l d s k =
    set_non_interactive_mode-LeavesBacked b sdk d k a.p1
switch-LeavesBacked b sdk Instruction.unknown a l d s k = tt
