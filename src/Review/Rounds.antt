-- ===== src/Review/Rounds.antt =====
-- The commands that src/main.c tells apart keep a review in step with the essence.
use ledger_iota_app.Prelude.{Bool, if◌then◌else◌}
use ledger_iota_app.Constants.{Build}
use ledger_iota_app.Sdk.{Sdk}
use ledger_iota_app.Device.{Device}
use ledger_iota_app.Main.{switch, Apdu, Instruction}
use ledger_iota_app.Content.{IsBacked}
use ledger_iota_app.Review.{IsReviewing, LeavesReviewing}
use ledger_iota_app.Review.Commands.{
  reset-LeavesReviewing, set_account-LeavesReviewing, clear_data_buffer-LeavesReviewing,
  write_data_block-LeavesReviewing, read_data_block-LeavesReviewing,
  get_data_buffer_state-LeavesReviewing, get_app_config-LeavesReviewing, show_flow-LeavesReviewing,
  dump_memory-LeavesReviewing, set_non_interactive_mode-LeavesReviewing, sign-LeavesReviewing,
  generate_address-LeavesReviewing, user_confirm_essence-LeavesReviewing,
  prepare_signing-LeavesReviewing, prepare_blindsigning-LeavesReviewing,
}

pub switch-LeavesReviewing :
    (b : Build) (sdk : Sdk) (i : Instruction) (a : Apdu) (l : Bool) (d : Device)
    → IsBacked b.target sdk d.api
    → IsReviewing b.target sdk d
    → LeavesReviewing b.target sdk (switch b sdk i a l d)
unfolding switch
switch-LeavesReviewing b sdk Instruction.none a l d k s = s
switch-LeavesReviewing b sdk Instruction.get_app_config a l d k s =
    get_app_config-LeavesReviewing b sdk d s (if l then 1 else 0)
switch-LeavesReviewing b sdk Instruction.set_account a l d k s =
    set_account-LeavesReviewing b sdk d a.p1 a.input_data
switch-LeavesReviewing b sdk Instruction.reset a l d k s = reset-LeavesReviewing b sdk d
switch-LeavesReviewing b sdk Instruction.write_data_block a l d k s =
    write_data_block-LeavesReviewing b sdk d s a.p1 a.input_data
switch-LeavesReviewing b sdk Instruction.prepare_signing a l d k s =
    prepare_signing-LeavesReviewing b sdk d s a.p2 a.input_data
switch-LeavesReviewing b sdk Instruction.prepare_blindsigning a l d k s =
    prepare_blindsigning-LeavesReviewing b sdk d s
switch-LeavesReviewing b sdk Instruction.generate_address a l d k s =
    generate_address-LeavesReviewing b sdk a.p1 a.input_data d
switch-LeavesReviewing b sdk Instruction.get_data_buffer_state a l d k s =
    get_data_buffer_state-LeavesReviewing b sdk d s
switch-LeavesReviewing b sdk Instruction.clear_data_buffer a l d k s =
    clear_data_buffer-LeavesReviewing b sdk d
switch-LeavesReviewing b sdk Instruction.user_confirm_essence a l d k s =
    user_confirm_essence-LeavesReviewing b sdk d k
switch-LeavesReviewing b sdk Instruction.sign_single a l d k s = sign-LeavesReviewing b sdk d s a.p1
switch-LeavesReviewing b sdk Instruction.read_data_block a l d k s =
    read_data_block-LeavesReviewing b sdk d s a.p1
switch-LeavesReviewing b sdk Instruction.show_flow a l d k s = show_flow-LeavesReviewing b sdk d s
switch-LeavesReviewing b sdk Instruction.dump_memory a l d k s =
    dump_memory-LeavesReviewing b sdk d s a.p1
switch-LeavesReviewing b sdk Instruction.set_non_interactive_mode a l d k s =
    set_non_interactive_mode-LeavesReviewing b sdk d s a.p1
switch-LeavesReviewing b sdk Instruction.unknown a l d k s = tt
