-- ===== src/Constants/Ins.antt =====
-- The class byte and the instruction codes of src/iota_io.h.
use ledger_iota_app.Prelude.{ℕ}

abbrev pub cla : ℕ
cla = 0x7b

abbrev pub none : ℕ
none = 0x00

abbrev pub get_app_config : ℕ
get_app_config = 0x10

abbrev pub set_account : ℕ
set_account = 0x11

abbrev pub get_data_buffer_state : ℕ
get_data_buffer_state = 0x80

abbrev pub write_data_block : ℕ
write_data_block = 0x81

abbrev pub read_data_block : ℕ
read_data_block = 0x82

abbrev pub clear_data_buffer : ℕ
clear_data_buffer = 0x83

abbrev pub show_flow : ℕ
show_flow = 0x90

abbrev pub prepare_blindsigning : ℕ
prepare_blindsigning = 0x91

abbrev pub prepare_signing : ℕ
prepare_signing = 0xa0

abbrev pub generate_address : ℕ
generate_address = 0xa1

abbrev pub user_confirm_essence : ℕ
user_confirm_essence = 0xa3

abbrev pub sign_single : ℕ
sign_single = 0xa4

abbrev pub dump_memory : ℕ
dump_memory = 0x66

abbrev pub set_non_interactive_mode : ℕ
set_non_interactive_mode = 0x67

abbrev pub reset : ℕ
reset = 0xff
