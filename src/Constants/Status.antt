-- ===== src/Constants/Status.antt =====
-- The status words of src/iota_io.h.
use ledger_iota_app.Prelude.{ℕ}

abbrev pub ok : ℕ
ok = 0x9000

abbrev pub incorrect_length : ℕ
incorrect_length = 0x6700

abbrev pub command_invalid_data : ℕ
command_invalid_data = 0x6a80

abbrev pub incorrect_p1p2 : ℕ
incorrect_p1p2 = 0x6b00

abbrev pub incorrect_length_p3 : ℕ
incorrect_length_p3 = 0x6c00

abbrev pub ins_not_supported : ℕ
ins_not_supported = 0x6d00

abbrev pub cla_not_supported : ℕ
cla_not_supported = 0x6e00

abbrev pub account_not_valid : ℕ
account_not_valid = 0x6388

abbrev pub command_not_allowed : ℕ
command_not_allowed = 0x6900

abbrev pub command_timeout : ℕ
command_timeout = 0x6401

abbrev pub unknown : ℕ
unknown = 0x69a0

abbrev pub denied_by_user : ℕ
denied_by_user = 0x6985

abbrev pub device_is_locked : ℕ
device_is_locked = 0x6982
