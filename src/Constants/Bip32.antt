-- ===== src/Constants/Bip32.antt =====
-- The BIP32 path of src/iota/constants.h: its length, the meaning of its places, and the coins.
use ledger_iota_app.Prelude.{ℕ}

abbrev pub path_len : ℕ
path_len = 5

abbrev pub coin_index : ℕ
coin_index = 1

abbrev pub account_index : ℕ
account_index = 2

abbrev pub change_index : ℕ
change_index = 3

abbrev pub address_index : ℕ
address_index = 4

abbrev pub coin_iota : ℕ
coin_iota = 0x8000107a

abbrev pub coin_shimmer : ℕ
coin_shimmer = 0x8000107b

abbrev pub coin_testnet : ℕ
coin_testnet = 0x80000001
