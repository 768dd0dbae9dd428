-- ===== src/Constants/AppMode.antt =====
-- `APP_MODE_TYPE`, `PROTOCOL_TYPE` and `COIN_TYPE` of src/api.h as the numbers that they are, since
-- a mode also carries the testnet bit 0x80 and a wiped context holds zeros.
use ledger_iota_app.Prelude.{ℕ}

abbrev pub iota_stardust : ℕ
iota_stardust = 1

abbrev pub shimmer_claiming : ℕ
shimmer_claiming = 2

abbrev pub shimmer : ℕ
shimmer = 3

abbrev pub protocol_stardust : ℕ
protocol_stardust = 1

abbrev pub coin_iota : ℕ
coin_iota = 0

abbrev pub coin_shimmer : ℕ
coin_shimmer = 1
