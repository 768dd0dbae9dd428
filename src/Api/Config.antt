-- ===== src/Api/Config.antt =====
-- The commands of src/api.c that only answer: the configuration of the app, and `api_show_flow`.
use ledger_iota_app.Prelude.{ℕ, ◌+◌, ◌*◌, [], ◌∷◌, u8, if◌then◌else◌}
use ledger_iota_app.Exec.{Exec, ◌>>=◌, ◌>>◌, pure, gets}
use ledger_iota_app.Constants.{
  Build, App, app_iota, app_shimmer, Target, target_nanos, target_nanox, target_nanos2,
}
use ledger_iota_app.Constants.Status
use ledger_iota_app.Sdk.{Sdk}
use ledger_iota_app.Device.{Device, io_send}
use ledger_iota_app.Nv.{nv_get_blindsigning}
use ledger_iota_app.Ui.{as_flag}
use ledger_iota_app.Api.Core.{Answer, answered}

-- Bit 2, which tells the app.
abbrev pub app_bit : App → ℕ
app_bit app_iota = 0
app_bit app_shimmer = 1

abbrev pub device_code : Target → ℕ
device_code target_nanos = 0
device_code target_nanox = 1
device_code target_nanos2 = 2

-- The three flags stand in different bits, so `|` adds them.
abbrev pub app_flags : App → ℕ → ℕ → ℕ
app_flags app is_locked blindsigning =
    as_flag is_locked + 2 * as_flag blindsigning + 4 * app_bit app

unfoldable pub api_get_app_config : Build → Sdk → ℕ → Exec Device Answer
api_get_app_config b sdk is_locked = do
  blindsigning ← gets nv_get_blindsigning
  io_send sdk
      (u8 b.appversion_major
        ∷ u8 b.appversion_minor
        ∷ u8 b.appversion_patch
        ∷ app_flags b.app is_locked blindsigning
        ∷ device_code b.target
        ∷ (if b.app_debug then 1 else 0)
        ∷ [])
      Status.ok
  pure answered

unfoldable pub api_show_flow : Sdk → Exec Device Answer
api_show_flow sdk = do io_send sdk [] Status.ok; pure answered
