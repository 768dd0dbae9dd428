-- ===== src/Api/Debug.antt =====
-- The commands of src/api.c that only the debug build has.
use ledger_iota_app.Prelude.{ℕ, ◌+◌, ◌*◌, ◌/◌, [], ltb, leb}
use ledger_iota_app.Exec.{Exec, ◌>>◌, pure, throw_if}
use ledger_iota_app.Constants.{Build, Target, target_nanos, target_nanox, target_nanos2}
use ledger_iota_app.Constants.Status
use ledger_iota_app.Sdk.{Sdk}
use ledger_iota_app.Device.{Device, modify_api, io_send}
use ledger_iota_app.Api.Core.{Answer, answered}

-- The number of pages, and the address of the first one.
abbrev pub memory_pages : Target → ℕ
memory_pages target_nanos = (4096 + 512) / 128
memory_pages target_nanox = 30 * 1024 / 128
memory_pages target_nanos2 = 30 * 1024 / 128

abbrev pub memory_start : Target → ℕ
memory_start target_nanos = 0x20000200
memory_start target_nanox = 0xda7a0000
memory_start target_nanos2 = 0xda7a0000

unfoldable pub api_dump_memory : Build → Sdk → ℕ → Exec Device Answer
api_dump_memory b sdk pagenr = do
  throw_if (leb (memory_pages b.target) pagenr) Status.incorrect_p1p2
  io_send sdk (sdk.read_memory (memory_start b.target + pagenr * 128)) Status.ok
  pure answered

unfoldable pub api_set_non_interactive_mode : Sdk → ℕ → Exec Device Answer
api_set_non_interactive_mode sdk mode = do
  throw_if (ltb 1 mode) Status.incorrect_p1p2
  modify_api (λ c. record c { non_interactive_mode = mode })
  io_send sdk [] Status.ok
  pure answered
