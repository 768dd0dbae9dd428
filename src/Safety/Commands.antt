-- ===== src/Safety/Commands.antt =====
-- The commands of src/api.c that neither parse nor generate keep the invariant, or throw.
use ledger_iota_app.Prelude.{
  ℕ, ◌≡◌, List, arith, ◌*◌, ◌%◌, length-replicate, AreBytes, AreBytes-blit, length-blit, le, get_or,
}
use ledger_iota_app.Exec.{ok}
use ledger_iota_app.Constants.{Build, api_buffer_size_bytes, data_block_size}
use ledger_iota_app.Constants.Status
use ledger_iota_app.Types.{wiped}
use ledger_iota_app.Sdk.{Sdk}
use ledger_iota_app.Device.{Device, io_send}
use ledger_iota_app.Reader.Laws.{read_in_range}
use ledger_iota_app.Api.Core.{
  app_mode_init, api_initialize, api_reset, api_clear_data, api_set_account,
}
use ledger_iota_app.Api.Core.Account.{IsMode, choose_coin_lem, app_mode_init-IsMode}
use ledger_iota_app.Api.Buffer.{
  api_write_data_block, api_read_data_block, api_get_data_buffer_state, api_clear_data_buffer,
}
use ledger_iota_app.Api.Buffer.Blocks.{block_fits}
use ledger_iota_app.Api.Config.{api_get_app_config, api_show_flow}
use ledger_iota_app.Api.Debug.{api_dump_memory, api_set_non_interactive_mode}
use ledger_iota_app.Safety.{IsSound, EndsSound, Ends-bind, zeros}

-- Sending throws at most, and leaves the context alone.
pub io_send_ends :
    (b : Build) (sdk : Sdk) (bytes : List ℕ) (sw : ℕ) (d : Device)
    → IsSound b d.api
    → EndsSound b (io_send sdk bytes sw d)
unfolding io_send
io_send_ends b sdk bytes sw d s = ground arith

-- A reset to a mode of the app succeeds.
pub initialize-IsSound :
    (b : Build) (mode account : ℕ) (d : Device)
    → IsMode b.app (mode % 128)
    → ((api_initialize b mode account d).0 ≡ ok tt)
      × IsSound b (api_initialize b mode account d).1.api
      × ((api_initialize b mode account d).1.sent ≡ d.sent)
unfolding api_initialize wiped
initialize-IsSound b mode account d m =
    let coin = choose_coin_lem b.app (mode % 128) in
    let bytes = zeros b in
    let full = length-replicate {A = ℕ} (api_buffer_size_bytes b.target) 0 in ground arith

pub initialize_ends :
    (b : Build) (mode account : ℕ) (d : Device) → EndsSound b (api_initialize b mode account d)
unfolding api_initialize wiped
initialize_ends b mode account d =
    let coin = choose_coin_lem b.app (mode % 128) in
    let bytes = zeros b in
    let full = length-replicate {A = ℕ} (api_buffer_size_bytes b.target) 0 in ground arith

pub reset_ends : (b : Build) (sdk : Sdk) (d : Device) → EndsSound b (api_reset b sdk d)
unfolding api_reset io_send
reset_ends b sdk d =
    let init = initialize-IsSound b (app_mode_init b.app) 0 d (app_mode_init-IsMode b.app) in
    ground arith

pub set_account_ends :
    (b : Build) (sdk : Sdk) (mode : ℕ) (bytes : List ℕ) (d : Device)
    → EndsSound b (api_set_account b sdk mode bytes d)
unfolding api_set_account io_send
set_account_ends b sdk mode bytes d = let init = initialize_ends b mode (le bytes) d in ground arith

-- What wipes the data goes back to the account that was chosen.
pub clear_data-IsSound :
    (b : Build) (d : Device)
    → IsSound b d.api
    → ((api_clear_data b d).0 ≡ ok tt)
      × IsSound b (api_clear_data b d).1.api
      × ((api_clear_data b d).1.sent ≡ d.sent)
unfolding api_clear_data
clear_data-IsSound b d s =
    let init = initialize-IsSound b d.api.app_mode (get_or d.api.bip32_path 2 0) d s.mode_known in
    ground arith

pub clear_data_buffer_ends :
    (b : Build) (sdk : Sdk) (d : Device)
    → IsSound b d.api
    → EndsSound b (api_clear_data_buffer b sdk d)
unfolding api_clear_data_buffer io_send
clear_data_buffer_ends b sdk d s = let clear = clear_data-IsSound b d s in ground arith

pub write_data_block_ends :
    (b : Build) (sdk : Sdk) (n : ℕ) (bytes : List ℕ) (d : Device)
    → AreBytes bytes
    → IsSound b d.api
    → EndsSound b (api_write_data_block b sdk n bytes d)
unfolding api_write_data_block io_send
write_data_block_ends b sdk n bytes d are s =
    let fits = block_fits b.target n in
    let same = length-blit (n * data_block_size) bytes d.api.api_data.buffer in
    let keeps = AreBytes-blit (n * data_block_size) bytes d.api.api_data.buffer are s.are_bytes in
    ground arith

pub read_data_block_ends :
    (b : Build) (sdk : Sdk) (n : ℕ) (d : Device)
    → IsSound b d.api
    → EndsSound b (api_read_data_block b sdk n d)
unfolding api_read_data_block io_send
read_data_block_ends b sdk n d s =
    let fits = block_fits b.target n in
    let reads = read_in_range d.api.api_data.buffer (n * data_block_size) data_block_size in
    ground arith

pub get_data_buffer_state_ends :
    (b : Build) (sdk : Sdk) (d : Device)
    → IsSound b d.api
    → EndsSound b (api_get_data_buffer_state b sdk d)
unfolding api_get_data_buffer_state io_send
get_data_buffer_state_ends b sdk d s = ground arith

pub get_app_config_ends :
    (b : Build) (sdk : Sdk) (l : ℕ) (d : Device)
    → IsSound b d.api
    → EndsSound b (api_get_app_config b sdk l d)
unfolding api_get_app_config
get_app_config_ends b sdk l d s =
    Ends-bind (λ d'. IsSound b d'.api) (λ d'. IsSound b d'.api) _ _
      (io_send_ends b sdk _ Status.ok d s) (λ _ sound. sound)

pub show_flow_ends :
    (b : Build) (sdk : Sdk) (d : Device) → IsSound b d.api → EndsSound b (api_show_flow sdk d)
unfolding api_show_flow io_send
show_flow_ends b sdk d s = ground arith

pub dump_memory_ends :
    (b : Build) (sdk : Sdk) (p : ℕ) (d : Device)
    → IsSound b d.api
    → EndsSound b (api_dump_memory b sdk p d)
unfolding api_dump_memory io_send
dump_memory_ends b sdk p d s = ground arith

pub set_non_interactive_mode_ends :
    (b : Build) (sdk : Sdk) (m : ℕ) (d : Device)
    → IsSound b d.api
    → EndsSound b (api_set_non_interactive_mode sdk m d)
unfolding api_set_non_interactive_mode io_send
set_non_interactive_mode_ends b sdk m d s = ground arith
