-- ===== src/Api/Address.antt =====
-- `api_generate_address` of src/api.c: filling the buffer with addresses, and showing a single one.
pub mod Bounds
use ledger_iota_app.Prelude.{
  ℕ, zero, suc, ◌+◌, ◌*◌, ◌/◌, ◌%◌, ◌^◌, Bool, true, false, not, ◌&&◌, ◌||◌, Option, none, some,
  List, [], replicate, u16, u32, blit, get_or, length, ltb, ◌==◌, test_bit, if◌then◌else◌,
}
use ledger_iota_app.Exec.{
  Result, ok, Exec, ◌>>=◌, ◌>>◌, pure, gets, throw_if, modify, must_some, or_throw,
}
use ledger_iota_app.Constants.{
  Build, Target, api_buffer_size_bytes, api_generate_addresses_max_count,
  address_with_type_size_bytes,
}
use ledger_iota_app.Constants.Status
use ledger_iota_app.Constants.Bip32
use ledger_iota_app.Types.{
  ApiCtx, ApiData, Essence, Bip32Index, generated_addresses, locked, GenerateAddressRequest,
  read_generate_address_request, sizeof_generate_address_request,
}
use ledger_iota_app.Sdk.{Sdk}
use ledger_iota_app.Address.{address_generate}
use ledger_iota_app.Essence.{on_essence}
use ledger_iota_app.Device.{
  Device, modify_api, io_send, api_generate_address_accepted, api_generate_address_timeout,
}
use ledger_iota_app.Ui.{flow_generating_addresses, flow_start_new_address}
use ledger_iota_app.Api.Core.{Answer, answered, io_asynch_reply, set_path}
use ledger_iota_app.Api.Buffer.{is_empty, set_data_type}

abbrev pub write_buffer : ℕ → List ℕ → ApiCtx → ApiCtx
write_buffer off bytes c = record c {
  api_data = record c.api_data { buffer = blit off bytes c.api_data.buffer };
}

-- The body of the loop at address `i`.
unfoldable pub generate_address_at : Sdk → ℕ → Exec Device (Unit {0})
generate_address_at sdk i = do
  path ← gets (λ d. d.api.bip32_path)
  addr ← or_throw Status.unknown (must_some (address_generate sdk path))
  modify_api (write_buffer (i * address_with_type_size_bytes) addr)
  modify_api (set_path Bip32.address_index (u32 (get_or path Bip32.address_index 0 + 1)))

-- The loop from address `i`, with `left` rounds to go.
unfoldable pub generate_addresses : Sdk → ℕ → ℕ → Exec Device (Unit {0})
generate_addresses sdk zero i = pure tt
generate_addresses sdk (suc left) i = do
  generate_address_at sdk i
  generate_addresses sdk left (i + 1)

-- The tests of the request, in their order.
abbrev pub reject_request : Target → ℕ → GenerateAddressRequest → Bool
reject_request t show_on_screen req =
    ltb (api_generate_addresses_max_count t) req.count
    || ((not (show_on_screen == 0) && not (req.count == 1))
        || ((not (test_bit req.bip32_index 31) || not (test_bit req.bip32_change 31))
            || (not (req.bip32_change % 2 ^ 31 / 2 == 0)
                || not (test_bit (u32 (req.bip32_index + req.count)) 31))))

-- What is set up for the flow that shows the address.
abbrev pub remember_address : GenerateAddressRequest → ApiCtx → ApiCtx
remember_address req c =
    let remembered =
      on_essence
        (λ e. record e {
          outputs_count = 1;
          remainder_bip32 = record {
            bip32_index = req.bip32_index;
            bip32_change = req.bip32_change;
          };
          remainder_index = 0;
        })
        c in
    record (set_path Bip32.change_index req.bip32_change
      (set_path Bip32.address_index req.bip32_index remembered)) { flow_locked = 1 }

-- The addresses are readable at once.
unfoldable pub publish_addresses : Sdk → Exec Device Answer
publish_addresses sdk = do
  modify_api (set_data_type generated_addresses)
  io_send sdk [] Status.ok
  pure answered

-- The one address is shown, and readable when the user has acknowledged it.
unfoldable pub show_address : GenerateAddressRequest → Exec Device Answer
show_address req = do
  modify_api (remember_address req)
  modify (
      flow_start_new_address (some api_generate_address_accepted)
        (some api_generate_address_timeout))
  pure io_asynch_reply

unfoldable pub finish_addresses : Build → Sdk → ℕ → GenerateAddressRequest → Exec Device Answer
unfolding publish_addresses show_address
finish_addresses b sdk show_on_screen req = do
  non_interactive_mode ← gets (λ d. d.api.non_interactive_mode)
  if show_on_screen == 0 || (b.app_debug && not (non_interactive_mode == 0))
      then publish_addresses sdk
      else show_address req

-- From the notice on the screen to the length of the data.
unfoldable pub fill_buffer : Build → Sdk → ℕ → GenerateAddressRequest → Exec Device (Unit {0})
fill_buffer b sdk show_on_screen req = do
  modify (λ d. if show_on_screen == 0 then flow_generating_addresses d else d)
  modify_api (set_path Bip32.address_index req.bip32_index)
  modify_api (set_path Bip32.change_index req.bip32_change)
  modify_api (λ c. record c {
    api_data = record c.api_data { buffer = replicate (api_buffer_size_bytes b.target) 0 };
  })
  generate_addresses sdk req.count 0
  modify_api (λ c. record c {
    api_data = record c.api_data { length = u16 (req.count * address_with_type_size_bytes) };
  })

unfoldable pub api_generate_address : Build → Sdk → ℕ → List ℕ → Exec Device Answer
api_generate_address b sdk show_on_screen bytes = do
  api ← gets (λ d. d.api)
  throw_if (not (api.flow_locked == 0)) Status.command_not_allowed
  throw_if (not (test_bit (get_or api.bip32_path Bip32.account_index 0) 31))
      Status.account_not_valid
  throw_if (not (is_empty api.api_data.type)) Status.command_not_allowed
  modify_api (set_data_type locked)
  throw_if (not (length bytes == sizeof_generate_address_request)) Status.incorrect_length
  let req = read_generate_address_request bytes
  throw_if (reject_request b.target show_on_screen req) Status.command_invalid_data
  fill_buffer b sdk show_on_screen req
  finish_addresses b sdk show_on_screen req
