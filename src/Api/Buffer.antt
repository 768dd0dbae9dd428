-- ===== src/Api/Buffer.antt =====
-- The data buffer of src/api.c: writing and reading blocks, its state, clearing it.
pub mod Blocks
use ledger_iota_app.Prelude.{
  ℕ, ◌+◌, ◌*◌, Bool, true, false, not, ◌&&◌, List, [], ◌∷◌, ◌++◌, to_le, slice, blit, length, leb,
  ◌==◌, u8, ◌%◌, ◌^◌, if◌then◌else◌,
}
use ledger_iota_app.Exec.{Result, ok, Exec, ◌>>=◌, ◌>>◌, pure, lift, gets, throw_if, modify}
use ledger_iota_app.Constants.{Build, data_block_size, data_block_count}
use ledger_iota_app.Constants.Status
use ledger_iota_app.Types.{
  ApiCtx, ApiData, DataType, empty, generated_addresses, validated_essence, user_confirmed_essence,
  signatures, locked, data_type_code,
}
use ledger_iota_app.Sdk.{Sdk}
use ledger_iota_app.Reader.{read}
use ledger_iota_app.Device.{Device, modify_api, io_send}
use ledger_iota_app.Api.Core.{Answer, answered, api_clear_data}

abbrev pub is_empty : DataType → Bool
is_empty empty = true
is_empty _ = false

abbrev pub is_readable : DataType → Bool
is_readable generated_addresses = true
is_readable signatures = true
is_readable _ = false

abbrev pub set_data_type : DataType → ApiCtx → ApiCtx
set_data_type ty c = record c { api_data = record c.api_data { type = ty } }

unfoldable pub api_write_data_block : Build → Sdk → ℕ → List ℕ → Exec Device Answer
api_write_data_block b sdk block_number bytes = do
  ty ← gets (λ d. d.api.api_data.type)
  throw_if (not (is_empty ty)) Status.command_not_allowed
  throw_if (not (length bytes == data_block_size)) Status.incorrect_length
  throw_if (leb (data_block_count b.target) block_number) Status.incorrect_p1p2
  modify_api (λ c. record c {
    api_data = record c.api_data {
      buffer = blit (block_number * data_block_size) bytes c.api_data.buffer;
    };
  })
  io_send sdk [] Status.ok
  pure answered

unfoldable pub api_read_data_block : Build → Sdk → ℕ → Exec Device Answer
api_read_data_block b sdk block_number = do
  api ← gets (λ d. d.api)
  throw_if (not (is_readable api.api_data.type)) Status.command_not_allowed
  throw_if (leb (data_block_count b.target) block_number) Status.incorrect_p1p2
  block ← lift (read api.api_data.buffer (block_number * data_block_size) data_block_size)
  io_send sdk block Status.ok
  pure answered

unfoldable pub api_get_data_buffer_state : Build → Sdk → Exec Device Answer
api_get_data_buffer_state b sdk = do
  api ← gets (λ d. d.api)
  io_send sdk
      (to_le 2 api.api_data.length
        ++ (data_type_code api.api_data.type
            ∷ u8 data_block_size
            ∷ u8 (data_block_count b.target)
            ∷ []))
      Status.ok
  pure answered

unfoldable pub api_clear_data_buffer : Build → Sdk → Exec Device Answer
api_clear_data_buffer b sdk = do api_clear_data b; io_send sdk [] Status.ok; pure answered
