-- ===== src/Parse.antt =====
-- The whole of `essence_parse_and_validate_stardust` (src/iota/essence_stardust.c), and the choice
-- of it by protocol (src/iota/abstraction.c).
pub mod Layout
pub mod Frame
pub mod Counts
pub mod Accepted
pub mod Whole
use ledger_iota_app.Prelude.{
  ℕ, ◌+◌, ◌*◌, Bool, true, false, not, ◌&&◌, Option, none, some, List, u16, ltb, ◌==◌, test_bit,
  slice, same_bytes, if◌then◌else◌,
}
use ledger_iota_app.Exec.{
  Result, ok, fail, thrown, Exec, ◌>>=◌, ◌>>◌, ◌⟫◌, pure, throw, lift, gets, modify, must,
  must_some, answer,
}
use ledger_iota_app.Constants.{
  Target, address_with_type_size_bytes, transaction_essence_type_stardust, blake2b_size_bytes,
}
use ledger_iota_app.Constants.Status
use ledger_iota_app.Constants.AppMode
use ledger_iota_app.Types.{
  ApiCtx, ApiData, Essence, Bip32Index, sizeof_basic_output, offset_address_type,
}
use ledger_iota_app.Sdk.{Sdk}
use ledger_iota_app.Reader.{read, deref, get_uint8}
use ledger_iota_app.Address.{address_generate}
use ledger_iota_app.InternalTransfer.{at_index, check_for_internal_transfer}
use ledger_iota_app.Essence.{
  on_essence, validate_inputs, validate_outputs, validate_payload, validate_skip_bytes,
  validate_inputs_bip32, validate_inputs_duplicates,
}

unfoldable pub essence_verify_remainder_address : Sdk → Exec ApiCtx (Unit {0})
essence_verify_remainder_address sdk = do
  api ← gets (λ c. c)
  let remainder_bip32 = api.essence.remainder_bip32
  must (ltb api.essence.remainder_index api.essence.outputs_count)
  must (test_bit remainder_bip32.bip32_change 31)
  must (test_bit remainder_bip32.bip32_index 31)
  modify (λ c. record c { bip32_path = at_index c.bip32_path remainder_bip32 })
  tmp ← must_some (address_generate sdk (at_index api.bip32_path remainder_bip32))
  outputs ← lift (deref api.essence.outputs)
  out ← lift (
      read api.api_data.buffer
        (outputs + sizeof_basic_output * api.essence.remainder_index + offset_address_type)
        address_with_type_size_bytes)
  must (same_bytes out tmp)

unfoldable pub essence_hash : Sdk → Exec ApiCtx (Unit {0})
essence_hash sdk = do
  api ← gets (λ c. c)
  bytes ← lift (read api.api_data.buffer 0 api.essence.length)
  hash ← must_some (sdk.blake2b bytes)
  modify (on_essence (λ e. record e { hash = hash }))

-- The check of the remainder is made only if there is one.
unfoldable pub verify_remainder : Sdk → ℕ → Exec ApiCtx (Unit {0})
verify_remainder sdk has_remainder =
    if has_remainder == 0 then pure tt else essence_verify_remainder_address sdk

-- The reading of the buffer, up to `api->data.length = idx`.
unfoldable pub parse_layout : Target → Exec ApiCtx (Unit {0})
parse_layout t = do
  bytes ← gets (λ c. c.api_data.buffer)
  transaction_essence_type ← lift (get_uint8 t bytes 0)
  must (transaction_essence_type.0 == transaction_essence_type_stardust)
  idx_inputs ← lift (validate_skip_bytes t transaction_essence_type.1 8)
  idx_commitment ← validate_inputs t idx_inputs
  idx_outputs ← lift (validate_skip_bytes t idx_commitment blake2b_size_bytes)
  idx_payload ← validate_outputs t idx_outputs
  idx_end ← lift (validate_payload t bytes idx_payload)
  modify (on_essence (λ e. record e { length = u16 idx_end }))
  idx ← validate_inputs_bip32 t idx_end
  modify (λ c. record c { api_data = record c.api_data { length = u16 idx } })

-- The flag for the review is set only if every coin remains on the wallet.
unfoldable pub tell_internal_transfer : Sdk → Exec ApiCtx (Unit {0})
tell_internal_transfer sdk = do
  api ← gets (λ c. c)
  is_internal_transfer ← lift (answer (check_for_internal_transfer sdk api))
  modify
      (on_essence (λ e. if is_internal_transfer then record e { is_internal_transfer = 1 } else e))

-- The duplicates and the hash.
unfoldable pub check_and_hash : Sdk → Exec ApiCtx (Unit {0})
check_and_hash sdk = do
  api ← gets (λ c. c)
  lift (validate_inputs_duplicates api.api_data.buffer api.essence.inputs api.essence.inputs_count)
  essence_hash sdk
  tell_internal_transfer sdk

-- The checks on what was read, and the hash.
unfoldable pub check_parsed : Sdk → Exec ApiCtx (Unit {0})
check_parsed sdk = do
  has_remainder ← gets (λ c. c.essence.has_remainder)
  verify_remainder sdk has_remainder
  check_and_hash sdk

unfoldable pub essence_parse_and_validate_stardust : Target → Sdk → Exec ApiCtx (Unit {0})
essence_parse_and_validate_stardust t sdk = do parse_layout t; check_parsed sdk

unfoldable pub essence_parse_and_validate : Target → Sdk → Exec ApiCtx (Unit {0})
essence_parse_and_validate t sdk = do
  protocol ← gets (λ c. c.protocol)
  if protocol == AppMode.protocol_stardust
      then essence_parse_and_validate_stardust t sdk
      else throw Status.unknown
