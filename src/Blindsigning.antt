-- ===== src/Blindsigning.antt =====
-- src/iota/blindsigning_stardust.c: the buffer holds the hash of an essence, a count and as many
-- BIP32 indices. Its `validate_inputs_bip32` is that of src/iota/essence_stardust.c, word for word.
pub mod Layout
use ledger_iota_app.Prelude.{
  ℕ, ◌+◌, ◌%◌, ◌^◌, Bool, true, false, ◌&&◌, Option, none, some, List, u16, u32, ltb, leb,
  if◌then◌else◌,
}
use ledger_iota_app.Exec.{Result, ok, fail, Exec, ◌>>=◌, ◌>>◌, ◌⟫◌, pure, lift, gets, modify, must}
use ledger_iota_app.Constants.{
  Target, api_buffer_size_bytes, essence_hash_size_bytes, inputs_min_count,
  inputs_max_count_stardust,
}
use ledger_iota_app.Types.{ApiCtx, ApiData, Essence}
use ledger_iota_app.Reader.{read, get_uint16}
use ledger_iota_app.Essence.{on_essence, validate_inputs_bip32}

-- The hash and the index behind it.
pub validate_essence_hash : Target → List ℕ → ℕ → Result (List ℕ × ℕ)
validate_essence_hash t bytes idx =
    if ltb (u32 (idx + essence_hash_size_bytes)) (api_buffer_size_bytes t)
    then read bytes idx essence_hash_size_bytes
      ⟫ (λ hash. ok (hash, u32 (idx + essence_hash_size_bytes)))
    else fail

unfoldable pub parse_and_validate_blindsigning : Target → Exec ApiCtx (Unit {0})
parse_and_validate_blindsigning t = do
  bytes ← gets (λ c. c.api_data.buffer)
  hash ← lift (validate_essence_hash t bytes 0)
  modify (on_essence (λ e. record e { hash = hash.0; length = u16 hash.1 }))
  n ← lift (get_uint16 t bytes hash.1)
  modify (on_essence (λ e. record e { inputs_count = n.0 }))
  must (leb inputs_min_count n.0 && leb n.0 inputs_max_count_stardust)
  idx ← validate_inputs_bip32 t n.1
  modify (λ c. record c { api_data = record c.api_data { length = u16 idx } })
