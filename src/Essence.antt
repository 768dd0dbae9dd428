-- ===== src/Essence.antt =====
-- src/iota/essence_stardust.c: parsing and validating the transaction essence in the data buffer.
-- Each function takes the index and returns the next one; what it writes to the essence is written
-- also if it returns 0 later.
pub mod Records
pub mod Duplicates
pub mod Validators
use ledger_iota_app.Prelude.{
  ℕ, zero, suc, ◌+◌, ◌*◌, ◌%◌, ◌^◌, Bool, true, false, not, ◌&&◌, ◌||◌, Option, none, some, List,
  [], ◌∷◌, u16, u32, u64, ltb, leb, ◌==◌, test_bit, if◌then◌else◌, set, slice, same_bytes,
}
use ledger_iota_app.Exec.{
  Result, ok, fail, Exec, ◌>>=◌, ◌>>◌, ◌⟫◌, pure, lift, gets, modify, must, must_some, answer,
}
use ledger_iota_app.Constants.{
  Target, api_buffer_size_bytes, inputs_min_count, inputs_max_count_stardust, outputs_min_count,
  outputs_max_count_stardust, input_type_utxo, output_type_basicoutput, address_unlock_condition,
  address_type_ed25519, address_with_type_size_bytes, transaction_essence_type_stardust,
  blake2b_size_bytes,
}
use ledger_iota_app.Constants.Bip32
use ledger_iota_app.Types.{
  ApiCtx, ApiData, Essence, Bip32Index, UtxoInput, BasicOutput, read_utxo_input, read_basic_output,
  read_bip32_index, sizeof_utxo_input, sizeof_basic_output, sizeof_bip32_index, offset_address_type,
}
use ledger_iota_app.Sdk.{Sdk}
use ledger_iota_app.Reader.{read, deref, get_uint32, get_uint16, get_uint8, scan}
use ledger_iota_app.Address.{address_generate}

-- A write to one field of `api->essence`.
abbrev pub on_essence : (Essence → Essence) → ApiCtx → ApiCtx
on_essence f c = record c { essence = f c.essence }

-- The body of the loop over the inputs.
unfoldable pub check_input : Unit {0} → List ℕ → Option (Unit {0})
unfolding read_utxo_input
check_input _ r =
    let tmp = read_utxo_input r in
    if tmp.input_type == input_type_utxo && ltb tmp.transaction_output_id outputs_max_count_stardust
    then some tt
    else none

unfoldable pub validate_inputs : Target → ℕ → Exec ApiCtx ℕ
validate_inputs t idx = do
  bytes ← gets (λ c. c.api_data.buffer)
  n ← lift (get_uint16 t bytes idx)
  modify (on_essence (λ e. record e { inputs_count = n.0 }))
  must (leb inputs_min_count n.0 && leb n.0 inputs_max_count_stardust)
  modify (on_essence (λ e. record e { inputs = some n.1 }))
  end ← lift (scan t bytes sizeof_utxo_input check_input n.0 n.1 tt)
  pure end.0

-- The body of the loop over the outputs, which carries `total_amount`.
unfoldable pub check_output : ℕ → List ℕ → Option ℕ
unfolding read_basic_output
check_output total_amount r =
    let tmp = read_basic_output r in
    let total = u64 (total_amount + tmp.amount) in
    if tmp.output_type == output_type_basicoutput
      && (ltb 0 tmp.amount
          && (tmp.native_tokens_count == 0
              && (tmp.unlock_conditions_count == 1
                  && (tmp.unlock_condition_type == address_unlock_condition
                      && (tmp.address_type == address_type_ed25519
                          && (tmp.blocks_count == 0 && leb tmp.amount total))))))
    then some total
    else none

unfoldable pub validate_outputs : Target → ℕ → Exec ApiCtx ℕ
validate_outputs t idx = do
  bytes ← gets (λ c. c.api_data.buffer)
  n ← lift (get_uint16 t bytes idx)
  modify (on_essence (λ e. record e { outputs_count = n.0 }))
  must (leb outputs_min_count n.0 && leb n.0 outputs_max_count_stardust)
  modify (on_essence (λ e. record e { outputs = some n.1 }))
  end ← lift (scan t bytes sizeof_basic_output check_output n.0 n.1 0)
  pure end.0

-- `MUST_SUM_LOWER_THAN` of src/macros.h at 32 bits
abbrev pub sum_lower_than : ℕ → ℕ → ℕ → Bool
sum_lower_than a b sum = ltb a sum && (ltb b sum && ltb (u32 (a + b)) sum)

unfoldable pub validate_payload : Target → List ℕ → ℕ → Result ℕ
validate_payload t bytes idx = get_uint32 t bytes idx ⟫ λ payload_length.
    if sum_lower_than payload_length.1 payload_length.0 (api_buffer_size_bytes t)
    then ok (u32 (payload_length.1 + payload_length.0))
    else fail

unfoldable pub validate_skip_bytes : Target → ℕ → ℕ → Result ℕ
validate_skip_bytes t idx bytes_to_skip =
    if ltb (u32 (idx + bytes_to_skip)) (api_buffer_size_bytes t)
    then ok (u32 (idx + bytes_to_skip))
    else fail

-- The body of the loop over the BIP32 indices, also of src/iota/blindsigning_stardust.c.
unfoldable pub check_bip32_index : Unit {0} → List ℕ → Option (Unit {0})
unfolding read_bip32_index
check_bip32_index _ r =
    let tmp = read_bip32_index r in
    if test_bit tmp.bip32_index 31 && test_bit tmp.bip32_change 31 then some tt else none

unfoldable pub validate_inputs_bip32 : Target → ℕ → Exec ApiCtx ℕ
validate_inputs_bip32 t idx = do
  bytes ← gets (λ c. c.api_data.buffer)
  modify (on_essence (λ e. record e { inputs_bip32_index = some idx }))
  inputs_count ← gets (λ c. c.essence.inputs_count)
  end ← lift (scan t bytes sizeof_bip32_index check_bip32_index inputs_count idx tt)
  pure end.0

-- The inner loop from `j`, with `left` rounds to go: no structure equals that at `i`.
unfoldable pub duplicates_of : List ℕ → ℕ → ℕ → ℕ → ℕ → Result (Unit {0})
duplicates_of bytes inputs i zero j = ok tt
duplicates_of bytes inputs i (suc left) j =
    read bytes (inputs + sizeof_utxo_input * i) sizeof_utxo_input ⟫ λ a.
    read bytes (inputs + sizeof_utxo_input * j) sizeof_utxo_input ⟫ λ b.
    if same_bytes a b then fail else duplicates_of bytes inputs i left (j + 1)

-- The outer loop from `i`, with `left` rounds to go.
unfoldable pub duplicates_from : List ℕ → ℕ → ℕ → ℕ → Result (Unit {0})
duplicates_from bytes inputs zero i = ok tt
duplicates_from bytes inputs (suc left) i =
    duplicates_of bytes inputs i left (i + 1) ⟫ λ _. duplicates_from bytes inputs left (i + 1)

unfoldable pub validate_inputs_duplicates : List ℕ → Option ℕ → ℕ → Result (Unit {0})
validate_inputs_duplicates bytes inputs_ptr inputs_count =
    if ltb inputs_count 2
    then ok tt
    else deref inputs_ptr ⟫ λ inputs. duplicates_from bytes inputs inputs_count 0
