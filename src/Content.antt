-- ===== src/Content.antt =====
-- What the context says of its buffer: the counts, the pointers and the hash of the essence are those
-- of what lies in the buffer, or there are no inputs to sign.
pub mod Commands
pub mod Preparing
pub mod Rounds
pub mod Runs
pub mod Signed
use ledger_iota_app.Prelude.{ℕ, ◌<◌, ◌≡◌, ◌≢◌, ◌⊎◌, List, some, slice}
use ledger_iota_app.Exec.{Result}
use ledger_iota_app.Safety.{Leaves}
use ledger_iota_app.Constants.{Target}
use ledger_iota_app.Types.{ApiCtx, Essence, empty}
use ledger_iota_app.Sdk.{Sdk}
use ledger_iota_app.Device.{Device}
use ledger_iota_app.Essence.Duplicates.{Distinct}
use ledger_iota_app.Parse.Layout.{
  IsEssence, inputs_number, outputs_number, outputs_start, essence_end, input_records, inputs_start,
}
use ledger_iota_app.Blindsigning.Layout.{IsBlind, blind_inputs_number}

-- An essence of a transaction that the app can show and sign.
pub record IsPlain (t : Target) (sdk : Sdk) (e : Essence) (bytes : List ℕ) : Type 0 where
  pub plain : e.blindsigning ≡ 0
  pub is_essence : IsEssence t bytes
  pub are_distinct : Distinct (input_records bytes)
  pub inputs_counted : e.inputs_count ≡ inputs_number bytes
  pub inputs_at : e.inputs ≡ some inputs_start
  pub outputs_counted : e.outputs_count ≡ outputs_number bytes
  pub outputs_at : e.outputs ≡ some (outputs_start bytes)
  pub indices_at : e.inputs_bip32_index ≡ some (essence_end bytes)
  pub remainder_inside : e.has_remainder ≡ 0 ⊎ e.remainder_index < e.outputs_count
  pub hashed : sdk.blake2b (slice 0 (essence_end bytes) bytes) ≡ some e.hash

-- A hash to sign blindly.
pub record IsBlindHash (t : Target) (e : Essence) (bytes : List ℕ) : Type 0 where
  pub blind : e.blindsigning ≢ 0
  pub is_blind : IsBlind t bytes
  pub inputs_counted : e.inputs_count ≡ blind_inputs_number bytes
  pub indices_at : e.inputs_bip32_index ≡ some 34
  pub hash_read : e.hash ≡ slice 0 32 bytes

-- There is nothing to sign, or it was checked.
pub data Backed (t : Target) (sdk : Sdk) (e : Essence) (bytes : List ℕ) : Type 0 where
  nothing : e.inputs_count ≡ 0 → Backed t sdk e bytes
  plainly : IsPlain t sdk e bytes → Backed t sdk e bytes
  blindly : IsBlindHash t e bytes → Backed t sdk e bytes

-- The invariant; a buffer that is free to be written has no inputs.
pub record IsBacked (t : Target) (sdk : Sdk) (c : ApiCtx) : Type 0 where
  pub backed : Backed t sdk c.essence c.api_data.buffer
  pub free : c.api_data.type ≡ empty → c.essence.inputs_count ≡ 0

abbrev pub LeavesBacked : {A : Type 0} → Target → Sdk → Result A × Device → Type 0
LeavesBacked t sdk = Leaves (λ d. IsBacked t sdk d.api)

-- A context without inputs.
pub no_inputs :
    (t : Target) (sdk : Sdk) (c : ApiCtx) → c.essence.inputs_count ≡ 0 → IsBacked t sdk c
no_inputs t sdk c h = record { backed = nothing h; free = λ _. h }
