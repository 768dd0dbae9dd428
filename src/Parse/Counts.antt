-- ===== src/Parse/Counts.antt =====
-- The checks of src/iota/essence_stardust.c that follow the reading keep what was read.
use ledger_iota_app.Prelude.{ℕ, ◌≡◌, arith}
use ledger_iota_app.Types.{ApiCtx}
use ledger_iota_app.Sdk.{Sdk}
use ledger_iota_app.Parse.{
  essence_verify_remainder_address, essence_hash, verify_remainder, check_parsed, check_and_hash,
  tell_internal_transfer,
}

-- What was read is as it was; the path, the hash and the flag for the review may differ.
pub record SameCounts (c c' : ApiCtx) : Type 0 where
  pub same_count : c'.essence.inputs_count ≡ c.essence.inputs_count
  pub same_indices : c'.essence.inputs_bip32_index ≡ c.essence.inputs_bip32_index
  pub same_inputs : c'.essence.inputs ≡ c.essence.inputs
  pub same_outputs_count : c'.essence.outputs_count ≡ c.essence.outputs_count
  pub same_outputs : c'.essence.outputs ≡ c.essence.outputs
  pub same_has_remainder : c'.essence.has_remainder ≡ c.essence.has_remainder
  pub same_remainder_index : c'.essence.remainder_index ≡ c.essence.remainder_index

remainder-SameCounts : (sdk : Sdk) (n : ℕ) (c : ApiCtx) → SameCounts c (verify_remainder sdk n c).1
unfolding verify_remainder essence_verify_remainder_address
remainder-SameCounts sdk n c = ground arith

hash-SameCounts : (sdk : Sdk) (c : ApiCtx) → SameCounts c (essence_hash sdk c).1
unfolding essence_hash
hash-SameCounts sdk c = ground arith

transfer-SameCounts : (sdk : Sdk) (c : ApiCtx) → SameCounts c (tell_internal_transfer sdk c).1
unfolding tell_internal_transfer
transfer-SameCounts sdk c = ground arith

check_and_hash-SameCounts : (sdk : Sdk) (c : ApiCtx) → SameCounts c (check_and_hash sdk c).1
unfolding check_and_hash
check_and_hash-SameCounts sdk c = grind (arith, hash-SameCounts, transfer-SameCounts)

pub check_parsed-SameCounts : (sdk : Sdk) (c : ApiCtx) → SameCounts c (check_parsed sdk c).1
unfolding check_parsed
check_parsed-SameCounts sdk c = grind (arith, remainder-SameCounts, check_and_hash-SameCounts)
