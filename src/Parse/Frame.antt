-- ===== src/Parse/Frame.antt =====
-- What the parsers leave alone, whatever they return.
use ledger_iota_app.Prelude.{ℕ, ◌≡◌, ◌∙◌, List, arith, length, length-set}
use ledger_iota_app.Constants.{Target}
use ledger_iota_app.Types.{ApiCtx, Bip32Index}
use ledger_iota_app.Sdk.{Sdk}
use ledger_iota_app.InternalTransfer.{at_index}
use ledger_iota_app.Essence.{validate_inputs, validate_outputs, validate_inputs_bip32}
use ledger_iota_app.Parse.{
  essence_verify_remainder_address, essence_hash, verify_remainder, parse_layout, check_parsed,
  check_and_hash, tell_internal_transfer, essence_parse_and_validate_stardust,
  essence_parse_and_validate,
}
use ledger_iota_app.Blindsigning.{parse_and_validate_blindsigning}

pub record Framed (c c' : ApiCtx) : Type 0 where
  pub same_type : c'.api_data.type ≡ c.api_data.type
  pub same_buffer : c'.api_data.buffer ≡ c.api_data.buffer
  pub same_length : length c'.bip32_path ≡ length c.bip32_path
  pub same_mode : c'.app_mode ≡ c.app_mode
  pub same_protocol : c'.protocol ≡ c.protocol
  pub same_coin : c'.coin ≡ c.coin
  pub same_lock : c'.flow_locked ≡ c.flow_locked
  pub same_blindsigning : c'.essence.blindsigning ≡ c.essence.blindsigning

pub Framed-trans : (c c' c'' : ApiCtx) → Framed c c' → Framed c' c'' → Framed c c''
Framed-trans c c' c'' f g = ground arith

validate_inputs-Framed : (t : Target) (idx : ℕ) (c : ApiCtx) → Framed c (validate_inputs t idx c).1
unfolding validate_inputs
validate_inputs-Framed t idx c = ground arith

validate_outputs-Framed :
    (t : Target) (idx : ℕ) (c : ApiCtx) → Framed c (validate_outputs t idx c).1
unfolding validate_outputs
validate_outputs-Framed t idx c = ground arith

validate_inputs_bip32-Framed :
    (t : Target) (idx : ℕ) (c : ApiCtx) → Framed c (validate_inputs_bip32 t idx c).1
unfolding validate_inputs_bip32
validate_inputs_bip32-Framed t idx c = ground arith

length-at_index : (path : List ℕ) (b : Bip32Index) → length (at_index path b) ≡ length path
length-at_index path b = length-set _ 3 _ ∙ length-set path 4 b.bip32_index

remainder-Framed : (sdk : Sdk) (c : ApiCtx) → Framed c (essence_verify_remainder_address sdk c).1
unfolding essence_verify_remainder_address
remainder-Framed sdk c = ground (arith, length-at_index c.bip32_path c.essence.remainder_bip32)

essence_hash-Framed : (sdk : Sdk) (c : ApiCtx) → Framed c (essence_hash sdk c).1
unfolding essence_hash
essence_hash-Framed sdk c = ground arith

parse_layout-Framed : (t : Target) (c : ApiCtx) → Framed c (parse_layout t c).1
unfolding parse_layout
parse_layout-Framed t c =
    grind (arith, validate_inputs-Framed, validate_outputs-Framed, validate_inputs_bip32-Framed)

verify_remainder-Framed : (sdk : Sdk) (n : ℕ) (c : ApiCtx) → Framed c (verify_remainder sdk n c).1
unfolding verify_remainder
verify_remainder-Framed sdk n c = ground (arith, remainder-Framed sdk c)

tell_internal_transfer-Framed : (sdk : Sdk) (c : ApiCtx) → Framed c (tell_internal_transfer sdk c).1
unfolding tell_internal_transfer
tell_internal_transfer-Framed sdk c = ground arith

check_and_hash-Framed : (sdk : Sdk) (c : ApiCtx) → Framed c (check_and_hash sdk c).1
unfolding check_and_hash
check_and_hash-Framed sdk c = grind (arith, essence_hash-Framed, tell_internal_transfer-Framed)

check_parsed-Framed : (sdk : Sdk) (c : ApiCtx) → Framed c (check_parsed sdk c).1
unfolding check_parsed
check_parsed-Framed sdk c = grind (arith, verify_remainder-Framed, check_and_hash-Framed)

pub parse-Framed :
    (t : Target) (sdk : Sdk) (c : ApiCtx) → Framed c (essence_parse_and_validate t sdk c).1
unfolding essence_parse_and_validate essence_parse_and_validate_stardust
parse-Framed t sdk c = grind (arith, parse_layout-Framed, check_parsed-Framed)

pub blindsigning-Framed :
    (t : Target) (c : ApiCtx) → Framed c (parse_and_validate_blindsigning t c).1
unfolding parse_and_validate_blindsigning
blindsigning-Framed t c = grind (arith, validate_inputs_bip32-Framed)
