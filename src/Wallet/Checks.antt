-- ===== src/Wallet/Checks.antt =====
-- The flags that the checks of src/iota/essence_stardust.c set.
use ledger_iota_app.Prelude.{ℕ, ◌+◌, ◌*◌, ◌≤◌, ◌≡◌, ◌⊎◌, inl, inr, ◌∙◌, arith, some, length}
use ledger_iota_app.Exec.{ok}
use ledger_iota_app.Types.{ApiCtx, sizeof_basic_output, sizeof_bip32_index}
use ledger_iota_app.Sdk.{Sdk}
use ledger_iota_app.Constants.AppMode
use ledger_iota_app.InternalTransfer.{check_for_internal_transfer}
use ledger_iota_app.InternalTransfer.Ownership.{at_index_again, internal_transfer_lem}
use ledger_iota_app.Parse.{
  tell_internal_transfer, essence_hash, check_and_hash, verify_remainder, check_parsed,
}
use ledger_iota_app.Parse.Accepted.{IsOwn, remainder_lem, at_remainder}
use ledger_iota_app.Wallet.{IsSwept, IsKept}

-- Where the outputs and the BIP32 indices of a context lie.
pub record IsPlaced (c : ApiCtx) (outputs indices : ℕ) : Type 0 where
  pub stardust : c.protocol ≡ AppMode.protocol_stardust
  pub outputs_at : c.essence.outputs ≡ some outputs
  pub indices_at : c.essence.inputs_bip32_index ≡ some indices
  pub outputs_fit :
      outputs + sizeof_basic_output * c.essence.outputs_count ≤ length c.api_data.buffer
  pub indices_fit : indices + sizeof_bip32_index * c.essence.inputs_count ≤ length c.api_data.buffer

-- A yes of the check is right.
check-IsSwept :
    (sdk : Sdk) (c : ApiCtx) (outputs indices : ℕ)
    → IsPlaced c outputs indices
    → check_for_internal_transfer sdk c ≡ ok tt
    → IsSwept sdk c
check-IsSwept sdk c outputs indices p h =
    elim (internal_transfer_lem sdk c outputs indices p.stardust p.outputs_at p.indices_at
      p.outputs_fit p.indices_fit) [
        | inl (e, sweep, own) ↦ record {
          single = sweep.0;
          outputs = outputs;
          outputs_at = p.outputs_at;
          indices = indices;
          indices_at = p.indices_at;
          owned = own;
        }
        | inr (e, bad) ↦ ground arith
      ]

-- The contexts differ at most in the hash and the flag.
record SameOutputs (c c' : ApiCtx) : Type 0 where
  same_path : c'.bip32_path ≡ c.bip32_path
  same_buffer : c'.api_data.buffer ≡ c.api_data.buffer
  same_inputs_count : c'.essence.inputs_count ≡ c.essence.inputs_count
  same_outputs_count : c'.essence.outputs_count ≡ c.essence.outputs_count
  same_outputs : c'.essence.outputs ≡ c.essence.outputs
  same_indices : c'.essence.inputs_bip32_index ≡ c.essence.inputs_bip32_index
  same_has_remainder : c'.essence.has_remainder ≡ c.essence.has_remainder
  same_index : c'.essence.remainder_index ≡ c.essence.remainder_index
  same_remainder : c'.essence.remainder_bip32 ≡ c.essence.remainder_bip32

same-IsSwept : (sdk : Sdk) (c c' : ApiCtx) → SameOutputs c c' → IsSwept sdk c → IsSwept sdk c'
same-IsSwept sdk c c' s k = record {
  single = s.same_outputs_count ∙ k.single;
  outputs = k.outputs;
  outputs_at = s.same_outputs ∙ k.outputs_at;
  indices = k.indices;
  indices_at = s.same_indices ∙ k.indices_at;
  owned = rw (s.same_buffer, s.same_path, s.same_inputs_count) k.owned;
}

tell_lem :
    (sdk : Sdk) (c : ApiCtx) (outputs indices : ℕ)
    → IsPlaced c outputs indices
    → c.essence.is_internal_transfer ≡ 0
    → let c' = (tell_internal_transfer sdk c).1 in
      SameOutputs c c' × ((c'.essence.is_internal_transfer ≡ 0) ⊎ IsSwept sdk c')
unfolding tell_internal_transfer
tell_lem sdk c outputs indices p h =
    let yes = check-IsSwept sdk c outputs indices p in grind (arith, same-IsSwept)

hash_same :
    (sdk : Sdk) (c : ApiCtx)
    → let c' = (essence_hash sdk c).1 in
      SameOutputs c c'
      × (c'.essence.is_internal_transfer ≡ c.essence.is_internal_transfer)
      × (c'.protocol ≡ c.protocol)
unfolding essence_hash
hash_same sdk c = ground arith

SameOutputs-trans : (c c' c'' : ApiCtx) → SameOutputs c c' → SameOutputs c' c'' → SameOutputs c c''
SameOutputs-trans c c' c'' s t = ground arith

hash-IsPlaced :
    (sdk : Sdk) (c : ApiCtx) (outputs indices : ℕ)
    → IsPlaced c outputs indices
    → IsPlaced (essence_hash sdk c).1 outputs indices
unfolding essence_hash
hash-IsPlaced sdk c outputs indices p = ground arith

check_and_hash_flags :
    (sdk : Sdk) (c : ApiCtx) (outputs indices : ℕ)
    → IsPlaced c outputs indices
    → c.essence.is_internal_transfer ≡ 0
    → let c' = (check_and_hash sdk c).1 in
      SameOutputs c c' × ((c'.essence.is_internal_transfer ≡ 0) ⊎ IsSwept sdk c')
unfolding check_and_hash
check_and_hash_flags sdk c outputs indices p h =
    let (same, flag, _) = hash_same sdk c in
    let (same', told) =
      tell_lem sdk (essence_hash sdk c).1 outputs indices (hash-IsPlaced sdk c outputs indices p)
        (flag ∙ h) in
    let both = SameOutputs-trans c _ _ same same' in ground arith

-- Behind the check of the remainder.
at_remainder-IsKept :
    (sdk : Sdk) (c c' : ApiCtx) (outputs : ℕ)
    → c.essence.outputs ≡ some outputs
    → IsOwn sdk c outputs
    → SameOutputs (at_remainder c) c'
    → IsKept sdk c'
at_remainder-IsKept sdk c c' outputs at own s = record {
  outputs = outputs;
  outputs_at = s.same_outputs ∙ at;
  is_own =
      rw
        (
          s.same_index,
          s.same_outputs_count,
          s.same_remainder,
          s.same_buffer,
          s.same_path,
          at_index_again c.bip32_path c.essence.remainder_bip32 c.essence.remainder_bip32,
        )
        own;
}

-- What the checks leave, if they succeed.
abbrev pub Flagged : Sdk → ApiCtx → Type 0
Flagged sdk c =
    ((c.essence.is_internal_transfer ≡ 0) ⊎ IsSwept sdk c)
    × ((c.essence.has_remainder ≡ 0) ⊎ IsKept sdk c)

pub check_parsed_flags :
    (sdk : Sdk) (c : ApiCtx) (outputs indices : ℕ)
    → IsPlaced c outputs indices
    → c.essence.is_internal_transfer ≡ 0
    → (check_parsed sdk c).0 ≡ ok tt
    → Flagged sdk (check_parsed sdk c).1
unfolding check_parsed verify_remainder
check_parsed_flags sdk c outputs indices p h e =
    let there = check_and_hash_flags sdk c outputs indices p h in
    let p' : IsPlaced (at_remainder c) outputs indices = ground arith in
    let here = check_and_hash_flags sdk (at_remainder c) outputs indices p' h in
    let own = remainder_lem sdk c outputs p.outputs_at p.outputs_fit in
    let kept =
      at_remainder-IsKept sdk c (check_and_hash sdk (at_remainder c)).1 outputs p.outputs_at in
    ground arith
