-- ===== src/Consent/Signature.antt =====
-- What `api_sign` of src/api.c puts out, and after what.
use ledger_iota_app.Prelude.{
  ℕ, ◌+◌, ◌*◌, ◌≡◌, ◌≢◌, ◌⊎◌, inl, inr, false, ◌==◌, List, ◌∷◌, ◌++◌, arith, some, length, to_le,
  ◌<◌, Option-cases, Bool-cases, ◌≤◌,
}
use ledger_iota_app.Exec.{ok}
use ledger_iota_app.Constants.{Build}
use ledger_iota_app.Types.{
  ApiCtx, Bip32Index, read_bip32_index, user_confirmed_essence, sizeof_bip32_index,
}
use ledger_iota_app.Sdk.{Sdk}
use ledger_iota_app.Device.{Device}
use ledger_iota_app.Address.{ed25519_public_key_to_bytes}
use ledger_iota_app.InternalTransfer.{at_index}
use ledger_iota_app.Signing.{
  sign_get_reference_index, sign, sign_signature, sign_signature_unlock_block,
  sign_reference_unlock_block, reference_index_of,
}
use ledger_iota_app.Signing.Reference.{indices_of, IsFirstFrom, find_reference_lem}
use ledger_iota_app.Reader.Laws.{read_in_range}
use ledger_iota_app.Api.Core.{Answer}
use ledger_iota_app.Api.Sign.{api_sign}
use ledger_iota_app.Consent.Trace.{Reach, Consented, consent_lem}

sign_confirmed :
    (b : Build) (sdk : Sdk) (p1 : ℕ) (d : Device) (a : Answer)
    → (api_sign b sdk p1 d).0 ≡ ok a
    → d.api.api_data.type ≡ user_confirmed_essence
unfolding api_sign
sign_confirmed b sdk p1 d a h = ground arith

-- In a build without the debug commands, from a state in which no essence is confirmed: if the
-- command to sign succeeds at the end of a run, the user has pressed on that run a step to accept, in a
-- review of an essence; the press left the essence and the buffer and made the essence a confirmed one,
-- and no step of the run since has changed the type, the essence or the buffer.
pub sign_consent_lem :
    (b : Build) (sdk : Sdk) (start d : Device) (p1 : ℕ) (a : Answer)
    → b.app_debug ≡ false
    → start.api.api_data.type ≢ user_confirmed_essence
    → (r : Reach b sdk start d) → (api_sign b sdk p1 d).0 ≡ ok a
    → Consented b sdk start d r
sign_consent_lem b sdk start d p1 a release fresh r h =
    consent_lem b sdk start d release fresh r (sign_confirmed b sdk p1 d a h)

-- The unlock block of an input, from its BIP32 indices: a signature block holds the public key at
-- the input's path and a signature of the stored hash by the key at that path.
abbrev pub IsSigned : Sdk → ApiCtx → Bip32Index → List ℕ → Type 0
IsSigned sdk c index out =
    let path = at_index c.bip32_path index in
    (raw : List ℕ) × (signature : List ℕ) × (sdk.get_pubkey path ≡ some raw)
    × (sdk.sign_hash path c.essence.hash ≡ some signature)
    × (length signature ≡ 64)
    × (out ≡ 0 ∷ 0 ∷ (ed25519_public_key_to_bytes raw ++ signature))

signature_block_lem :
    (sdk : Sdk) (c : ApiCtx) (index : Bip32Index) (out : List ℕ)
    → (sign_signature_unlock_block sdk index c).0 ≡ ok out
    → IsSigned sdk c index out
unfolding sign_signature_unlock_block sign_signature
signature_block_lem sdk c index out h =
    let path = at_index c.bip32_path index in
    elim (Option-cases (sdk.sign_hash path c.essence.hash)) [
      | inl e ↦ ground arith
      | inr (signature, e) ↦ elim (Option-cases (sdk.get_pubkey path)) [
        | inl e' ↦ ground arith
        | inr (raw, e') ↦ (raw, signature, e', e, ground arith, ground arith)
      ]
    ]

module _ (sdk : Sdk) (c : ApiCtx) (bip32 i : ℕ) where
  -- The BIP32 indices of the input.
  abbrev pub index_of : Bip32Index
  index_of = read_bip32_index (indices_of c.api_data.buffer bip32 i)

  -- With at most 128 inputs, whose BIP32 indices lie in the buffer, if `sign` succeeds, the index is
  -- below the number of inputs. For an input that is the first with its BIP32 indices, and for every input when signing
  -- blindly, `sign` puts out a signature block; for any other input it puts out a reference to the
  -- first one with the same indices.
  pub sign_lem :
      (out : List ℕ)
      → c.essence.inputs_bip32_index ≡ some bip32
      → c.essence.inputs_count ≤ 128
      → bip32 + sizeof_bip32_index * c.essence.inputs_count ≤ length c.api_data.buffer
      → (sign sdk i c).0 ≡ ok out
      → (i < c.essence.inputs_count)
        × (((c.essence.blindsigning ≢ 0
                ⊎ ((j : ℕ)
                    → 0 ≤ j
                    → j < i
                    → indices_of c.api_data.buffer bip32 i ≢ indices_of c.api_data.buffer bip32 j))
              × IsSigned sdk c index_of out)
            ⊎ ((c.essence.blindsigning ≡ 0)
                × ((k : ℕ) × IsFirstFrom c.api_data.buffer bip32 i 0 k × (out ≡ 1 ∷ to_le 2 k))))
  unfolding sign sign_reference_unlock_block reference_index_of sign_get_reference_index
  sign_lem out at few fits h =
      let inside : i < c.essence.inputs_count = ground arith in
      let index =
        read_in_range c.api_data.buffer (bip32 + sizeof_bip32_index * i) sizeof_bip32_index
          (omega arith) in
      let block = signature_block_lem sdk c index_of out in
      elim (find_reference_lem c.api_data.buffer bip32 i i 0 (omega arith) (omega arith)
        (omega arith)) [
          | inl (k, e, first) ↦ elim (Bool-cases (c.essence.blindsigning == 0)) [
            | inl is ↦
                let zero' : c.essence.blindsigning ≡ 0 = ground arith in
                (inside, inr (zero', (k, first, ground arith)))
            | inr is ↦ (inside, inl (inl (ground arith), block (ground arith)))
          ]
          | inr (e, first) ↦ (inside, inl (inr first, block (ground arith)))
        ]
