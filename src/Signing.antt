-- ===== src/Signing.antt =====
-- src/iota/signing.c: the unlock block of one input, as the bytes that go into the answer.
pub mod Reference
use ledger_iota_app.Prelude.{
  ℕ, zero, suc, ◌+◌, ◌*◌, ◌%◌, ◌^◌, Bool, true, false, Option, none, some, List, [], ◌∷◌, ◌++◌, u8,
  length, to_le, same_bytes, ltb, ◌==◌, if◌then◌else◌,
}
use ledger_iota_app.Exec.{
  Result, ok, fail, Exec, ◌>>=◌, ◌>>◌, ◌⟫◌, pure, lift, gets, modify, must, must_some,
}
use ledger_iota_app.Constants.{
  signature_size_bytes, signature_type_ed25519, unlock_type_signature, unlock_type_reference,
}
use ledger_iota_app.Types.{ApiCtx, Essence, Bip32Index, read_bip32_index, sizeof_bip32_index}
use ledger_iota_app.Sdk.{Sdk}
use ledger_iota_app.Reader.{read, deref}
use ledger_iota_app.Address.{ed25519_public_key_to_bytes}
use ledger_iota_app.InternalTransfer.{at_index}

-- `sizeof(SIGNATURE_UNLOCK_BLOCK)`
abbrev pub sizeof_signature_unlock_block : ℕ
sizeof_signature_unlock_block = 98

-- What the search for a reference returns if there is none.
abbrev pub no_reference : ℕ
no_reference = 0xff

-- The two members of `SIGNATURE_BLOCK` in their order. The path of the context is overwritten.
unfoldable pub sign_signature : Sdk → Bip32Index → Exec ApiCtx (List ℕ)
sign_signature sdk input_bip32_index = do
  modify (λ c. record c { bip32_path = at_index c.bip32_path input_bip32_index })
  api ← gets (λ c. c)
  signature ← must_some (sdk.sign_hash api.bip32_path api.essence.hash)
  must (length signature == signature_size_bytes)
  raw_pubkey ← must_some (sdk.get_pubkey api.bip32_path)
  pure (ed25519_public_key_to_bytes raw_pubkey ++ signature)

unfoldable pub sign_signature_unlock_block : Sdk → Bip32Index → Exec ApiCtx (List ℕ)
unfolding sign_signature
sign_signature_unlock_block sdk input_bip32_index = do
  signature ← sign_signature sdk input_bip32_index
  pure (unlock_type_signature ∷ signature_type_ed25519 ∷ signature)

unfoldable pub sign_reference_unlock_block : ℕ → List ℕ
sign_reference_unlock_block reference_index = unlock_type_reference ∷ to_le 2 reference_index

-- The loop from `i`, with `left` rounds to go.
unfoldable pub find_reference : List ℕ → ℕ → ℕ → ℕ → ℕ → Result ℕ
find_reference bytes inputs signature_index zero i = ok no_reference
find_reference bytes inputs signature_index (suc left) i =
    read bytes (inputs + sizeof_bip32_index * signature_index) sizeof_bip32_index ⟫ λ a.
    read bytes (inputs + sizeof_bip32_index * i) sizeof_bip32_index ⟫ λ b.
    if same_bytes a b then ok (u8 i) else find_reference bytes inputs signature_index left (i + 1)

-- At index 0 the loop makes no round.
unfoldable pub sign_get_reference_index : ApiCtx → ℕ → Result ℕ
sign_get_reference_index api signature_index =
    deref api.essence.inputs_bip32_index
    ⟫ (λ inputs. find_reference api.api_data.buffer inputs signature_index signature_index 0)

-- No reference is looked for when signing blindly.
unfoldable pub reference_index_of : ApiCtx → ℕ → Result ℕ
unfolding sign_get_reference_index
reference_index_of api signature_index =
    if api.essence.blindsigning == 0
    then sign_get_reference_index api signature_index
    else ok no_reference

unfoldable pub sign : Sdk → ℕ → Exec ApiCtx (List ℕ)
unfolding reference_index_of sign_signature_unlock_block sign_reference_unlock_block
sign sdk signature_index = do
  api ← gets (λ c. c)
  must (ltb signature_index api.essence.inputs_count)
  inputs ← lift (deref api.essence.inputs_bip32_index)
  bytes ←
      lift (
        read api.api_data.buffer (inputs + sizeof_bip32_index * signature_index) sizeof_bip32_index)
  reference_index ← lift (reference_index_of api signature_index)
  if reference_index == no_reference
      then sign_signature_unlock_block sdk (read_bip32_index bytes)
      else pure (sign_reference_unlock_block reference_index)
