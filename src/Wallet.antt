-- ===== src/Wallet.antt =====
-- What the flags of the essence of src/api.h stand for: the remainder, and the output of an
-- internal transfer.
pub mod Checks
pub mod Commands
pub mod Preparing
pub mod Runs
use ledger_iota_app.Prelude.{ℕ, ◌+◌, ◌*◌, ◌<◌, ◌≡◌, ◌⊎◌, List, some, slice}
use ledger_iota_app.Constants.{address_with_type_size_bytes}
use ledger_iota_app.Types.{
  ApiCtx, Bip32Index, empty, sizeof_basic_output, offset_address_type, sizeof_bip32_index,
}
use ledger_iota_app.Sdk.{Sdk}
use ledger_iota_app.Address.{address_generate}
use ledger_iota_app.InternalTransfer.{at_index}
use ledger_iota_app.InternalTransfer.Ownership.{IsOwnOutput}
use ledger_iota_app.Parse.Accepted.{IsOwn}

-- The single output pays to the address of an input.
pub record IsSwept (sdk : Sdk) (c : ApiCtx) : Type 0 where
  pub single : c.essence.outputs_count ≡ 1
  pub outputs : ℕ
  pub outputs_at : c.essence.outputs ≡ some outputs
  pub indices : ℕ
  pub indices_at : c.essence.inputs_bip32_index ≡ some indices
  pub owned : IsOwnOutput sdk c outputs indices

-- The remainder pays to the device's own address at its path.
pub record IsKept (sdk : Sdk) (c : ApiCtx) : Type 0 where
  pub outputs : ℕ
  pub outputs_at : c.essence.outputs ≡ some outputs
  pub is_own : IsOwn sdk c outputs

-- The invariant: the flags of the essence are off, or stand for an output of the wallet.
pub record IsOurs (sdk : Sdk) (c : ApiCtx) : Type 0 where
  pub fresh :
      c.api_data.type ≡ empty → (c.essence.is_internal_transfer ≡ 0) × (c.essence.has_remainder ≡ 0)
  pub transfer : (c.essence.is_internal_transfer ≡ 0) ⊎ IsSwept sdk c
  pub remainder : (c.essence.has_remainder ≡ 0) ⊎ IsKept sdk c

-- The same paths but for the two places that every use writes.
abbrev pub SamePath : ApiCtx → ApiCtx → Type 0
SamePath c c' = (x : Bip32Index) → at_index c'.bip32_path x ≡ at_index c.bip32_path x
