-- ===== src/InternalTransfer.antt =====
-- src/iota/internal_transfer.c: does every coin remain on the wallet?
pub mod Ownership
use ledger_iota_app.Prelude.{
  ℕ, zero, suc, ◌+◌, ◌*◌, Bool, true, false, not, ◌&&◌, ◌||◌, Option, none, some, List, set, ◌==◌,
  same_bytes, if◌then◌else◌,
}
use ledger_iota_app.Exec.{Result, ok, fail, ◌⟫◌}
use ledger_iota_app.Constants.{address_with_type_size_bytes}
use ledger_iota_app.Constants.Bip32
use ledger_iota_app.Constants.AppMode
use ledger_iota_app.Types.{ApiCtx, Bip32Index, read_bip32_index, sizeof_bip32_index}
use ledger_iota_app.Sdk.{Sdk}
use ledger_iota_app.Reader.{read, deref}
use ledger_iota_app.Address.{address_generate}
use ledger_iota_app.Abstraction.{get_output_address_ptr}

-- The path with its last two places replaced.
abbrev pub at_index : List ℕ → Bip32Index → List ℕ
at_index path b = set (set path Bip32.address_index b.bip32_index) Bip32.change_index b.bip32_change

-- The loop from input `i`, with `left` rounds to go. The path is a copy, so it is not returned.
unfoldable pub matches_input : Sdk → List ℕ → ℕ → ℕ → List ℕ → ℕ → ℕ → Result (Unit {0})
unfolding read_bip32_index
matches_input sdk bytes output input_indices path zero i = fail
matches_input sdk bytes output input_indices path (suc left) i =
    read bytes (input_indices + sizeof_bip32_index * i) sizeof_bip32_index ⟫ λ r.
    let bip32_tmp_path = at_index path (read_bip32_index r) in
    elim (address_generate sdk bip32_tmp_path) [
      | none ↦ fail
      | some input ↦ read bytes output address_with_type_size_bytes ⟫ λ out.
          if same_bytes out input
          then ok tt
          else matches_input sdk bytes output input_indices bip32_tmp_path left (i + 1)
    ]

unfoldable pub check_for_internal_transfer : Sdk → ApiCtx → Result (Unit {0})
unfolding matches_input
check_for_internal_transfer sdk api =
    if (api.essence.outputs_count == 1 && api.essence.has_remainder == 0)
      && not (api.app_mode == AppMode.shimmer_claiming)
    then get_output_address_ptr api 0 ⟫ (λ output_ptr.
      deref api.essence.inputs_bip32_index ⟫ (λ input_indices. deref output_ptr ⟫ (λ output.
        matches_input sdk api.api_data.buffer output input_indices api.bip32_path
          api.essence.inputs_count 0)))
    else fail
