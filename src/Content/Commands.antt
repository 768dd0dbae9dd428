-- ===== src/Content/Commands.antt =====
-- The commands of src/api.c that check nothing leave the context backed by its buffer.
use ledger_iota_app.Prelude.{
  ℕ, suc, zero, inl, inr, ◌≡◌, refl, List, arith, some, Bool-cases, get_or, ◌≢◌,
}
use ledger_iota_app.Constants.{Build}
use ledger_iota_app.Types.{ApiCtx, wiped, empty, GenerateAddressRequest}
use ledger_iota_app.Sdk.{Sdk}
use ledger_iota_app.Device.{
  Device, io_send, api_user_confirm_essence_accepted, api_user_confirm_essence_rejected,
  api_user_confirm_essence_timeout,
}
use ledger_iota_app.Api.Core.{set_path, api_initialize, api_reset, api_set_account, api_clear_data}
use ledger_iota_app.Api.Buffer.{
  api_write_data_block, api_read_data_block, api_get_data_buffer_state, api_clear_data_buffer,
}
use ledger_iota_app.Api.Config.{api_get_app_config, api_show_flow}
use ledger_iota_app.Api.Debug.{api_dump_memory, api_set_non_interactive_mode}
use ledger_iota_app.Api.Address.{
  api_generate_address, finish_addresses, fill_buffer, generate_addresses, generate_address_at,
}
use ledger_iota_app.Api.Confirm.{
  api_user_confirm_essence, confirm_by, start_flow, confirm_transaction, confirm_blindly,
  is_inconsistent, confirm_at_once,
}
use ledger_iota_app.Ui.{
  flow_start_user_confirm_transaction, flow_start_blindsigning,
  api-flow_start_user_confirm_transaction, api-flow_start_blindsigning,
}
use ledger_iota_app.Api.Sign.{api_sign}
use ledger_iota_app.Consent.{SameContent}
use ledger_iota_app.Consent.Commands.{sign_same}
use ledger_iota_app.Content.{IsBacked, Backed, LeavesBacked, no_inputs}

-- Nothing that the invariant speaks of has changed.
pub same-IsBacked :
    (b : Build) (sdk : Sdk) (c c' : ApiCtx)
    → IsBacked b.target sdk c
    → SameContent c c'
    → IsBacked b.target sdk c'
same-IsBacked b sdk c c' s same = record {
  backed = rw (same.same_essence, same.same_buffer) s.backed;
  free = rw (same.same_essence, same.same_type) s.free;
}

-- A wipe leaves no inputs, whether it succeeds or not.
pub initialize_no_inputs :
    (b : Build) (mode account : ℕ) (d : Device)
    → (api_initialize b mode account d).1.api.essence.inputs_count ≡ 0
unfolding api_initialize wiped
initialize_no_inputs b mode account d = ground arith

pub clear_data_no_inputs :
    (b : Build) (d : Device) → (api_clear_data b d).1.api.essence.inputs_count ≡ 0
unfolding api_clear_data
clear_data_no_inputs b d =
    let init = initialize_no_inputs b d.api.app_mode (get_or d.api.bip32_path 2 0) d in ground arith

module _ (b : Build) (sdk : Sdk) (d : Device) where
  pub reset-LeavesBacked : LeavesBacked b.target sdk (api_reset b sdk d)
  unfolding api_reset io_send
  reset-LeavesBacked = grind (arith, initialize_no_inputs, no_inputs)

  pub set_account-LeavesBacked :
      (mode : ℕ) (bytes : List ℕ) → LeavesBacked b.target sdk (api_set_account b sdk mode bytes d)
  unfolding api_set_account io_send
  set_account-LeavesBacked mode bytes = grind (arith, initialize_no_inputs, no_inputs)

  pub clear_data_buffer-LeavesBacked : LeavesBacked b.target sdk (api_clear_data_buffer b sdk d)
  unfolding api_clear_data_buffer io_send
  clear_data_buffer-LeavesBacked = grind (arith, clear_data_no_inputs, no_inputs)

  module _ (s : IsBacked b.target sdk d.api) where
    -- The buffer is written only while it is free.
    pub write_data_block-LeavesBacked :
        (n : ℕ) (bytes : List ℕ) → LeavesBacked b.target sdk (api_write_data_block b sdk n bytes d)
    unfolding api_write_data_block io_send
    write_data_block-LeavesBacked n bytes = let free = s.free in grind (arith, no_inputs)

    pub read_data_block-LeavesBacked :
        (n : ℕ) → LeavesBacked b.target sdk (api_read_data_block b sdk n d)
    unfolding api_read_data_block io_send
    read_data_block-LeavesBacked n = ground arith

    pub get_data_buffer_state-LeavesBacked :
        LeavesBacked b.target sdk (api_get_data_buffer_state b sdk d)
    unfolding api_get_data_buffer_state io_send
    get_data_buffer_state-LeavesBacked = ground arith

    pub get_app_config-LeavesBacked :
        (l : ℕ) → LeavesBacked b.target sdk (api_get_app_config b sdk l d)
    unfolding api_get_app_config io_send
    get_app_config-LeavesBacked l = ground arith

    pub show_flow-LeavesBacked : LeavesBacked b.target sdk (api_show_flow sdk d)
    unfolding api_show_flow io_send
    show_flow-LeavesBacked = ground arith

    pub dump_memory-LeavesBacked : (p : ℕ) → LeavesBacked b.target sdk (api_dump_memory b sdk p d)
    unfolding api_dump_memory io_send
    dump_memory-LeavesBacked p = ground arith

    pub set_non_interactive_mode-LeavesBacked :
        (m : ℕ) → LeavesBacked b.target sdk (api_set_non_interactive_mode sdk m d)
    unfolding api_set_non_interactive_mode io_send
    set_non_interactive_mode-LeavesBacked m = ground arith

    pub sign-LeavesBacked : (p1 : ℕ) → LeavesBacked b.target sdk (api_sign b sdk p1 d)
    unfolding api_sign io_send
    sign-LeavesBacked p1 = grind (arith, sign_same, same-IsBacked)

-- The loop over addresses leaves the essence alone.
generate_address_at_essence :
    (sdk : Sdk) (i : ℕ) (d : Device) → (generate_address_at sdk i d).1.api.essence ≡ d.api.essence
unfolding generate_address_at
generate_address_at_essence sdk i d = ground arith

generate_addresses_essence :
    (sdk : Sdk) (left i : ℕ) (d : Device)
    → (generate_addresses sdk left i d).1.api.essence ≡ d.api.essence
unfolding generate_addresses
generate_addresses_essence sdk zero i d = refl
generate_addresses_essence sdk (suc left) i d =
    grind (arith, generate_address_at_essence, generate_addresses_essence sdk left)

pub fill_buffer_essence :
    (b : Build) (sdk : Sdk) (show : ℕ) (req : GenerateAddressRequest) (d : Device)
    → (fill_buffer b sdk show req d).1.api.essence ≡ d.api.essence
unfolding fill_buffer
fill_buffer_essence b sdk show req d = grind (arith, generate_addresses_essence)

finish_addresses_inputs :
    (b : Build) (sdk : Sdk) (show : ℕ) (req : GenerateAddressRequest) (d : Device)
    → (finish_addresses b sdk show req d).1.api.essence.inputs_count ≡ d.api.essence.inputs_count
unfolding finish_addresses io_send
finish_addresses_inputs b sdk show req d = ground arith

-- Addresses overwrite the buffer, which was free.
pub generate_address-LeavesBacked :
    (b : Build) (sdk : Sdk) (show : ℕ) (bytes : List ℕ) (d : Device)
    → IsBacked b.target sdk d.api
    → LeavesBacked b.target sdk (api_generate_address b sdk show bytes d)
unfolding api_generate_address
generate_address-LeavesBacked b sdk show bytes d s =
    let free = s.free in grind (arith, fill_buffer_essence, finish_addresses_inputs, no_inputs)

-- Confirming keeps the essence and the buffer, and may change the type.
confirm_by-LeavesBacked :
    (b : Build) (sdk : Sdk) (start : Device → Device) (d : Device)
    → ((d' : Device) → (start d').api ≡ d'.api)
    → d.api.api_data.type ≢ empty
    → Backed b.target sdk d.api.essence d.api.api_data.buffer
    → LeavesBacked b.target sdk (confirm_by b sdk start d)
unfolding confirm_by start_flow confirm_at_once io_send
confirm_by-LeavesBacked b sdk start d keeps full s =
    let same = keeps (record d { api = record d.api { flow_locked = 1 } }) in ground arith

confirm_transaction-LeavesBacked :
    (b : Build) (sdk : Sdk) (d : Device)
    → d.api.api_data.type ≢ empty
    → Backed b.target sdk d.api.essence d.api.api_data.buffer
    → LeavesBacked b.target sdk (confirm_transaction b sdk d)
unfolding confirm_transaction
confirm_transaction-LeavesBacked b sdk d full s =
    let r = d.api.essence.remainder_bip32 in
    let d' : Device = record d {
      api = set_path 3 r.bip32_change (set_path 4 r.bip32_index d.api);
    } in
    let confirms =
      confirm_by-LeavesBacked b sdk
        (flow_start_user_confirm_transaction (some api_user_confirm_essence_accepted)
          (some api_user_confirm_essence_rejected) (some api_user_confirm_essence_timeout))
        d' (api-flow_start_user_confirm_transaction _ _ _) full s in
    elim (Bool-cases (is_inconsistent b.target d.api)) [
      | inl bad ↦ rw bad tt
      | inr good ↦ rw good confirms
    ]

pub user_confirm_essence-LeavesBacked :
    (b : Build) (sdk : Sdk) (d : Device)
    → IsBacked b.target sdk d.api
    → LeavesBacked b.target sdk (api_user_confirm_essence b sdk d)
unfolding api_user_confirm_essence confirm_blindly
user_confirm_essence-LeavesBacked b sdk d s =
    let backed = s.backed in
    let seen = confirm_transaction-LeavesBacked b sdk d in
    let blind =
      confirm_by-LeavesBacked b sdk
        (flow_start_blindsigning (some api_user_confirm_essence_accepted)
          (some api_user_confirm_essence_rejected) (some api_user_confirm_essence_timeout))
        d (api-flow_start_blindsigning _ _ _) in
    grind arith
