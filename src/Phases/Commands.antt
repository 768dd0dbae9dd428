-- ===== src/Phases/Commands.antt =====
-- The moves of the commands of src/api.c.
use ledger_iota_app.Prelude.{ℕ, ◌≡◌, ◌⊎◌, inl, inr, List, arith, some, Bool-cases}
use ledger_iota_app.Constants.{Build}
use ledger_iota_app.Types.{ApiCtx, wiped, empty, locked, GenerateAddressRequest}
use ledger_iota_app.Sdk.{Sdk}
use ledger_iota_app.Device.{
  Device, io_send, api_user_confirm_essence_accepted, api_user_confirm_essence_rejected,
  api_user_confirm_essence_timeout,
}
use ledger_iota_app.Api.Core.{set_path, api_initialize, api_reset, api_set_account}
use ledger_iota_app.Api.Buffer.{
  api_write_data_block, api_read_data_block, api_get_data_buffer_state, api_clear_data_buffer,
}
use ledger_iota_app.Api.Config.{api_get_app_config, api_show_flow}
use ledger_iota_app.Api.Debug.{api_dump_memory, api_set_non_interactive_mode}
use ledger_iota_app.Api.Address.{api_generate_address, finish_addresses}
use ledger_iota_app.Api.Prepare.{api_prepare_signing, api_prepare_blindsigning, parse_transaction}
use ledger_iota_app.Api.Confirm.{
  api_user_confirm_essence, confirm_by, start_flow, confirm_transaction, confirm_blindly,
  is_inconsistent,
}
use ledger_iota_app.Ui.{
  flow_start_user_confirm_transaction, flow_start_blindsigning,
  api-flow_start_user_confirm_transaction, api-flow_start_blindsigning,
}
use ledger_iota_app.Api.Sign.{api_sign}
use ledger_iota_app.Parse.Frame.{parse-Framed, blindsigning-Framed}
use ledger_iota_app.Consent.{SameContent}
use ledger_iota_app.Consent.Commands.{Asks, fill_buffer_type, clear_data_empties, sign_same}
use ledger_iota_app.Phases.{IsPrepared}

-- The move of a command, as a sum that the tactics read.
abbrev pub Moves : ApiCtx → ApiCtx → Type 0
Moves c c' =
    SameContent c c'
    ⊎ ((c'.api_data.type ≡ empty) ⊎ ((c.api_data.type ≡ empty) × IsPrepared c'.api_data.type))

pub write_data_block-Moves :
    (b : Build) (sdk : Sdk) (n : ℕ) (bytes : List ℕ) (d : Device)
    → Moves d.api (api_write_data_block b sdk n bytes d).1.api
unfolding api_write_data_block io_send
write_data_block-Moves b sdk n bytes d = ground arith

pub read_data_block-Moves :
    (b : Build) (sdk : Sdk) (n : ℕ) (d : Device) → Moves d.api (api_read_data_block b sdk n d).1.api
unfolding api_read_data_block io_send
read_data_block-Moves b sdk n d = ground arith

pub get_data_buffer_state-Moves :
    (b : Build) (sdk : Sdk) (d : Device) → Moves d.api (api_get_data_buffer_state b sdk d).1.api
unfolding api_get_data_buffer_state io_send
get_data_buffer_state-Moves b sdk d = ground arith

pub get_app_config-Moves :
    (b : Build) (sdk : Sdk) (l : ℕ) (d : Device) → Moves d.api (api_get_app_config b sdk l d).1.api
unfolding api_get_app_config io_send
get_app_config-Moves b sdk l d = ground arith

pub show_flow-Moves : (sdk : Sdk) (d : Device) → Moves d.api (api_show_flow sdk d).1.api
unfolding api_show_flow io_send
show_flow-Moves sdk d = ground arith

pub reset-Moves : (b : Build) (sdk : Sdk) (d : Device) → Moves d.api (api_reset b sdk d).1.api
unfolding api_reset io_send api_initialize wiped
reset-Moves b sdk d = ground arith

pub set_account-Moves :
    (b : Build) (sdk : Sdk) (m : ℕ) (bytes : List ℕ) (d : Device)
    → Moves d.api (api_set_account b sdk m bytes d).1.api
unfolding api_set_account io_send api_initialize wiped
set_account-Moves b sdk m bytes d = ground arith

pub clear_data_buffer-Moves :
    (b : Build) (sdk : Sdk) (d : Device) → Moves d.api (api_clear_data_buffer b sdk d).1.api
unfolding api_clear_data_buffer io_send
clear_data_buffer-Moves b sdk d = ground (arith, clear_data_empties b d)

finish_addresses-Prepared :
    (b : Build) (sdk : Sdk) (show : ℕ) (req : GenerateAddressRequest) (d : Device)
    → d.api.api_data.type ≡ locked
    → IsPrepared (finish_addresses b sdk show req d).1.api.api_data.type
unfolding finish_addresses io_send
finish_addresses-Prepared b sdk show req d h = ground arith

pub generate_address-Moves :
    (b : Build) (sdk : Sdk) (show : ℕ) (bytes : List ℕ) (d : Device)
    → Moves d.api (api_generate_address b sdk show bytes d).1.api
unfolding api_generate_address
generate_address-Moves b sdk show bytes d =
    grind (arith, fill_buffer_type, finish_addresses-Prepared)

pub prepare_signing-Moves :
    (b : Build) (sdk : Sdk) (p2 : ℕ) (bytes : List ℕ) (d : Device)
    → Moves d.api (api_prepare_signing b sdk p2 bytes d).1.api
unfolding api_prepare_signing parse_transaction io_send
prepare_signing-Moves b sdk p2 bytes d = grind (arith, parse-Framed)

pub prepare_blindsigning-Moves :
    (b : Build) (sdk : Sdk) (d : Device) → Moves d.api (api_prepare_blindsigning b sdk d).1.api
unfolding api_prepare_blindsigning io_send
prepare_blindsigning-Moves b sdk d = grind (arith, blindsigning-Framed)

confirm_by-SameContent :
    (b : Build) (sdk : Sdk) (start : Device → Device) (d : Device)
    → ((d' : Device) → (start d').api ≡ d'.api)
    → Asks b d.api
    → SameContent d.api (confirm_by b sdk start d).1.api
unfolding confirm_by start_flow
confirm_by-SameContent b sdk start d keeps h =
    let same = keeps (record d { api = record d.api { flow_locked = 1 } }) in rw h (ground arith)

confirm_transaction-SameContent :
    (b : Build) (sdk : Sdk) (d : Device)
    → Asks b d.api
    → SameContent d.api (confirm_transaction b sdk d).1.api
unfolding confirm_transaction
confirm_transaction-SameContent b sdk d h =
    let r = d.api.essence.remainder_bip32 in
    let d' : Device = record d {
      api = set_path 3 r.bip32_change (set_path 4 r.bip32_index d.api);
    } in
    let same =
      confirm_by-SameContent b sdk
        (flow_start_user_confirm_transaction (some api_user_confirm_essence_accepted)
          (some api_user_confirm_essence_rejected) (some api_user_confirm_essence_timeout))
        d' (api-flow_start_user_confirm_transaction _ _ _) h in
    elim (Bool-cases (is_inconsistent b.target d.api)) [
      | inl bad ↦ rw bad (ground arith)
      | inr good ↦ rw good (ground arith)
    ]

pub user_confirm_essence-Moves :
    (b : Build) (sdk : Sdk) (d : Device)
    → Asks b d.api
    → Moves d.api (api_user_confirm_essence b sdk d).1.api
unfolding api_user_confirm_essence confirm_blindly
user_confirm_essence-Moves b sdk d h =
    let seen = confirm_transaction-SameContent b sdk d h in
    let blind =
      confirm_by-SameContent b sdk
        (flow_start_blindsigning (some api_user_confirm_essence_accepted)
          (some api_user_confirm_essence_rejected) (some api_user_confirm_essence_timeout))
        d (api-flow_start_blindsigning _ _ _) h in
    ground arith

pub sign-Moves :
    (b : Build) (sdk : Sdk) (p1 : ℕ) (d : Device) → Moves d.api (api_sign b sdk p1 d).1.api
unfolding api_sign io_send
sign-Moves b sdk p1 d = grind (arith, sign_same)

pub dump_memory-Moves :
    (b : Build) (sdk : Sdk) (p1 : ℕ) (d : Device) → Moves d.api (api_dump_memory b sdk p1 d).1.api
unfolding api_dump_memory io_send
dump_memory-Moves b sdk p1 d = ground arith

pub set_non_interactive_mode-Moves :
    (sdk : Sdk) (p1 : ℕ) (d : Device) → Moves d.api (api_set_non_interactive_mode sdk p1 d).1.api
unfolding api_set_non_interactive_mode io_send
set_non_interactive_mode-Moves sdk p1 d = ground arith
