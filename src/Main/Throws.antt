-- ===== src/Main/Throws.antt =====
-- What a command that throws has done to the screen and the running flow: the commands of src/api.c,
-- and the dispatcher of src/iota_io.c.
use ledger_iota_app.Prelude.{
  ℕ, zero, suc, ◌+◌, ◌≡◌, ◌⊎◌, inl, inr, refl, ◌∙◌, Bool, List, arith, some, Bool-cases,
  if◌then◌else◌,
}
use ledger_iota_app.Exec.Laws.{after_bind}
use ledger_iota_app.Exec.{◌>>◌, Result, ok, fail, thrown, fault}
use ledger_iota_app.Constants.{Build}
use ledger_iota_app.Types.{GenerateAddressRequest, read_generate_address_request, locked}
use ledger_iota_app.Sdk.{Sdk}
use ledger_iota_app.Device.{
  Device, io_send, ux_flow_generating_addresses, ux_flow_signing, api_user_confirm_essence_accepted,
  api_user_confirm_essence_rejected, api_user_confirm_essence_timeout,
}
use ledger_iota_app.Api.Core.{set_path, api_initialize, api_reset, api_clear_data, api_set_account}
use ledger_iota_app.Api.Buffer.{
  api_write_data_block, api_read_data_block, api_get_data_buffer_state, api_clear_data_buffer,
  set_data_type,
}
use ledger_iota_app.Api.Config.{api_get_app_config, api_show_flow}
use ledger_iota_app.Api.Debug.{api_dump_memory, api_set_non_interactive_mode}
use ledger_iota_app.Api.Address.{
  generate_address_at, generate_addresses, fill_buffer, api_generate_address, finish_addresses,
}
use ledger_iota_app.Api.Prepare.{
  api_prepare_signing, api_prepare_blindsigning, parse_transaction, store_remainder,
}
use ledger_iota_app.Api.Confirm.{
  api_user_confirm_essence, confirm_by, start_flow, confirm_at_once, confirm_transaction,
  confirm_blindly, is_inconsistent,
}
use ledger_iota_app.Ui.{flow_start_user_confirm_transaction}
use ledger_iota_app.Api.Sign.{api_sign}
use ledger_iota_app.Main.{
  Apdu, Instruction, instruction_of, switch, iota_dispatch, handle, read_apdu,
}

-- The flow that runs keeps its data and its callbacks, and the screen shows what it showed, or the
-- notice of a command.
abbrev pub RunsOn : Device → Device → Type 0
RunsOn d d' =
    (d'.flow_data ≡ d.flow_data)
    × ((d'.screen ≡ d.screen)
        ⊎ (d'.screen ≡ ux_flow_generating_addresses)
        ⊎ (d'.screen ≡ ux_flow_signing))

-- The same, for an exception alone.
abbrev pub IfThrown : {A : Type 0} → Device → Result A × Device → Type 0
IfThrown d (thrown e, d') = RunsOn d d'
IfThrown d (ok a, d') = Unit {0}
IfThrown d (fail, d') = Unit {0}
IfThrown d (fault, d') = Unit {0}

initialize_runs :
    (b : Build) (mode account : ℕ) (d : Device) → RunsOn d (api_initialize b mode account d).1
unfolding api_initialize
initialize_runs b mode account d = ground arith

clear_data_runs : (b : Build) (d : Device) → RunsOn d (api_clear_data b d).1
unfolding api_clear_data
clear_data_runs b d = let same = initialize_runs b in grind (arith, initialize_runs)

module _ (b : Build) (sdk : Sdk) (d : Device) where
  reset_runs : IfThrown d (api_reset b sdk d)
  unfolding api_reset api_initialize io_send
  reset_runs = ground arith

  set_account_runs : (m : ℕ) (bytes : List ℕ) → IfThrown d (api_set_account b sdk m bytes d)
  unfolding api_set_account api_initialize io_send
  set_account_runs m bytes = ground arith

  clear_data_buffer_runs : IfThrown d (api_clear_data_buffer b sdk d)
  unfolding api_clear_data_buffer io_send
  clear_data_buffer_runs = let same = clear_data_runs b d in ground arith

  write_data_block_runs :
      (n : ℕ) (bytes : List ℕ) → IfThrown d (api_write_data_block b sdk n bytes d)
  unfolding api_write_data_block io_send
  write_data_block_runs n bytes = ground arith

  read_data_block_runs : (n : ℕ) → IfThrown d (api_read_data_block b sdk n d)
  unfolding api_read_data_block io_send
  read_data_block_runs n = ground arith

  get_data_buffer_state_runs : IfThrown d (api_get_data_buffer_state b sdk d)
  unfolding api_get_data_buffer_state io_send
  get_data_buffer_state_runs = ground arith

  get_app_config_runs : (l : ℕ) → IfThrown d (api_get_app_config b sdk l d)
  unfolding api_get_app_config io_send
  get_app_config_runs l = ground arith

  show_flow_runs : IfThrown d (api_show_flow sdk d)
  unfolding api_show_flow io_send
  show_flow_runs = ground arith

  dump_memory_runs : (p : ℕ) → IfThrown d (api_dump_memory b sdk p d)
  unfolding api_dump_memory io_send
  dump_memory_runs p = ground arith

  set_non_interactive_mode_runs : (m : ℕ) → IfThrown d (api_set_non_interactive_mode sdk m d)
  unfolding api_set_non_interactive_mode io_send
  set_non_interactive_mode_runs m = ground arith

  sign_runs : (p1 : ℕ) → IfThrown d (api_sign b sdk p1 d)
  unfolding api_sign io_send
  sign_runs p1 = ground arith

parse_transaction_runs :
    (b : Build) (sdk : Sdk) (d : Device) → RunsOn d (parse_transaction b sdk d).1
unfolding parse_transaction
parse_transaction_runs b sdk d = ground arith

store_remainder_runs :
    (n : ℕ) (bytes : List ℕ) (d : Device) → RunsOn d (store_remainder n bytes d).1
unfolding store_remainder
store_remainder_runs n bytes d = ground arith

generate_address_at_runs :
    (sdk : Sdk) (i : ℕ) (d : Device)
    → ((generate_address_at sdk i d).1.flow_data ≡ d.flow_data)
      × ((generate_address_at sdk i d).1.screen ≡ d.screen)
unfolding generate_address_at
generate_address_at_runs sdk i d = ground arith

generate_addresses_runs :
    (sdk : Sdk) (left i : ℕ) (d : Device)
    → ((generate_addresses sdk left i d).1.flow_data ≡ d.flow_data)
      × ((generate_addresses sdk left i d).1.screen ≡ d.screen)
unfolding generate_addresses
generate_addresses_runs sdk zero i d = (refl, refl)
generate_addresses_runs sdk (suc left) i d =
    let here = generate_address_at_runs sdk i d in
    after_bind (λ d'. (d'.flow_data ≡ d.flow_data) × (d'.screen ≡ d.screen))
      (λ _. generate_addresses sdk left (i + 1)) (generate_address_at sdk i d) here
      (λ _ _.
        let rest = generate_addresses_runs sdk left (i + 1) (generate_address_at sdk i d).1 in
        (rest.0 ∙ here.0, rest.1 ∙ here.1))

fill_buffer_runs :
    (b : Build) (sdk : Sdk) (show : ℕ) (req : GenerateAddressRequest) (d : Device)
    → RunsOn d (fill_buffer b sdk show req d).1
unfolding fill_buffer
fill_buffer_runs b sdk show req d = grind (arith, generate_addresses_runs)

finish_addresses_runs :
    (b : Build) (sdk : Sdk) (show : ℕ) (req : GenerateAddressRequest) (d : Device)
    → IfThrown d (finish_addresses b sdk show req d)
unfolding finish_addresses io_send
finish_addresses_runs b sdk show req d = ground arith

confirm_by_runs :
    (b : Build) (sdk : Sdk) (start : Device → Device) (d : Device)
    → IfThrown d (confirm_by b sdk start d)
unfolding confirm_by start_flow confirm_at_once io_send
confirm_by_runs b sdk start d = ground arith

confirm_transaction_runs :
    (b : Build) (sdk : Sdk) (d : Device) → IfThrown d (confirm_transaction b sdk d)
unfolding confirm_transaction
confirm_transaction_runs b sdk d =
    let r = d.api.essence.remainder_bip32 in
    let d' : Device = record d {
      api = set_path 3 r.bip32_change (set_path 4 r.bip32_index d.api);
    } in
    let start =
      flow_start_user_confirm_transaction (some api_user_confirm_essence_accepted)
        (some api_user_confirm_essence_rejected) (some api_user_confirm_essence_timeout) in
    let confirms = confirm_by_runs b sdk start d' in
    elim (Bool-cases (is_inconsistent b.target d.api)) [
      | inl bad ↦ rw bad (refl, inl refl)
      | inr good ↦ rw good confirms
    ]

confirm_blindly_runs : (b : Build) (sdk : Sdk) (d : Device) → IfThrown d (confirm_blindly b sdk d)
unfolding confirm_blindly
confirm_blindly_runs b sdk d = confirm_by_runs b sdk _ d

user_confirm_essence_runs :
    (b : Build) (sdk : Sdk) (d : Device) → IfThrown d (api_user_confirm_essence b sdk d)
unfolding api_user_confirm_essence
user_confirm_essence_runs b sdk d =
    let seen = confirm_transaction_runs b sdk d in
    let blind = confirm_blindly_runs b sdk d in ground arith

-- Both parts of a request.
addresses_runs :
    (b : Build) (sdk : Sdk) (show : ℕ) (req : GenerateAddressRequest) (d : Device)
    → IfThrown d ((fill_buffer b sdk show req >> finish_addresses b sdk show req) d)
addresses_runs b sdk show req d =
    let filled = fill_buffer_runs b sdk show req d in
    let (r, d') = fill_buffer b sdk show req d in
    let finished = finish_addresses_runs b sdk show req d' in ground arith

generate_address_runs :
    (b : Build) (sdk : Sdk) (show : ℕ) (bytes : List ℕ) (d : Device)
    → IfThrown d (api_generate_address b sdk show bytes d)
unfolding api_generate_address
generate_address_runs b sdk show bytes d =
    let req = read_generate_address_request bytes in
    let locks : Device = record d { api = set_data_type locked d.api } in
    let both = addresses_runs b sdk show req locks in ground arith

prepare_signing_runs :
    (b : Build) (sdk : Sdk) (n : ℕ) (bytes : List ℕ) (d : Device)
    → IfThrown d (api_prepare_signing b sdk n bytes d)
unfolding api_prepare_signing io_send
prepare_signing_runs b sdk n bytes d = grind (arith, parse_transaction_runs, store_remainder_runs)

prepare_blindsigning_runs :
    (b : Build) (sdk : Sdk) (d : Device) → IfThrown d (api_prepare_blindsigning b sdk d)
unfolding api_prepare_blindsigning io_send
prepare_blindsigning_runs b sdk d = ground arith

switch_runs :
    (b : Build) (sdk : Sdk) (i : Instruction) (a : Apdu) (l : Bool) (d : Device)
    → IfThrown d (switch b sdk i a l d)
unfolding switch
switch_runs b sdk Instruction.none a l d = tt
switch_runs b sdk Instruction.get_app_config a l d =
    get_app_config_runs b sdk d (if l then 1 else 0)
switch_runs b sdk Instruction.set_account a l d = set_account_runs b sdk d a.p1 a.input_data
switch_runs b sdk Instruction.reset a l d = reset_runs b sdk d
switch_runs b sdk Instruction.write_data_block a l d =
    write_data_block_runs b sdk d a.p1 a.input_data
switch_runs b sdk Instruction.prepare_signing a l d = prepare_signing_runs b sdk a.p2 a.input_data d
switch_runs b sdk Instruction.prepare_blindsigning a l d = prepare_blindsigning_runs b sdk d
switch_runs b sdk Instruction.generate_address a l d =
    generate_address_runs b sdk a.p1 a.input_data d
switch_runs b sdk Instruction.get_data_buffer_state a l d = get_data_buffer_state_runs b sdk d
switch_runs b sdk Instruction.clear_data_buffer a l d = clear_data_buffer_runs b sdk d
switch_runs b sdk Instruction.user_confirm_essence a l d = user_confirm_essence_runs b sdk d
switch_runs b sdk Instruction.sign_single a l d = sign_runs b sdk d a.p1
switch_runs b sdk Instruction.read_data_block a l d = read_data_block_runs b sdk d a.p1
switch_runs b sdk Instruction.show_flow a l d = show_flow_runs b sdk d
switch_runs b sdk Instruction.dump_memory a l d = dump_memory_runs b sdk d a.p1
switch_runs b sdk Instruction.set_non_interactive_mode a l d =
    set_non_interactive_mode_runs b sdk d a.p1
switch_runs b sdk Instruction.unknown a l d = (refl, inl refl)

pub handle_runs :
    (b : Build) (sdk : Sdk) (bytes : List ℕ) (l : Bool) (d : Device)
    → IfThrown d (handle b sdk bytes l d)
unfolding handle iota_dispatch
handle_runs b sdk bytes l d =
    let a = read_apdu bytes in
    let inner = switch_runs b sdk (instruction_of b a.ins) a l d in ground arith
