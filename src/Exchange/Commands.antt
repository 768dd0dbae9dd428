-- ===== src/Exchange/Commands.antt =====
-- Every command of src/api.c answers once, or starts a flow that is to answer, or fails without an
-- answer.
use ledger_iota_app.Prelude.{
  ℕ, zero, suc, ◌≡◌, refl, List, arith, ◌∙◌, ◌+◌, Option, some, inl, inr, Bool-cases,
}
use ledger_iota_app.Exec.Laws.{after_bind}
use ledger_iota_app.Exec.{Result}
use ledger_iota_app.Constants.{Build}
use ledger_iota_app.Types.{GenerateAddressRequest}
use ledger_iota_app.Sdk.{Sdk}
use ledger_iota_app.Device.{
  Device, io_send, AcceptCb, RejectCb, TimeoutCb, api_user_confirm_essence_timeout,
}
use ledger_iota_app.Api.Core.{
  set_path, Answer, api_initialize, api_reset, api_clear_data, api_set_account,
}
use ledger_iota_app.Api.Buffer.{
  api_write_data_block, api_read_data_block, api_get_data_buffer_state, api_clear_data_buffer,
}
use ledger_iota_app.Api.Config.{api_get_app_config, api_show_flow}
use ledger_iota_app.Api.Debug.{api_dump_memory, api_set_non_interactive_mode}
use ledger_iota_app.Api.Address.{
  generate_address_at, generate_addresses, fill_buffer, api_generate_address, finish_addresses,
}
use ledger_iota_app.Api.Prepare.{
  api_prepare_signing, api_prepare_blindsigning, parse_transaction, store_remainder,
}
use ledger_iota_app.Api.Confirm.{
  api_user_confirm_essence, confirm_by, start_flow, confirm_at_once, confirm_transaction,
  confirm_blindly, is_inconsistent,
}
use ledger_iota_app.Ui.{flow_start_user_confirm_transaction, flow_start_blindsigning}
use ledger_iota_app.Api.Sign.{api_sign}
use ledger_iota_app.Exchange.{IsPending, Exchanged}

-- A command from a state on.
abbrev Exchanges : Device → Result Answer × Device → Type 0
Exchanges d o = Exchanged d.sent o.0 o.1

pub initialize_sent :
    (b : Build) (mode account : ℕ) (d : Device) → (api_initialize b mode account d).1.sent ≡ d.sent
unfolding api_initialize
initialize_sent b mode account d = ground arith

pub clear_data_sent : (b : Build) (d : Device) → (api_clear_data b d).1.sent ≡ d.sent
unfolding api_clear_data
clear_data_sent b d = grind (arith, initialize_sent)

pub reset_exchange : (b : Build) (sdk : Sdk) (d : Device) → Exchanges d (api_reset b sdk d)
unfolding api_reset api_initialize io_send
reset_exchange b sdk d = ground arith

pub set_account_exchange :
    (b : Build) (sdk : Sdk) (m : ℕ) (bytes : List ℕ) (d : Device)
    → Exchanges d (api_set_account b sdk m bytes d)
unfolding api_set_account api_initialize io_send
set_account_exchange b sdk m bytes d = ground arith

pub clear_data_buffer_exchange :
    (b : Build) (sdk : Sdk) (d : Device) → Exchanges d (api_clear_data_buffer b sdk d)
unfolding api_clear_data_buffer io_send
clear_data_buffer_exchange b sdk d = let same = clear_data_sent b d in ground arith

pub write_data_block_exchange :
    (b : Build) (sdk : Sdk) (n : ℕ) (bytes : List ℕ) (d : Device)
    → Exchanges d (api_write_data_block b sdk n bytes d)
unfolding api_write_data_block io_send
write_data_block_exchange b sdk n bytes d = ground arith

pub read_data_block_exchange :
    (b : Build) (sdk : Sdk) (n : ℕ) (d : Device) → Exchanges d (api_read_data_block b sdk n d)
unfolding api_read_data_block io_send
read_data_block_exchange b sdk n d = ground arith

pub get_data_buffer_state_exchange :
    (b : Build) (sdk : Sdk) (d : Device) → Exchanges d (api_get_data_buffer_state b sdk d)
unfolding api_get_data_buffer_state io_send
get_data_buffer_state_exchange b sdk d = ground arith

pub get_app_config_exchange :
    (b : Build) (sdk : Sdk) (l : ℕ) (d : Device) → Exchanges d (api_get_app_config b sdk l d)
unfolding api_get_app_config io_send
get_app_config_exchange b sdk l d = ground arith

pub show_flow_exchange : (sdk : Sdk) (d : Device) → Exchanges d (api_show_flow sdk d)
unfolding api_show_flow io_send
show_flow_exchange sdk d = ground arith

pub dump_memory_exchange :
    (b : Build) (sdk : Sdk) (p : ℕ) (d : Device) → Exchanges d (api_dump_memory b sdk p d)
unfolding api_dump_memory io_send
dump_memory_exchange b sdk p d = ground arith

pub set_non_interactive_mode_exchange :
    (sdk : Sdk) (m : ℕ) (d : Device) → Exchanges d (api_set_non_interactive_mode sdk m d)
unfolding api_set_non_interactive_mode io_send
set_non_interactive_mode_exchange sdk m d = ground arith

pub sign_exchange :
    (b : Build) (sdk : Sdk) (p1 : ℕ) (d : Device) → Exchanges d (api_sign b sdk p1 d)
unfolding api_sign io_send
sign_exchange b sdk p1 d = ground arith

parse_transaction_sent :
    (b : Build) (sdk : Sdk) (d : Device) → (parse_transaction b sdk d).1.sent ≡ d.sent
unfolding parse_transaction
parse_transaction_sent b sdk d = ground arith

store_remainder_sent :
    (n : ℕ) (bytes : List ℕ) (d : Device) → (store_remainder n bytes d).1.sent ≡ d.sent
unfolding store_remainder
store_remainder_sent n bytes d = ground arith

pub prepare_signing_exchange :
    (b : Build) (sdk : Sdk) (n : ℕ) (bytes : List ℕ) (d : Device)
    → Exchanges d (api_prepare_signing b sdk n bytes d)
unfolding api_prepare_signing io_send
prepare_signing_exchange b sdk n bytes d =
    grind (arith, parse_transaction_sent, store_remainder_sent)

pub prepare_blindsigning_exchange :
    (b : Build) (sdk : Sdk) (d : Device) → Exchanges d (api_prepare_blindsigning b sdk d)
unfolding api_prepare_blindsigning io_send
prepare_blindsigning_exchange b sdk d = ground arith

generate_address_at_sent :
    (sdk : Sdk) (i : ℕ) (d : Device) → (generate_address_at sdk i d).1.sent ≡ d.sent
unfolding generate_address_at
generate_address_at_sent sdk i d = ground arith

generate_addresses_sent :
    (sdk : Sdk) (left i : ℕ) (d : Device) → (generate_addresses sdk left i d).1.sent ≡ d.sent
unfolding generate_addresses
generate_addresses_sent sdk zero i d = refl
generate_addresses_sent sdk (suc left) i d =
    after_bind (λ d'. d'.sent ≡ d.sent) (λ _. generate_addresses sdk left (i + 1))
      (generate_address_at sdk i d) (generate_address_at_sent sdk i d)
      (λ _ _.
        generate_addresses_sent sdk left (i + 1) (generate_address_at sdk i d).1
        ∙ generate_address_at_sent sdk i d)

fill_buffer_sent :
    (b : Build) (sdk : Sdk) (show : ℕ) (req : GenerateAddressRequest) (d : Device)
    → (fill_buffer b sdk show req d).1.sent ≡ d.sent
unfolding fill_buffer
fill_buffer_sent b sdk show req d = grind (arith, generate_addresses_sent)

finish_addresses_exchange :
    (b : Build) (sdk : Sdk) (show : ℕ) (req : GenerateAddressRequest) (d : Device)
    → Exchanges d (finish_addresses b sdk show req d)
unfolding finish_addresses io_send
finish_addresses_exchange b sdk show req d = ground arith

pub generate_address_exchange :
    (b : Build) (sdk : Sdk) (show : ℕ) (bytes : List ℕ) (d : Device)
    → Exchanges d (api_generate_address b sdk show bytes d)
unfolding api_generate_address
generate_address_exchange b sdk show bytes d =
    grind (arith, fill_buffer_sent, finish_addresses_exchange)

-- What starting a flow does, before it shows something.
abbrev Starts : (Device → Device) → Type 0
Starts start = (d : Device) → ((start d).sent ≡ d.sent) × IsPending (start d)

transaction-Starts :
    (a : Option AcceptCb) (r : Option RejectCb) (t : TimeoutCb)
    → Starts (flow_start_user_confirm_transaction a r (some t))
unfolding flow_start_user_confirm_transaction
transaction-Starts a r t d = ground arith

blindsigning-Starts :
    (a : Option AcceptCb) (r : Option RejectCb) (t : TimeoutCb)
    → Starts (flow_start_blindsigning a r (some t))
unfolding flow_start_blindsigning
blindsigning-Starts a r t d = ground arith

confirm_by_exchange :
    (b : Build) (sdk : Sdk) (start : Device → Device) (d : Device)
    → Starts start
    → Exchanges d (confirm_by b sdk start d)
unfolding confirm_by start_flow confirm_at_once io_send
confirm_by_exchange b sdk start d starts =
    let is = starts (record d { api = record d.api { flow_locked = 1 } }) in ground arith

confirm_transaction_exchange :
    (b : Build) (sdk : Sdk) (d : Device) → Exchanges d (confirm_transaction b sdk d)
unfolding confirm_transaction
confirm_transaction_exchange b sdk d =
    let r = d.api.essence.remainder_bip32 in
    let d' : Device = record d {
      api = set_path 3 r.bip32_change (set_path 4 r.bip32_index d.api);
    } in
    let confirms =
      confirm_by_exchange b sdk _ d' (transaction-Starts _ _ api_user_confirm_essence_timeout) in
    elim (Bool-cases (is_inconsistent b.target d.api)) [
      | inl bad ↦ rw bad refl
      | inr good ↦ rw good confirms
    ]

confirm_blindly_exchange :
    (b : Build) (sdk : Sdk) (d : Device) → Exchanges d (confirm_blindly b sdk d)
unfolding confirm_blindly
confirm_blindly_exchange b sdk d = confirm_by_exchange b sdk _ d (blindsigning-Starts _ _ _)

pub user_confirm_essence_exchange :
    (b : Build) (sdk : Sdk) (d : Device) → Exchanges d (api_user_confirm_essence b sdk d)
unfolding api_user_confirm_essence
user_confirm_essence_exchange b sdk d =
    let seen = confirm_transaction_exchange b sdk d in
    let blind = confirm_blindly_exchange b sdk d in ground arith
