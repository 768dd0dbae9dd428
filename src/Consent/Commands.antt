-- ===== src/Consent/Commands.antt =====
-- No command of src/api.c confirms an essence by itself.
use ledger_iota_app.Prelude.{
  ℕ, zero, suc, ◌≡◌, ◌≢◌, refl, false, List, arith, not, ◌==◌, ◌∙◌, ◌+◌, ◌&&◌,
}
use ledger_iota_app.Exec.Laws.{after_bind, throw_if_same}
use ledger_iota_app.Exec.{throw_if}
use ledger_iota_app.Constants.{Build}
use ledger_iota_app.Types.{ApiCtx, wiped, empty, user_confirmed_essence, GenerateAddressRequest}
use ledger_iota_app.Sdk.{Sdk}
use ledger_iota_app.Device.{Device, io_send}
use ledger_iota_app.Api.Core.{api_initialize, api_reset, api_clear_data, api_set_account}
use ledger_iota_app.Api.Buffer.{
  api_write_data_block, api_read_data_block, api_get_data_buffer_state, api_clear_data_buffer,
}
use ledger_iota_app.Api.Config.{api_get_app_config, api_show_flow}
use ledger_iota_app.Api.Address.{
  generate_address_at, generate_addresses, fill_buffer, api_generate_address, finish_addresses,
}
use ledger_iota_app.Api.Prepare.{api_prepare_signing, api_prepare_blindsigning, parse_transaction}
use ledger_iota_app.Api.Confirm.{
  api_user_confirm_essence, confirm_by, start_flow, confirm_transaction, confirm_blindly,
  is_inconsistent,
}
use ledger_iota_app.Ui.{api-flow_start_user_confirm_transaction, api-flow_start_blindsigning}
use ledger_iota_app.Constants.Status
use ledger_iota_app.Api.Sign.{api_sign}
use ledger_iota_app.Signing.{sign}
use ledger_iota_app.Parse.Frame.{parse-Framed, blindsigning-Framed}
use ledger_iota_app.Consent.{SameContent, Quiet}

-- Every wipe empties the buffer.
pub api_initialize_empties :
    (b : Build) (app_mode account_index : ℕ) (d : Device)
    → (api_initialize b app_mode account_index d).1.api.api_data.type ≡ empty
unfolding api_initialize wiped
api_initialize_empties b app_mode account_index d = ground arith

pub api_sent :
    (sdk : Sdk) (bytes : List ℕ) (sw : ℕ) (d : Device) → (io_send sdk bytes sw d).1.api ≡ d.api
unfolding io_send
api_sent sdk bytes sw d = ground arith

pub write_data_block-Quiet :
    (b : Build) (sdk : Sdk) (n : ℕ) (bytes : List ℕ) (d : Device)
    → Quiet d.api (api_write_data_block b sdk n bytes d).1.api
unfolding api_write_data_block io_send
write_data_block-Quiet b sdk n bytes d = ground arith

pub read_data_block-Quiet :
    (b : Build) (sdk : Sdk) (n : ℕ) (d : Device) → Quiet d.api (api_read_data_block b sdk n d).1.api
unfolding api_read_data_block io_send
read_data_block-Quiet b sdk n d = ground arith

pub get_data_buffer_state-Quiet :
    (b : Build) (sdk : Sdk) (d : Device) → Quiet d.api (api_get_data_buffer_state b sdk d).1.api
unfolding api_get_data_buffer_state io_send
get_data_buffer_state-Quiet b sdk d = ground arith

pub get_app_config-Quiet :
    (b : Build) (sdk : Sdk) (l : ℕ) (d : Device) → Quiet d.api (api_get_app_config b sdk l d).1.api
unfolding api_get_app_config io_send
get_app_config-Quiet b sdk l d = ground arith

pub show_flow-Quiet : (sdk : Sdk) (d : Device) → Quiet d.api (api_show_flow sdk d).1.api
unfolding api_show_flow io_send
show_flow-Quiet sdk d = ground arith

pub reset-Quiet : (b : Build) (sdk : Sdk) (d : Device) → Quiet d.api (api_reset b sdk d).1.api
unfolding api_reset io_send api_initialize wiped
reset-Quiet b sdk d = ground arith

pub set_account-Quiet :
    (b : Build) (sdk : Sdk) (m : ℕ) (bytes : List ℕ) (d : Device)
    → Quiet d.api (api_set_account b sdk m bytes d).1.api
unfolding api_set_account io_send api_initialize wiped
set_account-Quiet b sdk m bytes d = ground arith

pub clear_data_empties : (b : Build) (d : Device) → (api_clear_data b d).1.api.api_data.type ≡ empty
unfolding api_clear_data api_initialize wiped
clear_data_empties b d = ground arith

pub clear_data_buffer-Quiet :
    (b : Build) (sdk : Sdk) (d : Device) → Quiet d.api (api_clear_data_buffer b sdk d).1.api
unfolding api_clear_data_buffer io_send
clear_data_buffer-Quiet b sdk d = ground (arith, clear_data_empties b d)

generate_address_at_type :
    (sdk : Sdk) (i : ℕ) (d : Device)
    → (generate_address_at sdk i d).1.api.api_data.type ≡ d.api.api_data.type
unfolding generate_address_at
generate_address_at_type sdk i d = ground arith

generate_addresses_type :
    (sdk : Sdk) (left i : ℕ) (d : Device)
    → (generate_addresses sdk left i d).1.api.api_data.type ≡ d.api.api_data.type
unfolding generate_addresses
generate_addresses_type sdk zero i d = refl
generate_addresses_type sdk (suc left) i d =
    after_bind (λ d'. d'.api.api_data.type ≡ d.api.api_data.type)
      (λ _. generate_addresses sdk left (i + 1)) (generate_address_at sdk i d)
      (generate_address_at_type sdk i d)
      (λ _ _.
        generate_addresses_type sdk left (i + 1) (generate_address_at sdk i d).1
        ∙ generate_address_at_type sdk i d)

finish_addresses_type :
    (b : Build) (sdk : Sdk) (show : ℕ) (req : GenerateAddressRequest) (d : Device)
    → d.api.api_data.type ≢ user_confirmed_essence
    → (finish_addresses b sdk show req d).1.api.api_data.type ≢ user_confirmed_essence
unfolding finish_addresses io_send
finish_addresses_type b sdk show req d h = ground arith

pub fill_buffer_type :
    (b : Build) (sdk : Sdk) (show : ℕ) (req : GenerateAddressRequest) (d : Device)
    → (fill_buffer b sdk show req d).1.api.api_data.type ≡ d.api.api_data.type
unfolding fill_buffer
fill_buffer_type b sdk show req d = grind (arith, generate_addresses_type)

pub generate_address-Quiet :
    (b : Build) (sdk : Sdk) (show : ℕ) (bytes : List ℕ) (d : Device)
    → Quiet d.api (api_generate_address b sdk show bytes d).1.api
unfolding api_generate_address
generate_address-Quiet b sdk show bytes d = grind (arith, fill_buffer_type, finish_addresses_type)

pub prepare_signing-Quiet :
    (b : Build) (sdk : Sdk) (p2 : ℕ) (bytes : List ℕ) (d : Device)
    → Quiet d.api (api_prepare_signing b sdk p2 bytes d).1.api
unfolding api_prepare_signing parse_transaction io_send
prepare_signing-Quiet b sdk p2 bytes d = grind (arith, parse-Framed)

pub prepare_blindsigning-Quiet :
    (b : Build) (sdk : Sdk) (d : Device) → Quiet d.api (api_prepare_blindsigning b sdk d).1.api
unfolding api_prepare_blindsigning io_send
prepare_blindsigning-Quiet b sdk d = grind (arith, blindsigning-Framed)

-- Unless the debug build is told to ask nobody.
abbrev pub Asks : Build → ApiCtx → Type 0
Asks b c = (b.app_debug && not (c.non_interactive_mode == 0)) ≡ false

-- Behind this action the data type is not that of a confirmed essence.
abbrev Unconfirmed : Device → Type 0
Unconfirmed d = d.api.api_data.type ≢ user_confirmed_essence

confirm_by-Unconfirmed :
    (b : Build) (sdk : Sdk) (start : Device → Device) (d : Device)
    → ((d' : Device) → (start d').api ≡ d'.api)
    → Asks b d.api
    → Unconfirmed d
    → Unconfirmed (confirm_by b sdk start d).1
unfolding confirm_by start_flow
confirm_by-Unconfirmed b sdk start d keeps h n =
    rw h (rw (keeps (record d { api = record d.api { flow_locked = 1 } })) n)

confirm_transaction-Unconfirmed :
    (b : Build) (sdk : Sdk) (d : Device)
    → Asks b d.api
    → Unconfirmed d
    → Unconfirmed (confirm_transaction b sdk d).1
unfolding confirm_transaction
confirm_transaction-Unconfirmed b sdk d h n =
    let same = throw_if_same (is_inconsistent b.target d.api) Status.unknown d in
    after_bind Unconfirmed _ (throw_if (is_inconsistent b.target d.api) Status.unknown d)
      (rw same n)
      (λ _ _.
        confirm_by-Unconfirmed b sdk _ _ (api-flow_start_user_confirm_transaction _ _ _) (rw same h)
          (rw same n))

confirm_blindly-Unconfirmed :
    (b : Build) (sdk : Sdk) (d : Device)
    → Asks b d.api
    → Unconfirmed d
    → Unconfirmed (confirm_blindly b sdk d).1
unfolding confirm_blindly
confirm_blindly-Unconfirmed b sdk d h n =
    confirm_by-Unconfirmed b sdk _ d (api-flow_start_blindsigning _ _ _) h n

pub user_confirm_essence-Quiet :
    (b : Build) (sdk : Sdk) (d : Device)
    → Asks b d.api
    → Quiet d.api (api_user_confirm_essence b sdk d).1.api
unfolding api_user_confirm_essence
user_confirm_essence-Quiet b sdk d h =
    ground (arith, confirm_transaction-Unconfirmed b sdk d h, confirm_blindly-Unconfirmed b sdk d h)

pub sign_same : (sdk : Sdk) (i : ℕ) (c : ApiCtx) → SameContent c (sign sdk i c).1
unfolding sign
sign_same sdk i c = ground arith

pub sign-Quiet :
    (b : Build) (sdk : Sdk) (p1 : ℕ) (d : Device) → Quiet d.api (api_sign b sdk p1 d).1.api
unfolding api_sign io_send
sign-Quiet b sdk p1 d = grind (arith, sign_same)
