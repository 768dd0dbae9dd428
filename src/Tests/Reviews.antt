-- ===== src/Tests/Reviews.antt =====
-- The theorems on reviews and signatures, on a device that is started and told to sign a transaction
-- to somebody else.
use ledger_iota_app.Prelude.{
  ℕ, ◌<◌, ◌≤◌, ◌^◌, ◌≡◌, ◌≢◌, ◌⊎◌, refl, true, false, List, [], ◌∷◌, ◌++◌, some, replicate, arith,
  slice, le, same_bytes, suc, blit,
}
use ledger_iota_app.Exec.{ok, thrown}
use ledger_iota_app.Constants.Ins
use ledger_iota_app.Types.{wiped, read_utxo_input, read_basic_output, read_bip32_index}
use ledger_iota_app.Device.{Device, io_send, ux_flow_base}
use ledger_iota_app.Reader.{read, scan, get_uint32, get_uint16, get_uint8}
use ledger_iota_app.Address.{address_generate, reversed_pubkey, ed25519_public_key_to_bytes}
use ledger_iota_app.Nv.{nv_init}
use ledger_iota_app.Ui.{flow_start_user_confirm_transaction}
use ledger_iota_app.Ui.Events.{accept, switch, offers, ui_event, run_event, cb_switch, cb_accept}
use ledger_iota_app.Ui.Review.{IsReviewed, places}
use ledger_iota_app.Api.Core.{api_initialize, api_set_account}
use ledger_iota_app.Api.Buffer.{api_write_data_block}
use ledger_iota_app.Api.Prepare.{api_prepare_signing, store_remainder, parse_transaction}
use ledger_iota_app.Api.Confirm.{
  api_user_confirm_essence, confirm_transaction, confirm_by, start_flow, call_accept,
}
use ledger_iota_app.Parse.{
  essence_parse_and_validate, essence_parse_and_validate_stardust, parse_layout, check_parsed,
  check_and_hash, tell_internal_transfer, verify_remainder, essence_hash,
}
use ledger_iota_app.Essence.{
  validate_inputs, validate_outputs, validate_inputs_bip32, validate_payload, validate_skip_bytes,
  validate_inputs_duplicates, check_input, check_output, check_bip32_index,
}
use ledger_iota_app.InternalTransfer.{check_for_internal_transfer, matches_input}
use ledger_iota_app.Abstraction.{get_output_address_ptr}
use ledger_iota_app.Main.{
  round, start, iota_main_start, io_initialize, handle, read_apdu, iota_dispatch, instruction_of,
  find_instruction, caught, catch_other,
}
use ledger_iota_app.Safety.Runs.{Runs, packet, event}
use ledger_iota_app.Content.{IsPlain, IsBacked}
use ledger_iota_app.Content.Runs.{content_lem}
use ledger_iota_app.Review.{is_review}
use ledger_iota_app.Review.Runs.{review_lem}
use ledger_iota_app.Review.Amounts.{reviewed_amount_lem}
use ledger_iota_app.Parse.Layout.{IsEssence, outputs_start, outputs_number}
use ledger_iota_app.Ui.Shown.{amount_at, amount_header}
use ledger_iota_app.Ui.Screens.{cb_amount_preinit}
use ledger_iota_app.Text.Amounts.{ShowsMillionths}
use ledger_iota_app.Api.Core.{answered}
use ledger_iota_app.Api.Sign.{api_sign}
use ledger_iota_app.Signing.{
  sign, sign_signature, sign_signature_unlock_block, reference_index_of, sign_get_reference_index,
  find_reference,
}
use ledger_iota_app.Consent.Trace.{Consented}
use ledger_iota_app.Content.Signed.{origin, steps_of_run, signed_lem, IsChecked, IsUnlock}
use ledger_iota_app.Tests.{build, sdk, hardened_zero, one_input, AreBytes-of}
use ledger_iota_app.Tests.Runs.{sdk-IsSdk, ran, ran-Runs}

-- One output of 256 + 1 to another address.
abbrev foreign_output : List ℕ
foreign_output = 3 ∷ 1 ∷ 1 ∷ (replicate 6 0 ++ (0 ∷ 1 ∷ 0 ∷ 0 ∷ (replicate 32 9 ++ (0 ∷ []))))

abbrev transaction : List ℕ
transaction =
    1
    ∷ (replicate 8 0
        ++ (1
            ∷ 0
            ∷ (one_input
                ++ (replicate 32 0
                    ++ (1
                        ∷ 0
                        ∷ (foreign_output
                            ++ (replicate 4 0 ++ (hardened_zero ++ hardened_zero))))))))

-- The packets that the host sends.
abbrev write_packet : List ℕ
write_packet = Ins.cla ∷ Ins.write_data_block ∷ 0 ∷ 0 ∷ 251 ∷ (transaction ++ replicate 113 0)

abbrev prepare_packet : List ℕ
prepare_packet = Ins.cla ∷ Ins.prepare_signing ∷ 0 ∷ 0 ∷ 10 ∷ replicate 10 0

abbrev confirm_packet : List ℕ
confirm_packet = Ins.cla ∷ Ins.user_confirm_essence ∷ 0 ∷ 0 ∷ 0 ∷ []

abbrev written : Device
written = (round build sdk write_packet false ran).1

abbrev prepared : Device
prepared = (round build sdk prepare_packet false written).1

abbrev reviewed : Device
reviewed = (round build sdk confirm_packet false prepared).1

prepared-Runs : Runs build sdk prepared
prepared-Runs =
    packet prepare_packet false (AreBytes-of prepare_packet refl)
      (packet write_packet false (AreBytes-of write_packet refl) ran-Runs)

reviewed-Runs : Runs build sdk reviewed
reviewed-Runs = packet confirm_packet false (AreBytes-of confirm_packet refl) prepared-Runs

reviewed_state : (reviewed.api.flow_locked ≡ 1) × (reviewed.screen ≡ ux_flow_base)
unfolding start iota_main_start io_initialize api_initialize nv_init round handle read_apdu
    iota_dispatch instruction_of find_instruction ledger_iota_app.Main.switch api_set_account
    api_write_data_block blit api_prepare_signing store_remainder parse_transaction
    essence_parse_and_validate essence_parse_and_validate_stardust parse_layout check_parsed
    check_and_hash tell_internal_transfer verify_remainder essence_hash validate_inputs
    validate_outputs validate_inputs_bip32 validate_payload validate_skip_bytes
    validate_inputs_duplicates check_input check_output check_bip32_index read_utxo_input
    read_basic_output read_bip32_index get_uint32 get_uint16 get_uint8 scan read le slice
    check_for_internal_transfer matches_input get_output_address_ptr address_generate same_bytes
    io_send reversed_pubkey ed25519_public_key_to_bytes api_user_confirm_essence confirm_transaction
    confirm_by start_flow flow_start_user_confirm_transaction caught catch_other wiped
reviewed_state = (refl, refl)

content_example : IsBacked build.target sdk prepared.api
content_example = content_lem build sdk prepared (omega arith) sdk-IsSdk prepared-Runs

reviewed-locked : reviewed.api.flow_locked ≢ 0
reviewed-locked e = let locked = reviewed_state.0 in omega (arith, locked, e)

reviewed-shown : is_review reviewed.screen ≡ true
reviewed-shown = rw reviewed_state.1 refl

review_example :
    IsPlain build.target sdk reviewed.api.essence reviewed.api.api_data.buffer
    × IsReviewed reviewed.api.essence reviewed.flow_data.read_index
    × ((offers reviewed.screen accept ≡ false)
        ⊎ (suc reviewed.flow_data.flow_outputs_index_current ≡ places reviewed.api.essence))
review_example =
    review_lem build sdk reviewed (omega arith) sdk-IsSdk reviewed-Runs reviewed-locked
      reviewed-shown

reviewed_amount_example :
    let bytes = reviewed.api.api_data.buffer in
    let amount = amount_at bytes (outputs_start bytes) reviewed.flow_data.read_index in
    let (r, s') = cb_amount_preinit sdk reviewed (record { text = []; header = [] }) in
    IsEssence build.target bytes
    × (reviewed.flow_data.read_index < outputs_number bytes)
    × (((amount < 10 ^ 18)
          × (r ≡ ok tt)
          × ShowsMillionths amount s'.text
          × (s'.header ≡ amount_header reviewed.api.coin))
        ⊎ ((10 ^ 18 ≤ amount) × (r ≡ thrown sdk.invalid_parameter)))
reviewed_amount_example =
    reviewed_amount_lem build sdk reviewed (record { text = []; header = [] }) (omega arith)
      sdk-IsSdk reviewed-Runs reviewed-locked reviewed-shown

-- The user goes on to the step to accept, and accepts.
abbrev confirmed : Device
confirmed = (ui_event build sdk accept (ui_event build sdk switch reviewed).1).1

confirmed-Runs : Runs build sdk confirmed
confirmed-Runs = event accept (event switch reviewed-Runs)

confirmed_signs : (api_sign build sdk 0 confirmed).0 ≡ ok answered
unfolding start iota_main_start io_initialize api_initialize nv_init round handle read_apdu
    iota_dispatch instruction_of find_instruction ledger_iota_app.Main.switch api_set_account
    api_write_data_block blit api_prepare_signing store_remainder parse_transaction
    essence_parse_and_validate essence_parse_and_validate_stardust parse_layout check_parsed
    check_and_hash tell_internal_transfer verify_remainder essence_hash validate_inputs
    validate_outputs validate_inputs_bip32 validate_payload validate_skip_bytes
    validate_inputs_duplicates check_input check_output check_bip32_index read_utxo_input
    read_basic_output read_bip32_index get_uint32 get_uint16 get_uint8 scan read le slice
    check_for_internal_transfer matches_input get_output_address_ptr address_generate same_bytes
    io_send reversed_pubkey ed25519_public_key_to_bytes api_user_confirm_essence confirm_transaction
    confirm_by start_flow flow_start_user_confirm_transaction caught catch_other wiped ui_event
    run_event cb_switch cb_accept call_accept api_sign sign reference_index_of
    sign_get_reference_index find_reference sign_signature_unlock_block sign_signature
confirmed_signs = refl

signed_example :
    Consented build sdk
      (start build (origin confirmed-Runs)).1
      confirmed
      (steps_of_run confirmed-Runs)
    × IsChecked build sdk confirmed 0
    × (0 < confirmed.api.essence.inputs_count)
    × ((at : ℕ) × (confirmed.api.essence.inputs_bip32_index ≡ some at)
        × ((out : List ℕ) × IsUnlock build sdk confirmed 0 at out
            × ((api_sign build sdk 0 confirmed).1.sent
                ≡ (out ++ (0x90 ∷ 0 ∷ [])) ∷ confirmed.sent)))
signed_example =
    signed_lem build sdk confirmed 0 answered refl (omega arith) sdk-IsSdk confirmed-Runs
      confirmed_signs
