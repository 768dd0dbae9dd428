-- ===== src/Tests/Transfers.antt =====
-- The theorem on the wallet, on a device that is told to sign a transaction to itself.
use ledger_iota_app.Prelude.{
  ℕ, ◌≡◌, ◌≢◌, ◌⊎◌, refl, false, List, ◌∷◌, ◌++◌, replicate, arith, slice, le, same_bytes, blit,
}
use ledger_iota_app.Constants.Ins
use ledger_iota_app.Types.{wiped, read_utxo_input, read_basic_output, read_bip32_index}
use ledger_iota_app.Device.{Device, io_send}
use ledger_iota_app.Reader.{read, scan, get_uint32, get_uint16, get_uint8}
use ledger_iota_app.Address.{address_generate, reversed_pubkey, ed25519_public_key_to_bytes}
use ledger_iota_app.Nv.{nv_init}
use ledger_iota_app.Ui.{flow_start_user_confirm_transaction}
use ledger_iota_app.Api.Core.{api_initialize, api_set_account}
use ledger_iota_app.Api.Buffer.{api_write_data_block}
use ledger_iota_app.Api.Prepare.{api_prepare_signing, store_remainder, parse_transaction}
use ledger_iota_app.Api.Confirm.{
  api_user_confirm_essence, confirm_transaction, confirm_by, start_flow,
}
use ledger_iota_app.Parse.{
  essence_parse_and_validate, essence_parse_and_validate_stardust, parse_layout, check_parsed,
  check_and_hash, tell_internal_transfer, verify_remainder, essence_hash,
}
use ledger_iota_app.Essence.{
  validate_inputs, validate_outputs, validate_inputs_bip32, validate_payload, validate_skip_bytes,
  validate_inputs_duplicates, check_input, check_output, check_bip32_index,
}
use ledger_iota_app.InternalTransfer.{check_for_internal_transfer, matches_input}
use ledger_iota_app.Abstraction.{get_output_address_ptr}
use ledger_iota_app.Main.{
  round, start, iota_main_start, io_initialize, handle, read_apdu, iota_dispatch, instruction_of,
  find_instruction, caught, catch_other,
}
use ledger_iota_app.Safety.Runs.{Runs, packet}
use ledger_iota_app.Tests.{build, sdk, AreBytes-of}
use ledger_iota_app.Tests.Runs.{sdk-IsSdk, ran, ran-Runs}
use ledger_iota_app.Wallet.{IsSwept, IsKept}
use ledger_iota_app.Wallet.Runs.{wallet_lem}
use ledger_iota_app.Tests.{essence_bytes}
use ledger_iota_app.Device.{ux_flow_internal_transfer}

abbrev write_packet : List ℕ
write_packet = Ins.cla ∷ Ins.write_data_block ∷ 0 ∷ 0 ∷ 251 ∷ (essence_bytes ++ replicate 113 0)

abbrev prepare_packet : List ℕ
prepare_packet = Ins.cla ∷ Ins.prepare_signing ∷ 0 ∷ 0 ∷ 10 ∷ replicate 10 0

abbrev written : Device
written = (round build sdk write_packet false ran).1

abbrev prepared : Device
prepared = (round build sdk prepare_packet false written).1

prepared-Runs : Runs build sdk prepared
prepared-Runs =
    packet prepare_packet false (AreBytes-of prepare_packet refl)
      (packet write_packet false (AreBytes-of write_packet refl) ran-Runs)

prepared_hidden : prepared.screen ≢ ux_flow_internal_transfer
unfolding start iota_main_start io_initialize api_initialize nv_init round handle read_apdu
    iota_dispatch instruction_of find_instruction ledger_iota_app.Main.switch api_set_account
    api_write_data_block blit api_prepare_signing store_remainder parse_transaction
    essence_parse_and_validate essence_parse_and_validate_stardust parse_layout check_parsed
    check_and_hash tell_internal_transfer verify_remainder essence_hash validate_inputs
    validate_outputs validate_inputs_bip32 validate_payload validate_skip_bytes
    validate_inputs_duplicates check_input check_output check_bip32_index read_utxo_input
    read_basic_output read_bip32_index get_uint32 get_uint16 get_uint8 scan read le slice
    check_for_internal_transfer matches_input get_output_address_ptr address_generate same_bytes
    io_send reversed_pubkey ed25519_public_key_to_bytes api_user_confirm_essence confirm_transaction
    confirm_by start_flow flow_start_user_confirm_transaction caught catch_other wiped
prepared_hidden e = ground arith

prepared_shows : (api_user_confirm_essence build sdk prepared).1.screen ≡ ux_flow_internal_transfer
unfolding start iota_main_start io_initialize api_initialize nv_init round handle read_apdu
    iota_dispatch instruction_of find_instruction ledger_iota_app.Main.switch api_set_account
    api_write_data_block blit api_prepare_signing store_remainder parse_transaction
    essence_parse_and_validate essence_parse_and_validate_stardust parse_layout check_parsed
    check_and_hash tell_internal_transfer verify_remainder essence_hash validate_inputs
    validate_outputs validate_inputs_bip32 validate_payload validate_skip_bytes
    validate_inputs_duplicates check_input check_output check_bip32_index read_utxo_input
    read_basic_output read_bip32_index get_uint32 get_uint16 get_uint8 scan read le slice
    check_for_internal_transfer matches_input get_output_address_ptr address_generate same_bytes
    io_send reversed_pubkey ed25519_public_key_to_bytes api_user_confirm_essence confirm_transaction
    confirm_by start_flow flow_start_user_confirm_transaction caught catch_other wiped
prepared_shows = refl

wallet_example :
    IsSwept sdk prepared.api ⊎ ((prepared.api.essence.outputs_count ≡ 1) × IsKept sdk prepared.api)
wallet_example =
    wallet_lem build sdk prepared (omega arith) sdk-IsSdk prepared-Runs prepared_hidden
      prepared_shows
