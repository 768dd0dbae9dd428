-- ===== src/Tests/Running.antt =====
-- The theorems on commands and events, on a device.
use ledger_iota_app.Prelude.{
  ℕ, ◌+◌, ◌*◌, ◌≤◌, ◌<◌, ◌^◌, ◌≡◌, ◌≢◌, ◌⊎◌, refl, inr, true, false, List, [], ◌∷◌, ◌++◌, some,
  slice, take, drop, arith, replicate, test_bit, get_or, to_le, le, same_bytes,
}
use ledger_iota_app.Exec.{ok, fail, thrown}
use ledger_iota_app.Constants.{
  target_nanos, api_buffer_size_bytes, data_block_size, address_with_type_size_bytes,
}
use ledger_iota_app.Constants.Status
use ledger_iota_app.Constants.Ins
use ledger_iota_app.Types.{
  ApiCtx, Essence, GenerateAddressRequest, empty, validated_essence, read_utxo_input,
  read_basic_output, read_bip32_index,
}
use ledger_iota_app.Device.{
  Device, io_send, api_user_confirm_essence_accepted, ux_flow_has_accept_reject,
}
use ledger_iota_app.Reader.{read, scan, get_uint32, get_uint16, get_uint8}
use ledger_iota_app.Address.{address_generate, reversed_pubkey, ed25519_public_key_to_bytes}
use ledger_iota_app.Signing.{
  sign, sign_signature, sign_signature_unlock_block, reference_index_of, sign_get_reference_index,
  find_reference,
}
use ledger_iota_app.Signing.Reference.{indices_of, IsFirstFrom, Found, find_reference_lem}
use ledger_iota_app.Api.Core.{answered, app_mode_init, api_initialize}
use ledger_iota_app.Api.Confirm.{call_accept}
use ledger_iota_app.Api.Sign.{api_sign}
use ledger_iota_app.Api.Buffer.{api_write_data_block}
use ledger_iota_app.Api.Buffer.Blocks.{MayWrite, write_data_block_lem}
use ledger_iota_app.Api.Address.Bounds.{request_lem}
use ledger_iota_app.Api.Prepare.{api_prepare_signing, store_remainder, parse_transaction}
use ledger_iota_app.Api.Prepare.Accepted.{prepare_signing_lem}
use ledger_iota_app.Parse.Layout.{IsEssence, input_records, essence_end}
use ledger_iota_app.Parse.Accepted.{at_remainder, IsOwn, remainder_lem}
use ledger_iota_app.Parse.{
  essence_verify_remainder_address, essence_parse_and_validate, essence_parse_and_validate_stardust,
  parse_layout, check_parsed, check_and_hash, tell_internal_transfer, verify_remainder,
  essence_hash,
}
use ledger_iota_app.Essence.{
  validate_inputs, validate_outputs, validate_inputs_bip32, validate_payload, validate_skip_bytes,
  validate_inputs_duplicates, check_input, check_output, check_bip32_index,
}
use ledger_iota_app.InternalTransfer.{check_for_internal_transfer, matches_input}
use ledger_iota_app.InternalTransfer.Ownership.{
  IsSweep, IsOwnOutput, IsNotFound, internal_transfer_lem,
}
use ledger_iota_app.Abstraction.{get_output_address_ptr}
use ledger_iota_app.Essence.Duplicates.{Distinct}
use ledger_iota_app.Ui.{read_index_of}
use ledger_iota_app.Ui.Events.{accept, cb_accept, run_event, ui_event, next_place, prev_place}
use ledger_iota_app.Ui.Review.{IsReviewed, places, read_index_lem, next-prev_place}
use ledger_iota_app.Main.{
  instruction_of, find_instruction, handle, iota_dispatch, switch, read_apdu, round,
}
use ledger_iota_app.Main.Rounds.{locked_round_lem, reset_round_lem}
use ledger_iota_app.Main.Throws.{RunsOn}
use ledger_iota_app.Consent.Trace.{Reach, stay, go, event, Consented}
use ledger_iota_app.Consent.Signature.{sign_consent_lem, IsSigned, index_of, sign_lem}
use ledger_iota_app.Tests.{build, sdk, context, device, filled, filled_length, filled-AreBytes}

-- A device whose user stands before the step to accept.
abbrev reviewing : Device
reviewing = record device {
  api = record context {
    api_data = record context.api_data { type = validated_essence; length = 138 };
    essence = record context.essence {
      inputs_count = 1;
      outputs_count = 1;
      length = 130;
      inputs = some 11;
      outputs = some 80;
      inputs_bip32_index = some 130;
    };
    flow_locked = 1;
  };
  flow_data = record device.flow_data {
    accept_cb = some api_user_confirm_essence_accepted;
    flow_active = 1;
  };
  screen = ux_flow_has_accept_reject;
}

abbrev confirmed : Device
confirmed = (ui_event build sdk accept reviewing).1

abbrev confirmed_run : Reach build sdk reviewing confirmed
confirmed_run = go stay (event accept)

confirmed_signs : (api_sign build sdk 0 confirmed).0 ≡ ok answered
unfolding api_sign ui_event run_event cb_accept call_accept io_send sign reference_index_of
    sign_get_reference_index find_reference sign_signature_unlock_block sign_signature read
    ed25519_public_key_to_bytes reversed_pubkey
confirmed_signs = refl

sign_consent_example : Consented build sdk reviewing confirmed confirmed_run
sign_consent_example =
    sign_consent_lem build sdk reviewing confirmed 0 answered refl (λ e. cc) confirmed_run
      confirmed_signs

locked_round_example :
    round build sdk (Ins.cla ∷ Ins.sign_single ∷ 0 ∷ 0 ∷ 1 ∷ 5 ∷ []) true device
    ≡ (ok answered, record device { sent = (0x69 ∷ 0x82 ∷ []) ∷ [] })
locked_round_example =
    locked_round_lem build sdk device Ins.sign_single 0 0 (5 ∷ []) (omega arith) refl

next-prev_place_example : (prev_place 3 (next_place 3 2) ≡ 2) × (next_place 3 (prev_place 3 2) ≡ 2)
next-prev_place_example = next-prev_place 3 2 (omega arith)

-- Three outputs, of which the one in the middle is the remainder.
abbrev with_remainder : Essence
with_remainder = record context.essence {
  outputs_count = 3;
  has_remainder = 1;
  remainder_index = 1;
}

read_index_example :
    ((i : ℕ)
      → i < places with_remainder
      → IsReviewed with_remainder (read_index_of with_remainder i))
    × ((j : ℕ)
        → IsReviewed with_remainder j
        → (i : ℕ) × (i < places with_remainder) × (read_index_of with_remainder i ≡ j))
    × ((i k : ℕ) → read_index_of with_remainder i ≡ read_index_of with_remainder k → i ≡ k)
read_index_example = read_index_lem with_remainder (inr (omega arith))

abbrev two_addresses : GenerateAddressRequest
two_addresses = record { bip32_index = 2 ^ 31; bip32_change = 2 ^ 31; count = 2 }

abbrev hidden : ℕ
hidden = 0

request_example :
    (2 * address_with_type_size_bytes ≤ api_buffer_size_bytes target_nanos)
    × ((i : ℕ) → i ≤ 2 → (2 ^ 31 + i < 2 ^ 32) × (2 ^ 31 ≤ 2 ^ 31 + i))
    × ((two_addresses.bip32_change ≡ 2 ^ 31) ⊎ (two_addresses.bip32_change ≡ 2 ^ 31 + 1))
    × ((hidden ≡ 0) ⊎ (two_addresses.count ≡ 1))
request_example = request_lem target_nanos hidden two_addresses (omega arith) (omega arith) refl

abbrev block : List ℕ
block = replicate 251 9

write_data_block_example :
    (MayWrite build device 1 block
      × ((api_write_data_block build sdk 1 block device).0 ≡ ok answered)
      × ((slice
              (1 * data_block_size)
              data_block_size
              (api_write_data_block build sdk 1 block device).1.api.api_data.buffer
            ≡ block)
          × (take
                (1 * data_block_size)
                (api_write_data_block build sdk 1 block device).1.api.api_data.buffer
              ≡ take (1 * data_block_size) filled)
          × (drop
                (1 * data_block_size + data_block_size)
                (api_write_data_block build sdk 1 block device).1.api.api_data.buffer
              ≡ drop (1 * data_block_size + data_block_size) filled)))
    ⊎ (¬ (MayWrite build device 1 block)
        × ((e : ℕ) × ((api_write_data_block build sdk 1 block device).0 ≡ thrown e))
        × ((api_write_data_block build sdk 1 block device).1 ≡ device))
write_data_block_example = write_data_block_lem build sdk 1 block device (omega arith) filled_length

find_reference_example : Found filled 130 0 0 0 (find_reference filled 130 0 0 0)
find_reference_example =
    find_reference_lem filled 130 0 0 0 refl (omega arith) (omega (arith, filled_length))

-- An instruction that is unknown.
abbrev unknown_packet : List ℕ
unknown_packet = Ins.cla ∷ 0x77 ∷ 0 ∷ 0 ∷ 0 ∷ []

unknown_throws : (handle build sdk unknown_packet false device).0 ≡ thrown Status.ins_not_supported
unfolding handle iota_dispatch switch read_apdu instruction_of find_instruction
unknown_throws = refl

reset_round_example :
    ((round build sdk unknown_packet false device).0 ≡ ok answered)
    × ((round build sdk unknown_packet false device).1.sent ≡ (0x6d ∷ 0 ∷ []) ∷ [])
    × ((round build sdk unknown_packet false device).1.api
        ≡ (api_initialize build (app_mode_init build.app) 0 reviewing).1.api)
    × ((round build sdk unknown_packet false device).1.api.api_data.type ≡ empty)
    × ((round build sdk unknown_packet false device).1.api.api_data.buffer
        ≡ replicate (api_buffer_size_bytes target_nanos) 0)
    × ((round build sdk unknown_packet false device).1.api.essence.inputs_count ≡ 0)
    × ((round build sdk unknown_packet false device).1.api.flow_locked ≡ 0)
    × RunsOn device (round build sdk unknown_packet false device).1
reset_round_example =
    reset_round_lem build sdk device reviewing unknown_packet false Status.ins_not_supported
      (omega arith) unknown_throws (omega arith) (omega arith)

-- The first input is signed for.
abbrev unlock_block : List ℕ
unlock_block = 0 ∷ 0 ∷ (ed25519_public_key_to_bytes (replicate 65 0) ++ replicate 64 7)

first_signed : (sign sdk 0 reviewing.api).0 ≡ ok unlock_block
unfolding sign reference_index_of sign_get_reference_index find_reference
    sign_signature_unlock_block sign_signature read
first_signed = refl

sign_example :
    let c = reviewing.api in
    (0 < c.essence.inputs_count)
    × (((c.essence.blindsigning ≢ 0
            ⊎ ((j : ℕ) → 0 ≤ j → j < 0 → indices_of filled 130 0 ≢ indices_of filled 130 j))
          × IsSigned sdk c (index_of sdk c 130 0) unlock_block)
        ⊎ ((c.essence.blindsigning ≡ 0)
            × ((k : ℕ) × IsFirstFrom filled 130 0 0 k × (unlock_block ≡ 1 ∷ to_le 2 k))))
sign_example =
    sign_lem sdk reviewing.api 130 0 unlock_block refl (omega arith) (omega (arith, filled_length))
      first_signed

preparing : (api_prepare_signing build sdk 0 (replicate 10 0) device).0 ≡ ok answered
unfolding api_prepare_signing store_remainder parse_transaction essence_parse_and_validate
    essence_parse_and_validate_stardust parse_layout check_parsed check_and_hash
    tell_internal_transfer verify_remainder essence_hash validate_inputs validate_outputs
    validate_inputs_bip32 validate_payload validate_skip_bytes validate_inputs_duplicates
    check_input check_output check_bip32_index read_utxo_input read_basic_output read_bip32_index
    get_uint32 get_uint16 get_uint8 scan read le slice check_for_internal_transfer matches_input
    get_output_address_ptr address_generate same_bytes io_send
preparing = refl

prepare_signing_example :
    let c' = (api_prepare_signing build sdk 0 (replicate 10 0) device).1.api in
    (context.api_data.type ≡ empty)
    × (c'.api_data.type ≡ validated_essence)
    × (c'.api_data.buffer ≡ filled)
    × (c'.essence.blindsigning ≡ 0)
    × (test_bit (get_or context.bip32_path 2 0) 31 ≡ true)
    × IsEssence target_nanos filled
    × Distinct (input_records filled)
    × (sdk.blake2b (slice 0 (essence_end filled) filled) ≡ some c'.essence.hash)
prepare_signing_example =
    prepare_signing_lem build sdk 0 (replicate 10 0) device answered filled_length filled-AreBytes
      refl preparing

internal_transfer_example :
    let c = reviewing.api in
    ((check_for_internal_transfer sdk c ≡ ok tt) × IsSweep c × IsOwnOutput sdk c 80 130)
    ⊎ ((check_for_internal_transfer sdk c ≡ fail) × (¬ (IsSweep c) ⊎ IsNotFound sdk c 80 130))
internal_transfer_example =
    internal_transfer_lem sdk reviewing.api 80 130 refl refl refl (omega (arith, filled_length))
      (omega (arith, filled_length))

abbrev owner : ApiCtx
owner = record reviewing.api { essence = record reviewing.api.essence { has_remainder = 1 } }

remainder_example :
    ((essence_verify_remainder_address sdk owner ≡ (ok tt, at_remainder owner))
      × IsOwn sdk owner 80)
    ⊎ (((essence_verify_remainder_address sdk owner).0 ≡ fail) × ¬ (IsOwn sdk owner 80))
remainder_example = remainder_lem sdk owner 80 refl (omega (arith, filled_length))
