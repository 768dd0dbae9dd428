-- ===== src/Types.antt =====
-- src/api.h: the packed structures that are read from the buffer, and the context of the app. A
-- pointer into the buffer is the offset that it points at, and NULL is `none`.
use ledger_iota_app.Prelude.{ℕ, List, Option, none, replicate, slice, le}
use ledger_iota_app.Constants.{Target, api_buffer_size_bytes, blake2b_size_bytes}
use ledger_iota_app.Constants.Bip32

-- `DATA_TYPE`; the constructors stand in the order of their numbers 0 to 5.
pub data DataType : Type 0 where
  empty generated_addresses validated_essence user_confirmed_essence signatures locked : DataType

abbrev pub data_type_code : DataType → ℕ
data_type_code empty = 0
data_type_code generated_addresses = 1
data_type_code validated_essence = 2
data_type_code user_confirmed_essence = 3
data_type_code signatures = 4
data_type_code locked = 5

pub record UtxoInput : Type 0 where
  pub input_type : ℕ
  pub transaction_id : List ℕ
  pub transaction_output_id : ℕ

abbrev pub sizeof_utxo_input : ℕ
sizeof_utxo_input = 35

unfoldable pub read_utxo_input : List ℕ → UtxoInput
read_utxo_input r = record {
  input_type = le (slice 0 1 r);
  transaction_id = slice 1 32 r;
  transaction_output_id = le (slice 33 2 r);
}

pub record BasicOutput : Type 0 where
  pub output_type : ℕ
  pub amount : ℕ
  pub native_tokens_count : ℕ
  pub unlock_conditions_count : ℕ
  pub unlock_condition_type : ℕ
  pub address_type : ℕ
  pub pubkey_hash : List ℕ
  pub blocks_count : ℕ

abbrev pub sizeof_basic_output : ℕ
sizeof_basic_output = 46

-- The offsets of two fields that the code takes the address of.
abbrev pub offset_amount : ℕ
offset_amount = 1

abbrev pub offset_address_type : ℕ
offset_address_type = 12

unfoldable pub read_basic_output : List ℕ → BasicOutput
read_basic_output r = record {
  output_type = le (slice 0 1 r);
  amount = le (slice offset_amount 8 r);
  native_tokens_count = le (slice 9 1 r);
  unlock_conditions_count = le (slice 10 1 r);
  unlock_condition_type = le (slice 11 1 r);
  address_type = le (slice offset_address_type 1 r);
  pubkey_hash = slice 13 32 r;
  blocks_count = le (slice 45 1 r);
}

-- `API_INPUT_BIP32_INDEX`, and `API_REMAINDER_BIP32_INDEX`, which is the same structure.
pub record Bip32Index : Type 0 where
  pub bip32_index : ℕ
  pub bip32_change : ℕ

abbrev pub sizeof_bip32_index : ℕ
sizeof_bip32_index = 8

unfoldable pub read_bip32_index : List ℕ → Bip32Index
read_bip32_index r = record { bip32_index = le (slice 0 4 r); bip32_change = le (slice 4 4 r) }

pub record GenerateAddressRequest : Type 0 where
  pub bip32_index : ℕ
  pub bip32_change : ℕ
  pub count : ℕ

abbrev pub sizeof_generate_address_request : ℕ
sizeof_generate_address_request = 12

unfoldable pub read_generate_address_request : List ℕ → GenerateAddressRequest
read_generate_address_request r = record {
  bip32_index = le (slice 0 4 r);
  bip32_change = le (slice 4 4 r);
  count = le (slice 8 4 r);
}

pub record PrepareSigningRequest : Type 0 where
  pub remainder_index : ℕ
  pub remainder_bip32_index : ℕ
  pub remainder_bip32_change : ℕ

abbrev pub sizeof_prepare_signing_request : ℕ
sizeof_prepare_signing_request = 10

unfoldable pub read_prepare_signing_request : List ℕ → PrepareSigningRequest
read_prepare_signing_request r = record {
  remainder_index = le (slice 0 2 r);
  remainder_bip32_index = le (slice 2 4 r);
  remainder_bip32_change = le (slice 6 4 r);
}

pub record Essence : Type 0 where
  pub inputs_count : ℕ
  pub length : ℕ
  pub inputs : Option ℕ
  pub outputs_count : ℕ
  pub outputs : Option ℕ
  pub inputs_bip32_index : Option ℕ
  pub blindsigning : ℕ
  pub remainder_index : ℕ
  pub remainder_bip32 : Bip32Index
  pub has_remainder : ℕ
  pub is_internal_transfer : ℕ
  pub hash : List ℕ

pub record ApiData : Type 0 where
  pub buffer : List ℕ
  pub type : DataType
  pub length : ℕ

pub record ApiCtx : Type 0 where
  pub bip32_path : List ℕ
  pub app_mode : ℕ
  pub protocol : ℕ
  pub coin : ℕ
  -- `data`
  pub api_data : ApiData
  pub essence : Essence
  pub flow_locked : ℕ
  pub non_interactive_mode : ℕ

-- What `explicit_bzero(&api, sizeof(api))` leaves.
unfoldable pub wiped : Target → ApiCtx
wiped t = record {
  bip32_path = replicate Bip32.path_len 0;
  app_mode = 0;
  protocol = 0;
  coin = 0;
  api_data = record { buffer = replicate (api_buffer_size_bytes t) 0; type = empty; length = 0 };
  essence = record {
    inputs_count = 0;
    length = 0;
    inputs = none;
    outputs_count = 0;
    outputs = none;
    inputs_bip32_index = none;
    blindsigning = 0;
    remainder_index = 0;
    remainder_bip32 = record { bip32_index = 0; bip32_change = 0 };
    has_remainder = 0;
    is_internal_transfer = 0;
    hash = replicate blake2b_size_bytes 0;
  };
  flow_locked = 0;
  non_interactive_mode = 0;
}
