-- ===== src/Constants.antt =====
-- src/iota/constants.h: the sizes and limits, and what the build fixes, which is the variant of the
-- app, the device, the debug switch and the version.
pub mod Status
pub mod Ins
pub mod Bip32
pub mod AppMode
use ledger_iota_app.Prelude.{ℕ, ◌+◌, ◌*◌, ◌/◌, ◌≤◌, ◌<◌, ◌≡◌, arith, Bool}

-- `APP_IOTA` or `APP_SHIMMER`
pub data App : Type 0 where
  app_iota app_shimmer : App

-- `TARGET_NANOS`, `TARGET_NANOX` or `TARGET_NANOS2`
pub data Target : Type 0 where
  target_nanos target_nanox target_nanos2 : Target

pub record Build : Type 0 where
  pub app : App
  pub target : Target
  pub app_debug : Bool
  pub appversion_major : ℕ
  pub appversion_minor : ℕ
  pub appversion_patch : ℕ

abbrev pub data_block_count : Target → ℕ
data_block_count target_nanos = 6
data_block_count target_nanox = 32
data_block_count target_nanos2 = 32

abbrev pub data_block_size : ℕ
data_block_size = 251

abbrev pub inputs_max_count_stardust : ℕ
inputs_max_count_stardust = 128

abbrev pub inputs_min_count : ℕ
inputs_min_count = 1

abbrev pub outputs_max_count_stardust : ℕ
outputs_max_count_stardust = 128

abbrev pub outputs_min_count : ℕ
outputs_min_count = 1

abbrev pub address_size_bytes : ℕ
address_size_bytes = 32

abbrev pub address_with_type_size_bytes : ℕ
address_with_type_size_bytes = 33

abbrev pub address_size_base32 : ℕ
address_size_base32 = (address_with_type_size_bytes * 8 + 4) / 5

-- The longest prefix has 4 characters.
abbrev pub address_size_bech32_max : ℕ
address_size_bech32_max = 4 + 1 + address_size_base32 + 6

abbrev pub pubkey_size_bytes : ℕ
pubkey_size_bytes = 32

abbrev pub signature_size_bytes : ℕ
signature_size_bytes = 64

abbrev pub blake2b_size_bytes : ℕ
blake2b_size_bytes = 32

abbrev pub essence_hash_size_bytes : ℕ
essence_hash_size_bytes = 32

abbrev pub address_type_ed25519 : ℕ
address_type_ed25519 = 0

abbrev pub signature_type_ed25519 : ℕ
signature_type_ed25519 = 0

abbrev pub unlock_type_signature : ℕ
unlock_type_signature = 0

abbrev pub unlock_type_reference : ℕ
unlock_type_reference = 1

abbrev pub address_unlock_condition : ℕ
address_unlock_condition = 0

abbrev pub input_type_utxo : ℕ
input_type_utxo = 0

abbrev pub output_type_basicoutput : ℕ
output_type_basicoutput = 3

abbrev pub transaction_essence_type_stardust : ℕ
transaction_essence_type_stardust = 1

abbrev pub api_buffer_size_bytes : Target → ℕ
api_buffer_size_bytes t = data_block_count t * data_block_size

abbrev pub api_generate_addresses_max_count : Target → ℕ
api_generate_addresses_max_count t = api_buffer_size_bytes t / address_with_type_size_bytes

pub api_buffer_size_bytes_bounds :
    (t : Target) → (1506 ≤ api_buffer_size_bytes t) × (api_buffer_size_bytes t ≤ 8032)
api_buffer_size_bytes_bounds target_nanos = omega arith
api_buffer_size_bytes_bounds target_nanox = omega arith
api_buffer_size_bytes_bounds target_nanos2 = omega arith
