-- ===== src/Api/Address/Bounds.antt =====
-- The requests that `api_generate_address` of src/api.c lets through.
use ledger_iota_app.Prelude.{ℕ, ◌+◌, ◌*◌, ◌^◌, ◌≤◌, ◌<◌, ◌≡◌, ◌⊎◌, false, arith}
use ledger_iota_app.Constants.{
  Target, api_buffer_size_bytes, api_generate_addresses_max_count, address_with_type_size_bytes,
  target_nanos, target_nanox, target_nanos2,
}
use ledger_iota_app.Types.{GenerateAddressRequest}
use ledger_iota_app.Api.Address.{reject_request}

-- The largest number of addresses fits the buffer.
count_fits :
    (t : Target) (n : ℕ)
    → n ≤ api_generate_addresses_max_count t
    → n * address_with_type_size_bytes ≤ api_buffer_size_bytes t
count_fits target_nanos n h = omega arith
count_fits target_nanox n h = omega arith
count_fits target_nanos2 n h = omega arith

-- The addresses of a request that is let through fit the buffer.
pub accepted_fits :
    (t : Target) (show : ℕ) (req : GenerateAddressRequest)
    → reject_request t show req ≡ false
    → req.count * address_with_type_size_bytes ≤ api_buffer_size_bytes t
accepted_fits t show req h =
    let max : req.count ≤ api_generate_addresses_max_count t = ground arith in
    count_fits t req.count max

-- The addresses of a request that is let through, whose words have 32 bits, fit the buffer; each of their indices is hardened
-- and of 32 bits, so that counting them up does not wrap around; the place for the change is 0' or
-- 1'; and an address that is to be shown is the only one.
pub request_lem :
    (t : Target) (show : ℕ) (req : GenerateAddressRequest)
    → req.bip32_index < 2 ^ 32
    → req.bip32_change < 2 ^ 32
    → reject_request t show req ≡ false
    → (req.count * address_with_type_size_bytes ≤ api_buffer_size_bytes t)
      × ((i : ℕ) → i ≤ req.count → (req.bip32_index + i < 2 ^ 32) × (2 ^ 31 ≤ req.bip32_index + i))
      × ((req.bip32_change ≡ 2 ^ 31) ⊎ (req.bip32_change ≡ 2 ^ 31 + 1))
      × ((show ≡ 0) ⊎ (req.count ≡ 1))
request_lem t show req i c h =
    (accepted_fits t show req h, (λ k l. ground arith), ground arith, ground arith)
