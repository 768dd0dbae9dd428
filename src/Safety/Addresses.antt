-- ===== src/Safety/Addresses.antt =====
-- `api_generate_address` of src/api.c fills the buffer without leaving it.
use ledger_iota_app.Prelude.{
  ℕ, zero, suc, ◌≡◌, ◌≤◌, false, List, arith, ◌+◌, ◌*◌, length, length-replicate, AreBytes,
  AreBytes-blit, length-blit, length-set, set, u32, inl, inr, some, Option-cases, Bool-cases,
  get_or,
}
use ledger_iota_app.Exec.{◌>>◌}
use ledger_iota_app.Constants.{Build, api_buffer_size_bytes, address_with_type_size_bytes}
use ledger_iota_app.Types.{ApiCtx, GenerateAddressRequest, read_generate_address_request, locked}
use ledger_iota_app.Sdk.{Sdk}
use ledger_iota_app.Device.{Device, io_send}
use ledger_iota_app.Address.{address_generate}
use ledger_iota_app.Api.Address.{
  generate_address_at, generate_addresses, fill_buffer, api_generate_address, finish_addresses,
  reject_request, write_buffer,
}
use ledger_iota_app.Api.Buffer.{set_data_type}
use ledger_iota_app.Api.Address.Bounds.{accepted_fits}
use ledger_iota_app.Safety.{IsSound, IsSdk, EndsSound, Ends-bind, zeros}

-- An address is 33 bytes.
address_generate_bytes :
    (sdk : Sdk) (path address : List ℕ)
    → IsSdk sdk
    → address_generate sdk path ≡ some address
    → (length address ≡ address_with_type_size_bytes) × AreBytes address
unfolding address_generate
address_generate_bytes sdk path address k h = grind (arith, k.hash_length, k.hash_bytes)

-- The address at place `i` is written within the buffer.
write_address-IsSound :
    (b : Build) (i : ℕ) (address : List ℕ) (c : ApiCtx)
    → length address ≡ address_with_type_size_bytes
    → AreBytes address
    → (i + 1) * address_with_type_size_bytes ≤ api_buffer_size_bytes b.target
    → IsSound b c
    → IsSound b (write_buffer (i * address_with_type_size_bytes) address c)
write_address-IsSound b i address c l are fits s =
    let full =
      length-blit (i * address_with_type_size_bytes) address c.api_data.buffer
        (omega (arith, l, fits, s.full)) in
    let bytes =
      AreBytes-blit (i * address_with_type_size_bytes) address c.api_data.buffer are s.are_bytes in
    ground arith

generate_address_at_ends :
    (b : Build) (sdk : Sdk) (i : ℕ) (d : Device)
    → IsSdk sdk
    → (i + 1) * address_with_type_size_bytes ≤ api_buffer_size_bytes b.target
    → IsSound b d.api
    → EndsSound b (generate_address_at sdk i d)
unfolding generate_address_at
generate_address_at_ends b sdk i d k fits s =
    elim (Option-cases (address_generate sdk d.api.bip32_path)) [
      | inl e ↦ rw e (omega arith)
      | inr (address, e) ↦
          let (l, are) = address_generate_bytes sdk d.api.bip32_path address k e in
          let next = u32 (get_or d.api.bip32_path 4 0 + 1) in
          let written = write_address-IsSound b i address d.api l are fits s in
          let path = length-set d.api.bip32_path 4 next in rw e (ground arith)
    ]

generate_addresses_ends :
    (b : Build) (sdk : Sdk) (left i : ℕ) (d : Device)
    → IsSdk sdk
    → (i + left) * address_with_type_size_bytes ≤ api_buffer_size_bytes b.target
    → IsSound b d.api
    → EndsSound b (generate_addresses sdk left i d)
unfolding generate_addresses
generate_addresses_ends b sdk zero i d k fits s = s
generate_addresses_ends b sdk (suc left) i d k fits s =
    Ends-bind (λ d'. IsSound b d'.api) (λ d'. IsSound b d'.api)
      (λ _. generate_addresses sdk left (i + 1)) (generate_address_at sdk i d)
      (generate_address_at_ends b sdk i d k (omega (arith, fits)) s)
      (λ _ sound. generate_addresses_ends b sdk left (i + 1) _ k (omega (arith, fits)) sound)

-- The context before the first address.
fill_buffer_ends :
    (b : Build) (sdk : Sdk) (show : ℕ) (req : GenerateAddressRequest) (d : Device)
    → IsSdk sdk
    → req.count * address_with_type_size_bytes ≤ api_buffer_size_bytes b.target
    → IsSound b d.api
    → EndsSound b (fill_buffer b sdk show req d)
unfolding fill_buffer
fill_buffer_ends b sdk show req d k fits s =
    let bytes = zeros b in
    let full = length-replicate {A = ℕ} (api_buffer_size_bytes b.target) 0 in
    let index = length-set d.api.bip32_path 4 req.bip32_index in
    let change = length-set (set d.api.bip32_path 4 req.bip32_index) 3 req.bip32_change in
    Ends-bind (λ d'. IsSound b d'.api) (λ d'. IsSound b d'.api) _ _
      (generate_addresses_ends b sdk req.count 0 _ k (omega (arith, fits)) (ground arith))
      (λ _ sound. ground arith)

finish_addresses_ends :
    (b : Build) (sdk : Sdk) (show : ℕ) (req : GenerateAddressRequest) (d : Device)
    → IsSound b d.api
    → EndsSound b (finish_addresses b sdk show req d)
unfolding finish_addresses io_send
finish_addresses_ends b sdk show req d s =
    let index = length-set d.api.bip32_path 4 req.bip32_index in
    let change = length-set (set d.api.bip32_path 4 req.bip32_index) 3 req.bip32_change in
    ground arith

-- What follows the tests of a request.
fill_and_finish_ends :
    (b : Build) (sdk : Sdk) (show : ℕ) (req : GenerateAddressRequest) (d : Device)
    → IsSdk sdk
    → reject_request b.target show req ≡ false
    → IsSound b d.api
    → EndsSound b ((fill_buffer b sdk show req >> finish_addresses b sdk show req) d)
fill_and_finish_ends b sdk show req d k accepted s =
    Ends-bind (λ d'. IsSound b d'.api) (λ d'. IsSound b d'.api) _ _
      (fill_buffer_ends b sdk show req d k (accepted_fits b.target show req accepted) s)
      (λ _ filled. finish_addresses_ends b sdk show req _ filled)

pub generate_address_ends :
    (b : Build) (sdk : Sdk) (show : ℕ) (bytes : List ℕ) (d : Device)
    → IsSdk sdk
    → IsSound b d.api
    → EndsSound b (api_generate_address b sdk show bytes d)
unfolding api_generate_address
generate_address_ends b sdk show bytes d k s =
    let req = read_generate_address_request bytes in
    let c : ApiCtx = set_data_type locked d.api in
    let here : IsSound b c = ground arith in
    elim (Bool-cases (reject_request b.target show req)) [
      | inl bad ↦ rw bad (ground arith)
      | inr good ↦ rw good (
          let done = fill_and_finish_ends b sdk show req (record d { api = c }) k good here in
          ground arith)
    ]
