-- ===== src/Api/Prepare/Accepted.antt =====
-- What `api_prepare_signing` of src/api.c has checked when it succeeds.
use ledger_iota_app.Prelude.{
  ℕ, ◌≡◌, true, List, arith, length, test_bit, some, slice, AreBytes, get_or,
}
use ledger_iota_app.Exec.{ok}
use ledger_iota_app.Constants.{Build, api_buffer_size_bytes}
use ledger_iota_app.Constants.AppMode
use ledger_iota_app.Types.{empty, validated_essence}
use ledger_iota_app.Sdk.{Sdk}
use ledger_iota_app.Device.{Device, io_send}
use ledger_iota_app.Api.Core.{Answer}
use ledger_iota_app.Api.Prepare.{parse_transaction, api_prepare_signing, store_remainder}
use ledger_iota_app.Parse.{essence_parse_and_validate}
use ledger_iota_app.Parse.Frame.{Framed, parse-Framed}
use ledger_iota_app.Parse.Layout.{essence_end, IsEssence, input_records}
use ledger_iota_app.Parse.Whole.{IsAccepted, essence_parse_lem}
use ledger_iota_app.Essence.Duplicates.{Distinct}

parse_transaction_lem :
    (b : Build) (sdk : Sdk) (d : Device)
    → length d.api.api_data.buffer ≡ api_buffer_size_bytes b.target
    → AreBytes d.api.api_data.buffer
    → d.api.protocol ≡ AppMode.protocol_stardust
    → (parse_transaction b sdk d).0 ≡ ok tt
    → let buffer = d.api.api_data.buffer in
      IsAccepted b.target sdk d.api
      × (sdk.blake2b (slice 0 (essence_end buffer) buffer)
          ≡ some (parse_transaction b sdk d).1.api.essence.hash)
unfolding parse_transaction essence_parse_and_validate
parse_transaction_lem b sdk d full are p h =
    let whole = essence_parse_lem b.target sdk d.api full are p in ground arith

parse_transaction-Framed :
    (b : Build) (sdk : Sdk) (d : Device) → Framed d.api (parse_transaction b sdk d).1.api
unfolding parse_transaction
parse_transaction-Framed b sdk d = ground (arith, parse-Framed b.target sdk d.api)

module _ (b : Build) (sdk : Sdk) (has_remainder : ℕ) (bytes : List ℕ) (d : Device)
    (a : Answer) where
  -- On an account that is chosen for Stardust and a buffer of bytes of the full size: if the command
  -- succeeds, the buffer was free and now counts as validated with its bytes unchanged, the account
  -- is hardened, the buffer holds an essence that the app can sign, no two inputs are the same, and
  -- the hash stored is that of the essence.
  pub prepare_signing_lem :
      length d.api.api_data.buffer ≡ api_buffer_size_bytes b.target
      → AreBytes d.api.api_data.buffer
      → d.api.protocol ≡ AppMode.protocol_stardust
      → (api_prepare_signing b sdk has_remainder bytes d).0 ≡ ok a
      → let c' = (api_prepare_signing b sdk has_remainder bytes d).1.api in
        let buffer = d.api.api_data.buffer in
        (d.api.api_data.type ≡ empty)
        × (c'.api_data.type ≡ validated_essence)
        × (c'.api_data.buffer ≡ buffer)
        × (c'.essence.blindsigning ≡ 0)
        × (test_bit (get_or d.api.bip32_path 2 0) 31 ≡ true)
        × IsEssence b.target buffer
        × Distinct (input_records buffer)
        × (sdk.blake2b (slice 0 (essence_end buffer) buffer) ≡ some c'.essence.hash)
  unfolding api_prepare_signing store_remainder io_send
  prepare_signing_lem full are p h = grind (arith, parse_transaction-Framed, parse_transaction_lem)
