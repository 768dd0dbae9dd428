-- ===== src/Wallet/Preparing.antt =====
-- The flags of the essence under `api_prepare_signing` of src/api.c.
use ledger_iota_app.Prelude.{ℕ, ◌≡◌, inl, inr, refl, List, arith, length, AreBytes}
use ledger_iota_app.Exec.{ok}
use ledger_iota_app.Constants.{Build, Target, api_buffer_size_bytes}
use ledger_iota_app.Constants.AppMode
use ledger_iota_app.Types.{ApiCtx, locked, validated_essence}
use ledger_iota_app.Sdk.{Sdk}
use ledger_iota_app.Device.{Device, io_send}
use ledger_iota_app.Essence.{on_essence}
use ledger_iota_app.Parse.{essence_parse_and_validate_stardust, essence_parse_and_validate}
use ledger_iota_app.Parse.Layout.{IsEssence, parsed, parse_layout_lem, outputs_start, essence_end}
use ledger_iota_app.Api.Buffer.{set_data_type}
use ledger_iota_app.Api.Prepare.{api_prepare_signing, parse_transaction, store_remainder}
use ledger_iota_app.Safety.{IsSound, Leaves}
use ledger_iota_app.Safety.Preparing.{stardust_lem, store_remainder_ends, parse_and_reply}
use ledger_iota_app.Wallet.{IsOurs}
use ledger_iota_app.Wallet.Checks.{IsPlaced, Flagged, check_parsed_flags}
use ledger_iota_app.Wallet.Commands.{LeavesOurs}

-- The parser.
parsed-IsPlaced :
    (t : Target) (c : ApiCtx)
    → length c.api_data.buffer ≡ api_buffer_size_bytes t
    → c.protocol ≡ AppMode.protocol_stardust
    → IsEssence t c.api_data.buffer
    → IsPlaced (parsed c) (outputs_start c.api_data.buffer) (essence_end c.api_data.buffer)
parsed-IsPlaced t c full p is =
    let fits = is.fits in
    record {
      stardust = p;
      outputs_at = refl;
      indices_at = refl;
      outputs_fit = omega (arith, fits, full);
      indices_fit = omega (arith, fits, full);
    }

stardust_flags :
    (t : Target) (sdk : Sdk) (c : ApiCtx)
    → length c.api_data.buffer ≡ api_buffer_size_bytes t
    → AreBytes c.api_data.buffer
    → c.protocol ≡ AppMode.protocol_stardust
    → c.essence.is_internal_transfer ≡ 0
    → let (r, c') = essence_parse_and_validate_stardust t sdk c in r ≡ ok tt → Flagged sdk c'
unfolding essence_parse_and_validate_stardust
stardust_flags t sdk c full are p h e = elim (parse_layout_lem t c full are) [
  | inr (fails, _) ↦ ground arith
  | inl (reads, is) ↦
      let flags =
        check_parsed_flags sdk (parsed c) _ _ (parsed-IsPlaced t c full p is) h (rw reads at e) in
      rw reads flags
]

parse_flags :
    (b : Build) (sdk : Sdk) (c : ApiCtx)
    → IsSound b c
    → c.essence.is_internal_transfer ≡ 0
    → let (r, c') = essence_parse_and_validate b.target sdk c in r ≡ ok tt → Flagged sdk c'
parse_flags b sdk c s h e =
    let same = stardust_lem b.target sdk c s.stardust in
    rw same (stardust_flags b.target sdk c s.full s.are_bytes s.stardust h (rw same at e))

parse_transaction_flags :
    (b : Build) (sdk : Sdk) (d : Device)
    → IsSound b d.api
    → d.api.essence.is_internal_transfer ≡ 0
    → Leaves (λ d. Flagged sdk d.api) (parse_transaction b sdk d)
unfolding parse_transaction
parse_transaction_flags b sdk d s h = let p = parse_flags b sdk d.api s h in ground arith

-- A change to the type of a checked essence.
Flagged-IsOurs :
    (sdk : Sdk) (c : ApiCtx) → Flagged sdk c → IsOurs sdk (set_data_type validated_essence c)
Flagged-IsOurs sdk c f = record {
  fresh = λ e. ground arith;
  transfer = elim f.0 [
    | inl off ↦ inl off
    | inr k ↦ inr record {
      single = k.single;
      outputs = k.outputs;
      outputs_at = k.outputs_at;
      indices = k.indices;
      indices_at = k.indices_at;
      owned = k.owned;
    }
  ];
  remainder = elim f.1 [
    | inl off ↦ inl off
    | inr k ↦ inr record { outputs = k.outputs; outputs_at = k.outputs_at; is_own = k.is_own }
  ];
}

parse_and_reply-LeavesOurs :
    (b : Build) (sdk : Sdk) (d : Device)
    → IsSound b d.api
    → d.api.essence.is_internal_transfer ≡ 0
    → LeavesOurs sdk (parse_and_reply b sdk d)
unfolding io_send
parse_and_reply-LeavesOurs b sdk d s h =
    let d' : Device = record d { api = on_essence (λ e. record e { blindsigning = 0 }) d.api } in
    let p = parse_transaction_flags b sdk d' (ground arith) h in grind (arith, Flagged-IsOurs)

store_remainder_flag :
    (has_remainder : ℕ) (bytes : List ℕ) (d : Device)
    → (store_remainder has_remainder bytes d).1.api.essence.is_internal_transfer
      ≡ d.api.essence.is_internal_transfer
unfolding store_remainder
store_remainder_flag has_remainder bytes d = ground arith

pub prepare_signing-LeavesOurs :
    (b : Build) (sdk : Sdk) (has_remainder : ℕ) (bytes : List ℕ) (d : Device)
    → IsSound b d.api
    → IsOurs sdk d.api
    → LeavesOurs sdk (api_prepare_signing b sdk has_remainder bytes d)
unfolding api_prepare_signing
prepare_signing-LeavesOurs b sdk has_remainder bytes d s o =
    let fresh = o.fresh in
    let d' : Device = record d { api = set_data_type locked d.api } in
    let stores = store_remainder_ends b has_remainder bytes d' (ground arith) in
    let flag = store_remainder_flag has_remainder bytes d' in
    let rest = λ (sound : IsSound b (store_remainder has_remainder bytes d').1.api).
      parse_and_reply-LeavesOurs b sdk (store_remainder has_remainder bytes d').1 sound in
    grind arith
