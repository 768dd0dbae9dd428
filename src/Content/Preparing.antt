-- ===== src/Content/Preparing.antt =====
-- The two commands of src/api.c that check the buffer leave a context that is backed by it.
use ledger_iota_app.Prelude.{
  ℕ, ◌≡◌, inl, inr, refl, List, arith, length, AreBytes, some, slice, ◌∙◌,
}
use ledger_iota_app.Exec.{ok}
use ledger_iota_app.Constants.{Build, Target, api_buffer_size_bytes}
use ledger_iota_app.Types.{ApiCtx, locked, validated_essence}
use ledger_iota_app.Sdk.{Sdk}
use ledger_iota_app.Device.{Device, io_send}
use ledger_iota_app.Essence.{on_essence}
use ledger_iota_app.Parse.{essence_parse_and_validate_stardust, essence_parse_and_validate}
use ledger_iota_app.Parse.Frame.{Framed, parse-Framed}
use ledger_iota_app.Parse.Counts.{SameCounts, check_parsed-SameCounts}
use ledger_iota_app.Parse.Layout.{IsEssence, parsed, parse_layout_lem, essence_end}
use ledger_iota_app.Parse.Whole.{essence_parse_lem, IsAccepted}
use ledger_iota_app.Blindsigning.Layout.{parse_and_validate_blindsigning_lem}
use ledger_iota_app.Api.Prepare.{
  api_prepare_signing, api_prepare_blindsigning, parse_transaction, store_remainder,
}
use ledger_iota_app.Api.Buffer.{set_data_type}
use ledger_iota_app.Safety.{IsSound, Leaves}
use ledger_iota_app.Safety.Preparing.{stardust_lem, store_remainder_ends, parse_and_reply}
use ledger_iota_app.Content.{IsBacked, IsPlain, plainly, LeavesBacked}

-- The parser on an essence changes no more than the checks do behind the reading.
parsed-SameCounts :
    (t : Target) (sdk : Sdk) (c : ApiCtx)
    → length c.api_data.buffer ≡ api_buffer_size_bytes t
    → AreBytes c.api_data.buffer
    → IsEssence t c.api_data.buffer
    → SameCounts (parsed c) (essence_parse_and_validate_stardust t sdk c).1
unfolding essence_parse_and_validate_stardust
parsed-SameCounts t sdk c full are is = elim (parse_layout_lem t c full are) [
  | inl (e, _) ↦ rw e (check_parsed-SameCounts sdk (parsed c))
  | inr (_, bad) ↦ elim (bad is) [ ]
]

-- What was accepted is a plain essence.
accepted-IsPlain :
    (t : Target) (sdk : Sdk) (c c' : ApiCtx)
    → c.essence.blindsigning ≡ 0
    → IsAccepted t sdk c
    → Framed c c'
    → SameCounts (parsed c) c'
    → sdk.blake2b (slice 0 (essence_end c.api_data.buffer) c.api_data.buffer) ≡ some c'.essence.hash
    → IsPlain t sdk c'.essence c'.api_data.buffer
accepted-IsPlain t sdk c c' plain a f same h =
    let own = a.is_own in
    rw f.same_buffer (record {
      plain = f.same_blindsigning ∙ plain;
      is_essence = a.is_essence;
      are_distinct = a.are_distinct;
      inputs_counted = same.same_count;
      inputs_at = same.same_inputs;
      outputs_counted = same.same_outputs_count;
      outputs_at = same.same_outputs;
      indices_at = same.same_indices;
      remainder_inside = ground arith;
      hashed = h;
    })

-- The parser succeeds only on what it accepts.
parse-IsPlain :
    (b : Build) (sdk : Sdk) (c : ApiCtx)
    → IsSound b c
    → c.essence.blindsigning ≡ 0
    → let (r, c') = essence_parse_and_validate b.target sdk c in
      r ≡ ok tt → IsPlain b.target sdk c'.essence c'.api_data.buffer
parse-IsPlain b sdk c s plain h =
    let same = stardust_lem b.target sdk c s.stardust in
    let f = parse-Framed b.target sdk c in
    elim (essence_parse_lem b.target sdk c s.full s.are_bytes s.stardust) [
      | inr (e, _) ↦ ground arith
      | inl (e, is, hashed) ↦
          accepted-IsPlain b.target sdk c _ plain is f
            (rw same (parsed-SameCounts b.target sdk c s.full s.are_bytes is.is_essence))
            (rw same hashed)
    ]

parse_transaction-IsPlain :
    (b : Build) (sdk : Sdk) (d : Device)
    → IsSound b d.api
    → d.api.essence.blindsigning ≡ 0
    → Leaves
        (λ d. IsPlain b.target sdk d.api.essence d.api.api_data.buffer)
        (parse_transaction b sdk d)
unfolding parse_transaction
parse_transaction-IsPlain b sdk d s plain =
    let p = parse-IsPlain b sdk d.api s plain in ground arith

parse_and_reply-IsPlain :
    (b : Build) (sdk : Sdk) (d : Device)
    → IsSound b d.api
    → Leaves
        (λ d.
          IsPlain b.target sdk d.api.essence d.api.api_data.buffer
          × (d.api.api_data.type ≡ validated_essence))
        (parse_and_reply b sdk d)
unfolding io_send
parse_and_reply-IsPlain b sdk d s =
    let d' : Device = record d { api = on_essence (λ e. record e { blindsigning = 0 }) d.api } in
    let p = parse_transaction-IsPlain b sdk d' (ground arith) refl in ground arith

plain-IsBacked :
    (t : Target) (sdk : Sdk) (c : ApiCtx)
    → IsPlain t sdk c.essence c.api_data.buffer
    → c.api_data.type ≡ validated_essence
    → IsBacked t sdk c
plain-IsBacked t sdk c p e = record { backed = plainly p; free = λ f. ground arith }

pub prepare_signing-LeavesBacked :
    (b : Build) (sdk : Sdk) (has_remainder : ℕ) (bytes : List ℕ) (d : Device)
    → IsSound b d.api
    → LeavesBacked b.target sdk (api_prepare_signing b sdk has_remainder bytes d)
unfolding api_prepare_signing
prepare_signing-LeavesBacked b sdk has_remainder bytes d s =
    let d' : Device = record d { api = set_data_type locked d.api } in
    let stores = store_remainder_ends b has_remainder bytes d' (ground arith) in
    let rest = λ (sound : IsSound b (store_remainder has_remainder bytes d').1.api).
      parse_and_reply-IsPlain b sdk (store_remainder has_remainder bytes d').1 sound in
    grind (arith, plain-IsBacked)

pub prepare_blindsigning-LeavesBacked :
    (b : Build) (sdk : Sdk) (d : Device)
    → IsSound b d.api
    → LeavesBacked b.target sdk (api_prepare_blindsigning b sdk d)
unfolding api_prepare_blindsigning io_send
prepare_blindsigning-LeavesBacked b sdk d s =
    let c = record (on_essence (λ e. record e { blindsigning = 1 }) d.api) {
      api_data = record d.api.api_data { type = locked };
    } in
    let blind = parse_and_validate_blindsigning_lem b.target c s.full in ground arith
