-- ===== src/Safety/Preparing.antt =====
-- The two commands of src/api.c that parse the buffer keep the invariant, or throw.
use ledger_iota_app.Prelude.{
  ℕ, ◌≡◌, ◌≤◌, refl, List, [], arith, ◌+◌, ◌*◌, length, ap, ◌∙◌, AreBytes, inl, inr, ◌⊎◌, some,
}
use ledger_iota_app.Exec.{ok, fail, Exec, ◌>>◌, pure}
use ledger_iota_app.Constants.{Build, Target, api_buffer_size_bytes}
use ledger_iota_app.Constants.Status
use ledger_iota_app.Constants.AppMode
use ledger_iota_app.Types.{ApiCtx, locked, validated_essence, sizeof_bip32_index}
use ledger_iota_app.Sdk.{Sdk}
use ledger_iota_app.Device.{Device, io_send, modify_api}
use ledger_iota_app.Parse.{essence_parse_and_validate_stardust, essence_parse_and_validate}
use ledger_iota_app.Parse.Frame.{Framed, parse-Framed}
use ledger_iota_app.Parse.Counts.{check_parsed-SameCounts}
use ledger_iota_app.Parse.Layout.{IsEssence, parsed, parse_layout_lem, inputs_number, essence_end}
use ledger_iota_app.Parse.Whole.{essence_parse_lem}
use ledger_iota_app.Blindsigning.{parse_and_validate_blindsigning}
use ledger_iota_app.Blindsigning.Layout.{parse_and_validate_blindsigning_lem}
use ledger_iota_app.Api.Prepare.{
  api_prepare_signing, api_prepare_blindsigning, parse_transaction, store_remainder,
}
use ledger_iota_app.Api.Core.{Answer, answered}
use ledger_iota_app.Essence.{on_essence}
use ledger_iota_app.Api.Buffer.{set_data_type}
use ledger_iota_app.Safety.{IsSound, EndsSound, Ends-bind}

pub parsed-Fits :
    (t : Target) (sdk : Sdk) (c : ApiCtx)
    → length c.api_data.buffer ≡ api_buffer_size_bytes t
    → AreBytes c.api_data.buffer
    → IsEssence t c.api_data.buffer
    → let c' = (essence_parse_and_validate_stardust t sdk c).1 in
      (c'.essence.inputs_count ≡ inputs_number c.api_data.buffer)
      × (c'.essence.inputs_bip32_index ≡ some (essence_end c.api_data.buffer))
unfolding essence_parse_and_validate_stardust
parsed-Fits t sdk c full are is = elim (parse_layout_lem t c full are) [
  | inl (e, _) ↦
      let same = check_parsed-SameCounts sdk (parsed c) in rw e (same.same_count, same.same_indices)
  | inr (_, bad) ↦ elim (bad is) [ ]
]

-- A context that keeps its frame and whose indices fit.
Framed-IsSound :
    (b : Build) (c c' : ApiCtx) (n at : ℕ)
    → IsSound b c
    → Framed c c'
    → c'.essence.inputs_count ≡ n
    → c'.essence.inputs_bip32_index ≡ some at
    → n ≤ 128
    → at + sizeof_bip32_index * n ≤ api_buffer_size_bytes b.target
    → IsSound b c'
Framed-IsSound b c c' n at s f count indices few fits = record {
  full = rw f.same_buffer s.full;
  are_bytes = rw f.same_buffer s.are_bytes;
  path_whole = rw f.same_length s.path_whole;
  stardust = rw f.same_protocol s.stardust;
  mode_known = rw f.same_mode s.mode_known;
  coin_known = rw f.same_coin s.coin_known;
  inputs_few = rw count few;
  indices_fit = rw (indices, count) fits;
}

pub stardust_lem :
    (t : Target) (sdk : Sdk) (c : ApiCtx)
    → c.protocol ≡ AppMode.protocol_stardust
    → essence_parse_and_validate t sdk c ≡ essence_parse_and_validate_stardust t sdk c
unfolding essence_parse_and_validate
stardust_lem t sdk c h = simp h refl

-- The context after a transaction that was accepted.
parse_returns :
    (b : Build) (sdk : Sdk) (c : ApiCtx)
    → IsSound b c
    → let (r, c') = essence_parse_and_validate b.target sdk c in
      ((r ≡ ok tt) × IsSound b c') ⊎ (r ≡ fail)
parse_returns b sdk c s =
    let same = stardust_lem b.target sdk c s.stardust in
    let f = parse-Framed b.target sdk c in
    elim (essence_parse_lem b.target sdk c s.full s.are_bytes s.stardust) [
      | inr (e, _) ↦ inr (ap (λ o. o.0) same ∙ e)
      | inl (e, is, _) ↦
          let (count, indices) = parsed-Fits b.target sdk c s.full s.are_bytes is.is_essence in
          let end = is.is_essence.fits in
          let few = is.is_essence.inputs_counted in
          inl (
            ap (λ o. o.0) same ∙ e,
            Framed-IsSound b c _ _ _ s f (ap (λ o. o.1.essence.inputs_count) same ∙ count)
                (ap (λ o. o.1.essence.inputs_bip32_index) same ∙ indices) (omega (arith, few))
                (omega (arith, end)),
          )
    ]

parse_transaction_ends :
    (b : Build) (sdk : Sdk) (d : Device) → IsSound b d.api → EndsSound b (parse_transaction b sdk d)
unfolding parse_transaction
parse_transaction_ends b sdk d s = let returns = parse_returns b sdk d.api s in ground arith

pub store_remainder_ends :
    (b : Build) (has_remainder : ℕ) (bytes : List ℕ) (d : Device)
    → IsSound b d.api
    → EndsSound b (store_remainder has_remainder bytes d)
unfolding store_remainder
store_remainder_ends b has_remainder bytes d s = ground arith

-- What follows the choice of the remainder.
abbrev pub parse_and_reply : Build → Sdk → Exec Device Answer
parse_and_reply b sdk = do
  modify_api (on_essence (λ e. record e { blindsigning = 0 }))
  parse_transaction b sdk
  modify_api (set_data_type validated_essence)
  io_send sdk [] Status.ok
  pure answered

parse_and_reply_ends :
    (b : Build) (sdk : Sdk) (d : Device) → IsSound b d.api → EndsSound b (parse_and_reply b sdk d)
unfolding io_send
parse_and_reply_ends b sdk d s =
    let d' : Device = record d { api = on_essence (λ e. record e { blindsigning = 0 }) d.api } in
    let parses = parse_transaction_ends b sdk d' (ground arith) in ground arith

pub prepare_signing_ends :
    (b : Build) (sdk : Sdk) (has_remainder : ℕ) (bytes : List ℕ) (d : Device)
    → IsSound b d.api
    → EndsSound b (api_prepare_signing b sdk has_remainder bytes d)
unfolding api_prepare_signing
prepare_signing_ends b sdk has_remainder bytes d s =
    let d' : Device = record d { api = set_data_type locked d.api } in
    let stores = store_remainder_ends b has_remainder bytes d' (ground arith) in
    let rest =
      Ends-bind (λ d'. IsSound b d'.api) (λ d'. IsSound b d'.api) (λ _. parse_and_reply b sdk)
        (store_remainder has_remainder bytes d') stores
        (λ _ sound. parse_and_reply_ends b sdk _ sound) in
    ground arith

-- The context after a hash that was accepted.
blind_returns :
    (b : Build) (c : ApiCtx)
    → IsSound b c
    → let (r, c') = parse_and_validate_blindsigning b.target c in
      ((r ≡ ok tt) × IsSound b c') ⊎ (r ≡ fail)
blind_returns b c s = elim (parse_and_validate_blindsigning_lem b.target c s.full) [
  | inr (e, _) ↦ inr e
  | inl (e, is) ↦
      let end = is.fits in
      let few = is.inputs_counted in
      rw e (
        inl (
          refl,
          record {
            full = s.full;
            are_bytes = s.are_bytes;
            path_whole = s.path_whole;
            stardust = s.stardust;
            mode_known = s.mode_known;
            coin_known = s.coin_known;
            inputs_few = omega (arith, few);
            indices_fit = omega (arith, end);
          },
        ))
]

pub prepare_blindsigning_ends :
    (b : Build) (sdk : Sdk) (d : Device)
    → IsSound b d.api
    → EndsSound b (api_prepare_blindsigning b sdk d)
unfolding api_prepare_blindsigning io_send
prepare_blindsigning_ends b sdk d s = grind (arith, blind_returns)
