-- ===== src/Parse/Whole.antt =====
-- The whole of `essence_parse_and_validate_stardust` (src/iota/essence_stardust.c): which
-- transactions it accepts.
use ledger_iota_app.Prelude.{
  ℕ, ◌≡◌, ◌≢◌, ◌⊎◌, inl, inr, refl, none, some, arith, length, slice, u16, AreBytes, sym,
}
use ledger_iota_app.Exec.{Result, ok, fail}
use ledger_iota_app.Constants.{Target, api_buffer_size_bytes, api_buffer_size_bytes_bounds}
use ledger_iota_app.Constants.AppMode
use ledger_iota_app.Types.{ApiCtx}
use ledger_iota_app.Sdk.{Sdk}
use ledger_iota_app.Essence.Duplicates.{Distinct}
use ledger_iota_app.Parse.{verify_remainder, check_parsed, essence_parse_and_validate_stardust}
use ledger_iota_app.Parse.Layout.{
  IsEssence, parsed, parse_layout_lem, input_records, inputs_start, essence_end, outputs_start,
}
use ledger_iota_app.Parse.Accepted.{
  IsOwn, at_remainder, remainder_lem, Located, Sound, Checked, check_and_hash_lem,
}

-- A remainder, if there is one, is the device's own.
abbrev pub IsOwnIfAny : Sdk → ApiCtx → ℕ → Type 0
IsOwnIfAny sdk c outputs = (c.essence.has_remainder ≡ 0) ⊎ IsOwn sdk c outputs

module _ (sdk : Sdk) (inputs outputs bip32 : ℕ) where
  at_remainder-Located :
      (c : ApiCtx) → Located c inputs outputs bip32 → Located (at_remainder c) inputs outputs bip32
  at_remainder-Located c l = record {
    stardust = l.stardust;
    inputs_at = l.inputs_at;
    outputs_at = l.outputs_at;
    bip32_at = l.bip32_at;
    inputs_fit = l.inputs_fit;
    outputs_fit = l.outputs_fit;
    bip32_fit = l.bip32_fit;
    essence_fits = l.essence_fits;
  }

  check_parsed_lem :
      (c : ApiCtx)
      → Located c inputs outputs bip32
      → Checked sdk inputs outputs bip32
          (IsOwnIfAny sdk c outputs × Sound sdk inputs outputs bip32 c)
          c
          (check_parsed sdk c)
  unfolding check_parsed verify_remainder
  check_parsed_lem c l =
      let there = check_and_hash_lem sdk inputs outputs bip32 c l in
      let here =
        check_and_hash_lem sdk inputs outputs bip32 (at_remainder c) (at_remainder-Located c l) in
      let own = remainder_lem sdk c outputs l.outputs_at l.outputs_fit in ground arith

-- A transaction that the app accepts for signing, in a context whose remainder the host has set.
pub record IsAccepted (t : Target) (sdk : Sdk) (c : ApiCtx) : Type 0 where
  pub is_essence : IsEssence t c.api_data.buffer
  pub is_own : IsOwnIfAny sdk (parsed c) (outputs_start c.api_data.buffer)
  pub are_distinct : Distinct (input_records c.api_data.buffer)
  pub is_hashable : sdk.blake2b (slice 0 (essence_end c.api_data.buffer) c.api_data.buffer) ≢ none

parsed-Located :
    (t : Target) (c : ApiCtx)
    → length c.api_data.buffer ≡ api_buffer_size_bytes t
    → c.protocol ≡ AppMode.protocol_stardust
    → IsEssence t c.api_data.buffer
    → Located
        (parsed c)
        inputs_start
        (outputs_start c.api_data.buffer)
        (essence_end c.api_data.buffer)
parsed-Located t c full p e =
    let bounds = api_buffer_size_bytes_bounds t in
    let end = e.fits in
    record {
      stardust = p;
      inputs_at = refl;
      outputs_at = refl;
      bip32_at = refl;
      inputs_fit = omega (arith, end, full);
      outputs_fit = omega (arith, end, full);
      bip32_fit = omega (arith, end, full);
      essence_fits = omega (arith, end, full, bounds);
    }

-- The outcome of parsing, from that of the checks.
whole_lem :
    (t : Target) (sdk : Sdk) (c : ApiCtx) (o : Result (Unit {0}) × ApiCtx)
    → IsEssence t c.api_data.buffer
    → let bytes = c.api_data.buffer in
      let outs = outputs_start bytes in
      let b = essence_end bytes in
      Checked sdk inputs_start outs b
        (IsOwnIfAny sdk (parsed c) outs × Sound sdk inputs_start outs b (parsed c))
        (parsed c)
        o
      → ((o.0 ≡ ok tt)
          × IsAccepted t sdk c
          × (sdk.blake2b (slice 0 (essence_end bytes) bytes) ≡ some o.1.essence.hash))
        ⊎ ((o.0 ≡ fail) × ¬ (IsAccepted t sdk c))
whole_lem t sdk c o is checked =
    let bytes = c.api_data.buffer in
    let end = is.fits in
    let bounds = api_buffer_size_bytes_bounds t in
    let same : u16 (essence_end bytes) ≡ essence_end bytes = omega (arith, end, bounds) in
    elim checked [
      | inl (e, p, h) ↦ inl (
        e,
        record {
          is_essence = is;
          is_own = p.0;
          are_distinct = p.1.0;
          is_hashable = rw (sym same) p.1.1;
        },
        rw (sym same) h,
      )
      | inr (e, bad) ↦ inr (e, λ a. bad (a.is_own, (a.are_distinct, rw same a.is_hashable)))
    ]

-- For Stardust, on a buffer of bytes of the full size, the parser returns 1 if the buffer holds an essence that
-- the app can sign, whose remainder, if there is one, is the device's own, whose inputs differ and
-- for which the hash function gives a hash, which is then stored; on any other it returns 0. It
-- neither throws nor reads outside the buffer.
pub essence_parse_lem :
    (t : Target) (sdk : Sdk) (c : ApiCtx)
    → length c.api_data.buffer ≡ api_buffer_size_bytes t
    → AreBytes c.api_data.buffer
    → c.protocol ≡ AppMode.protocol_stardust
    → let bytes = c.api_data.buffer in
      let (r, c') = essence_parse_and_validate_stardust t sdk c in
      ((r ≡ ok tt)
        × IsAccepted t sdk c
        × (sdk.blake2b (slice 0 (essence_end bytes) bytes) ≡ some c'.essence.hash))
      ⊎ ((r ≡ fail) × ¬ (IsAccepted t sdk c))
unfolding essence_parse_and_validate_stardust
essence_parse_lem t sdk c full are p =
    let bytes = c.api_data.buffer in
    elim (parse_layout_lem t c full are) [
      | inr (e, bad) ↦ rw e (inr (refl, λ a. bad a.is_essence))
      | inl (e, is) ↦ rw e (
          whole_lem t sdk c (check_parsed sdk (parsed c)) is (
            check_parsed_lem sdk inputs_start (outputs_start bytes) (essence_end bytes) (parsed c)
              (parsed-Located t c full p is)))
    ]
