-- ===== src/Safety/Signing.antt =====
-- The commands of src/api.c around a signature keep the invariant, or throw.
use ledger_iota_app.Prelude.{
  ℕ, ◌≡◌, ◌≤◌, ◌<◌, refl, true, false, List, arith, ◌==◌, ◌+◌, ◌*◌, length, length-set, set, inl,
  inr, some, if◌then◌else◌, Option-cases, Bool-cases, slice, ltb, sym,
}
use mathlib.Core.Path.{subst}
use ledger_iota_app.Exec.{ok, pure}
use ledger_iota_app.Constants.{Build, api_buffer_size_bytes}
use ledger_iota_app.Types.{ApiCtx, Bip32Index, read_bip32_index, sizeof_bip32_index}
use ledger_iota_app.Sdk.{Sdk}
use ledger_iota_app.Device.{
  Device, io_send, api_user_confirm_essence_accepted, api_user_confirm_essence_rejected,
  api_user_confirm_essence_timeout,
}
use ledger_iota_app.Reader.{read}
use ledger_iota_app.Reader.Laws.{read_in_range}
use ledger_iota_app.Signing.{
  no_reference, sign, sign_signature_unlock_block, sign_reference_unlock_block, reference_index_of,
  sign_get_reference_index,
}
use ledger_iota_app.Signing.Reference.{find_reference_lem}
use ledger_iota_app.Ui.{
  flow_start_user_confirm_transaction, flow_start_blindsigning,
  api-flow_start_user_confirm_transaction, api-flow_start_blindsigning,
}
use ledger_iota_app.Api.Core.{set_path}
use ledger_iota_app.Api.Confirm.{
  api_user_confirm_essence, confirm_by, start_flow, confirm_transaction, confirm_blindly,
  is_inconsistent, confirm_at_once,
}
use ledger_iota_app.Api.Sign.{api_sign}
use ledger_iota_app.Safety.{IsSound, EndsSound, Returns}

confirm_by_ends :
    (b : Build) (sdk : Sdk) (start : Device → Device) (d : Device)
    → ((d' : Device) → (start d').api ≡ d'.api)
    → IsSound b d.api
    → EndsSound b (confirm_by b sdk start d)
unfolding confirm_by start_flow confirm_at_once io_send
confirm_by_ends b sdk start d keeps s =
    let same = keeps (record d { api = record d.api { flow_locked = 1 } }) in ground arith

confirm_transaction_ends :
    (b : Build) (sdk : Sdk) (d : Device)
    → IsSound b d.api
    → EndsSound b (confirm_transaction b sdk d)
unfolding confirm_transaction
confirm_transaction_ends b sdk d s =
    let r = d.api.essence.remainder_bip32 in
    let d' : Device = record d {
      api = set_path 3 r.bip32_change (set_path 4 r.bip32_index d.api);
    } in
    let index = length-set d.api.bip32_path 4 r.bip32_index in
    let change = length-set (set d.api.bip32_path 4 r.bip32_index) 3 r.bip32_change in
    let sound : IsSound b d'.api = ground arith in
    elim (Bool-cases (is_inconsistent b.target d.api)) [
      | inl bad ↦ rw bad (omega arith)
      | inr good ↦ rw good (
          confirm_by_ends b sdk
            (flow_start_user_confirm_transaction (some api_user_confirm_essence_accepted)
              (some api_user_confirm_essence_rejected) (some api_user_confirm_essence_timeout))
            d' (api-flow_start_user_confirm_transaction _ _ _) sound)
    ]

confirm_blindly_ends :
    (b : Build) (sdk : Sdk) (d : Device) → IsSound b d.api → EndsSound b (confirm_blindly b sdk d)
unfolding confirm_blindly
confirm_blindly_ends b sdk d s =
    confirm_by_ends b sdk
      (flow_start_blindsigning (some api_user_confirm_essence_accepted)
        (some api_user_confirm_essence_rejected) (some api_user_confirm_essence_timeout))
      d (api-flow_start_blindsigning _ _ _) s

pub user_confirm_essence_ends :
    (b : Build) (sdk : Sdk) (d : Device)
    → IsSound b d.api
    → EndsSound b (api_user_confirm_essence b sdk d)
unfolding api_user_confirm_essence
user_confirm_essence_ends b sdk d s =
    let seen = confirm_transaction_ends b sdk d s in
    let blind = confirm_blindly_ends b sdk d s in ground arith

-- A reference is found or not, if the BIP32 indices lie in the buffer.
reference_returns :
    (c : ApiCtx) (i : ℕ) (at : ℕ)
    → c.essence.inputs_bip32_index ≡ some at
    → i < 128
    → at + sizeof_bip32_index * (i + 1) ≤ length c.api_data.buffer
    → (k : ℕ) × (reference_index_of c i ≡ ok k)
unfolding reference_index_of sign_get_reference_index
reference_returns c i at e few fits = elim (Bool-cases (c.essence.blindsigning == 0)) [
  | inr blind ↦ (0xff, rw blind refl)
  | inl seen ↦
      rw (seen, e)
        (elim (find_reference_lem c.api_data.buffer at i i 0 (omega arith) few fits) [
          | inl (k, found, first) ↦ (k, found)
          | inr (found, first) ↦ (0xff, found)
        ])
]

signature-Returns :
    (b : Build) (sdk : Sdk) (index : Bip32Index) (c : ApiCtx)
    → IsSound b c
    → Returns (sign_signature_unlock_block sdk index c).0
      × IsSound b (sign_signature_unlock_block sdk index c).1
unfolding sign_signature_unlock_block
signature-Returns b sdk index c s =
    let address = length-set c.bip32_path 4 index.bip32_index in
    let change = length-set (set c.bip32_path 4 index.bip32_index) 3 index.bip32_change in
    ground arith

-- Past its tests, `sign` goes by the reference that was found.
sign_found :
    (sdk : Sdk) (i : ℕ) (c : ApiCtx) (at k : ℕ) {bytes : List ℕ}
    → c.essence.inputs_bip32_index ≡ some at
    → ltb i c.essence.inputs_count ≡ true
    → read c.api_data.buffer (at + sizeof_bip32_index * i) sizeof_bip32_index ≡ ok bytes
    → reference_index_of c i ≡ ok k
    → sign sdk i c
      ≡ (if k == no_reference
            then sign_signature_unlock_block sdk (read_bip32_index bytes)
            else pure (sign_reference_unlock_block k))
          c
unfolding sign reference_index_of
sign_found sdk i c at k e inside reads reference = ground arith

-- `sign` gives bytes or 0.
sign-Returns :
    (b : Build) (sdk : Sdk) (i : ℕ) (c : ApiCtx)
    → IsSound b c
    → Returns (sign sdk i c).0 × IsSound b (sign sdk i c).1
unfolding sign
sign-Returns b sdk i c s = elim (Option-cases c.essence.inputs_bip32_index) [
  | inl e ↦
      let none_held : c.essence.inputs_count ≡ 0 = rw e at s.indices_fit in
      let out : ltb i c.essence.inputs_count ≡ false = ground arith in rw out (tt, s)
  | inr (at, e) ↦
      let fits : at + sizeof_bip32_index * c.essence.inputs_count ≤ api_buffer_size_bytes b.target =
        rw e at s.indices_fit in
      elim (Bool-cases (ltb i c.essence.inputs_count)) [
        | inr out ↦ rw out (tt, s)
        | inl inside ↦
            let l : i < c.essence.inputs_count = ground arith in
            let read' =
              read_in_range c.api_data.buffer (at + sizeof_bip32_index * i) sizeof_bip32_index
                (omega (arith, l, fits, s.full)) in
            let (k, reference) =
              reference_returns c i at e (omega (arith, l, s.inputs_few))
                (omega (arith, l, fits, s.full)) in
            let block =
              signature-Returns b sdk
                (read_bip32_index
                  (slice (at + sizeof_bip32_index * i) sizeof_bip32_index c.api_data.buffer))
                c s in
            subst (λ o. Returns o.0 × IsSound b o.1)
              (sym (sign_found sdk i c at k e inside read' reference))
              (elim (Bool-cases (k == no_reference)) [
                | inl new ↦ rw new block
                | inr old ↦ rw old (tt, s)
              ])
      ]
]

pub sign_ends :
    (b : Build) (sdk : Sdk) (i : ℕ) (d : Device)
    → IsSound b d.api
    → EndsSound b (api_sign b sdk i d)
unfolding api_sign io_send
sign_ends b sdk i d s = let signs = sign-Returns b sdk i d.api s in ground arith
