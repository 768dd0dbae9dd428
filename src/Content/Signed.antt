-- ===== src/Content/Signed.antt =====
-- What a signature of the app stands for, over a whole run: `api_sign` of src/api.c.
use ledger_iota_app.Prelude.{
  ℕ, ◌<◌, ◌≤◌, ◌≡◌, ◌≢◌, ◌⊎◌, inl, inr, refl, false, List, [], ◌∷◌, ◌++◌, arith, some, to_le,
}
use ledger_iota_app.Exec.{Result, ok, fail, thrown, fault, continue, or_thrown, pure, ◌>>◌}
use ledger_iota_app.Constants.{Build}
use ledger_iota_app.Constants.Status
use ledger_iota_app.Ui.{flow_signing}
use ledger_iota_app.Types.{ApiCtx, empty, user_confirmed_essence}
use ledger_iota_app.Sdk.{Sdk}
use ledger_iota_app.Device.{Device, io_send}
use ledger_iota_app.Signing.{sign}
use ledger_iota_app.Signing.Reference.{IsFirstFrom}
use ledger_iota_app.Parse.Layout.{essence_end}
use ledger_iota_app.Api.Core.{Answer, answered, app_mode_init}
use ledger_iota_app.Api.Sign.{api_sign}
use ledger_iota_app.Main.{io_initialize, iota_main_start, start}
use ledger_iota_app.Consent.Commands.{api_initialize_empties}
use ledger_iota_app.Consent.Trace.{Step, Reach, stay, go, Consented}
use ledger_iota_app.Consent.Signature.{sign_consent_lem, sign_lem, IsSigned, index_of}
use ledger_iota_app.Safety.{IsSdk}
use ledger_iota_app.Safety.Runs.{Runs, started, packet, event, runs_lem}
use ledger_iota_app.Content.{IsBacked, nothing, plainly, blindly, IsPlain, IsBlindHash}
use ledger_iota_app.Content.Runs.{content_lem}

-- The device that a run started on.
unfoldable pub origin : {b : Build} {sdk : Sdk} {d : Device} → Runs b sdk d → Device
origin (started d) = d
origin (packet bytes l are r) = origin r
origin (event e r) = origin r

-- The steps of a run from the start of the app, one for one.
unfoldable pub steps_of_run :
    {b : Build} {sdk : Sdk} {d : Device} (r : Runs b sdk d) → Reach b sdk (start b (origin r)).1 d
unfolding origin
steps_of_run (started d) = stay
steps_of_run (packet bytes l are r) = go (steps_of_run r) (Step.packet bytes l)
steps_of_run (event e r) = go (steps_of_run r) (Step.event e)

start_empties : (b : Build) (d : Device) → (start b d).1.api.api_data.type ≡ empty
unfolding start iota_main_start io_initialize
start_empties b d = api_initialize_empties b (app_mode_init b.app) 0 _

start_unconfirmed :
    (b : Build) (d : Device) → (start b d).1.api.api_data.type ≢ user_confirmed_essence
start_unconfirmed b d h = let e = start_empties b d in ground arith

-- What follows the outcome of `sign` sends what it puts out.
send_output :
    (sdk : Sdk) (o : Result (List ℕ)) (d : Device) (a : Answer)
    → let sends =
        continue
          (or_thrown Status.unknown o)
          (λ out. io_send sdk out Status.ok >> pure answered)
          d in
      sends.0 ≡ ok a
      → (out : List ℕ) × (o ≡ ok out) × (sends.1.sent ≡ (out ++ (0x90 ∷ 0 ∷ [])) ∷ d.sent)
unfolding io_send
send_output sdk (ok out) d a h = (out, refl, ground arith)
send_output sdk fail d a h = ground arith
send_output sdk (thrown e) d a h = ground arith
send_output sdk fault d a h = ground arith

-- The command to sign sends what `sign` puts out.
api_sign_output :
    (b : Build) (sdk : Sdk) (p1 : ℕ) (d : Device) (a : Answer)
    → (api_sign b sdk p1 d).0 ≡ ok a
    → (out : List ℕ) × ((sign sdk p1 d.api).0 ≡ ok out)
      × ((api_sign b sdk p1 d).1.sent ≡ (out ++ (0x90 ∷ 0 ∷ [])) ∷ d.sent)
unfolding api_sign
api_sign_output b sdk p1 d a h =
    let (r, c) = sign sdk p1 d.api in
    let sends = send_output sdk r (record (flow_signing d) { api = c }) a in ground arith

sign_inside :
    (sdk : Sdk) (i : ℕ) (c : ApiCtx) (out : List ℕ)
    → (sign sdk i c).0 ≡ ok out
    → i < c.essence.inputs_count
unfolding sign
sign_inside sdk i c out h = ground arith

module _ (b : Build) (sdk : Sdk) (d : Device) (p1 : ℕ) where
  -- The unlock block of the input, which the BIP32 indices from an offset on give the path of.
  abbrev pub IsUnlock : ℕ → List ℕ → Type 0
  IsUnlock at out =
      IsSigned sdk d.api (index_of sdk d.api at p1) out
      ⊎ ((k : ℕ) × IsFirstFrom d.api.api_data.buffer at p1 0 k × (out ≡ 1 ∷ to_le 2 k))

  -- The signed context holds what was checked.
  abbrev pub IsChecked : Type 0
  IsChecked =
      IsPlain b.target sdk d.api.essence d.api.api_data.buffer
      ⊎ IsBlindHash b.target d.api.essence d.api.api_data.buffer

  checked_lem : p1 < d.api.essence.inputs_count → IsBacked b.target sdk d.api → IsChecked
  checked_lem l k = elim k.backed [
    | nothing h ↦ ground arith
    | plainly p ↦ inl p
    | blindly p ↦ inr p
  ]

  -- The BIP32 indices of what was checked stand at a known place.
  checked_at : IsChecked → (at : ℕ) × (d.api.essence.inputs_bip32_index ≡ some at)
  checked_at (inl p) = (essence_end d.api.api_data.buffer, p.indices_at)
  checked_at (inr p) = (34, p.indices_at)

  -- In a build without the debug commands, with room for a status word and a hash function that gives
  -- 32 bytes: whenever the command to sign succeeds at the end of a run, the user has pressed on that
  -- run a step to accept, in a review of an essence, which made the essence a confirmed one, and since
  -- then the type, the essence and the buffer have stayed; the stored hash is that of an
  -- essence in the buffer that the app can sign, whose inputs are distinct, or, when signing blindly,
  -- the one in the buffer; the input is one of the essence; and what is sent is an unlock block for
  -- it, either a signature of the stored hash by the key at the input's path or a reference to the
  -- first input with the same path.
  pub signed_lem :
      (a : Answer)
      → b.app_debug ≡ false
      → 2 ≤ sdk.io_apdu_buffer_size
      → IsSdk sdk
      → (r : Runs b sdk d) → (api_sign b sdk p1 d).0 ≡ ok a
      → Consented b sdk (start b (origin r)).1 d (steps_of_run r)
        × IsChecked
        × (p1 < d.api.essence.inputs_count)
        × ((at : ℕ) × (d.api.essence.inputs_bip32_index ≡ some at)
            × ((out : List ℕ) × IsUnlock at out
                × ((api_sign b sdk p1 d).1.sent ≡ (out ++ (0x90 ∷ 0 ∷ [])) ∷ d.sent)))
  signed_lem a release room k r h =
      let d0 = origin r in
      let consent =
        sign_consent_lem b sdk (start b d0).1 d p1 a release (start_unconfirmed b d0)
          (steps_of_run r) h in
      let (out, e, sent) = api_sign_output b sdk p1 d a h in
      let s = runs_lem b sdk d room k r in
      let inside = sign_inside sdk p1 d.api out e in
      let checked = checked_lem inside (content_lem b sdk d room k r) in
      let (at, e_at) = checked_at checked in
      let fits = s.indices_fit in
      let signs = sign_lem sdk d.api at p1 out e_at s.inputs_few (ground arith) e in
      (consent, checked, inside, (at, e_at, (out, ground arith, sent)))
