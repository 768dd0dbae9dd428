-- ===== src/Review/Amounts.antt =====
-- The amount that a review under the lock puts on the screen is that of an output of the essence:
-- `cb_amount_preinit` of src/ui/nano/flow_user_confirm_transaction.c in a run.
use ledger_iota_app.Prelude.{
  ℕ, zero, suc, ◌+◌, ◌*◌, ◌^◌, ◌<◌, ◌≤◌, ◌≡◌, ◌≢◌, ◌⊎◌, true, List, arith, All, slice, le,
  slice-slice,
}
use ledger_iota_app.Exec.{ok, thrown}
use ledger_iota_app.Constants.{Build}
use ledger_iota_app.Types.{sizeof_basic_output, read_basic_output, offset_amount}
use ledger_iota_app.Sdk.{Sdk}
use ledger_iota_app.Device.{Device}
use ledger_iota_app.Reader.{records}
use ledger_iota_app.Essence.Records.{IsOutput}
use ledger_iota_app.Parse.Layout.{outputs_start, outputs_number, IsEssence}
use ledger_iota_app.Text.Amounts.{ShowsMillionths}
use ledger_iota_app.Ui.Screens.{Scratch, cb_amount_preinit}
use ledger_iota_app.Ui.Shown.{IsShown, amount_at, amount_header, cb_amount_preinit_lem}
use ledger_iota_app.Safety.{IsSdk, IsSound}
use ledger_iota_app.Safety.Runs.{Runs, runs_lem}
use ledger_iota_app.Content.{IsPlain}
use ledger_iota_app.Review.{is_review}
use ledger_iota_app.Review.Runs.{review_lem}

-- What holds of all outputs holds of each.
All-output :
    (P : List ℕ → Type 0) (bytes : List ℕ) (idx n i : ℕ)
    → All P (records bytes sizeof_basic_output idx n)
    → i < n
    → P (slice (idx + sizeof_basic_output * i) sizeof_basic_output bytes)
unfolding records
All-output P bytes idx zero i h l = absurd (omega (arith, l))
All-output P bytes idx (suc n) zero h l =
    let same : idx + sizeof_basic_output * 0 ≡ idx = omega arith in rw same h.0
All-output P bytes idx (suc n) (suc i) h l =
    let l' : i < n = omega (arith, l) in
    let same : idx + sizeof_basic_output * suc i
        ≡ idx + sizeof_basic_output + sizeof_basic_output * i =
      omega arith in
    rw same (All-output P bytes (idx + sizeof_basic_output) n i h.1 l')

module _ (b : Build) (sdk : Sdk) (d : Device) where
  -- Each output of an essence has an amount.
  output_amount :
      (i : ℕ)
      → IsEssence b.target d.api.api_data.buffer
      → i < outputs_number d.api.api_data.buffer
      → amount_at d.api.api_data.buffer (outputs_start d.api.api_data.buffer) i ≢ 0
  unfolding read_basic_output
  output_amount i is l e =
      let bytes = d.api.api_data.buffer in
      let at = outputs_start bytes + sizeof_basic_output * i in
      let output =
        All-output IsOutput bytes (outputs_start bytes) (outputs_number bytes) i is.outputs_valid
          l in
      let same = slice-slice at sizeof_basic_output offset_amount 8 bytes (omega arith) in
      let positive : 0 < le (slice offset_amount 8 (slice at sizeof_basic_output bytes)) =
        output.1 in
      let positive' = rw same at positive in omega (arith, positive', e)

  IsPlain-IsShown :
      (i : ℕ)
      → IsSound b d.api
      → IsPlain b.target sdk d.api.essence d.api.api_data.buffer
      → i < d.api.essence.outputs_count
      → IsShown d.api (outputs_start d.api.api_data.buffer) i
  IsPlain-IsShown i s p l =
      let is = p.is_essence in
      let counted = p.outputs_counted in
      let few = is.outputs_counted in
      let fits = is.fits in
      let full = s.full in
      let coin = s.coin_known in
      record {
        outputs_at = p.outputs_at;
        stardust = s.stardust;
        has_coin = ground arith;
        fits = omega (arith, counted, fits, full);
        few = omega (arith, counted, few);
        inside = l;
        some_amount = output_amount i is (omega (arith, counted, l));
      }

  -- With room for a status word and a hash function that gives 32 bytes: in every state of a run in
  -- which the lock is set and an output of a transaction is on the screen, the amount of that output
  -- in the checked essence, if it is below 10 ^ 18, is the number that the text of the amount reads
  -- back to, with six digits behind the point and at least one before it, under a header that names
  -- the coin; a larger one throws.
  pub reviewed_amount_lem :
      (s : Scratch)
      → 2 ≤ sdk.io_apdu_buffer_size
      → IsSdk sdk
      → Runs b sdk d
      → d.api.flow_locked ≢ 0
      → is_review d.screen ≡ true
      → let bytes = d.api.api_data.buffer in
        let amount = amount_at bytes (outputs_start bytes) d.flow_data.read_index in
        let (r, s') = cb_amount_preinit sdk d s in
        IsEssence b.target bytes
        × (d.flow_data.read_index < outputs_number bytes)
        × (((amount < 10 ^ 18)
              × (r ≡ ok tt)
              × ShowsMillionths amount s'.text
              × (s'.header ≡ amount_header d.api.coin))
            ⊎ ((10 ^ 18 ≤ amount) × (r ≡ thrown sdk.invalid_parameter)))
  reviewed_amount_lem s room k r locked on =
      let (p, reviewed, last) = review_lem b sdk d room k r locked on in
      let counted = p.outputs_counted in
      let inside = reviewed.0 in
      (
        p.is_essence,
        omega (arith, counted, inside),
        cb_amount_preinit_lem sdk d (outputs_start d.api.api_data.buffer) s
            (IsPlain-IsShown d.flow_data.read_index (runs_lem b sdk d room k r) p reviewed.0),
      )
