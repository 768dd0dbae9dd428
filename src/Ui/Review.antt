-- ===== src/Ui/Review.antt =====
-- The outputs that the review of a transaction shows: `get_read_index` of
-- src/ui/nano/flow_user_confirm_transaction.c over the places that its callbacks visit.
use ledger_iota_app.Prelude.{ℕ, ◌-◌, ◌<◌, ◌≡◌, ◌≢◌, ◌⊎◌, leb, ◌==◌, if◌then◌else◌, arith}
use ledger_iota_app.Types.{Essence}
use ledger_iota_app.Ui.{read_index_of, as_flag}
use ledger_iota_app.Ui.Events.{next_place, prev_place}

-- The outputs to review: all but the remainder.
abbrev pub IsReviewed : Essence → ℕ → Type 0
IsReviewed e j = (j < e.outputs_count) × ((e.has_remainder ≡ 0) ⊎ (j ≢ e.remainder_index))

-- The places of the review.
abbrev pub places : Essence → ℕ
places e = e.outputs_count - as_flag e.has_remainder

-- The place at which an output is shown.
abbrev place_of : Essence → ℕ → ℕ
place_of e j = if e.has_remainder == 0 then j else if leb e.remainder_index j then j - 1 else j

-- If the remainder, where there is one, is among the outputs: every place shows an output that is to be reviewed, every such output has a place, and no two
-- places show the same one.
pub read_index_lem :
    (e : Essence)
    → e.has_remainder ≡ 0 ⊎ e.remainder_index < e.outputs_count
    → ((i : ℕ) → i < places e → IsReviewed e (read_index_of e i))
      × ((j : ℕ) → IsReviewed e j → (i : ℕ) × (i < places e) × (read_index_of e i ≡ j))
      × ((i k : ℕ) → read_index_of e i ≡ read_index_of e k → i ≡ k)
unfolding read_index_of
read_index_lem e h =
    (λ i l. ground arith, λ j r. (place_of e j, ground arith, ground arith), λ i k s. ground arith)

-- The callbacks stay within the places of the review.
pub next_place_lem : (n i : ℕ) → 0 < n → i < n → next_place n i < n × prev_place n i < n
next_place_lem n i h l = ground arith

-- From a place in range, going on and back again, or back and on, comes to the same place.
pub next-prev_place :
    (n i : ℕ) → i < n → (prev_place n (next_place n i) ≡ i) × (next_place n (prev_place n i) ≡ i)
next-prev_place n i l = ground arith
