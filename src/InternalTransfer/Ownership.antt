-- ===== src/InternalTransfer/Ownership.antt =====
-- Which transactions `check_for_internal_transfer` (src/iota/internal_transfer.c) takes for internal
-- ones.
use ledger_iota_app.Prelude.{
  ℕ, zero, suc, ◌+◌, ◌*◌, ◌<◌, ◌≤◌, ◌≡◌, ◌≢◌, ◌⊎◌, inl, inr, refl, sym, ap, ◌∙◌, true, false,
  Option, none, some, List, [], ◌∷◌, arith, length, slice, same_bytes, same_bytes→≡,
  same_bytes_refl, Bool-cases, Option-cases,
}
use mathlib.Core.Path.{subst}
use ledger_iota_app.Exec.{Result, ok, fail}
use ledger_iota_app.Constants.{address_with_type_size_bytes}
use ledger_iota_app.Constants.AppMode
use ledger_iota_app.Abstraction.{get_output_address_ptr}
use ledger_iota_app.Types.{
  ApiCtx, Bip32Index, sizeof_bip32_index, sizeof_basic_output, offset_address_type,
  read_bip32_index,
}
use ledger_iota_app.Sdk.{Sdk}
use ledger_iota_app.Address.{address_generate}
use ledger_iota_app.Reader.Laws.{read_in_range}
use ledger_iota_app.InternalTransfer.{at_index, matches_input, check_for_internal_transfer}

-- The copy of the path is written at the same two places in every round.
pub at_index_again :
    (path : List ℕ) (a b : Bip32Index) → at_index (at_index path a) b ≡ at_index path b
at_index_again [] a b = refl
at_index_again (p ∷ []) a b = refl
at_index_again (p ∷ q ∷ []) a b = refl
at_index_again (p ∷ q ∷ r ∷ []) a b = refl
at_index_again (p ∷ q ∷ r ∷ s ∷ []) a b = refl
at_index_again (p ∷ q ∷ r ∷ s ∷ t ∷ path) a b = refl

module _ (sdk : Sdk) (bytes : List ℕ) (base : List ℕ) (output input_indices : ℕ) where
  -- The path of an input, and the address there; `none` if it cannot be generated.
  abbrev pub input_path : ℕ → List ℕ
  input_path i =
      at_index base
        (read_bip32_index (slice (input_indices + sizeof_bip32_index * i) sizeof_bip32_index bytes))

  abbrev pub input_address : ℕ → Option (List ℕ)
  input_address i = address_generate sdk (input_path i)

  -- The address that the output pays to.
  abbrev pub output_address : List ℕ
  output_address = slice output address_with_type_size_bytes bytes

  -- The first inputs from `i` on, up to `k`, do not own the output, and there the search ends: at the
  -- last input or at one whose address cannot be generated.
  abbrev pub Missed : ℕ → ℕ → Type 0
  Missed i end =
      (k : ℕ) × (k ≤ end)
      × ((j : ℕ) → i ≤ j → j < k → input_address j ≢ some output_address)
      × ((k ≡ end) ⊎ (input_address k ≡ none))

  abbrev pub Owned : ℕ → ℕ → Type 0
  Owned i end = (k : ℕ) × (i ≤ k) × (k < end) × (input_address k ≡ some output_address)

  abbrev pub Searched : ℕ → ℕ → Result (Unit {0}) → Type 0
  Searched i end r = ((r ≡ ok tt) × Owned i end) ⊎ ((r ≡ fail) × Missed i end)

  -- The outcome of a round, by the address of its input.
  module _ (path : List ℕ) (left i : ℕ)
      (same : at_index path (
          read_bip32_index
            (slice (input_indices + sizeof_bip32_index * i) sizeof_bip32_index bytes))
        ≡ input_path i)
      (o : output + address_with_type_size_bytes ≤ length bytes)
      (fits : input_indices + sizeof_bip32_index * (i + suc left) ≤ length bytes) where
    round_none :
        input_address i ≡ none
        → matches_input sdk bytes output input_indices path (suc left) i ≡ fail
    unfolding matches_input
    round_none made =
        let index =
          read_in_range bytes (input_indices + sizeof_bip32_index * i) sizeof_bip32_index
            (omega (arith, fits)) in
        ground arith

    round_found :
        (input : List ℕ)
        → input_address i ≡ some input
        → same_bytes output_address input ≡ true
        → matches_input sdk bytes output input_indices path (suc left) i ≡ ok tt
    unfolding matches_input
    round_found input made equal =
        let index =
          read_in_range bytes (input_indices + sizeof_bip32_index * i) sizeof_bip32_index
            (omega (arith, fits)) in
        let address = read_in_range bytes output address_with_type_size_bytes o in ground arith

    round_missed :
        (input : List ℕ)
        → input_address i ≡ some input
        → same_bytes output_address input ≡ false
        → matches_input sdk bytes output input_indices path (suc left) i
          ≡ matches_input sdk bytes output input_indices (input_path i) left (i + 1)
    unfolding matches_input
    round_missed input made differs =
        let index =
          read_in_range bytes (input_indices + sizeof_bip32_index * i) sizeof_bip32_index
            (omega (arith, fits)) in
        let address = read_in_range bytes output address_with_type_size_bytes o in ground arith

  -- An input that does not own the output.
  Searched-next :
      (i end : ℕ) (r : Result (Unit {0}))
      → input_address i ≢ some output_address
      → Searched (i + 1) end r
      → Searched i end r
  Searched-next i end r not_own (inl (e, (k, l, m, own))) = inl (e, (k, omega (arith, l), m, own))
  Searched-next i end r not_own (inr (e, (k, l, none_own, ends))) = inr (
    e,
    (
      k,
      l,
      λ j lo hi own.
          let here_or_later : (j ≡ i) ⊎ (i + 1 ≤ j) = ground (arith, lo) in
          elim here_or_later [
            | inl same ↦ not_own (ap input_address (sym same) ∙ own)
            | inr later ↦ none_own j later hi own
          ],
      ends,
    ),
  )

  -- The search from input `i` with `left` rounds to go, on any copy of the path.
  matches_input_lem :
      (path : List ℕ) (left i : ℕ)
      → ((x : Bip32Index) → at_index path x ≡ at_index base x)
      → output + address_with_type_size_bytes ≤ length bytes
      → input_indices + sizeof_bip32_index * (i + left) ≤ length bytes
      → Searched i (i + left) (matches_input sdk bytes output input_indices path left i)
  unfolding matches_input
  matches_input_lem path zero i copies o fits =
      inr (refl, (i, omega arith, (λ j lo hi. absurd (omega (arith, lo, hi))), inl (omega arith)))
  matches_input_lem path (suc left) i copies o fits =
      let r = slice (input_indices + sizeof_bip32_index * i) sizeof_bip32_index bytes in
      let same = copies (read_bip32_index r) in
      let ends : i + 1 + left ≡ i + suc left = omega arith in
      let rest =
        matches_input_lem (input_path i) left (i + 1) (at_index_again base (read_bip32_index r)) o
          (omega (arith, fits)) in
      elim (Option-cases (input_address i)) [
        | inl none_made ↦
            (inr (
              round_none path left i same o fits none_made,
              (i, omega arith, (λ j lo hi. absurd (omega (arith, lo, hi))), inr none_made),
            ))
        | inr (input, made) ↦ elim (Bool-cases (same_bytes output_address input)) [
          | inl equal ↦
              (inl (
                round_found path left i same o fits input made equal,
                (
                  i,
                  omega arith,
                  omega arith,
                  made ∙ ap some (sym (same_bytes→≡ output_address input equal)),
                ),
              ))
          | inr differs ↦
              let not_own : input_address i ≢ some output_address =
                λ own. let reflexive = same_bytes_refl output_address in ground arith in
              subst (Searched i (i + suc left))
                (sym (round_missed path left i same o fits input made differs))
                (Searched-next i (i + suc left) _ not_own (rw ends at rest))
        ]
      ]

-- The address that the first output pays to, and the search for it.
abbrev pub IsOwnOutput : Sdk → ApiCtx → ℕ → ℕ → Type 0
IsOwnOutput sdk c outputs inputs_bip32 =
    Owned sdk c.api_data.buffer c.bip32_path (outputs + offset_address_type) inputs_bip32 0
      c.essence.inputs_count

abbrev pub IsNotFound : Sdk → ApiCtx → ℕ → ℕ → Type 0
IsNotFound sdk c outputs inputs_bip32 =
    Missed sdk c.api_data.buffer c.bip32_path (outputs + offset_address_type) inputs_bip32 0
      c.essence.inputs_count

-- What the check asks for beside the address: the mode for claiming is compared with its testnet bit,
-- so that the mode 0x82 counts as another one.
abbrev pub IsSweep : ApiCtx → Type 0
IsSweep c =
    (c.essence.outputs_count ≡ 1)
    × (c.essence.has_remainder ≡ 0)
    × (c.app_mode ≢ AppMode.shimmer_claiming)

-- For Stardust, with the outputs and the BIP32 indices in the buffer: the check answers yes only if
-- there is a single output, there is no remainder, the mode is not 2 (claiming, without the testnet bit),
-- and the output pays to the device's own address at the path of one of the inputs. It answers no only
-- if one of the first three does not hold, or none of the inputs owns the output as far as their
-- addresses can be generated. It neither throws nor reads outside the buffer.
pub internal_transfer_lem :
    (sdk : Sdk) (c : ApiCtx) (outputs inputs_bip32 : ℕ)
    → c.protocol ≡ AppMode.protocol_stardust
    → c.essence.outputs ≡ some outputs
    → c.essence.inputs_bip32_index ≡ some inputs_bip32
    → outputs + sizeof_basic_output * c.essence.outputs_count ≤ length c.api_data.buffer
    → inputs_bip32 + sizeof_bip32_index * c.essence.inputs_count ≤ length c.api_data.buffer
    → ((check_for_internal_transfer sdk c ≡ ok tt)
        × IsSweep c
        × IsOwnOutput sdk c outputs inputs_bip32)
      ⊎ ((check_for_internal_transfer sdk c ≡ fail)
          × (¬ (IsSweep c) ⊎ IsNotFound sdk c outputs inputs_bip32))
unfolding check_for_internal_transfer get_output_address_ptr
internal_transfer_lem sdk c outputs inputs_bip32 proto os is h k =
    let same : outputs + sizeof_basic_output * 0 + offset_address_type
        ≡ outputs + offset_address_type =
      omega arith in
    let search = λ (one : c.essence.outputs_count ≡ 1).
      matches_input_lem sdk c.api_data.buffer c.bip32_path (outputs + offset_address_type)
        inputs_bip32 c.bip32_path c.essence.inputs_count 0 (λ x. refl) (omega (arith, h, one))
        (omega (arith, k)) in
    ground arith

-- Yes or no: the code neither throws nor reads out of range.
abbrev pub Answers : Result (Unit {0}) → Type 0
Answers r = (r ≡ ok tt) ⊎ (r ≡ fail)

pub internal_transfer-Answers :
    (sdk : Sdk) (c : ApiCtx) (outputs inputs_bip32 : ℕ)
    → c.protocol ≡ AppMode.protocol_stardust
    → c.essence.outputs ≡ some outputs
    → c.essence.inputs_bip32_index ≡ some inputs_bip32
    → outputs + sizeof_basic_output * c.essence.outputs_count ≤ length c.api_data.buffer
    → inputs_bip32 + sizeof_bip32_index * c.essence.inputs_count ≤ length c.api_data.buffer
    → Answers (check_for_internal_transfer sdk c)
internal_transfer-Answers sdk c outputs inputs_bip32 proto os is h k =
    elim (internal_transfer_lem sdk c outputs inputs_bip32 proto os is h k) [
      | inl (e, _, _) ↦ inl e
      | inr (e, _) ↦ inr e
    ]
