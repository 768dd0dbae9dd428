-- ===== src/Review/Commands.antt =====
-- The commands of src/api.c keep a review in step with the essence.
use ledger_iota_app.Prelude.{
  ℕ, zero, suc, Option, false, ◌≡◌, ◌≢◌, ◌⊎◌, inl, inr, refl, List, arith, some, Bool-cases, get_or,
}
use ledger_iota_app.Constants.{Build}
use ledger_iota_app.Types.{ApiCtx, wiped, empty, locked, GenerateAddressRequest}
use ledger_iota_app.Sdk.{Sdk}
use ledger_iota_app.Device.{
  Device, io_send, AcceptCb, RejectCb, TimeoutCb, api_user_confirm_essence_accepted,
  api_user_confirm_essence_rejected, api_user_confirm_essence_timeout,
}
use ledger_iota_app.Api.Core.{set_path, api_initialize, api_reset, api_set_account, api_clear_data}
use ledger_iota_app.Api.Buffer.{
  api_write_data_block, api_read_data_block, api_get_data_buffer_state, api_clear_data_buffer,
}
use ledger_iota_app.Api.Config.{api_get_app_config, api_show_flow}
use ledger_iota_app.Api.Debug.{api_dump_memory, api_set_non_interactive_mode}
use ledger_iota_app.Api.Address.{
  api_generate_address, finish_addresses, fill_buffer, generate_addresses, generate_address_at,
}
use ledger_iota_app.Api.Prepare.{api_prepare_signing, api_prepare_blindsigning, parse_transaction}
use ledger_iota_app.Api.Confirm.{
  api_user_confirm_essence, confirm_by, start_flow, confirm_transaction, confirm_blindly,
  is_inconsistent, confirm_at_once,
}
use ledger_iota_app.Ui.{
  flow_start_user_confirm_transaction, flow_start_blindsigning,
  api-flow_start_user_confirm_transaction,
}
use ledger_iota_app.Api.Sign.{api_sign}
use ledger_iota_app.Parse.Frame.{parse-Framed, blindsigning-Framed}
use ledger_iota_app.Consent.Commands.{sign_same, fill_buffer_type}
use ledger_iota_app.Content.{IsBacked, IsPlain, nothing, plainly, blindly}
use ledger_iota_app.Review.{
  IsReviewing, IsShowing, LeavesReviewing, unlocked-IsReviewing, is_review,
}

-- A wipe takes the lock off, whether it succeeds or not.
pub initialize_unlocks :
    (b : Build) (mode account : ℕ) (d : Device)
    → (api_initialize b mode account d).1.api.flow_locked ≡ 0
unfolding api_initialize wiped
initialize_unlocks b mode account d = ground arith

pub clear_data_unlocks : (b : Build) (d : Device) → (api_clear_data b d).1.api.flow_locked ≡ 0
unfolding api_clear_data
clear_data_unlocks b d =
    let init = initialize_unlocks b d.api.app_mode (get_or d.api.bip32_path 2 0) d in ground arith

-- Neither the lock nor what a review shows has changed.
record SameReview (d d' : Device) : Type 0 where
  same_type : d'.api.api_data.type ≡ d.api.api_data.type
  same_essence : d'.api.essence ≡ d.api.essence
  same_buffer : d'.api.api_data.buffer ≡ d.api.api_data.buffer
  same_lock : d'.api.flow_locked ≡ d.api.flow_locked
  same_flow : d'.flow_data ≡ d.flow_data
  same_screen : d'.screen ≡ d.screen

module _ (b : Build) (sdk : Sdk) (d : Device) where
  pub reset-LeavesReviewing : LeavesReviewing b.target sdk (api_reset b sdk d)
  unfolding api_reset io_send
  reset-LeavesReviewing = grind (arith, initialize_unlocks, unlocked-IsReviewing)

  pub set_account-LeavesReviewing :
      (mode : ℕ) (bytes : List ℕ)
      → LeavesReviewing b.target sdk (api_set_account b sdk mode bytes d)
  unfolding api_set_account io_send
  set_account-LeavesReviewing mode bytes = grind (arith, initialize_unlocks, unlocked-IsReviewing)

  pub clear_data_buffer-LeavesReviewing :
      LeavesReviewing b.target sdk (api_clear_data_buffer b sdk d)
  unfolding api_clear_data_buffer io_send
  clear_data_buffer-LeavesReviewing = grind (arith, clear_data_unlocks, unlocked-IsReviewing)

  module _ (s : IsReviewing b.target sdk d) where
    -- What needs a free buffer finds no lock.
    pub write_data_block-LeavesReviewing :
        (n : ℕ) (bytes : List ℕ)
        → LeavesReviewing b.target sdk (api_write_data_block b sdk n bytes d)
    unfolding api_write_data_block io_send
    write_data_block-LeavesReviewing n bytes =
        let free = s.unlocked in grind (arith, unlocked-IsReviewing)

    pub prepare_blindsigning-LeavesReviewing :
        LeavesReviewing b.target sdk (api_prepare_blindsigning b sdk d)
    unfolding api_prepare_blindsigning io_send
    prepare_blindsigning-LeavesReviewing =
        let free = s.unlocked in grind (arith, blindsigning-Framed, unlocked-IsReviewing)

    pub prepare_signing-LeavesReviewing :
        (p2 : ℕ) (bytes : List ℕ)
        → LeavesReviewing b.target sdk (api_prepare_signing b sdk p2 bytes d)
    unfolding api_prepare_signing parse_transaction io_send
    prepare_signing-LeavesReviewing p2 bytes =
        let free = s.unlocked in grind (arith, parse-Framed, unlocked-IsReviewing)

    same-IsReviewing : (d' : Device) → SameReview d d' → IsReviewing b.target sdk d'
    same-IsReviewing d' same = record {
      unlocked = rw (same.same_type, same.same_lock) s.unlocked;
      shows = elim s.shows [
        | inl free ↦ inl (rw same.same_lock free)
        | inr (inl off) ↦ inr (inl (rw same.same_screen off))
        | inr (inr on) ↦ inr (
            inr record {
              content = rw (same.same_essence, same.same_buffer) on.content;
              counted = rw (same.same_essence, same.same_flow) on.counted;
              inside = rw (same.same_essence, same.same_flow) on.inside;
              indexed = rw (same.same_essence, same.same_flow) on.indexed;
              at_end = rw (same.same_essence, same.same_flow, same.same_screen) on.at_end;
            })
      ];
    }

    pub read_data_block-LeavesReviewing :
        (n : ℕ) → LeavesReviewing b.target sdk (api_read_data_block b sdk n d)
    unfolding api_read_data_block io_send
    read_data_block-LeavesReviewing n = grind (arith, same-IsReviewing)

    pub get_data_buffer_state-LeavesReviewing :
        LeavesReviewing b.target sdk (api_get_data_buffer_state b sdk d)
    unfolding api_get_data_buffer_state io_send
    get_data_buffer_state-LeavesReviewing = grind (arith, same-IsReviewing)

    pub get_app_config-LeavesReviewing :
        (l : ℕ) → LeavesReviewing b.target sdk (api_get_app_config b sdk l d)
    unfolding api_get_app_config io_send
    get_app_config-LeavesReviewing l = grind (arith, same-IsReviewing)

    pub show_flow-LeavesReviewing : LeavesReviewing b.target sdk (api_show_flow sdk d)
    unfolding api_show_flow io_send
    show_flow-LeavesReviewing = grind (arith, same-IsReviewing)

    pub dump_memory-LeavesReviewing :
        (p : ℕ) → LeavesReviewing b.target sdk (api_dump_memory b sdk p d)
    unfolding api_dump_memory io_send
    dump_memory-LeavesReviewing p = grind (arith, same-IsReviewing)

    pub set_non_interactive_mode-LeavesReviewing :
        (m : ℕ) → LeavesReviewing b.target sdk (api_set_non_interactive_mode sdk m d)
    unfolding api_set_non_interactive_mode io_send
    set_non_interactive_mode-LeavesReviewing m = grind (arith, same-IsReviewing)

    -- Signing puts another flow on the screen.
    pub sign-LeavesReviewing : (p1 : ℕ) → LeavesReviewing b.target sdk (api_sign b sdk p1 d)
    unfolding api_sign io_send
    sign-LeavesReviewing p1 = let free = s.unlocked in grind (arith, sign_same)

-- The loop over addresses leaves the lock alone.
generate_address_at_lock :
    (sdk : Sdk) (i : ℕ) (d : Device)
    → (generate_address_at sdk i d).1.api.flow_locked ≡ d.api.flow_locked
unfolding generate_address_at
generate_address_at_lock sdk i d = ground arith

generate_addresses_lock :
    (sdk : Sdk) (left i : ℕ) (d : Device)
    → (generate_addresses sdk left i d).1.api.flow_locked ≡ d.api.flow_locked
unfolding generate_addresses
generate_addresses_lock sdk zero i d = refl
generate_addresses_lock sdk (suc left) i d =
    grind (arith, generate_address_at_lock, generate_addresses_lock sdk left)

fill_buffer_lock :
    (b : Build) (sdk : Sdk) (show : ℕ) (req : GenerateAddressRequest) (d : Device)
    → (fill_buffer b sdk show req d).1.api.flow_locked ≡ d.api.flow_locked
unfolding fill_buffer
fill_buffer_lock b sdk show req d = grind (arith, generate_addresses_lock)

-- The lock is set with the flow that shows the address, behind which the type is not that of a free
-- buffer.
finish_addresses-LeavesReviewing :
    (b : Build) (sdk : Sdk) (show : ℕ) (req : GenerateAddressRequest) (d : Device)
    → d.api.flow_locked ≡ 0
    → d.api.api_data.type ≡ locked
    → LeavesReviewing b.target sdk (finish_addresses b sdk show req d)
unfolding finish_addresses io_send
finish_addresses-LeavesReviewing b sdk show req d h k = grind (arith, unlocked-IsReviewing)

pub generate_address-LeavesReviewing :
    (b : Build) (sdk : Sdk) (show : ℕ) (bytes : List ℕ) (d : Device)
    → LeavesReviewing b.target sdk (api_generate_address b sdk show bytes d)
unfolding api_generate_address
generate_address-LeavesReviewing b sdk show bytes d =
    grind (arith, fill_buffer_lock, fill_buffer_type, finish_addresses-LeavesReviewing)

-- A review of the essence in the buffer starts at its first place.
started-IsShowing :
    (b : Build) (sdk : Sdk) (accept : Option AcceptCb) (reject : Option RejectCb)
    (timeout : Option TimeoutCb) (d : Device)
    → IsPlain b.target sdk d.api.essence d.api.api_data.buffer
    → let d' = flow_start_user_confirm_transaction accept reject timeout d in
      (is_review d'.screen ≡ false) ⊎ IsShowing b.target sdk d'
unfolding flow_start_user_confirm_transaction
started-IsShowing b sdk accept reject timeout d p =
    let counted = p.outputs_counted in
    let some_outputs = p.is_essence.outputs_counted.0 in ground arith

-- What a flow that starts has to leave: the context as it is, and no review but of the essence in it.
abbrev Starts : Build → Sdk → (Device → Device) → Device → Type 0
Starts b sdk start d =
    ((start d).api ≡ d.api)
    × ((is_review (start d).screen ≡ false) ⊎ IsShowing b.target sdk (start d))

confirm_by-LeavesReviewing :
    (b : Build) (sdk : Sdk) (start : Device → Device) (d : Device)
    → Starts b sdk start (record d { api = record d.api { flow_locked = 1 } })
    → d.api.flow_locked ≡ 0
    → d.api.api_data.type ≢ empty
    → LeavesReviewing b.target sdk (confirm_by b sdk start d)
unfolding confirm_by start_flow confirm_at_once io_send
confirm_by-LeavesReviewing b sdk start d starts free full = grind (arith, unlocked-IsReviewing)

-- Behind the checks, an essence that is not signed blindly is plain.
checked-IsPlain :
    (b : Build) (sdk : Sdk) (c : ApiCtx)
    → IsBacked b.target sdk c
    → c.essence.blindsigning ≡ 0
    → is_inconsistent b.target c ≡ false
    → IsPlain b.target sdk c.essence c.api_data.buffer
checked-IsPlain b sdk c k plain good = elim k.backed [
  | nothing h ↦ ground arith
  | plainly p ↦ p
  | blindly p ↦ elim (p.blind plain) [ ]
]

confirm_transaction-LeavesReviewing :
    (b : Build) (sdk : Sdk) (d : Device)
    → IsBacked b.target sdk d.api
    → d.api.essence.blindsigning ≡ 0
    → d.api.flow_locked ≡ 0
    → d.api.api_data.type ≢ empty
    → LeavesReviewing b.target sdk (confirm_transaction b sdk d)
unfolding confirm_transaction
confirm_transaction-LeavesReviewing b sdk d k plain free full =
    elim (Bool-cases (is_inconsistent b.target d.api)) [
      | inl bad ↦ rw bad tt
      | inr good ↦
          let r = d.api.essence.remainder_bip32 in
          let d' : Device = record d {
            api = set_path 3 r.bip32_change (set_path 4 r.bip32_index d.api);
          } in
          let p = checked-IsPlain b sdk d.api k plain good in
          rw good (
            confirm_by-LeavesReviewing b sdk
              (flow_start_user_confirm_transaction (some api_user_confirm_essence_accepted)
                (some api_user_confirm_essence_rejected) (some api_user_confirm_essence_timeout))
              d'
              (
                api-flow_start_user_confirm_transaction _ _ _ _,
                started-IsShowing b sdk _ _ _
                    (record d' { api = record d'.api { flow_locked = 1 } }) p,
              )
              free full)
    ]

blindly-Starts :
    (b : Build) (sdk : Sdk) (accept : Option AcceptCb) (reject : Option RejectCb)
    (timeout : Option TimeoutCb) (d : Device)
    → Starts b sdk (flow_start_blindsigning accept reject timeout) d
unfolding flow_start_blindsigning
blindly-Starts b sdk accept reject timeout d = ground arith

pub user_confirm_essence-LeavesReviewing :
    (b : Build) (sdk : Sdk) (d : Device)
    → IsBacked b.target sdk d.api
    → LeavesReviewing b.target sdk (api_user_confirm_essence b sdk d)
unfolding api_user_confirm_essence confirm_blindly
user_confirm_essence-LeavesReviewing b sdk d k =
    let seen = confirm_transaction-LeavesReviewing b sdk d k in
    let blind =
      confirm_by-LeavesReviewing b sdk
        (flow_start_blindsigning (some api_user_confirm_essence_accepted)
          (some api_user_confirm_essence_rejected) (some api_user_confirm_essence_timeout))
        d (blindly-Starts b sdk _ _ _ _) in
    grind arith
