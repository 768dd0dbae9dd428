-- ===== src/Wallet/Commands.antt =====
-- The flags of the essence under the other commands of src/api.c.
use ledger_iota_app.Prelude.{ℕ, ◌≡◌, ◌≢◌, inl, inr, refl, List, arith, some, Bool-cases, get_or}
use ledger_iota_app.Exec.{Result}
use ledger_iota_app.Constants.{Build}
use ledger_iota_app.Types.{
  DataType, ApiCtx, Bip32Index, wiped, empty, locked, GenerateAddressRequest,
}
use ledger_iota_app.Sdk.{Sdk}
use ledger_iota_app.Device.{
  Device, io_send, api_user_confirm_essence_accepted, api_user_confirm_essence_rejected,
  api_user_confirm_essence_timeout,
}
use ledger_iota_app.InternalTransfer.Ownership.{at_index_again}
use ledger_iota_app.Essence.{on_essence}
use ledger_iota_app.Blindsigning.Layout.{parse_and_validate_blindsigning_lem}
use ledger_iota_app.Api.Core.{set_path, api_initialize, api_reset, api_set_account, api_clear_data}
use ledger_iota_app.Api.Buffer.{
  api_write_data_block, api_read_data_block, api_get_data_buffer_state, api_clear_data_buffer,
  set_data_type,
}
use ledger_iota_app.Api.Config.{api_get_app_config, api_show_flow}
use ledger_iota_app.Api.Debug.{api_dump_memory, api_set_non_interactive_mode}
use ledger_iota_app.Api.Address.{api_generate_address, finish_addresses}
use ledger_iota_app.Api.Prepare.{api_prepare_blindsigning}
use ledger_iota_app.Api.Confirm.{
  api_user_confirm_essence, confirm_by, start_flow, confirm_transaction, confirm_blindly,
  is_inconsistent, confirm_at_once,
}
use ledger_iota_app.Api.Sign.{api_sign}
use ledger_iota_app.Signing.{sign, sign_signature_unlock_block}
use ledger_iota_app.Consent.Commands.{sign_same}
use ledger_iota_app.Content.Commands.{fill_buffer_essence}
use ledger_iota_app.Ui.{
  flow_start_user_confirm_transaction, flow_start_blindsigning,
  api-flow_start_user_confirm_transaction, api-flow_start_blindsigning,
}
use ledger_iota_app.Safety.{IsSound, Leaves}
use ledger_iota_app.Wallet.{IsOurs, IsSwept, IsKept, SamePath}

abbrev pub LeavesOurs : {A : Type 0} → Sdk → Result A × Device → Type 0
LeavesOurs sdk = Leaves (λ d. IsOurs sdk d.api)

-- Both flags are off.
abbrev pub Unflagged : ApiCtx → Type 0
Unflagged c = (c.essence.is_internal_transfer ≡ 0) × (c.essence.has_remainder ≡ 0)

pub Unflagged-IsOurs : (sdk : Sdk) (c : ApiCtx) → Unflagged c → IsOurs sdk c
Unflagged-IsOurs sdk c h = record { fresh = λ _. h; transfer = inl h.0; remainder = inl h.1 }

pub initialize-Unflagged :
    (b : Build) (mode account : ℕ) (d : Device) → Unflagged (api_initialize b mode account d).1.api
unfolding api_initialize wiped
initialize-Unflagged b mode account d = ground arith

pub clear_data-Unflagged : (b : Build) (d : Device) → Unflagged (api_clear_data b d).1.api
unfolding api_clear_data
clear_data-Unflagged b d =
    let init = initialize-Unflagged b d.api.app_mode (get_or d.api.bip32_path 2 0) d in ground arith

-- A move to another type keeps the flags for what they stand.
pub record SameFlags (c c' : ApiCtx) : Type 0 where
  pub same_essence : c'.essence ≡ c.essence
  pub same_buffer : c'.api_data.buffer ≡ c.api_data.buffer
  pub same_path : SamePath c c'

IsSwept-same : (sdk : Sdk) (c c' : ApiCtx) → SameFlags c c' → IsSwept sdk c → IsSwept sdk c'
IsSwept-same sdk c c' s k =
    let (i, l, m, own) = k.owned in
    record {
      single = rw s.same_essence k.single;
      outputs = k.outputs;
      outputs_at = rw s.same_essence k.outputs_at;
      indices = k.indices;
      indices_at = rw s.same_essence k.indices_at;
      owned = (i, l, rw s.same_essence m, rw (s.same_buffer, s.same_path) own);
    }

IsKept-same : (sdk : Sdk) (c c' : ApiCtx) → SameFlags c c' → IsKept sdk c → IsKept sdk c'
IsKept-same sdk c c' s k = record {
  outputs = k.outputs;
  outputs_at = rw s.same_essence k.outputs_at;
  is_own = rw (s.same_essence, s.same_buffer, s.same_path c.essence.remainder_bip32) k.is_own;
}

pub flags-IsOurs :
    (sdk : Sdk) (c c' : ApiCtx)
    → IsOurs sdk c
    → SameFlags c c'
    → (c'.api_data.type ≡ empty → c.api_data.type ≡ empty)
    → IsOurs sdk c'
flags-IsOurs sdk c c' o s t = record {
  fresh = λ e. rw s.same_essence (o.fresh (t e));
  transfer = elim o.transfer [
    | inl off ↦ inl (rw s.same_essence off)
    | inr k ↦ inr (IsSwept-same sdk c c' s k)
  ];
  remainder = elim o.remainder [
    | inl off ↦ inl (rw s.same_essence off)
    | inr k ↦ inr (IsKept-same sdk c c' s k)
  ];
}

-- A change of the type alone.
pub typed-IsOurs :
    (sdk : Sdk) (c : ApiCtx)
    → IsOurs sdk c
    → (type : DataType) → type ≢ empty
    → IsOurs sdk (set_data_type type c)
typed-IsOurs sdk c o type full =
    flags-IsOurs sdk c (set_data_type type c) o
      (record { same_essence = refl; same_buffer = refl; same_path = λ x. refl })
      (λ e. absurd (full e))

-- The path may be written at the two places.
signature_path :
    (sdk : Sdk) (index : Bip32Index) (c : ApiCtx)
    → SameFlags c (sign_signature_unlock_block sdk index c).1
unfolding sign_signature_unlock_block
signature_path sdk index c = let again = at_index_again c.bip32_path index in ground arith

sign-SameFlags : (sdk : Sdk) (i : ℕ) (c : ApiCtx) → SameFlags c (sign sdk i c).1
unfolding sign
sign-SameFlags sdk i c = grind (arith, signature_path)

finish_flags :
    (b : Build) (sdk : Sdk) (show : ℕ) (req : GenerateAddressRequest) (d : Device)
    → Unflagged d.api
    → Unflagged (finish_addresses b sdk show req d).1.api
unfolding finish_addresses io_send
finish_flags b sdk show req d h = ground arith

module _ (b : Build) (sdk : Sdk) (d : Device) where
  pub reset-LeavesOurs : LeavesOurs sdk (api_reset b sdk d)
  unfolding api_reset io_send
  reset-LeavesOurs = grind (arith, initialize-Unflagged, Unflagged-IsOurs)

  pub set_account-LeavesOurs :
      (mode : ℕ) (bytes : List ℕ) → LeavesOurs sdk (api_set_account b sdk mode bytes d)
  unfolding api_set_account io_send
  set_account-LeavesOurs mode bytes = grind (arith, initialize-Unflagged, Unflagged-IsOurs)

  pub clear_data_buffer-LeavesOurs : LeavesOurs sdk (api_clear_data_buffer b sdk d)
  unfolding api_clear_data_buffer io_send
  clear_data_buffer-LeavesOurs = grind (arith, clear_data-Unflagged, Unflagged-IsOurs)

  module _ (s : IsOurs sdk d.api) where
    pub write_data_block-LeavesOurs :
        (n : ℕ) (bytes : List ℕ) → LeavesOurs sdk (api_write_data_block b sdk n bytes d)
    unfolding api_write_data_block io_send
    write_data_block-LeavesOurs n bytes = let free = s.fresh in grind (arith, Unflagged-IsOurs)

    pub read_data_block-LeavesOurs : (n : ℕ) → LeavesOurs sdk (api_read_data_block b sdk n d)
    unfolding api_read_data_block io_send
    read_data_block-LeavesOurs n = ground arith

    pub get_data_buffer_state-LeavesOurs : LeavesOurs sdk (api_get_data_buffer_state b sdk d)
    unfolding api_get_data_buffer_state io_send
    get_data_buffer_state-LeavesOurs = ground arith

    pub get_app_config-LeavesOurs : (l : ℕ) → LeavesOurs sdk (api_get_app_config b sdk l d)
    unfolding api_get_app_config io_send
    get_app_config-LeavesOurs l = ground arith

    pub show_flow-LeavesOurs : LeavesOurs sdk (api_show_flow sdk d)
    unfolding api_show_flow io_send
    show_flow-LeavesOurs = ground arith

    pub dump_memory-LeavesOurs : (p : ℕ) → LeavesOurs sdk (api_dump_memory b sdk p d)
    unfolding api_dump_memory io_send
    dump_memory-LeavesOurs p = ground arith

    pub set_non_interactive_mode-LeavesOurs :
        (m : ℕ) → LeavesOurs sdk (api_set_non_interactive_mode sdk m d)
    unfolding api_set_non_interactive_mode io_send
    set_non_interactive_mode-LeavesOurs m =
        let c' = record d.api { non_interactive_mode = m } in
        let same = flags-IsOurs sdk d.api in grind (arith, flags-IsOurs)

    pub sign-LeavesOurs : (p1 : ℕ) → LeavesOurs sdk (api_sign b sdk p1 d)
    unfolding api_sign io_send
    sign-LeavesOurs p1 =
        let c' = (sign sdk p1 d.api).1 in
        let keeps = flags-IsOurs sdk d.api c' s (sign-SameFlags sdk p1 d.api) in
        let type = (sign_same sdk p1 d.api).same_type in ground arith

    pub generate_address-LeavesOurs :
        (show : ℕ) (bytes : List ℕ) → LeavesOurs sdk (api_generate_address b sdk show bytes d)
    unfolding api_generate_address
    generate_address-LeavesOurs show bytes =
        let free = s.fresh in grind (arith, fill_buffer_essence, finish_flags, Unflagged-IsOurs)

    pub prepare_blindsigning-LeavesOurs :
        IsSound b d.api → LeavesOurs sdk (api_prepare_blindsigning b sdk d)
    unfolding api_prepare_blindsigning io_send
    prepare_blindsigning-LeavesOurs sound =
        let free = s.fresh in
        let c = record (on_essence (λ e. record e { blindsigning = 1 }) d.api) {
          api_data = record d.api.api_data { type = locked };
        } in
        let blind = parse_and_validate_blindsigning_lem b.target c sound.full in
        grind (arith, Unflagged-IsOurs)

confirm_by-LeavesOurs :
    (b : Build) (sdk : Sdk) (start : Device → Device) (d : Device)
    → ((d' : Device) → (start d').api ≡ d'.api)
    → d.api.api_data.type ≢ empty
    → IsOurs sdk d.api
    → LeavesOurs sdk (confirm_by b sdk start d)
unfolding confirm_by start_flow confirm_at_once io_send
confirm_by-LeavesOurs b sdk start d keeps full s =
    let same = keeps (record d { api = record d.api { flow_locked = 1 } }) in
    grind (arith, flags-IsOurs)

confirm_transaction-LeavesOurs :
    (b : Build) (sdk : Sdk) (d : Device)
    → d.api.api_data.type ≢ empty
    → IsOurs sdk d.api
    → LeavesOurs sdk (confirm_transaction b sdk d)
unfolding confirm_transaction
confirm_transaction-LeavesOurs b sdk d full s =
    let r = d.api.essence.remainder_bip32 in
    let d' : Device = record d {
      api = set_path 3 r.bip32_change (set_path 4 r.bip32_index d.api);
    } in
    let moved : SameFlags d.api d'.api = record {
      same_essence = refl;
      same_buffer = refl;
      same_path = at_index_again d.api.bip32_path r;
    } in
    let s' = flags-IsOurs sdk d.api d'.api s moved (λ e. e) in
    let confirms =
      confirm_by-LeavesOurs b sdk
        (flow_start_user_confirm_transaction (some api_user_confirm_essence_accepted)
          (some api_user_confirm_essence_rejected) (some api_user_confirm_essence_timeout))
        d' (api-flow_start_user_confirm_transaction _ _ _) full s' in
    elim (Bool-cases (is_inconsistent b.target d.api)) [
      | inl bad ↦ rw bad tt
      | inr good ↦ rw good confirms
    ]

pub user_confirm_essence-LeavesOurs :
    (b : Build) (sdk : Sdk) (d : Device)
    → IsOurs sdk d.api
    → LeavesOurs sdk (api_user_confirm_essence b sdk d)
unfolding api_user_confirm_essence confirm_blindly
user_confirm_essence-LeavesOurs b sdk d s =
    let seen = confirm_transaction-LeavesOurs b sdk d in
    let blind =
      confirm_by-LeavesOurs b sdk
        (flow_start_blindsigning (some api_user_confirm_essence_accepted)
          (some api_user_confirm_essence_rejected) (some api_user_confirm_essence_timeout))
        d (api-flow_start_blindsigning _ _ _) in
    grind arith
