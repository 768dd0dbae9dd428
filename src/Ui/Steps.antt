-- ===== src/Ui/Steps.antt =====
-- The steps of the flows of src/ui/nano, as the macros `UX_STEP_...` and `UX_FLOW` declare them: what
-- a step shows, and what the SDK calls for it. How the user moves between the steps is the SDK's.
use ledger_iota_app.Prelude.{
  ℕ, ◌≡◌, ◌↔◌, ◌⊎◌, inl, inr, Bool, true, false, Option, none, some, List, [], ◌∷◌, refl, arith,
}
use ledger_iota_app.Exec.{ok, Exec, ◌>>=◌, ◌>>◌, pure, gets}
use ledger_iota_app.Constants.{Target, App, app_iota, app_shimmer}
use ledger_iota_app.Sdk.{Sdk}
use ledger_iota_app.Bech32.{Bech32}
use ledger_iota_app.Device.{
  Device, Flow, ux_main_menu, ux_flow_settings, ux_flow_generating_addresses, ux_flow_signing,
  ux_flow_new_address, ux_flow_base, ux_flow_has_accept_reject, ux_flow_smr_claiming_start,
  ux_flow_internal_transfer, ux_flow_blindsigning, ux_flow_bs_not_enabled,
}
use ledger_iota_app.Text.{codes}
use ledger_iota_app.Ui.Screens.{
  Scratch, cb_output_preinit, cb_amount_preinit, cb_address_preinit, cb_bip32_preinit,
  new_address_preinit, cb_hash_preinit, cb_settings_preinit,
}
use ledger_iota_app.Ui.Events.{
  Event, accept, reject, switch, next_dataset, prev_dataset, back, continue_claiming,
  settings_enter, toggle_blindsigning, settings_back, ticker, shown, unprepared, offers,
}

pub data UxStep : Type 0 where
  -- flow_user_confirm_transaction.c
  ux_step_review ux_step_amount ux_step_address ux_step_remainder ux_step_switch : UxStep
  ux_step_data_next ux_step_data_prev ux_step_back ux_step_accept ux_step_reject : UxStep
  ux_step_srm_claiming_start ux_step_smr_claiming_message ux_step_continue : UxStep
  ux_step_cancel ux_step_internal_transfer_start ux_step_internal_transfer_info : UxStep
  -- flow_user_confirm_new_address.c
  ux_step_new_address ux_step_na_bip32 ux_step_ok : UxStep
  -- flow_user_confirm_blindsigning.c
  ux_step_hash ux_step_bs_accept ux_step_bs_reject ux_step_bs_not_enabled : UxStep
  -- flow_main_menu.c
  ux_idle_flow_1_step ux_idle_flow_2_step ux_settings ux_idle_flow_3_step : UxStep
  ux_step_toggle_blindsigning ux_step_settings_back : UxStep
  -- flow_generating_addresses.c and flow_signing.c
  ux_generating_addresses ux_signing : UxStep

-- The flows, as lists of their steps.
abbrev pub main_menu_steps : List UxStep
main_menu_steps = ux_idle_flow_1_step ∷ ux_idle_flow_2_step ∷ ux_settings ∷ ux_idle_flow_3_step ∷ []

abbrev pub settings_steps : List UxStep
settings_steps = ux_step_toggle_blindsigning ∷ ux_step_settings_back ∷ []

abbrev pub generating_addresses_steps : List UxStep
generating_addresses_steps = ux_generating_addresses ∷ []

abbrev pub signing_steps : List UxStep
signing_steps = ux_signing ∷ []

abbrev pub new_address_steps : List UxStep
new_address_steps = ux_step_ok ∷ ux_step_new_address ∷ ux_step_na_bip32 ∷ []

abbrev pub base_steps : List UxStep
base_steps =
    ux_step_data_prev ∷ ux_step_review ∷ ux_step_address ∷ ux_step_amount ∷ ux_step_switch
    ∷ ux_step_data_next ∷ []

abbrev pub has_accept_reject_steps : List UxStep
has_accept_reject_steps = ux_step_back ∷ ux_step_accept ∷ ux_step_reject ∷ ux_step_data_next ∷ []

abbrev pub smr_claiming_start_steps : List UxStep
smr_claiming_start_steps =
    ux_step_srm_claiming_start ∷ ux_step_smr_claiming_message ∷ ux_step_continue ∷ ux_step_cancel
    ∷ []

abbrev pub internal_transfer_steps : List UxStep
internal_transfer_steps =
    ux_step_internal_transfer_start ∷ ux_step_internal_transfer_info ∷ ux_step_accept
    ∷ ux_step_reject ∷ []

abbrev pub blindsigning_steps : List UxStep
blindsigning_steps = ux_step_hash ∷ ux_step_bs_accept ∷ ux_step_bs_reject ∷ []

abbrev pub bs_not_enabled_steps : List UxStep
bs_not_enabled_steps = ux_step_bs_not_enabled ∷ ux_step_bs_reject ∷ []

abbrev pub steps_of : Flow → List UxStep
steps_of ux_main_menu = main_menu_steps
steps_of ux_flow_settings = settings_steps
steps_of ux_flow_generating_addresses = generating_addresses_steps
steps_of ux_flow_signing = signing_steps
steps_of ux_flow_new_address = new_address_steps
steps_of ux_flow_base = base_steps
steps_of ux_flow_has_accept_reject = has_accept_reject_steps
steps_of ux_flow_smr_claiming_start = smr_claiming_start_steps
steps_of ux_flow_internal_transfer = internal_transfer_steps
steps_of ux_flow_blindsigning = blindsigning_steps
steps_of ux_flow_bs_not_enabled = bs_not_enabled_steps

-- What the SDK calls for a step: the function of a step without a screen when it is reached, that of
-- another when both buttons are pressed, and the change of flow when its time is up. The step to quit
-- ends the app.
abbrev pub event_of : UxStep → Option Event
event_of ux_step_switch = some switch
event_of ux_step_data_next = some next_dataset
event_of ux_step_data_prev = some prev_dataset
event_of ux_step_back = some back
event_of ux_step_accept = some accept
event_of ux_step_reject = some reject
event_of ux_step_continue = some continue_claiming
event_of ux_step_cancel = some reject
event_of ux_step_ok = some accept
event_of ux_step_bs_accept = some accept
event_of ux_step_bs_reject = some reject
event_of ux_step_bs_not_enabled = some reject
event_of ux_settings = some settings_enter
event_of ux_step_toggle_blindsigning = some toggle_blindsigning
event_of ux_step_settings_back = some settings_back
event_of ux_generating_addresses = some shown
event_of ux_signing = some shown
event_of _ = none

-- The lines of a step that shows what its function has put into the buffers.
abbrev pub prepared_lines : Exec Scratch (Unit {0}) → Exec Scratch (List (List ℕ))
prepared_lines preinit = do preinit; s ← gets (λ s. s); pure (s.header ∷ s.text ∷ [])

-- The lines of a step under a fixed title.
abbrev pub titled_lines : List ℕ → Exec Scratch (Unit {0}) → Exec Scratch (List (List ℕ))
titled_lines title preinit = do preinit; s ← gets (λ s. s); pure (title ∷ s.text ∷ [])

abbrev pub app_name : App → List ℕ
app_name app_iota = codes "IOTA"
app_name app_shimmer = codes "Shimmer"

-- The lines that the steps of a file show; a step without a screen has none.
-- flow_user_confirm_transaction.c
abbrev pub transaction_lines : Sdk → Bech32 → UxStep → Device → Exec Scratch (List (List ℕ))
transaction_lines sdk bech32 ux_step_review d = prepared_lines (cb_output_preinit d)
transaction_lines sdk bech32 ux_step_amount d = prepared_lines (cb_amount_preinit sdk d)
transaction_lines sdk bech32 ux_step_address d =
    titled_lines (codes "Address") (cb_address_preinit bech32 d)
transaction_lines sdk bech32 ux_step_remainder d =
    titled_lines (codes "BIP32 Path") (cb_bip32_preinit d)
transaction_lines sdk bech32 ux_step_accept d = pure (codes "Accept" ∷ [])
transaction_lines sdk bech32 ux_step_reject d = pure (codes "Reject" ∷ [])
transaction_lines sdk bech32 ux_step_srm_claiming_start d = pure (codes "Claim SMR" ∷ [])
transaction_lines sdk bech32 ux_step_smr_claiming_message d = pure (
    codes "Claim SMR"
    ∷ codes
        "In order to claim SMR coins, you are now signing with IOTA private keys instead of SMR private keys. Are you really sure you want to proceed?"
    ∷ [])
transaction_lines sdk bech32 ux_step_continue d = pure (codes "Continue" ∷ [])
transaction_lines sdk bech32 ux_step_cancel d = pure (codes "Cancel" ∷ [])
transaction_lines sdk bech32 ux_step_internal_transfer_start d =
    pure (codes "Internal" ∷ codes "Transfer" ∷ [])
transaction_lines sdk bech32 ux_step_internal_transfer_info d =
    pure (codes "Info: All coins " ∷ codes "remain on the wallet" ∷ [])
transaction_lines sdk bech32 _ d = pure []

-- flow_user_confirm_new_address.c
abbrev pub new_address_lines : Target → Bech32 → UxStep → Device → Exec Scratch (List (List ℕ))
new_address_lines t bech32 ux_step_new_address d = prepared_lines (new_address_preinit t bech32 d)
new_address_lines t bech32 ux_step_na_bip32 d =
    titled_lines (codes "BIP32 Path") (cb_bip32_preinit d)
new_address_lines t bech32 ux_step_ok d = pure (codes "Ok" ∷ [])
new_address_lines t bech32 _ d = pure []

-- flow_user_confirm_blindsigning.c
abbrev pub blindsigning_lines : UxStep → Device → Exec Scratch (List (List ℕ))
blindsigning_lines ux_step_hash d = titled_lines (codes "Blind Signing") (cb_hash_preinit d)
blindsigning_lines ux_step_bs_accept d = pure (codes "Accept" ∷ [])
blindsigning_lines ux_step_bs_reject d = pure (codes "Reject" ∷ [])
blindsigning_lines ux_step_bs_not_enabled d =
    pure (codes "Blind Signing" ∷ codes "not enabled!" ∷ [])
blindsigning_lines _ d = pure []

-- flow_main_menu.c
abbrev pub main_menu_lines : App → List ℕ → UxStep → Device → Exec Scratch (List (List ℕ))
main_menu_lines app appversion ux_idle_flow_1_step d = pure (app_name app ∷ [])
main_menu_lines app appversion ux_idle_flow_2_step d = pure (codes "Version" ∷ appversion ∷ [])
main_menu_lines app appversion ux_settings d = pure (codes "Settings" ∷ [])
main_menu_lines app appversion ux_idle_flow_3_step d = pure (codes "Quit" ∷ [])
main_menu_lines app appversion ux_step_toggle_blindsigning d =
    pure (codes "Blind Signing" ∷ cb_settings_preinit d ∷ [])
main_menu_lines app appversion ux_step_settings_back d = pure (codes "Back" ∷ [])
main_menu_lines app appversion _ d = pure []

-- flow_generating_addresses.c
abbrev pub generating_addresses_lines : Exec Scratch (List (List ℕ))
generating_addresses_lines = pure (codes "Generating" ∷ codes "Addresses ..." ∷ [])

-- flow_signing.c
abbrev pub signing_lines : Exec Scratch (List (List ℕ))
signing_lines = pure (codes "Signing ..." ∷ [])

-- The lines that a step shows, for the version `appversion`.
unfoldable pub lines_of :
    App → Target → Sdk → Bech32 → List ℕ → UxStep → Device → Exec Scratch (List (List ℕ))
lines_of app t sdk bech32 appversion ux_step_new_address d =
    new_address_lines t bech32 ux_step_new_address d
lines_of app t sdk bech32 appversion ux_step_na_bip32 d =
    new_address_lines t bech32 ux_step_na_bip32 d
lines_of app t sdk bech32 appversion ux_step_ok d = new_address_lines t bech32 ux_step_ok d
lines_of app t sdk bech32 appversion ux_step_hash d = blindsigning_lines ux_step_hash d
lines_of app t sdk bech32 appversion ux_step_bs_accept d = blindsigning_lines ux_step_bs_accept d
lines_of app t sdk bech32 appversion ux_step_bs_reject d = blindsigning_lines ux_step_bs_reject d
lines_of app t sdk bech32 appversion ux_step_bs_not_enabled d =
    blindsigning_lines ux_step_bs_not_enabled d
lines_of app t sdk bech32 appversion ux_idle_flow_1_step d =
    main_menu_lines app appversion ux_idle_flow_1_step d
lines_of app t sdk bech32 appversion ux_idle_flow_2_step d =
    main_menu_lines app appversion ux_idle_flow_2_step d
lines_of app t sdk bech32 appversion ux_settings d = main_menu_lines app appversion ux_settings d
lines_of app t sdk bech32 appversion ux_idle_flow_3_step d =
    main_menu_lines app appversion ux_idle_flow_3_step d
lines_of app t sdk bech32 appversion ux_step_toggle_blindsigning d =
    main_menu_lines app appversion ux_step_toggle_blindsigning d
lines_of app t sdk bech32 appversion ux_step_settings_back d =
    main_menu_lines app appversion ux_step_settings_back d
lines_of app t sdk bech32 appversion ux_generating_addresses d = generating_addresses_lines
lines_of app t sdk bech32 appversion ux_signing d = signing_lines
lines_of app t sdk bech32 appversion s d = transaction_lines sdk bech32 s d

-- A step among these gives rise to the event.
abbrev pub Gives : Event → List UxStep → Type 0
Gives e [] = ⊥
Gives e (s ∷ steps) = (event_of s ≡ some e) ⊎ Gives e steps

abbrev is_unprepared : Event → Bool
is_unprepared (unprepared e) = true
is_unprepared _ = false

-- Apart from the exceptions of texts, a flow offers an event exactly if it is the ticker's, or one of
-- the steps of the flow gives rise to it.
offers_lem :
    (f : Flow) (e : Event)
    → is_unprepared e ≡ false
    → (offers f e ≡ true) ↔ ((e ≡ ticker) ⊎ Gives e (steps_of f))
offers_lem ux_main_menu e h = ground arith
offers_lem ux_flow_settings e h = ground arith
offers_lem ux_flow_generating_addresses e h = ground arith
offers_lem ux_flow_signing e h = ground arith
offers_lem ux_flow_new_address e h = ground arith
offers_lem ux_flow_base e h = ground arith
offers_lem ux_flow_has_accept_reject e h = ground arith
offers_lem ux_flow_smr_claiming_start e h = ground arith
offers_lem ux_flow_internal_transfer e h = ground arith
offers_lem ux_flow_blindsigning e h = ground arith
offers_lem ux_flow_bs_not_enabled e h = ground arith

-- The lines under which the user accepts or refuses.
abbrev IsAcceptLabel : List (List ℕ) → Type 0
IsAcceptLabel lines = (lines ≡ codes "Accept" ∷ []) ⊎ (lines ≡ codes "Ok" ∷ [])

pub accept_label :
    (app : App) (t : Target) (sdk : Sdk) (bech32 : Bech32) (appversion : List ℕ) (s : UxStep)
    (d : Device) (scratch : Scratch)
    → event_of s ≡ some accept
    → (lines : List (List ℕ)) × (lines_of app t sdk bech32 appversion s d scratch
        ≡ (ok lines, scratch))
      × IsAcceptLabel lines
unfolding lines_of
accept_label app t sdk bech32 appversion ux_step_accept d scratch h = (_, refl, inl refl)
accept_label app t sdk bech32 appversion ux_step_ok d scratch h = (_, refl, inr refl)
accept_label app t sdk bech32 appversion ux_step_bs_accept d scratch h = (_, refl, inl refl)
accept_label app t sdk bech32 appversion s d scratch h = ground arith
