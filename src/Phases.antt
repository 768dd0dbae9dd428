-- ===== src/Phases.antt =====
-- The data buffer as a state machine: what a packet may do to the type of the data, as the comments
-- of src/api.c describe it.
pub mod Commands
pub mod Rounds
use ledger_iota_app.Prelude.{ℕ, ◌≡◌, ◌⊎◌, Bool, true, List, some}
use ledger_iota_app.Constants.{Build}
use ledger_iota_app.Types.{
  ApiCtx, ApiData, DataType, empty, generated_addresses, validated_essence, user_confirmed_essence,
  locked,
}
use ledger_iota_app.Sdk.{Sdk}
use ledger_iota_app.Device.{
  Device, api_generate_address_accepted, api_user_confirm_essence_accepted,
}
use ledger_iota_app.Ui.Events.{Event, accept, offers, ui_event}
use ledger_iota_app.Main.{round}
use ledger_iota_app.Consent.{SameContent}
use ledger_iota_app.Consent.Trace.{Step, packet, event, Kept}

-- A buffer that a command has filled or checked, or that waits for the user.
abbrev pub IsPrepared : DataType → Type 0
IsPrepared t = (t ≡ generated_addresses) ⊎ (t ≡ validated_essence) ⊎ (t ≡ locked)

-- What the accepted flow asked for, and the type that it leads to.
abbrev pub AcceptedAs : Device → DataType → Type 0
AcceptedAs d t =
    ((d.flow_data.accept_cb ≡ some api_user_confirm_essence_accepted)
      × (t ≡ user_confirmed_essence))
    ⊎ ((d.flow_data.accept_cb ≡ some api_generate_address_accepted) × (t ≡ generated_addresses))

-- The moves that a step of the app may make.
pub data Move (b : Build) (sdk : Sdk) (d : Device) : (d' : Device) → Step b sdk d d' → Type 0 where
  -- the type, the essence and the buffer stay
  keep : {d' : Device} (s : Step b sdk d d') → SameContent d.api d'.api → Move b sdk d d' s
  -- the buffer is free afterwards: it was wiped, or it was free and is written to
  free : {d' : Device} (s : Step b sdk d d') → d'.api.api_data.type ≡ empty → Move b sdk d d' s
  -- a packet fills or checks a buffer that was free
  prepare :
      (bytes : List ℕ) (l : Bool)
      → d.api.api_data.type ≡ empty
      → IsPrepared (round b sdk bytes l d).1.api.api_data.type
      → Move b sdk d (round b sdk bytes l d).1 (packet bytes l)
  -- the user presses a step to accept that is on the screen, in a flow that asks for it
  accepted :
      (e : Event)
      → e ≡ accept
      → offers d.screen accept ≡ true
      → Kept d.api (ui_event b sdk e d).1.api
      → AcceptedAs d (ui_event b sdk e d).1.api.api_data.type
      → Move b sdk d (ui_event b sdk e d).1 (event e)
