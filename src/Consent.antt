-- ===== src/Consent.antt =====
-- A signature needs the consent of the user: which steps lead to a confirmed essence.
pub mod Commands
pub mod Rounds
pub mod Trace
pub mod Signature
use ledger_iota_app.Prelude.{◌≡◌, ◌≢◌, ◌⊎◌}
use ledger_iota_app.Types.{ApiCtx, ApiData, DataType, user_confirmed_essence}
use ledger_iota_app.Device.{Device}

-- What a signature is made of is as it was.
pub record SameContent (c c' : ApiCtx) : Type 0 where
  pub same_type : c'.api_data.type ≡ c.api_data.type
  pub same_essence : c'.essence ≡ c.essence
  pub same_buffer : c'.api_data.buffer ≡ c.api_data.buffer

-- A step that confirms nothing: behind it no essence is confirmed, or the content is as it was.
abbrev pub Quiet : ApiCtx → ApiCtx → Type 0
Quiet c c' = (c'.api_data.type ≢ user_confirmed_essence) ⊎ SameContent c c'
