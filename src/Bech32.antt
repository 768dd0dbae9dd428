-- ===== src/Bech32.antt =====
-- What src/iota/address.c asks of src/iota/bech32.c, a copy of the reference coder: its two entry
-- points, as a parameter. `none` is a return value of 0.
use ledger_iota_app.Prelude.{ℕ, List, Option}

pub record Bech32 : Type 0 where
  -- the groups of five bits of some bytes
  pub base32_encode : List ℕ → Option (List ℕ)
  -- the text for a prefix and groups of five bits, in a buffer of some size
  pub bech32_encode : ℕ → List ℕ → List ℕ → Option (List ℕ)
