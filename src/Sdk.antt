-- ===== src/Sdk.antt =====
-- What the app asks of the secure element's library, whose code is not in the repository. `none`
-- is any result but `CX_OK`.
use ledger_iota_app.Prelude.{ℕ, List, Option}

pub record Sdk : Type 0 where
  -- `bip32_derive_with_seed_get_pubkey_256` at a path: the 65 bytes of the raw public key
  pub get_pubkey : List ℕ → Option (List ℕ)
  -- `bip32_derive_with_seed_eddsa_sign_hash_256` at a path, of a hash: the signature, whose length
  -- the call reports in `signature_length`
  pub sign_hash : List ℕ → List ℕ → Option (List ℕ)
  -- `cx_blake2b_init_no_throw` for 32 bytes, then `cx_hash_no_throw` over some bytes
  pub blake2b : List ℕ → Option (List ℕ)
  -- `IO_APDU_BUFFER_SIZE`
  pub io_apdu_buffer_size : ℕ
  -- 128 bytes of memory at an address, for the debug build
  pub read_memory : ℕ → List ℕ
  -- `INVALID_PARAMETER`, an exception
  pub invalid_parameter : ℕ
