-- ===== src/Api/Core.antt =====
-- The context of src/api.c: wiping it, and choosing the account.
pub mod Account
use ledger_iota_app.Prelude.{
  ℕ, ◌%◌, not, Option, none, some, List, [], le, set, get_or, length, ltb, ◌==◌, test_bit,
  if◌then◌else◌,
}
use ledger_iota_app.Exec.{Exec, ◌>>=◌, ◌>>◌, pure, throw, gets, throw_if}
use ledger_iota_app.Constants.{Build, App, app_iota, app_shimmer}
use ledger_iota_app.Constants.Status
use ledger_iota_app.Constants.Bip32
use ledger_iota_app.Constants.AppMode
use ledger_iota_app.Types.{ApiCtx, wiped}
use ledger_iota_app.Sdk.{Sdk}
use ledger_iota_app.Device.{Device, modify_api, io_send}

pub data Answer : Type 0 where
  -- the command has answered
  answered : Answer
  -- the answer is left to a flow
  io_asynch_reply : Answer

-- A write to one place of the BIP32 path.
abbrev pub set_path : ℕ → ℕ → ApiCtx → ApiCtx
set_path i v c = record c { bip32_path = set c.bip32_path i v }

abbrev pub with_coin : ℕ → ℕ → ApiCtx → ApiCtx
with_coin path_coin coin c = record c {
  bip32_path = set c.bip32_path Bip32.coin_index path_coin;
  protocol = AppMode.protocol_stardust;
  coin = coin;
}

abbrev pub app_mode_init : App → ℕ
app_mode_init app_iota = AppMode.iota_stardust
app_mode_init app_shimmer = AppMode.shimmer

-- The `switch` of `api_initialize`, at the mode without its testnet bit; `none` is its `default`.
abbrev pub choose_coin : App → ℕ → Option (ApiCtx → ApiCtx)
choose_coin app_iota mode =
    if mode == AppMode.iota_stardust
    then some (with_coin Bip32.coin_iota AppMode.coin_iota)
    else none
choose_coin app_shimmer mode =
    if mode == AppMode.shimmer_claiming
    then some (with_coin Bip32.coin_iota AppMode.coin_shimmer)
    else if mode == AppMode.shimmer
    then some (with_coin Bip32.coin_shimmer AppMode.coin_shimmer)
    else none

-- What follows the `switch`.
abbrev pub set_mode : ℕ → ℕ → ApiCtx → ApiCtx
set_mode app_mode account_index c =
    let coined =
      if test_bit app_mode 7 then set_path Bip32.coin_index Bip32.coin_testnet c else c in
    record (set_path Bip32.account_index account_index coined) { app_mode = app_mode }

unfoldable pub api_initialize : Build → ℕ → ℕ → Exec Device (Unit {0})
api_initialize b app_mode account_index = do
  modify_api (λ c. set_path 0 0x8000002c (wiped b.target))
  elim (choose_coin b.app (app_mode % 128)) [
    | none ↦ throw Status.account_not_valid
    | some f ↦ modify_api (λ c. set_mode app_mode account_index (f c))
  ]

-- `ui_reset` does nothing.
unfoldable pub api_reset : Build → Sdk → Exec Device Answer
api_reset b sdk = do
  api_initialize b (app_mode_init b.app) 0
  io_send sdk [] Status.ok
  pure answered

unfoldable pub api_clear_data : Build → Exec Device (Unit {0})
api_clear_data b = do
  api ← gets (λ d. d.api)
  api_initialize b api.app_mode (get_or api.bip32_path Bip32.account_index 0)
  modify_api
      (λ c. if b.app_debug then record c { non_interactive_mode = api.non_interactive_mode } else c)

unfoldable pub api_set_account : Build → Sdk → ℕ → List ℕ → Exec Device Answer
api_set_account b sdk app_mode bytes = do
  throw_if (not (length bytes == 4)) Status.incorrect_length
  throw_if (ltb AppMode.shimmer (app_mode % 128)) Status.incorrect_p1p2
  let tmp_bip32_account = le bytes
  throw_if (not (test_bit tmp_bip32_account 31)) Status.command_invalid_data
  api_initialize b app_mode tmp_bip32_account
  io_send sdk [] Status.ok
  pure answered
