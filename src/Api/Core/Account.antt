-- ===== src/Api/Core/Account.antt =====
-- The accounts that `api_set_account` of src/api.c can choose.
use ledger_iota_app.Prelude.{
  ℕ, ◌≡◌, ◌≢◌, ◌<◌, ◌⊎◌, ◌%◌, ◌≤◌, inl, inr, refl, true, false, ltb, le, ◌==◌, test_bit, none, some,
  List, [], ◌∷◌, arith, if◌then◌else◌, length, Bool-cases,
}
use ledger_iota_app.Exec.{ok, thrown}
use ledger_iota_app.Constants.{Build, App, app_iota, app_shimmer}
use ledger_iota_app.Constants.Status
use ledger_iota_app.Types.{empty, wiped}
use ledger_iota_app.Sdk.{Sdk}
use ledger_iota_app.Device.{Device, io_send}
use ledger_iota_app.Api.Core.{
  answered, api_initialize, api_set_account, choose_coin, with_coin, app_mode_init,
}

-- The modes of each app, without the testnet bit.
pub IsMode : App → ℕ → Type 0
IsMode app_iota m = m ≡ 1
IsMode app_shimmer m = (m ≡ 2) ⊎ (m ≡ 3)

pub app_mode_init-IsMode : (app : App) → IsMode app (app_mode_init app % 128)
unfolding IsMode
app_mode_init-IsMode app_iota = omega arith
app_mode_init-IsMode app_shimmer = inr (omega arith)

-- The coin in the path: the testnet's, or that of the mode.
pub path_coin : ℕ → ℕ
path_coin mode =
    if test_bit mode 7 then 0x80000001 else if mode % 128 == 3 then 0x8000107b else 0x8000107a

-- Four bytes with a hardened account, and a mode of the app.
abbrev pub MaySetAccount : Build → ℕ → List ℕ → Type 0
MaySetAccount b mode bytes =
    (length bytes ≡ 4) × IsMode b.app (mode % 128) × (test_bit (le bytes) 31 ≡ true)

-- What a refusal is answered with, by the first test that fails: data that are not four bytes, a mode
-- that no app has, an account that is not hardened, a mode of another app.
abbrev pub RefusedWith : Build → ℕ → List ℕ → ℕ → Type 0
RefusedWith b mode bytes e =
    ((length bytes ≢ 4) × (e ≡ Status.incorrect_length))
    ⊎ ((length bytes ≡ 4) × (3 < mode % 128) × (e ≡ Status.incorrect_p1p2))
    ⊎ ((length bytes ≡ 4)
        × (mode % 128 ≤ 3)
        × (test_bit (le bytes) 31 ≡ false)
        × (e ≡ Status.command_invalid_data))
    ⊎ ((length bytes ≡ 4)
        × (mode % 128 ≤ 3)
        × (test_bit (le bytes) 31 ≡ true)
        × ¬ (IsMode b.app (mode % 128))
        × (e ≡ Status.account_not_valid))

pub choose_coin_lem :
    (app : App) (m : ℕ)
    → (IsMode app m
        × (choose_coin app m
            ≡ some
                (with_coin (if m == 3 then 0x8000107b else 0x8000107a) (if m == 1 then 0 else 1))))
      ⊎ (¬ (IsMode app m) × (choose_coin app m ≡ none))
unfolding IsMode
choose_coin_lem app_iota m = ground arith
choose_coin_lem app_shimmer m = ground arith

IsMode-le : (app : App) (m : ℕ) → IsMode app m → m ≤ 3
unfolding IsMode
IsMode-le app_iota m h = omega (arith, h)
IsMode-le app_shimmer m h = ground arith

pub initialize_lem :
    (b : Build) (mode account : ℕ) (d : Device)
    → let (r, d') = api_initialize b mode account d in
      (IsMode b.app (mode % 128)
        × (r ≡ ok tt)
        × (d'.api.bip32_path ≡ 0x8000002c ∷ path_coin mode ∷ account ∷ 0 ∷ 0 ∷ [])
        × (d'.api.app_mode ≡ mode)
        × (d'.api.api_data.type ≡ empty))
      ⊎ (¬ (IsMode b.app (mode % 128)) × (r ≡ thrown Status.account_not_valid))
unfolding api_initialize wiped path_coin
initialize_lem b mode account d = let coin = choose_coin_lem b.app (mode % 128) in ground arith

sent_lem :
    (sdk : Sdk) (d : Device)
    → 2 ≤ sdk.io_apdu_buffer_size
    → let (r, d') = io_send sdk [] Status.ok d in (r ≡ ok tt) × (d'.api ≡ d.api)
unfolding io_send
sent_lem sdk d room = ground arith

module _ (b : Build) (sdk : Sdk) (mode : ℕ) (bytes : List ℕ) (d : Device) where
  -- With room for a status word, the command succeeds exactly for four bytes with a hardened
  -- account and a mode of the app; then the path is that of the account with its coin, the mode is
  -- stored and the buffer is empty. Otherwise it throws the code of the first test that fails: for data
  -- that are not four bytes, a mode that no app has, an account that is not hardened, and a mode of
  -- another app.
  pub set_account_lem :
      2 ≤ sdk.io_apdu_buffer_size
      → let (r, d') = api_set_account b sdk mode bytes d in
        (MaySetAccount b mode bytes
          × (r ≡ ok answered)
          × (d'.api.bip32_path ≡ 0x8000002c ∷ path_coin mode ∷ le bytes ∷ 0 ∷ 0 ∷ [])
          × (d'.api.app_mode ≡ mode)
          × (d'.api.api_data.type ≡ empty))
        ⊎ (¬ (MaySetAccount b mode bytes) × ((e : ℕ) × RefusedWith b mode bytes e × (r ≡ thrown e)))
  unfolding api_set_account
  set_account_lem room =
      let few = IsMode-le b.app (mode % 128) in
      let sent = sent_lem sdk (api_initialize b mode (le bytes) d).1 room in
      elim (Bool-cases (length bytes == 4)) [
        | inr no' ↦ inr (
          (λ may. ground arith),
          (Status.incorrect_length, inl (ground arith, refl), rw no' refl),
        )
        | inl four ↦ elim (Bool-cases (ltb 3 (mode % 128))) [
          | inl many ↦
              inr
                ((λ may. ground arith), (Status.incorrect_p1p2, ground arith, rw (four, many) refl))
          | inr few' ↦ elim (Bool-cases (test_bit (le bytes) 31)) [
            | inr soft ↦ inr (
              (λ may. let hard = may.2 in cc),
              (Status.command_invalid_data, ground arith, rw (four, few', soft) refl),
            )
            | inl hard ↦ elim (initialize_lem b mode (le bytes) d) [
              | inl (m, e, path, mode', ty) ↦ inl (
                (ground arith, m, hard),
                rw (four, few', hard, e, sent.0) refl,
                rw (four, few', hard, e, sent.0, sent.1) path,
                rw (four, few', hard, e, sent.0, sent.1) mode',
                rw (four, few', hard, e, sent.0, sent.1) ty,
              )
              | inr (bad, thrown') ↦ inr (
                (λ may. bad may.1),
                (
                  Status.account_not_valid,
                  inr (inr (inr (ground arith, ground arith, hard, bad, refl))),
                  rw (four, few', hard, thrown') refl,
                ),
              )
            ]
          ]
        ]
      ]
