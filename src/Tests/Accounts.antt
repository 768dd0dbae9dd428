-- ===== src/Tests/Accounts.antt =====
-- The theorems on accounts and on refusals, on a device.
use ledger_iota_app.Prelude.{ℕ, ◌≡◌, ◌≢◌, ◌↔◌, ◌⊎◌, refl, true, [], ◌∷◌, none, some, le, arith}
use ledger_iota_app.Exec.{ok, thrown}
use ledger_iota_app.Constants.Status
use ledger_iota_app.Types.{empty}
use ledger_iota_app.Device.{Device, api_user_confirm_essence_rejected}
use ledger_iota_app.Ui.{flow_start_blindsigning}
use ledger_iota_app.Ui.Events.{accept, offers, cb_reject}
use ledger_iota_app.Ui.Acceptance.{IsDropped, reject_lem, blindsigning_offers_lem}
use ledger_iota_app.Api.Core.{answered, api_set_account}
use ledger_iota_app.Api.Core.Account.{MaySetAccount, RefusedWith, path_coin, set_account_lem}
use ledger_iota_app.Tests.{build, sdk, device, hardened_zero}

abbrev refusing : Device
refusing = record device {
  flow_data = record device.flow_data { reject_cb = some api_user_confirm_essence_rejected };
}

reject_example : IsDropped build Status.denied_by_user refusing (cb_reject build sdk refusing).1
reject_example = reject_lem build sdk refusing (omega arith) refl refl

blindsigning_offers_example :
    (offers (flow_start_blindsigning none none none device).screen accept ≡ true)
    ↔ (device.nv.blindsigning ≢ 0)
blindsigning_offers_example = blindsigning_offers_lem none none none device

set_account_example :
    (MaySetAccount build 0x83 hardened_zero
      × ((api_set_account build sdk 0x83 hardened_zero device).0 ≡ ok answered)
      × ((api_set_account build sdk 0x83 hardened_zero device).1.api.bip32_path
          ≡ 0x8000002c ∷ path_coin 0x83 ∷ le hardened_zero ∷ 0 ∷ 0 ∷ [])
      × ((api_set_account build sdk 0x83 hardened_zero device).1.api.app_mode ≡ 0x83)
      × ((api_set_account build sdk 0x83 hardened_zero device).1.api.api_data.type ≡ empty))
    ⊎ (¬ (MaySetAccount build 0x83 hardened_zero)
        × ((e : ℕ) × RefusedWith build 0x83 hardened_zero e
            × ((api_set_account build sdk 0x83 hardened_zero device).0 ≡ thrown e)))
set_account_example = set_account_lem build sdk 0x83 hardened_zero device (omega arith)
