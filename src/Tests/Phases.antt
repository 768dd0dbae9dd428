-- ===== src/Tests/Phases.antt =====
-- The theorems on the moves of the data buffer, on a device whose user accepts an address.
use ledger_iota_app.Prelude.{refl, some}
use ledger_iota_app.Device.{Device, ux_flow_new_address, api_generate_address_accepted}
use ledger_iota_app.Types.{locked}
use ledger_iota_app.Ui.Events.{accept, ui_event}
use ledger_iota_app.Consent.Trace.{Reach, event, stay, go}
use ledger_iota_app.Phases.{Move}
use ledger_iota_app.Phases.Rounds.{Frozen, Step-Move, Reach-Frozen}
use ledger_iota_app.Tests.{build, sdk, context, device}

-- A device that shows an address.
abbrev acknowledging : Device
acknowledging = record device {
  api = record context { api_data = record context.api_data { type = locked } };
  flow_data = record device.flow_data {
    accept_cb = some api_generate_address_accepted;
    flow_active = 1;
  };
  screen = ux_flow_new_address;
}

Step-Move_example :
    Move build sdk acknowledging (ui_event build sdk accept acknowledging).1 (event accept)
Step-Move_example = Step-Move build sdk acknowledging _ refl (event accept)

-- The user accepts, and the address is on the device.
abbrev acknowledged_run : Reach build sdk acknowledging (ui_event build sdk accept acknowledging).1
acknowledged_run = go stay (event accept)

Reach-Frozen_example : Frozen build sdk acknowledging _ acknowledged_run
Reach-Frozen_example = Reach-Frozen build sdk acknowledging _ refl acknowledged_run
