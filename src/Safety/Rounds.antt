-- ===== src/Safety/Rounds.antt =====
-- The loop of src/main.c answers every packet, and the context stays sound from the start of the app.
use ledger_iota_app.Prelude.{
  ℕ, ◌≡◌, ◌≤◌, refl, Bool, List, arith, not, ◌&&◌, AreBytes, All-drop, IsByte, inl, inr, ◌⊎◌,
  if◌then◌else◌, Bool-cases,
}
use ledger_iota_app.Exec.{Result, ok, fail, thrown, fault}
use ledger_iota_app.Constants.{Build}
use ledger_iota_app.Sdk.{Sdk}
use ledger_iota_app.Device.{Device, io_send}
use ledger_iota_app.Api.Core.{Answer, answered, app_mode_init}
use ledger_iota_app.Api.Core.Account.{app_mode_init-IsMode}
use ledger_iota_app.Main.{
  Apdu, Instruction, instruction_of, switch, iota_dispatch, handle, catch_other, caught, round,
  read_apdu, sizeof_apdu_header, allowed_when_locked,
}
use ledger_iota_app.Safety.{IsSound, IsSdk, EndsSound, Resets}
use ledger_iota_app.Safety.Commands.{
  initialize-IsSound, reset_ends, set_account_ends, clear_data_buffer_ends, write_data_block_ends,
  read_data_block_ends, get_data_buffer_state_ends, get_app_config_ends, show_flow_ends,
  dump_memory_ends, set_non_interactive_mode_ends,
}
use ledger_iota_app.Safety.Signing.{user_confirm_essence_ends, sign_ends}
use ledger_iota_app.Safety.Addresses.{generate_address_ends}
use ledger_iota_app.Safety.Preparing.{prepare_signing_ends, prepare_blindsigning_ends}

pub switch_ends :
    (b : Build) (sdk : Sdk) (i : Instruction) (a : Apdu) (l : Bool) (d : Device)
    → IsSdk sdk
    → AreBytes a.input_data
    → IsSound b d.api
    → EndsSound b (switch b sdk i a l d)
unfolding switch
switch_ends b sdk Instruction.none a l d k are s = s
switch_ends b sdk Instruction.get_app_config a l d k are s =
    get_app_config_ends b sdk (if l then 1 else 0) d s
switch_ends b sdk Instruction.set_account a l d k are s = set_account_ends b sdk a.p1 a.input_data d
switch_ends b sdk Instruction.reset a l d k are s = reset_ends b sdk d
switch_ends b sdk Instruction.write_data_block a l d k are s =
    write_data_block_ends b sdk a.p1 a.input_data d are s
switch_ends b sdk Instruction.prepare_signing a l d k are s =
    prepare_signing_ends b sdk a.p2 a.input_data d s
switch_ends b sdk Instruction.prepare_blindsigning a l d k are s =
    prepare_blindsigning_ends b sdk d s
switch_ends b sdk Instruction.generate_address a l d k are s =
    generate_address_ends b sdk a.p1 a.input_data d k s
switch_ends b sdk Instruction.get_data_buffer_state a l d k are s =
    get_data_buffer_state_ends b sdk d s
switch_ends b sdk Instruction.clear_data_buffer a l d k are s = clear_data_buffer_ends b sdk d s
switch_ends b sdk Instruction.user_confirm_essence a l d k are s =
    user_confirm_essence_ends b sdk d s
switch_ends b sdk Instruction.sign_single a l d k are s = sign_ends b sdk a.p1 d s
switch_ends b sdk Instruction.read_data_block a l d k are s = read_data_block_ends b sdk a.p1 d s
switch_ends b sdk Instruction.show_flow a l d k are s = show_flow_ends b sdk d s
switch_ends b sdk Instruction.dump_memory a l d k are s = dump_memory_ends b sdk a.p1 d s
switch_ends b sdk Instruction.set_non_interactive_mode a l d k are s =
    set_non_interactive_mode_ends b sdk a.p1 d s
switch_ends b sdk Instruction.unknown a l d k are s = omega arith

-- The outcome of the `TRY` block: a sound context, or an exception that resets it.
abbrev Handled : Build → Result Answer × Device → Type 0
Handled b (ok a, d) = IsSound b d.api
Handled b (fail, d) = ⊥
Handled b (thrown e, d) = Resets e ⊎ IsSound b d.api
Handled b (fault, d) = ⊥

Ends-Handled : (b : Build) (o : Result Answer × Device) → EndsSound b o → Handled b o
Ends-Handled b (ok a, d) h = h
Ends-Handled b (fail, d) h = h
Ends-Handled b (thrown e, d) h = inl h
Ends-Handled b (fault, d) h = h

dispatch-Handled :
    (b : Build) (sdk : Sdk) (a : Apdu) (l : Bool) (d : Device)
    → IsSdk sdk
    → AreBytes a.input_data
    → IsSound b d.api
    → Handled b (iota_dispatch b sdk a l d)
unfolding iota_dispatch
dispatch-Handled b sdk a l d k are s = elim (Bool-cases (l && not (allowed_when_locked a.ins))) [
  | inl locked ↦ rw locked (inr s)
  | inr free ↦ rw free (Ends-Handled b _ (switch_ends b sdk (instruction_of b a.ins) a l d k are s))
]

handle-Handled :
    (b : Build) (sdk : Sdk) (packet : List ℕ) (l : Bool) (d : Device)
    → IsSdk sdk
    → AreBytes packet
    → IsSound b d.api
    → Handled b (handle b sdk packet l d)
unfolding handle read_apdu
handle-Handled b sdk packet l d k are s =
    let inner =
      dispatch-Handled b sdk (read_apdu packet) l d k
        (All-drop IsByte sizeof_apdu_header packet are) s in
    ground arith

-- After an exception, the answer is sent and the context is sound.
pub catch_other-IsSound :
    (b : Build) (sdk : Sdk) (e : ℕ) (d : Device)
    → 2 ≤ sdk.io_apdu_buffer_size
    → Resets e ⊎ IsSound b d.api
    → let (r, d') = catch_other b sdk e d in (r ≡ ok tt) × IsSound b d'.api
unfolding catch_other io_send
catch_other-IsSound b sdk e d room h =
    let init = initialize-IsSound b (app_mode_init b.app) 0 d (app_mode_init-IsMode b.app) in
    ground arith

caught-IsSound :
    (b : Build) (sdk : Sdk) (o : Result Answer × Device)
    → 2 ≤ sdk.io_apdu_buffer_size
    → Handled b o
    → let (r, d') = caught b sdk o.0 o.1 in ((a : Answer) × (r ≡ ok a)) × IsSound b d'.api
unfolding caught
caught-IsSound b sdk (ok a, d) room h = ((a, refl), h)
caught-IsSound b sdk (fail, d) room h = elim h [ ]
caught-IsSound b sdk (thrown e, d) room h =
    let c = catch_other-IsSound b sdk e d room h in ((answered, ground arith), ground arith)
caught-IsSound b sdk (fault, d) room h = elim h [ ]

pub round_lem :
    (b : Build) (sdk : Sdk) (packet : List ℕ) (l : Bool) (d : Device)
    → 2 ≤ sdk.io_apdu_buffer_size
    → IsSdk sdk
    → AreBytes packet
    → IsSound b d.api
    → let (r, d') = round b sdk packet l d in ((a : Answer) × (r ≡ ok a)) × IsSound b d'.api
unfolding round
round_lem b sdk packet l d room k are s =
    caught-IsSound b sdk (handle b sdk packet l d) room (handle-Handled b sdk packet l d k are s)
