-- ===== src/Phases/Rounds.antt =====
-- Every step of a run is a move of the state machine, and what was checked stays as it was.
use ledger_iota_app.Prelude.{
  ℕ, ◌≡◌, ◌⊎◌, inl, inr, refl, ◌∙◌, Bool, true, false, List, arith, if◌then◌else◌, Bool-cases,
}
use ledger_iota_app.Exec.{Result, thrown}
use ledger_iota_app.Constants.{Build}
use ledger_iota_app.Types.{ApiCtx, empty}
use ledger_iota_app.Sdk.{Sdk}
use ledger_iota_app.Device.{Device, io_send}
use ledger_iota_app.Api.Core.{Answer, app_mode_init}
use ledger_iota_app.Api.Confirm.{call_accept, call_reject, call_timeout}
use ledger_iota_app.Ui.Events.{
  Event, accept, reject, switch, next_dataset, prev_dataset, back, continue_claiming,
  settings_enter, toggle_blindsigning, settings_back, ticker, shown, unprepared, offers, cb_accept,
  cb_reject, cb_switch, cb_next_dataset, cb_prev_dataset, expire, flow_timer_event, timer_event,
  run_event, ui_event,
}
use ledger_iota_app.Main.{
  Apdu, Instruction, instruction_of, iota_dispatch, handle, catch_other, reset_unless, caught,
  round, read_apdu,
}
use ledger_iota_app.Consent.Commands.{Asks, api_initialize_empties, clear_data_empties, api_sent}
use ledger_iota_app.Consent.Trace.{Kept, Reach, stay, go, packet, event, Step}
use ledger_iota_app.Consent.{SameContent}
use ledger_iota_app.Phases.{Move, AcceptedAs, keep, free, prepare, accepted}
use ledger_iota_app.Phases.Commands.{
  Moves, write_data_block-Moves, read_data_block-Moves, get_data_buffer_state-Moves,
  get_app_config-Moves, show_flow-Moves, reset-Moves, set_account-Moves, clear_data_buffer-Moves,
  generate_address-Moves, prepare_signing-Moves, prepare_blindsigning-Moves,
  user_confirm_essence-Moves, sign-Moves, dump_memory-Moves, set_non_interactive_mode-Moves,
}

Moves-refl : (c : ApiCtx) → Moves c c
Moves-refl c = inl (record { same_type = refl; same_essence = refl; same_buffer = refl })

switch-Moves :
    (b : Build) (sdk : Sdk) (i : Instruction) (a : Apdu) (l : Bool) (d : Device)
    → Asks b d.api
    → Moves d.api (ledger_iota_app.Main.switch b sdk i a l d).1.api
unfolding ledger_iota_app.Main.switch
switch-Moves b sdk Instruction.none a l d h = Moves-refl d.api
switch-Moves b sdk Instruction.get_app_config a l d h =
    get_app_config-Moves b sdk (if l then 1 else 0) d
switch-Moves b sdk Instruction.set_account a l d h = set_account-Moves b sdk a.p1 a.input_data d
switch-Moves b sdk Instruction.reset a l d h = reset-Moves b sdk d
switch-Moves b sdk Instruction.write_data_block a l d h =
    write_data_block-Moves b sdk a.p1 a.input_data d
switch-Moves b sdk Instruction.prepare_signing a l d h =
    prepare_signing-Moves b sdk a.p2 a.input_data d
switch-Moves b sdk Instruction.prepare_blindsigning a l d h = prepare_blindsigning-Moves b sdk d
switch-Moves b sdk Instruction.generate_address a l d h =
    generate_address-Moves b sdk a.p1 a.input_data d
switch-Moves b sdk Instruction.get_data_buffer_state a l d h = get_data_buffer_state-Moves b sdk d
switch-Moves b sdk Instruction.clear_data_buffer a l d h = clear_data_buffer-Moves b sdk d
switch-Moves b sdk Instruction.user_confirm_essence a l d h = user_confirm_essence-Moves b sdk d h
switch-Moves b sdk Instruction.sign_single a l d h = sign-Moves b sdk a.p1 d
switch-Moves b sdk Instruction.read_data_block a l d h = read_data_block-Moves b sdk a.p1 d
switch-Moves b sdk Instruction.show_flow a l d h = show_flow-Moves sdk d
switch-Moves b sdk Instruction.dump_memory a l d h = dump_memory-Moves b sdk a.p1 d
switch-Moves b sdk Instruction.set_non_interactive_mode a l d h =
    set_non_interactive_mode-Moves sdk a.p1 d
switch-Moves b sdk Instruction.unknown a l d h = Moves-refl d.api

handle-Moves :
    (b : Build) (sdk : Sdk) (bytes : List ℕ) (l : Bool) (d : Device)
    → Asks b d.api
    → Moves d.api (handle b sdk bytes l d).1.api
unfolding handle iota_dispatch
handle-Moves b sdk bytes l d h =
    let inner =
      switch-Moves b sdk (instruction_of b (read_apdu bytes).ins) (read_apdu bytes) l d h in
    ground arith

-- What handling an exception does is a wipe, or nothing.
reset_unless-wipes :
    (b : Build) (keeps : Bool) (d : Device)
    → ((reset_unless b keeps d).1.api ≡ d.api)
      ⊎ ((reset_unless b keeps d).1.api.api_data.type ≡ empty)
reset_unless-wipes b true d = inl refl
reset_unless-wipes b false d = inr (api_initialize_empties b (app_mode_init b.app) 0 d)

catch_other-wipes :
    (b : Build) (sdk : Sdk) (e : ℕ) (d : Device)
    → ((catch_other b sdk e d).1.api ≡ d.api)
      ⊎ ((catch_other b sdk e d).1.api.api_data.type ≡ empty)
unfolding catch_other
catch_other-wipes b sdk e d = grind (arith, reset_unless-wipes, api_sent)

caught-wipes :
    (b : Build) (sdk : Sdk) (r : Result Answer) (d : Device)
    → ((caught b sdk r d).1.api ≡ d.api) ⊎ ((caught b sdk r d).1.api.api_data.type ≡ empty)
unfolding caught
caught-wipes b sdk (thrown e) d = let wipes = catch_other-wipes b sdk e d in ground arith
caught-wipes b sdk _ d = inl refl

round-Moves :
    (b : Build) (sdk : Sdk) (bytes : List ℕ) (l : Bool) (d : Device)
    → Asks b d.api
    → Moves d.api (round b sdk bytes l d).1.api
unfolding round
round-Moves b sdk bytes l d h =
    let (r, d') = handle b sdk bytes l d in
    let moved : Moves d.api d'.api = handle-Moves b sdk bytes l d h in
    elim (caught-wipes b sdk r d') [ inl same ↦ rw same moved | inr wiped ↦ inr (inl wiped) ]

-- What an event may do to the data: nothing, or free the buffer, or end a flow that asked for it.
abbrev Settles : ApiCtx → ApiCtx → Type 0
Settles c c' = SameContent c c' ⊎ (c'.api_data.type ≡ empty)

abbrev Acts : Device → Event → Device → Type 0
Acts d e d' =
    Settles d.api d'.api ⊎ ((e ≡ accept) × Kept d.api d'.api × AcceptedAs d d'.api.api_data.type)

Settles-refl : (c : ApiCtx) → Settles c c
Settles-refl c = inl (record { same_type = refl; same_essence = refl; same_buffer = refl })

accept-Acts : (sdk : Sdk) (d : Device) → Acts d accept (cb_accept sdk d).1
unfolding cb_accept call_accept io_send
accept-Acts sdk d = ground arith

reject-Settles : (b : Build) (sdk : Sdk) (d : Device) → Settles d.api (cb_reject b sdk d).1.api
unfolding cb_reject call_reject
reject-Settles b sdk d = grind (arith, clear_data_empties, api_sent)

timer_event-Settles :
    (b : Build) (sdk : Sdk) (d : Device) → Settles d.api (timer_event b sdk d).1.api
unfolding timer_event flow_timer_event expire call_timeout
timer_event-Settles b sdk d = grind (arith, clear_data_empties, api_sent)

catch_other-Settles :
    (b : Build) (sdk : Sdk) (e : ℕ) (d : Device) → Settles d.api (catch_other b sdk e d).1.api
catch_other-Settles b sdk e d = elim (catch_other-wipes b sdk e d) [
  | inl same ↦ rw same (Settles-refl d.api)
  | inr wiped ↦ inr wiped
]

run_event-Acts : (b : Build) (sdk : Sdk) (e : Event) (d : Device) → Acts d e (run_event b sdk e d).1
unfolding run_event cb_switch cb_next_dataset cb_prev_dataset
run_event-Acts b sdk accept d = accept-Acts sdk d
run_event-Acts b sdk reject d = inl (reject-Settles b sdk d)
run_event-Acts b sdk switch d = ground arith
run_event-Acts b sdk next_dataset d = ground arith
run_event-Acts b sdk prev_dataset d = ground arith
run_event-Acts b sdk back d = ground arith
run_event-Acts b sdk continue_claiming d = ground arith
run_event-Acts b sdk settings_enter d = ground arith
run_event-Acts b sdk toggle_blindsigning d = ground arith
run_event-Acts b sdk settings_back d = ground arith
run_event-Acts b sdk ticker d = inl (timer_event-Settles b sdk d)
run_event-Acts b sdk shown d = ground arith
run_event-Acts b sdk (unprepared e) d = inl (catch_other-Settles b sdk e d)

-- An event that the screen offers, or one that does nothing.
ui_event-Acts :
    (b : Build) (sdk : Sdk) (e : Event) (d : Device)
    → Settles d.api (ui_event b sdk e d).1.api
      ⊎ ((offers d.screen e ≡ true) × Acts d e (ui_event b sdk e d).1)
unfolding ui_event
ui_event-Acts b sdk e d = elim (Bool-cases (offers d.screen e)) [
  | inl on ↦ inr (on, rw on (run_event-Acts b sdk e d))
  | inr off ↦ inl (rw off (Settles-refl d.api))
]

Settles-Move :
    (b : Build) (sdk : Sdk) (d d' : Device) (s : Step b sdk d d')
    → Settles d.api d'.api
    → Move b sdk d d' s
Settles-Move b sdk d d' s (inl same) = keep s same
Settles-Move b sdk d d' s (inr is_free) = free s is_free

packet-Move :
    (b : Build) (sdk : Sdk) (bytes : List ℕ) (l : Bool) (d : Device)
    → Moves d.api (round b sdk bytes l d).1.api
    → Move b sdk d (round b sdk bytes l d).1 (packet bytes l)
packet-Move b sdk bytes l d (inl same) = keep (packet bytes l) same
packet-Move b sdk bytes l d (inr (inl is_free)) = free (packet bytes l) is_free
packet-Move b sdk bytes l d (inr (inr (was_free, prepared))) = prepare bytes l was_free prepared

event-Move :
    (b : Build) (sdk : Sdk) (e : Event) (d : Device)
    → Settles d.api (ui_event b sdk e d).1.api
      ⊎ ((offers d.screen e ≡ true) × Acts d e (ui_event b sdk e d).1)
    → Move b sdk d (ui_event b sdk e d).1 (event e)
event-Move b sdk e d (inl quiet) = Settles-Move b sdk d _ (event e) quiet
event-Move b sdk e d (inr (on, inl quiet)) = Settles-Move b sdk d _ (event e) quiet
event-Move b sdk e d (inr (on, inr (is, kept, to))) = accepted e is (rw is at on) kept to

-- In a build without the debug commands, every step is a move of the state machine: the type of the
-- data, the essence and the buffer stay; or the buffer is free afterwards; or the step is a packet,
-- and the buffer was free and is filled, checked or waiting for the user; or the step is the press on a
-- step to accept that is on the screen, the essence and the buffer stay, and the type becomes that of a
-- confirmed essence, in a flow that asks for this, or of generated addresses, in a flow that asks for
-- that.
pub Step-Move :
    (b : Build) (sdk : Sdk) (d d' : Device)
    → b.app_debug ≡ false
    → (s : Step b sdk d d') → Move b sdk d d' s
Step-Move b sdk d _ release (packet bytes l) =
    packet-Move b sdk bytes l d (round-Moves b sdk bytes l d (rw release refl))
Step-Move b sdk d _ release (event e) = event-Move b sdk e d (ui_event-Acts b sdk e d)

-- One of the states that a run goes through, its first and its last included, has a free buffer.
pub data Freed (b : Build) (sdk : Sdk) (start : Device)
    : (d : Device) → Reach b sdk start d → Type 0 where
  here :
      {d : Device} (r : Reach b sdk start d) → d.api.api_data.type ≡ empty → Freed b sdk start d r
  before :
      {d d' : Device} {r : Reach b sdk start d} (s : Step b sdk d d')
      → Freed b sdk start d r
      → Freed b sdk start d' (go r s)

-- The essence and the buffer are as they were, or the run went through a state with a free buffer.
abbrev pub Frozen : (b : Build) (sdk : Sdk) (start d : Device) → Reach b sdk start d → Type 0
Frozen b sdk start d r = Kept start.api d.api ⊎ Freed b sdk start d r

Frozen-Step :
    (b : Build) (sdk : Sdk) (start d d' : Device) (r : Reach b sdk start d) (s : Step b sdk d d')
    → Move b sdk d d' s
    → Frozen b sdk start d r
    → Frozen b sdk start d' (go r s)
Frozen-Step b sdk start d d' r s m (inr freed) = inr (before s freed)
Frozen-Step b sdk start d d' r _ (keep s same) (inl kept) =
    inl (same.same_essence ∙ kept.0, same.same_buffer ∙ kept.1)
Frozen-Step b sdk start d d' r _ (free s is_free) (inl kept) = inr (here (go r s) is_free)
Frozen-Step b sdk start d _ r _ (prepare bytes l was_free prepared) (inl kept) =
    inr (before (packet bytes l) (here r was_free))
Frozen-Step b sdk start d _ r _ (accepted e is on same to) (inl kept) =
    inl (same.0 ∙ kept.0, same.1 ∙ kept.1)

-- In a build without the debug commands: at the end of every run of packets and events, the essence
-- and the buffer are as they were at its start, or one of the states that this run went through had a
-- free buffer.
pub Reach-Frozen :
    (b : Build) (sdk : Sdk) (start d : Device)
    → b.app_debug ≡ false
    → (r : Reach b sdk start d) → Frozen b sdk start d r
Reach-Frozen b sdk start _ release stay = inl (refl, refl)
Reach-Frozen b sdk start _ release (go {d = d} {d' = d'} r s) =
    Frozen-Step b sdk start d d' r s (Step-Move b sdk d d' release s)
      (Reach-Frozen b sdk start d release r)
