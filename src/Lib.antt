-- ===== src/Lib.antt =====
-- The Ledger app for IOTA and Shimmer: parsing, reviewing and signing transactions on the device.
--
-- The program. The host sends packets to the loop of src/main.c, which checks the header and passes
-- the command to the dispatcher of src/iota_io.c and so to a command of src/api.c. The commands
-- share one context (src/api.h) with a data buffer: the host writes an essence into it, has it
-- parsed and validated (src/iota/essence_stardust.c, or src/iota/blindsigning_stardust.c for a hash
-- alone), asks for the consent of the user in a flow (src/ui/nano), and lets the inputs be signed
-- one by one (src/iota/signing.c). An exception resets the context.
--
-- The model. A command is an action on a state (`Exec`): the state comes back beside every outcome,
-- which is a value, the return value 0, an exception with its status word, or a read outside an
-- array, which C leaves undefined. Numbers are natural, with the wrap-around of 16, 32 and 64 bits
-- written out; a pointer into the buffer is an offset, and NULL is `none`.
--   Prelude, Prelude/*      tests, lists, and byte arrays in the order of the machine
--   Exec, Exec/Laws         actions, `MUST`, `VALIDATE` and `THROW` (src/macros.h), and their rules
--   Constants, Constants/*  src/iota/constants.h and the codes of src/iota_io.h, by app and device
--   Types                   the packed structures and the context of src/api.h
--   Sdk                     what the secure element is asked for, as functions without a definition
--   Reader, Reader/Laws     the getters and the shape of the loops over packed structures
--   Address, Bech32         src/iota/address.c, src/iota/ed25519.c; src/iota/bech32.c by its two calls
--   Essence, Essence/*      src/iota/essence_stardust.c: the validators and the loop for duplicates
--   Parse, Parse/*          `essence_parse_and_validate_stardust`, against the layout by offsets
--   Blindsigning/*          src/iota/blindsigning_stardust.c
--   Abstraction, InternalTransfer/*  src/iota/abstraction.c, src/iota/internal_transfer.c
--   Signing, Signing/*      src/iota/signing.c: unlock blocks and references
--   Device, Nv              the state beside the context: settings, flow data, screen, answers
--   Text, Text/*            src/ui/ui_common.c: amounts and paths as texts
--   Ui, Ui/*                src/ui/nano: starting a flow, its callbacks, the ticker, the review, and
--                           in Ui/Steps and Ui/Screens its steps and their texts
--   Api, Api/*              src/api.c, by command
--   Main, Main/*            src/iota_io.c and the loop of src/main.c: one packet is one `round`, and
--                           what a command that throws leaves
--   Safety, Safety/*        the invariant of the context, runs from the start of the app on, and the
--                           scheme for further invariants
--   Content, Content/*      the context against its buffer over a run, and what a signature stands for
--   Review, Review/*        the review on the screen against the context over a run
--   Wallet, Wallet/*        the flags of the context against the wallet's own addresses over a run
--   Exchange, Exchange/*    what is sent to the host for a packet, and the timeout of a flow
--   Phases, Phases/*        the data buffer as a state machine, which packets and events refine
--   Consent, Consent/*      runs of packets and events, and what a signature needs
--   Tests, Tests/*          the theorems at concrete inputs
--
-- Bounds. Every loop of the parsers and commands counts a number of rounds down from one that it
-- knows beforehand, so the model recurses on that number and needs no fuel. Three loops on the
-- screen texts run until a value is used up: a number of 64 bits is shortened at most five times by
-- three digits, the top digit of a word is found after at most eight shifts, and `%u` and `%x` print
-- at most ten and eight digits of a word. The three devices differ in the size of the buffer (6 or
-- 32 blocks of 251 bytes), which is a parameter, as are the app and the debug commands.
--
-- Not modelled. The SDK is a parameter: keys, signatures, the hash, the size of an answer. Which
-- step of a flow is shown, and the moves inside a flow, are the SDK's, so an event may come at any
-- time at which the flow on the screen has a step for it, and the lines of a step are a function of the
-- state beside the events; the step to quit ends the app. When the text of a step is prepared is the
-- SDK's as well, and an amount too large to be shown throws then: in a flow with such texts an event
-- of the model may throw any exception at any time, which the loop of src/main.c turns into a reset.
-- `flow_signing` and
-- `flow_generating_addresses` wait until their notice is displayed (`UX_WAIT_DISPLAYED`); the wait is
-- dropped, so that no event comes inside a command. src/iota/bech32.c is a copy of the
-- reference coder for Bitcoin: its calls are a parameter. The transport, the debug output and the
-- notice after signing are left out.
pub mod Prelude
pub mod Exec
pub mod Constants
pub mod Types
pub mod Sdk
pub mod Reader
pub mod Address
pub mod Essence
pub mod Abstraction
pub mod InternalTransfer
pub mod Parse
pub mod Blindsigning
pub mod Signing
pub mod Device
pub mod Nv
pub mod Text
pub mod Bech32
pub mod Ui
pub mod Api
pub mod Main
pub mod Consent
pub mod Content
pub mod Phases
pub mod Safety
pub mod Review
pub mod Wallet
pub mod Exchange
mod Tests
