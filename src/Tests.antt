-- ===== src/Tests.antt =====
-- The theorems at concrete inputs: a Nano S with the app for Shimmer, and the essence of a
-- transaction with one input and one output.
mod Parsing
mod Running
mod Accounts
mod Runs
mod Texts
mod Phases
mod Reviews
mod Transfers
use ledger_iota_app.Prelude.{
  ℕ, ◌≡◌, refl, Bool, true, false, ◌&&◌, List, [], ◌∷◌, ◌++◌, replicate, Option, none, some, ltb,
  length, AreBytes, arith,
}
use ledger_iota_app.Constants.{Build, app_shimmer, target_nanos}
use ledger_iota_app.Types.{ApiCtx, Essence, ApiData, DataType, empty}
use ledger_iota_app.Sdk.{Sdk}
use ledger_iota_app.Device.{Device, ux_main_menu}
use ledger_iota_app.Ui.{flow_cleared}

abbrev pub build : Build
build = record {
  app = app_shimmer;
  target = target_nanos;
  app_debug = false;
  appversion_major = 0;
  appversion_minor = 8;
  appversion_patch = 7;
}

abbrev pub sdk : Sdk
sdk = record {
  get_pubkey = λ path. some (replicate 65 0);
  sign_hash = λ path hash. some (replicate 64 7);
  blake2b = λ bytes. some (replicate 32 0);
  io_apdu_buffer_size = 260;
  invalid_parameter = 2;
  read_memory = λ a. replicate 128 0;
}

abbrev pub hardened_zero : List ℕ
hardened_zero = 0 ∷ 0 ∷ 0 ∷ 128 ∷ []

abbrev pub one_input : List ℕ
one_input = 0 ∷ (replicate 32 7 ++ (0 ∷ 0 ∷ []))

abbrev pub one_output : List ℕ
one_output = 3 ∷ 1 ∷ (replicate 7 0 ++ (0 ∷ 1 ∷ 0 ∷ 0 ∷ (replicate 32 0 ++ (0 ∷ []))))

abbrev pub essence_bytes : List ℕ
essence_bytes =
    1
    ∷ (replicate 8 0
        ++ (1
            ∷ 0
            ∷ (one_input
                ++ (replicate 32 0
                    ++ (1
                        ∷ 0
                        ∷ (one_output ++ (replicate 4 0 ++ (hardened_zero ++ hardened_zero))))))))

abbrev pub filled : List ℕ
filled = essence_bytes ++ replicate 1368 0

-- Are all of these bytes?
abbrev all_bytes : List ℕ → Bool
all_bytes [] = true
all_bytes (x ∷ xs) = ltb x 256 && all_bytes xs

AreBytes-of : (xs : List ℕ) → all_bytes xs ≡ true → AreBytes xs
AreBytes-of [] h = tt
AreBytes-of (x ∷ xs) h = let rest = AreBytes-of xs in ground arith

pub filled_length : length filled ≡ 1506
filled_length = refl

pub filled-AreBytes : AreBytes filled
filled-AreBytes = AreBytes-of filled refl

-- The context of an account of Shimmer with the buffer filled.
abbrev pub context : ApiCtx
context = record {
  bip32_path = 0x8000002c ∷ 0x8000107b ∷ 0x80000000 ∷ 0 ∷ 0 ∷ [];
  app_mode = 3;
  protocol = 1;
  coin = 1;
  api_data = record { buffer = filled; type = empty; length = 0 };
  essence = record {
    inputs_count = 0;
    length = 0;
    inputs = none;
    outputs_count = 0;
    outputs = none;
    inputs_bip32_index = none;
    blindsigning = 0;
    remainder_index = 0;
    remainder_bip32 = record { bip32_index = 0; bip32_change = 0 };
    has_remainder = 0;
    is_internal_transfer = 0;
    hash = replicate 32 0;
  };
  flow_locked = 0;
  non_interactive_mode = 0;
}

abbrev pub device : Device
device = record {
  api = context;
  nv = record { blindsigning = 0; initialized = 1 };
  flow_data = flow_cleared;
  screen = ux_main_menu;
  timer_events = 0;
  sent = [];
}
