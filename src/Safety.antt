-- ===== src/Safety.antt =====
-- The app never reads or writes outside its arrays: the invariant of the context, and what a
-- command may come to.
pub mod Commands
pub mod Signing
pub mod Addresses
pub mod Runs
pub mod Rounds
pub mod Preparing
pub mod Invariants
pub mod Restarts
use ledger_iota_app.Prelude.{
  ℕ, ◌+◌, ◌*◌, ◌%◌, ◌≤◌, ◌≡◌, ◌≢◌, refl, Bool, true, false, Option, none, some, List, length,
  AreBytes, All-replicate, IsByte, replicate, arith,
}
use ledger_iota_app.Exec.{Result, ok, fail, thrown, fault, Exec, continue, throw_if}
use ledger_iota_app.Constants.{Build, api_buffer_size_bytes}
use ledger_iota_app.Constants.Status
use ledger_iota_app.Constants.AppMode
use ledger_iota_app.Types.{ApiCtx, ApiData, Essence, sizeof_bip32_index}
use ledger_iota_app.Sdk.{Sdk}
use ledger_iota_app.Device.{Device}
use ledger_iota_app.Api.Core.Account.{IsMode}
use ledger_iota_app.Main.{status_of}

-- `n` BIP32 indices from a pointer on lie within so many bytes; behind NULL there are none.
abbrev pub Fits : Option ℕ → ℕ → ℕ → Type 0
Fits none n size = n ≡ 0
Fits (some at) n size = at + sizeof_bip32_index * n ≤ size

-- The context between two commands.
pub record IsSound (b : Build) (c : ApiCtx) : Type 0 where
  pub full : length c.api_data.buffer ≡ api_buffer_size_bytes b.target
  pub are_bytes : AreBytes c.api_data.buffer
  pub path_whole : length c.bip32_path ≡ 5
  pub stardust : c.protocol ≡ AppMode.protocol_stardust
  pub mode_known : IsMode b.app (c.app_mode % 128)
  pub coin_known : c.coin ≤ AppMode.coin_shimmer
  pub inputs_few : c.essence.inputs_count ≤ 128
  pub indices_fit :
      Fits c.essence.inputs_bip32_index c.essence.inputs_count (api_buffer_size_bytes b.target)

-- An exception after which the loop resets the context.
abbrev pub Resets : ℕ → Type 0
Resets e = (status_of e ≢ Status.device_is_locked) × (status_of e ≢ Status.cla_not_supported)

-- The action has ended in a value with `P`, or in an exception that resets.
abbrev pub Ends : {A : Type 0} → (Device → Type 0) → Result A → Device → Type 0
Ends P (ok a) d = P d
Ends P fail d = ⊥
Ends P (thrown e) d = Resets e
Ends P fault d = ⊥

abbrev pub EndsSound : {A : Type 0} → Build → Result A × Device → Type 0
EndsSound b o = Ends (λ d. IsSound b d.api) o.0 o.1

pub Ends-bind :
    {A B : Type 0} (P Q : Device → Type 0) (f : A → Exec Device B) (o : Result A × Device)
    → Ends P o.0 o.1
    → ((a : A) → P o.1 → Ends Q (f a o.1).0 (f a o.1).1)
    → Ends Q (continue o.0 f o.1).0 (continue o.0 f o.1).1
Ends-bind P Q f (ok a, d) h k = k a h
Ends-bind P Q f (fail, d) h k = elim h [ ]
Ends-bind P Q f (thrown e, d) h k = h
Ends-bind P Q f (fault, d) h k = elim h [ ]

-- A test that throws a status after which the loop resets.
pub Ends-throw_if :
    {B : Type 0} (Q : Device → Type 0) (c : Bool) (sw : ℕ) (d : Device)
    (f : Unit {0} → Exec Device B)
    → Resets sw
    → (c ≡ false → Ends Q (f tt d).0 (f tt d).1)
    → Ends Q
        (continue (throw_if c sw d).0 f (throw_if c sw d).1).0
        (continue (throw_if c sw d).0 f (throw_if c sw d).1).1
Ends-throw_if Q true sw d f resets k = resets
Ends-throw_if Q false sw d f resets k = k refl

-- A value or 0: no exception, and nothing read out of range.
abbrev pub Returns : {A : Type 0} → Result A → Type 0
Returns (ok a) = Unit
Returns fail = Unit
Returns (thrown e) = ⊥
Returns fault = ⊥

-- A success leaves a state with `P`.
abbrev pub Leaves : {A : Type 0} → (Device → Type 0) → Result A × Device → Type 0
Leaves P (ok a, d) = P d
Leaves P (fail, d) = Unit
Leaves P (thrown e, d) = Unit
Leaves P (fault, d) = Unit

-- What the code relies on of the secure element: the hash function gives 32 bytes.
pub record IsSdk (sdk : Sdk) : Type 0 where
  pub hash_length : (bytes hash : List ℕ) → sdk.blake2b bytes ≡ some hash → length hash ≡ 32
  pub hash_bytes : (bytes hash : List ℕ) → sdk.blake2b bytes ≡ some hash → AreBytes hash

-- A wiped buffer is one of bytes.
pub zeros : (b : Build) → AreBytes (replicate (api_buffer_size_bytes b.target) 0)
zeros b = All-replicate IsByte (api_buffer_size_bytes b.target) 0 (omega arith)
