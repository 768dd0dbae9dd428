-- ===== src/Exec.antt =====
-- The C functions as actions on a state: what was written before an early return or an exception
-- stays written, so the state comes back beside every outcome.
pub mod Laws
use ledger_iota_app.Prelude.{ℕ, Bool, true, false, Option, none, some}

pub data Result {ℓ} (A : Type ℓ) : Type ℓ where
  ok : A → Result A
  -- the function returned 0 (the `MUST` macro)
  fail : Result A
  -- `THROW(sw)`
  thrown : ℕ → Result A
  -- a read through NULL or out of an array's range, which C leaves undefined
  fault : Result A

abbrev pub Exec {ℓ} : Type ℓ → Type ℓ → Type ℓ
Exec S A = S → Result A × S

abbrev pub or_thrown {ℓ} : {A : Type ℓ} → ℕ → Result A → Result A
or_thrown sw (ok a) = ok a
or_thrown sw fail = thrown sw
or_thrown sw (thrown e) = thrown e
or_thrown sw fault = fault

module _ {ℓ} {S A : Type ℓ} where
  abbrev pub pure : A → Exec S A
  pure a s = (ok a, s)

  abbrev pub throw : ℕ → Exec S A
  throw sw s = (thrown sw, s)

  abbrev pub lift : Result A → Exec S A
  lift r s = (r, s)

  abbrev pub gets : (S → A) → Exec S A
  gets f s = (ok (f s), s)

  -- `if (!f(...)) { THROW(sw); }`
  abbrev pub or_throw : ℕ → Exec S A → Exec S A
  or_throw sw m s = let (r, s') = m s in (or_thrown sw r, s')

abbrev pub modify : {S : Type 0} → (S → S) → Exec S (Unit {0})
modify f s = (ok tt, f s)

-- `MUST(c)`
abbrev pub must : {S : Type 0} → Bool → Exec S (Unit {0})
must true s = (ok tt, s)
must false s = (fail, s)

-- `VALIDATE(c, sw)`: throws unless `c` holds
abbrev pub validate : {S : Type 0} → Bool → ℕ → Exec S (Unit {0})
validate true sw s = (ok tt, s)
validate false sw s = (thrown sw, s)

-- `if (c) { THROW(sw); }`
abbrev pub throw_if : {S : Type 0} → Bool → ℕ → Exec S (Unit {0})
throw_if true sw s = (thrown sw, s)
throw_if false sw s = (ok tt, s)

-- `MUST` of a call that yields a value, or 0
abbrev pub must_some {ℓ} : {S A : Type ℓ} → Option A → Exec S A
must_some none s = (fail, s)
must_some (some a) s = (ok a, s)

module _ {ℓ} {S A B : Type ℓ} where
  abbrev pub continue : Result A → (A → Exec S B) → Exec S B
  continue (ok a) f s = f a s
  continue fail f s = (fail, s)
  continue (thrown sw) f s = (thrown sw, s)
  continue fault f s = (fault, s)

  infixl 10 ◌>>=◌ ◌>>◌
  abbrev pub ◌>>=◌ : Exec S A → (A → Exec S B) → Exec S B
  ◌>>=◌ m f s = let (r, s') = m s in continue r f s'

  abbrev pub ◌>>◌ : Exec S A → Exec S B → Exec S B
  m >> n = m >>= λ _. n

-- The same for a function that changes nothing.
infixl 10 ◌⟫◌
abbrev pub ◌⟫◌ {ℓ κ} : {A : Type ℓ} {B : Type κ} → Result A → (A → Result B) → Result B
ok a ⟫ f = f a
fail ⟫ f = fail
thrown sw ⟫ f = thrown sw
fault ⟫ f = fault

-- A call whose 0 is an answer: `if (f(...)) { ... }`.
abbrev pub answer {ℓ} : {A : Type ℓ} → Result A → Result Bool
answer (ok a) = ok true
answer fail = ok false
answer (thrown sw) = thrown sw
answer fault = fault
