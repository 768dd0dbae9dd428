-- ===== src/Exec/Laws.antt =====
-- Rules for actions: what a sequence does, one rule for each way to build it.
use ledger_iota_app.Prelude.{ℕ, ◌≡◌, refl, ◌⊎◌, inl, inr, Bool, true, false}
use ledger_iota_app.Exec.{Result, ok, fail, thrown, fault, Exec, continue, ◌⟫◌, must, throw_if}

-- The outcome is the value `a` if `P` holds, and 0 if it does not; in neither case does the code
-- throw or read out of range.
abbrev pub Yields : {A : Type 0} → Type 0 → A → Result A → Type 0
Yields P a r = ((r ≡ ok a) × P) ⊎ ((r ≡ fail) × ¬ P)

-- The same for an action, whose state behind the value is `s`.
abbrev pub Settles : {S A : Type 0} → Type 0 → A → S → Result A × S → Type 0
Settles P a s o = ((o ≡ (ok a, s)) × P) ⊎ ((o.0 ≡ fail) × ¬ P)

module _ {A : Type 0} {a : A} where
  pub Yields-iff : (P Q : Type 0) (r : Result A) → (P → Q) → (Q → P) → Yields P a r → Yields Q a r
  Yields-iff P Q r f g (inl (e, p)) = inl (e, f p)
  Yields-iff P Q r f g (inr (e, np)) = inr (e, λ q. np (g q))

  pub Yields-⟫ :
      {B : Type 0} {b : B} (P Q : Type 0) (r : Result A) (f : A → Result B)
      → Yields P a r
      → (P → Yields Q b (f a))
      → Yields (P × Q) b (r ⟫ f)
  Yields-⟫ {b = b} P Q r f (inl (e, p)) k = rw e (go (k p))
    where
      go : Yields Q b (f a) → Yields (P × Q) b (f a)
      go (inl (e', q)) = inl (e', (p, q))
      go (inr (e', nq)) = inr (e', λ both. nq both.1)
  Yields-⟫ P Q r f (inr (e, np)) k = rw e (inr (refl, λ both. np both.0))

-- The rest of an action behind a call that changes nothing.
module _ {S A B : Type 0} {a : A} {b : B} {t : S} {P Q : Type 0} where
  pub Settles-lift :
      (f : A → Exec S B) (s : S) {r : Result A}
      → Yields P a r
      → (P → Settles Q b t (f a s))
      → Settles (P × Q) b t (continue r f s)
  Settles-lift f s (inl (e, p)) k = rw e (go (k p))
    where
      go : Settles Q b t (f a s) → Settles (P × Q) b t (f a s)
      go (inl (e', q)) = inl (e', (p, q))
      go (inr (e', nq)) = inr (e', λ both. nq both.1)
  Settles-lift f s (inr (e, np)) k = rw e (inr (refl, λ both. np both.0))

  -- The rest of an action behind another one.
  pub Settles-bind :
      (f : A → Exec S B) {u : S} (o : Result A × S)
      → Settles P a u o
      → (P → Settles Q b t (f a u))
      → Settles (P × Q) b t (continue o.0 f o.1)
  Settles-bind f {u = u} o (inl (e, p)) k = rw e (go (k p))
    where
      go : Settles Q b t (f a u) → Settles (P × Q) b t (f a u)
      go (inl (e', q)) = inl (e', (p, q))
      go (inr (e', nq)) = inr (e', λ both. nq both.1)
  Settles-bind f o (inr (e, np)) k = inr (fails, λ both. np both.0)
    where
      fails : (continue o.0 f o.1).0 ≡ fail
      fails = rw e

module _ {S B : Type 0} {b : B} {t : S} {P Q : Type 0} where
  pub Settles-must :
      (c : Bool) (s : S) (f : Unit {0} → Exec S B)
      → (c ≡ true → P)
      → (P → c ≡ true)
      → (P → Settles Q b t (f tt s))
      → Settles (P × Q) b t (continue (must c s).0 f (must c s).1)
  Settles-must true s f i o k = go (i refl) (k (i refl))
    where
      go : P → Settles Q b t (f tt s) → Settles (P × Q) b t (f tt s)
      go p (inl (e', q)) = inl (e', (p, q))
      go p (inr (e', nq)) = inr (e', λ both. nq both.1)
  Settles-must false s f i o k = inr (refl, λ both. let no' = o both.0 in cc)

module _ {S A : Type 0} {a : A} {s : S} where
  pub Settles-iff :
      (P Q : Type 0) (o : Result A × S) → (P → Q) → (Q → P) → Settles P a s o → Settles Q a s o
  Settles-iff P Q o f g (inl (e, p)) = inl (e, f p)
  Settles-iff P Q o f g (inr (e, np)) = inr (e, λ q. np (g q))

  pub Settles-pure : Settles (Unit {0}) a s (ok a, s)
  Settles-pure = inl (refl, tt)

-- What holds of the state behind a call, and of the state behind the rest of the action whatever
-- the call returned, holds behind the whole, however it ends.
pub after_bind :
    {S A B : Type 0} (P : S → Type 0) (f : A → Exec S B) (o : Result A × S)
    → P o.1
    → ((a : A) → o.0 ≡ ok a → P (f a o.1).1)
    → P (continue o.0 f o.1).1
after_bind P f (ok a, s) h k = k a refl
after_bind P f (fail, s) h k = h
after_bind P f (thrown sw, s) h k = h
after_bind P f (fault, s) h k = h

-- A test leaves the state alone.
pub throw_if_same : {S : Type 0} (c : Bool) (sw : ℕ) (s : S) → (throw_if c sw s).1 ≡ s
throw_if_same true sw s = refl
throw_if_same false sw s = refl
