-- ===== src/Base/Effects.antt =====
-- Code that reads and writes a state and may raise. What was written stays written after a raise,
-- as it does in Python.
use mathlib.Core.Path.{◌≡◌, refl, ap}
use mathlib.Core.Logic.{◌⊎◌, inl, inr}
use mathlib.Core.Bool.{Bool, true, false}

pub data Result (E A : Type 0) : Type 0 where
  ok : A → Result E A
  err : E → Result E A

-- A call: from the state to how it ends and the state that it leaves.
abbrev pub Action : Type 0 → Type 0 → Type 0 → Type 0
Action S E A = S → Result E A × S

module _ {S E A : Type 0} where
  abbrev pub pure : A → Action S E A
  pure a s = (ok a, s)

  abbrev pub raise : E → Action S E A
  raise e s = (err e, s)

  abbrev pub gets : (S → A) → Action S E A
  gets f s = (ok (f s), s)

  abbrev pub lift : Result E A → Action S E A
  lift r s = (r, s)

module _ {S E A B : Type 0} where
  infixl 5 ◌>>=◌
  abbrev pub ◌>>=◌ : Action S E A → (A → Action S E B) → Action S E B
  ◌>>=◌ m f s = let (r, s') = m s in elim r [ ok a ↦ f a s' | err e ↦ (err e, s') ]

  -- What follows a call, once it is known how the call ends.
  pub bind_ok :
      (m : Action S E A) (f : A → Action S E B) (s s' : S) (a : A)
      → m s ≡ (ok a, s')
      → (m >>= f) s ≡ f a s'
  bind_ok m f s s' a h =
      ap (λ (p : Result E A × S). elim p.0 [ ok a ↦ f a p.1 | err e ↦ (err e, p.1) ]) h

  pub bind_err :
      (m : Action S E A) (f : A → Action S E B) (s s' : S) (e : E)
      → m s ≡ (err e, s')
      → (m >>= f) s ≡ (err e, s')
  bind_err m f s s' e h =
      ap (λ (p : Result E A × S). elim p.0 [ ok a ↦ f a p.1 | err e ↦ (err e, p.1) ]) h

module _ {S E B : Type 0} where
  infixl 5 ◌>>◌
  abbrev pub ◌>>◌ : Action S E Unit → Action S E B → Action S E B
  m >> k = m >>= λ _. k

module _ {S E : Type 0} where
  abbrev pub modify : (S → S) → Action S E Unit
  modify f s = (ok tt, f s)

  -- `if test: raise e`
  abbrev pub raise_if : Bool → E → Action S E Unit
  raise_if true e s = (err e, s)
  raise_if false e s = (ok tt, s)

module _ {S E B : Type 0} (b : Bool) (e : E) (k : Action S E B) (s : S) where
  pub guard_raises : b ≡ true → (raise_if b e >> k) s ≡ (err e, s)
  guard_raises h = ap (λ b'. (raise_if b' e >> k) s) h

  pub guard_passes : b ≡ false → (raise_if b e >> k) s ≡ k s
  guard_passes h = ap (λ b'. (raise_if b' e >> k) s) h

-- How a call ended well.
abbrev pub succeeded : {E A : Type 0} → Result E A → Bool
succeeded (ok _) = true
succeeded (err _) = false

pub Result-cases :
    {E A : Type 0} (r : Result E A) → ((a : A) × (r ≡ ok a)) ⊎ ((e : E) × (r ≡ err e))
Result-cases (ok a) = inl (a, refl)
Result-cases (err e) = inr (e, refl)
