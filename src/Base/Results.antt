-- ===== src/Base/Results.antt =====
-- Chains of results that may be errors, for `do` blocks without a state.
use mathlib.Core.Path.{◌≡◌, refl}
use mathlib.Core.Bool.{Bool, true, false}
use mathlib.Core.List.{List, [], ◌∷◌, ◌++◌}
use zero_shield.Base.Effects.{Result, ok, err}

-- `if not test: raise e`
abbrev pub require : {E : Type 0} → Bool → E → Result E Unit
require true e = ok tt
require false e = err e

module _ {E A B : Type 0} where
  infixl 5 ◌>>=◌
  abbrev pub ◌>>=◌ : Result E A → (A → Result E B) → Result E B
  ok value >>= next = next value
  err failure >>= next = err failure

module _ {E B : Type 0} where
  infixl 5 ◌>>◌
  abbrev pub ◌>>◌ : Result E Unit → Result E B → Result E B
  first >> second = first >>= λ _. second

-- The lists that a call returns for each element, one behind the other; the first error ends it.
abbrev pub collect : {E A B : Type 0} → (A → Result E (List B)) → List A → Result E (List B)
collect f [] = ok []
collect f (x ∷ xs) = let rest = collect f xs in f x >>= λ ys. rest >>= λ zs. ok (ys ++ zs)

-- What holds of the value, if there is one
abbrev pub Ensures : {E A : Type 0} → (A → Type 0) → Result E A → Type 0
Ensures P (ok a) = P a
Ensures P (err e) = Unit

pub Ensures-bind :
    {E A B : Type 0} (P : B → Type 0) (m : Result E A) (f : A → Result E B)
    → ((a : A) → m ≡ ok a → Ensures P (f a))
    → Ensures P (m >>= f)
Ensures-bind P (ok a) f h = h a refl
Ensures-bind P (err e) f h = tt

pub Ensures-map :
    {E A : Type 0} (P Q : A → Type 0) (m : Result E A)
    → ((a : A) → P a → Q a)
    → Ensures P m
    → Ensures Q m
Ensures-map P Q (ok a) f h = f a h
Ensures-map P Q (err e) f h = tt
