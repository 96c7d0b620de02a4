-- ===== src/Intelligence/Http/Bounded.antt =====
-- `fetch_json` makes a bounded number of attempts.
use zero_shield.Base.{
  ℕ, zero, suc, ◌+◌, ◌≤◌, ◌<◌, ◌≡◌, refl, sym, ap, subst, Option, none, some, List, [], ◌∷◌, arith,
  ◌⊎◌, inl, inr, ◌==◌, ==_iff, Bool-cases,
}
use zero_shield.Base.Effects.{Result, err}
use zero_shield.Models.Values.{Value}
use zero_shield.Intelligence.Http.{
  Reply, Transient, FetchFailure, exhausted, Step, ends, again, two_to, attempt_step, slept,
  attempts, fetch_json,
}

-- 2 ^ a, 2 ^ (a + 1) and so on, n of them
abbrev pub delays : ℕ → ℕ → List ℕ
delays a zero = []
delays a (suc n) = two_to a ∷ delays (suc a) n

-- All but the last of the delays
abbrev pub delays_before : ℕ → ℕ → List ℕ
delays_before a zero = []
delays_before a (suc n) = delays a n

module _ {F : Type 0} (get : ℕ → Reply F) (max_retries : ℕ) where
  -- Every attempt from a on, and before b, is one that is tried again.
  abbrev pub AreTransient : ℕ → ℕ → Type 0
  AreTransient a b = (m : ℕ) → a ≤ m → m < b → (e : Transient) × (attempt_step (get m) ≡ again e)

  -- How attempts end, from number a on, when so many are left
  pub data Fetches (a left : ℕ) (result : Result FetchFailure (Value F) × List ℕ) : Type 0 where
    answered :
        (n : ℕ)
        → n < left
        → AreTransient a (a + n)
        → (r : Result FetchFailure (Value F)) → attempt_step (get (a + n)) ≡ ends r
        → result ≡ (r, delays a n)
        → Fetches a left result
    gave_up :
        AreTransient a (a + left)
        → (last : Option Transient)
        → result ≡ (err (exhausted (suc max_retries) last), delays_before a left)
        → Fetches a left result

  step-cases :
      (s : Step F)
      → ((r : Result FetchFailure (Value F)) × (s ≡ ends r)) ⊎ ((e : Transient) × (s ≡ again e))
  step-cases (ends r) = inl (r, refl)
  step-cases (again e) = inr (e, refl)

  earlier :
      (a n : ℕ) (e : Transient)
      → attempt_step (get a) ≡ again e
      → AreTransient (suc a) (suc a + n)
      → AreTransient a (a + suc n)
  earlier a n e h k m low high = elim (Bool-cases (m == a)) [
    | inl here ↦ (e, subst (λ x. attempt_step (get x) ≡ again e) (sym ((==_iff m a).0 here)) h)
    | inr later ↦ let other = (==_iff m a).1 in k m (ground arith) (omega arith)
  ]

  no_earlier : (a b : ℕ) → b ≤ a → AreTransient a b
  no_earlier a b h m low high = absurd (omega arith)

  -- An attempt that is tried again, and the attempts after it
  after_failure :
      (a left : ℕ) (e : Transient) (result : Result FetchFailure (Value F) × List ℕ)
      → attempt_step (get a) ≡ again e
      → Fetches (suc a) left result
      → Fetches a (suc left) (result.0, slept a left result.1)
  after_failure a (suc left) e result h (answered n few before r ended same) =
      answered (suc n) (omega arith) (earlier a n e h before) r
        (subst (λ x. attempt_step (get x) ≡ ends r) (omega arith) ended)
        (ap (λ p. (p.0, two_to a ∷ p.1)) same)
  after_failure a zero e result h (answered n few before r ended same) = absurd (omega arith)
  after_failure a zero e result h (gave_up before last same) =
      gave_up (earlier a zero e h before) last same
  after_failure a (suc left) e result h (gave_up before last same) =
      gave_up (earlier a (suc left) e h before) last (ap (λ p. (p.0, two_to a ∷ p.1)) same)

  attempts-Fetches :
      (a left : ℕ) (last : Option Transient) → Fetches a left (attempts get max_retries a left last)
  unfolding attempts
  attempts-Fetches a zero last = gave_up (no_earlier a (a + zero) (omega arith)) last refl
  attempts-Fetches a (suc left) last = elim (step-cases (attempt_step (get a))) [
    | inl (r, ended) ↦ rw ended (
        answered 0 (omega arith) (no_earlier a (a + 0) (omega arith)) r
          (subst (λ x. attempt_step (get x) ≡ ends r) (omega arith) ended) refl)
    | inr (e, failed) ↦ rw failed (
        after_failure a left e (attempts get max_retries (suc a) left (some e)) failed
          (attempts-Fetches (suc a) left (some e)))
  ]

  -- At most `max_retries + 1` attempts are made. Either one of them ends the call, after attempts that are
  -- all tried again, or all of them are tried again and the call gives up. There is a sleep after each
  -- attempt but the last, of 1, 2, 4 and so on times `backoff_seconds`.
  pub fetch_json-Fetches : Fetches 0 (suc max_retries) (fetch_json get max_retries)
  unfolding fetch_json
  fetch_json-Fetches = attempts-Fetches 0 (suc max_retries) none
