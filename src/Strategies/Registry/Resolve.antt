-- ===== src/Strategies/Registry/Resolve.antt =====
-- Which strategy an identifier resolves to, and what a strategy may answer.
use zero_shield.Base.{
  ℕ, String, ◌≡◌, refl, ◌↔◌, ◌⊎◌, inl, inr, Bool, true, false, List, [], ◌∷◌, subst, ap, arith,
  str_eq, eq_iff, Bool-cases,
}
use zero_shield.Base.Effects.{Result, ok, err}
use zero_shield.Base.Floats.{Float}
use zero_shield.Models.Values.{Value, Fields}
use zero_shield.Models.Runs.{StrategyOutcome}
use zero_shield.Strategies.Checks.{blocked_outcome, accepted_outcome, outcome_of}
use zero_shield.Strategies.Vpn
use zero_shield.Strategies.Telecom
use zero_shield.Strategies.Registry.{
  Strategy, strategy_id, resolve_strategy, look_up, registry, process, UnknownStrategy,
}

resolve-strategy_id : (s : Strategy) → resolve_strategy (strategy_id s) ≡ ok s
unfolding resolve_strategy
resolve-strategy_id Strategy.weak_schema_length = refl
resolve-strategy_id Strategy.strict_schema_canonicalisation = refl
resolve-strategy_id Strategy.weak_mandatory_field_state = refl
resolve-strategy_id Strategy.strict_grammar_state_machine = refl

found : (x s : Strategy) → Path (Result UnknownStrategy Strategy) (ok x) (ok s) → s ≡ x
found x s h = cc

look_up-id :
    (l : List Strategy) (key : String) (s : Strategy) → look_up l key ≡ ok s → strategy_id s ≡ key
look_up-id [] key s h = cc
look_up-id (x ∷ xs) key s h = elim (Bool-cases (str_eq (strategy_id x) key)) [
  | inl e ↦
      let same = (eq_iff (strategy_id x) key).0 e in
      subst (λ k. strategy_id s ≡ k) same (ap strategy_id (found x s (rw e at h)))
  | inr e ↦ look_up-id xs key s (rw e at h)
]

-- An identifier resolves to a strategy exactly when it is the identifier of that strategy, so
-- that no strategy is shadowed by another in the registry.
pub resolve_strategy_iff :
    (key : String) (s : Strategy) → (resolve_strategy key ≡ ok s) ↔ (strategy_id s ≡ key)
unfolding resolve_strategy
resolve_strategy_iff key s = (
  look_up-id registry key s,
  λ h. subst (λ k. look_up registry k ≡ ok s) h (resolve-strategy_id s),
)

-- The mitigations
abbrev pub is_mitigation : Strategy → Bool
is_mitigation Strategy.strict_schema_canonicalisation = true
is_mitigation Strategy.strict_grammar_state_machine = true
is_mitigation _ = false

outcome_of_cases :
    (r : Result String Bool) (o : StrategyOutcome)
    → outcome_of r ≡ ok o
    → (o ≡ accepted_outcome) ⊎ (o ≡ blocked_outcome true)
outcome_of_cases (ok true) o h = inr cc
outcome_of_cases (ok false) o h = inl cc
outcome_of_cases (err _) o h = cc

module _ {F : Type 0} ⦃f : Float F⦄ (str_of : Value F → List ℕ) where
  -- A strategy that answers at all either accepts and reaches the parser, with nothing to log,
  -- or blocks before the parser, which the mitigations log and the baselines do not. It never
  -- answers with an error.
  pub process_cases :
      (s : Strategy) (d : Fields F) (o : StrategyOutcome)
      → process str_of s d ≡ ok o
      → (o ≡ accepted_outcome) ⊎ (o ≡ blocked_outcome (is_mitigation s))
  unfolding Vpn.weak_process Vpn.strict_process Telecom.weak_process Telecom.strict_process
  process_cases Strategy.weak_schema_length d o h = ground arith
  process_cases Strategy.strict_schema_canonicalisation d o h =
      outcome_of_cases (Vpn.is_malformed str_of d) o h
  process_cases Strategy.weak_mandatory_field_state d o h = ground arith
  process_cases Strategy.strict_grammar_state_machine d o h =
      outcome_of_cases (Telecom.is_malformed str_of d) o h
