-- ===== src/Policies/Evaluate.antt =====
-- What SafetyPolicy.evaluate decides.
use zero_shield.Base.{ℕ, ◌≡◌, ◌↔◌, ◌⊎◌, true, false, not, arith, length, count_if}
use zero_shield.Models.Enums.{ApprovalStatus, InputClassification, ExecutionContext}
use zero_shield.Models.Experiment.{ExperimentDefinition}
use zero_shield.Models.Policy.{decision_validates}
use zero_shield.Models.Patterns.{is_safety_rule_id}
use zero_shield.Policies.{evaluate}

-- What the four rules SAFE-001 to SAFE-004 ask for, stated on the experiment itself.
pub record IsSafe (e : ExperimentDefinition) (context : ExecutionContext) : Type 0 where
  pub no_targeting : e.external_targeting ≡ false
  pub synthetic_input : e.input_classification ≡ InputClassification.synthetic
  pub no_payloads : e.weaponised_payloads ≡ false
  pub approved_or_test :
      (context ≡ ExecutionContext.local_unit_test) ⊎ (e.approval_status ≡ ApprovalStatus.approved)

allowed→IsSafe :
    (e : ExperimentDefinition) (context : ExecutionContext) (now : ℕ)
    → (evaluate e context now).allowed ≡ true
    → IsSafe e context
unfolding evaluate
allowed→IsSafe e context now h = ground arith

IsSafe→allowed :
    (e : ExperimentDefinition) (context : ExecutionContext) (now : ℕ)
    → IsSafe e context
    → (evaluate e context now).allowed ≡ true
unfolding evaluate
IsSafe→allowed e context now h = ground arith

-- The policy allows an experiment exactly when it targets nothing external, its input is
-- synthetic, it carries no weaponised payloads, and it is approved or runs as a local unit test.
pub evaluate-allowed_iff :
    (e : ExperimentDefinition) (context : ExecutionContext) (now : ℕ)
    → ((evaluate e context now).allowed ≡ true) ↔ IsSafe e context
evaluate-allowed_iff e context now = (allowed→IsSafe e context now, IsSafe→allowed e context now)

-- The decision that is built passes every validator of PolicyDecision, so `evaluate` never
-- raises; it holds one reason for each rule that failed.
pub evaluate-validates :
    (e : ExperimentDefinition) (context : ExecutionContext) (now : ℕ)
    → let d = evaluate e context now in
      (decision_validates d ≡ true)
      × (length d.reasons ≡ count_if (λ r. not r.1) d.rule_results)
      × (length d.rule_results ≡ 4)
unfolding evaluate decision_validates is_safety_rule_id
evaluate-validates e context now = ground arith
