-- ===== src/Policies.antt =====
-- src/zeroshield/policies/rules.py and safety_policy.py. A reason is the text that the rule gives,
-- and `clock()` is the time that the call reads.
pub mod Evaluate
mod Tests
use Prim.Native.String.{◌++◌ as append_text}
use zero_shield.Base.{
  ℕ, String, Bool, true, false, not, ◌&&◌, Option, none, some, List, [], ◌∷◌, map, if◌then◌else◌,
}
use zero_shield.Models.Enums.{
  ApprovalStatus, InputClassification, ExecutionContext, is_approved, is_synthetic,
  is_synthetic_only,
}
use zero_shield.Models.Experiment.{ExperimentDefinition}
use zero_shield.Models.Policy.{PolicyDecision, all_passed}

-- The pair that a rule returns: whether it passed, and the reason if it did not.
abbrev pub RuleResult : Type 0
RuleResult = Bool × Option String

-- `.value` of the members that the reasons name
abbrev pub classification_value : InputClassification → String
classification_value InputClassification.synthetic = "synthetic"
classification_value InputClassification.benign = "benign"
classification_value InputClassification.explicitly_authorized = "explicitly_authorized"

abbrev pub approval_value : ApprovalStatus → String
approval_value ApprovalStatus.draft = "draft"
approval_value ApprovalStatus.pending_review = "pending_review"
approval_value ApprovalStatus.approved = "approved"
approval_value ApprovalStatus.revision_required = "revision_required"
approval_value ApprovalStatus.rejected = "rejected"
approval_value ApprovalStatus.closed = "closed"

pub check_safe_001_external_targeting : ExperimentDefinition → ExecutionContext → RuleResult
check_safe_001_external_targeting e context =
    if e.external_targeting
    then (
      false,
      some
          "SAFE-001: external_targeting must be false; no documented-authorisation mechanism exists in Phase 1.",
    )
    else (true, none)

pub check_safe_002_input_classification : ExperimentDefinition → ExecutionContext → RuleResult
check_safe_002_input_classification e context =
    if is_synthetic_only e.safety_level && not (is_synthetic e.input_classification)
    then (
      false,
      some (
          append_text
            "SAFE-002: safety_level 'SYNTHETIC_ONLY' requires input_classification 'synthetic', got '"
            (append_text (classification_value e.input_classification) "'.")),
    )
    else (true, none)

pub check_safe_003_weaponised_payloads : ExperimentDefinition → ExecutionContext → RuleResult
check_safe_003_weaponised_payloads e context =
    if e.weaponised_payloads
    then (false, some "SAFE-003: weaponised_payloads must be false for Phase 1.")
    else (true, none)

abbrev is_local_unit_test : ExecutionContext → Bool
is_local_unit_test ExecutionContext.local_unit_test = true
is_local_unit_test ExecutionContext.experiment_run = false

pub check_safe_004_approval_status : ExperimentDefinition → ExecutionContext → RuleResult
check_safe_004_approval_status e context =
    if is_local_unit_test context
    then (true, none)
    else if is_approved e.approval_status
    then (true, none)
    else (
      false,
      some (
          append_text
            "SAFE-004: experiment must be approved before execution outside local unit tests (current status: '"
            (append_text (approval_value e.approval_status) "').")),
    )

abbrev RuleCheck : Type 0
RuleCheck = ExperimentDefinition → ExecutionContext → RuleResult

-- `_RULES`
unfoldable pub rules : List (String × RuleCheck)
unfolding check_safe_001_external_targeting check_safe_002_input_classification
    check_safe_003_weaponised_payloads check_safe_004_approval_status
rules =
    ("SAFE-001", check_safe_001_external_targeting)
    ∷ ("SAFE-002", check_safe_002_input_classification)
    ∷ ("SAFE-003", check_safe_003_weaponised_payloads)
    ∷ ("SAFE-004", check_safe_004_approval_status)
    ∷ []

-- `rule_results[rule_id] = passed` over distinct rule ids
abbrev note_result : String → RuleResult → List (String × Bool) → List (String × Bool)
note_result rule_id (passed, reason) results = (rule_id, passed) ∷ results

abbrev note_reason : RuleResult → List String → List String
note_reason (true, reason) reasons = reasons
note_reason (false, none) reasons = reasons
note_reason (false, some reason) reasons = reason ∷ reasons

-- The loop over the rules: the results and the reasons, in the order of the rules.
pub run_rules :
    ExperimentDefinition
    → ExecutionContext
    → List (String × RuleCheck)
    → List (String × Bool) × List String
run_rules e context [] = ([], [])
run_rules e context ((rule_id, check) ∷ rest) =
    let result = check e context in
    let (results, reasons) = run_rules e context rest in
    (note_result rule_id result results, note_reason result reasons)

-- `SafetyPolicy.evaluate`, before the model's validators
unfoldable pub evaluate : ExperimentDefinition → ExecutionContext → ℕ → PolicyDecision
unfolding rules run_rules
evaluate e context now =
    let (results, reasons) = run_rules e context rules in
    record {
      allowed = all_passed results;
      evaluated_at = now;
      rule_results = results;
      reasons = reasons;
      policy_version = "1.0.0";
    }
