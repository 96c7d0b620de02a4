-- ===== src/Models/Policy.antt =====
-- src/zeroshield/models/policy_decision.py.
use zero_shield.Base.{ℕ, String, Bool, not, ◌&&◌, ◌||◌, List, all_of}
use zero_shield.Models.Experiment.{nonempty, nonempty_list}
use zero_shield.Models.Patterns.{is_safety_rule_id}

pub record PolicyDecision : Type 0 where
  pub allowed : Bool
  pub evaluated_at : ℕ
  -- a dict, in the order of its keys
  pub rule_results : List (String × Bool)
  pub reasons : List String
  pub policy_version : String

-- `all(rule_results.values())`
abbrev pub all_passed : List (String × Bool) → Bool
all_passed results = all_of (λ r. r.1) results

pub check_reasons_present_when_denied : PolicyDecision → Bool
check_reasons_present_when_denied d = d.allowed || nonempty_list d.reasons

pub check_allowed_consistent_with_rule_results : PolicyDecision → Bool
check_allowed_consistent_with_rule_results d =
    (d.allowed || not (all_passed d.rule_results)) && (not d.allowed || all_passed d.rule_results)

-- The constraints of the fields and every validator of the model pass.
unfoldable pub decision_validates : PolicyDecision → Bool
unfolding check_reasons_present_when_denied check_allowed_consistent_with_rule_results
decision_validates d =
    nonempty_list d.rule_results
    && all_of (λ r. is_safety_rule_id r.0) d.rule_results
    && nonempty d.policy_version
    && check_reasons_present_when_denied d
    && check_allowed_consistent_with_rule_results d
