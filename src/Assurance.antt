-- ===== src/Assurance.antt =====
-- src/zeroshield/assurance: records of control validations and of revalidation candidates, and
-- the tables that hold them. The tables of controls are the list of their ids.
pub mod Regression
pub mod Candidates
pub mod Effectiveness
mod Tests
use zero_shield.Base.{ℕ, String, Option, List}
use zero_shield.Base.Effects.{Action}
use zero_shield.Audit.{AuditEvent}

pub record ControlValidation (F : Type 0) : Type 0 where
  pub validation_id : String
  pub control_id : String
  pub version_id : String
  pub experiment_id : String
  pub baseline_run_id : String
  pub mitigation_run_id : String
  pub total_cases : ℕ
  pub block_rate_improvement : F
  pub false_positive_rate : F
  pub false_negative_rate : F
  pub valid_acceptance_rate : F
  pub parser_reach_rate : F
  pub latency_overhead_ms : F
  pub verdict_label : String
  pub validated_at : ℕ

pub record RevalidationCandidate : Type 0 where
  pub candidate_id : String
  pub control_id : String
  pub experiment_id : Option String
  pub trigger_type : String
  pub trigger_detail : String
  pub status : String
  pub created_at : ℕ
  pub reviewed_by : Option String
  pub reviewed_at : Option ℕ
  pub review_note : Option String

pub record AssuranceStore : Type 0 where
  pub controls : List String
  pub candidates : List RevalidationCandidate
  pub audit : List AuditEvent

-- What a call raises: `scalar_one_or_none` on several rows, and the errors of the routes.
pub data AssuranceError : Type 0 where
  multiple_results_found : AssuranceError
  control_not_found : String → AssuranceError
  candidate_not_found : String → AssuranceError
  candidate_not_pending : String → String → AssuranceError

abbrev pub Assurance : Type 0 → Type 0
Assurance A = Action AssuranceStore AssuranceError A
