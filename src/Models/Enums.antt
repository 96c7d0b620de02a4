-- ===== src/Models/Enums.antt =====
-- src/zeroshield/models/enums.py and src/zeroshield/policies/execution_context.py.
use zero_shield.Base.{ℕ, Bool, true, false, ◌==◌}

pub data Domain : Type 0 where
  vpn telecom : Domain

pub data SafetyLevel : Type 0 where
  synthetic_only : SafetyLevel

pub data ApprovalStatus : Type 0 where
  draft pending_review approved revision_required rejected closed : ApprovalStatus

pub data InputClassification : Type 0 where
  synthetic benign explicitly_authorized : InputClassification

pub data RootCauseCategory : Type 0 where
  memory_safety_failure parser_message_handling_failure input_validation_failure : RootCauseCategory
  authentication_logic_error authentication_logic_flaw : RootCauseCategory
  authorization_access_control_failure injection_flaw : RootCauseCategory
  unsafe_command_or_code_execution : RootCauseCategory

pub data ZeroClickRelevance : Type 0 where
  high medium low : ZeroClickRelevance

pub data TestCaseCategory : Type 0 where
  valid malformed boundary : TestCaseCategory

pub data Decision : Type 0 where
  accepted blocked : Decision

pub data RunMode : Type 0 where
  baseline mitigated : RunMode

pub data RunStatus : Type 0 where
  pending running completed failed : RunStatus

pub data MetricName : Type 0 where
  block_rate valid_acceptance_rate false_positive_rate false_negative_rate : MetricName
  parser_reach_rate mean_latency_ms log_completeness_rate : MetricName

pub data RunEventType : Type 0 where
  queued preparing safety_check running_baseline running_mitigation analysing : RunEventType
  generating_evidence completed denied failed : RunEventType

pub data ExperimentVersionStatus : Type 0 where
  draft ready_for_review under_review approved rejected retired : ExperimentVersionStatus

pub data VerdictLabel : Type 0 where
  effective partially_effective ineffective regression inconclusive : VerdictLabel

pub data ExecutionContext : Type 0 where
  local_unit_test experiment_run : ExecutionContext

-- The tests `==` on members that the code makes.
abbrev pub eq_domain : Domain → Domain → Bool
eq_domain Domain.vpn Domain.vpn = true
eq_domain Domain.telecom Domain.telecom = true
eq_domain _ _ = false

abbrev pub is_blocked : Decision → Bool
is_blocked Decision.blocked = true
is_blocked Decision.accepted = false

abbrev pub is_accepted : Decision → Bool
is_accepted Decision.accepted = true
is_accepted Decision.blocked = false

abbrev pub is_approved : ApprovalStatus → Bool
is_approved ApprovalStatus.approved = true
is_approved _ = false

abbrev pub is_synthetic : InputClassification → Bool
is_synthetic InputClassification.synthetic = true
is_synthetic _ = false

abbrev pub is_synthetic_only : SafetyLevel → Bool
is_synthetic_only SafetyLevel.synthetic_only = true

-- The position of a metric's name in its enumeration, which tells the names apart.
abbrev pub metric_index : MetricName → ℕ
metric_index MetricName.block_rate = 0
metric_index MetricName.valid_acceptance_rate = 1
metric_index MetricName.false_positive_rate = 2
metric_index MetricName.false_negative_rate = 3
metric_index MetricName.parser_reach_rate = 4
metric_index MetricName.mean_latency_ms = 5
metric_index MetricName.log_completeness_rate = 6

abbrev pub eq_metric : MetricName → MetricName → Bool
eq_metric a b = metric_index a == metric_index b
