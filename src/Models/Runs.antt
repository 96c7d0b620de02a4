-- ===== src/Models/Runs.antt =====
-- src/zeroshield/models/test_case.py, test_set.py, case_result.py, experiment_run.py, and
-- src/zeroshield/strategies/outcome.py. A time is a number of ticks, a hash a text.
use zero_shield.Base.{
  ℕ, String, Bool, true, false, not, ◌&&◌, Option, none, some, List, map, leb, str_eq, is_some,
  all_of,
}
use zero_shield.Base.Floats.{Float, zero_float}
use zero_shield.Models.Enums.{Domain, TestCaseCategory, Decision, RunMode, RunStatus}
use zero_shield.Models.Experiment.{
  codes, nonempty, nonempty_list, all_distinct, experiment_id_domain,
}
use zero_shield.Models.Patterns.{is_run_id, is_sha256, is_git_commit}
use zero_shield.Models.Values.{Fields}

pub record TestCase (F : Type 0) : Type 0 where
  pub case_id : String
  pub category : TestCaseCategory
  pub input_data : Fields F
  pub expected_outcome : Decision
  pub provenance : String
  pub version : String

pub record TestSet (F : Type 0) : Type 0 where
  pub test_set_id : String
  pub version : String
  pub domain : Domain
  pub cases : List (TestCase F)

-- The constraints of the fields of a case
abbrev pub test_case_validates : {F : Type 0} → TestCase F → Bool
test_case_validates c = nonempty c.case_id && nonempty c.provenance && nonempty c.version

-- `check_case_ids_unique` and the constraints of the fields
unfoldable pub test_set_validates : {F : Type 0} → TestSet F → Bool
test_set_validates t =
    nonempty t.test_set_id
    && nonempty t.version
    && nonempty_list t.cases
    && all_of test_case_validates t.cases
    && all_distinct str_eq (map (λ c. c.case_id) t.cases)

-- An error message is there, and not empty, exactly for an errored outcome.
abbrev pub error_message_consistent : Bool → Option String → Bool
error_message_consistent true none = false
error_message_consistent true (some m) = nonempty m
error_message_consistent false m = not (is_some m)

pub record StrategyOutcome : Type 0 where
  pub decision : Decision
  pub parser_reached : Bool
  pub logged : Bool
  pub errored : Bool
  pub error_message : Option String

unfoldable pub outcome_validates : StrategyOutcome → Bool
outcome_validates o = error_message_consistent o.errored o.error_message

pub record CaseResult (F : Type 0) : Type 0 where
  pub run_id : String
  pub case_id : String
  pub decision : Decision
  pub parser_reached : Bool
  pub errored : Bool
  pub error_message : Option String
  pub logged : Bool
  pub latency_ms : F

unfoldable pub case_result_validates : {F : Type 0} ⦃f : Float F⦄ → CaseResult F → Bool
case_result_validates ⦃f⦄ r =
    is_run_id r.run_id
    && nonempty r.case_id
    && f.le zero_float r.latency_ms
    && error_message_consistent r.errored r.error_message

pub record ExperimentRun : Type 0 where
  pub run_id : String
  pub experiment_id : String
  pub mode : RunMode
  pub dataset_hash : String
  pub git_commit : String
  pub environment : List (String × String)
  pub started_at : ℕ
  pub completed_at : Option ℕ
  pub status : RunStatus

abbrev is_terminal : RunStatus → Bool
is_terminal RunStatus.completed = true
is_terminal RunStatus.failed = true
is_terminal _ = false

abbrev not_before : ℕ → Option ℕ → Bool
not_before t none = true
not_before t (some u) = leb t u

-- A terminal status has a time of completion, an open one has none.
abbrev status_consistent : Bool → Option ℕ → Bool
status_consistent true t = is_some t
status_consistent false t = not (is_some t)

-- `check_completed_at_after_started_at` and `check_status_consistency`
unfoldable pub run_validates : ExperimentRun → Bool
run_validates r =
    is_run_id r.run_id
    && is_some (experiment_id_domain (codes r.experiment_id))
    && is_sha256 r.dataset_hash
    && is_git_commit r.git_commit
    && nonempty_list r.environment
    && not_before r.started_at r.completed_at
    && status_consistent (is_terminal r.status) r.completed_at
