-- ===== src/Metrics/Tests.antt =====
-- Results of three cases, and the theorems on metrics applied to them.
use zero_shield.Base.{
  String, ◌≡◌, refl, List, [], ◌∷◌, Bool, true, false, none, is_some, arith, all_of,
}
use zero_shield.Base.Effects.{ok, succeeded}
use zero_shield.Base.Int.{pos}
use zero_shield.Base.Floats.{Fixed, fixed_float}
use zero_shield.Base.Fixed.{Fixed-IsOrderedFloat}
use zero_shield.Models.Enums.{Decision, TestCaseCategory}
use zero_shield.Models.Values.{Fields}
use zero_shield.Models.Patterns.{is_run_id}
use zero_shield.Models.Experiment.{codes, experiment_id_domain}
use zero_shield.Models.Runs.{TestCase, CaseResult}
use zero_shield.Models.Metrics.{ExperimentMetrics, metrics_validates, report_validates}
use zero_shield.Metrics.Calculator.{calculate_metrics, score, measures, mean_latency, safe_rate}
use zero_shield.Metrics.Calculator.Rates.{calculate_metrics-validates}
use zero_shield.Metrics.Calculator.Confusion.{
  IsConfusion, is_known_case, calculate_metrics-IsConfusion,
}
use zero_shield.Metrics.Comparator.{compare, compare-validates}

abbrev case : String → Decision → TestCase Fixed
case id expected = record {
  case_id = id;
  category = TestCaseCategory.valid;
  input_data = Fields.end;
  expected_outcome = expected;
  provenance = "synthetic";
  version = "1.0.0";
}

abbrev cases : List (TestCase Fixed)
cases = case "a" Decision.blocked ∷ case "b" Decision.accepted ∷ case "c" Decision.blocked ∷ []

abbrev row_of : String → Decision → Bool → CaseResult Fixed
row_of id decision logged = record {
  run_id = "RUN-001";
  case_id = id;
  decision = decision;
  parser_reached = false;
  errored = false;
  error_message = none;
  logged = logged;
  latency_ms = pos 10000;
}

abbrev results : List (CaseResult Fixed)
results =
    row_of "a" Decision.blocked true
    ∷ row_of "b" Decision.accepted false
    ∷ row_of "c" Decision.accepted false
    ∷ []

-- One of the two attacks is blocked; the valid case is accepted.
abbrev metrics : String → ExperimentMetrics Fixed
metrics run_id = record {
  run_id = run_id;
  processing_success_rate = pos 10000;
  block_rate = pos 5000;
  valid_acceptance_rate = pos 10000;
  false_positive_rate = pos 0;
  false_negative_rate = pos 5000;
  parser_reach_rate = pos 0;
  mean_latency_ms = pos 10000;
  log_completeness_rate = pos 10000;
  calculated_at = 9;
  calculation_version = "1.0.0";
}

run_1 : is_run_id "RUN-001" ≡ true
unfolding is_run_id
run_1 = refl

well_formed : is_some (experiment_id_domain (codes "ZC-VPN-EXP-001")) ≡ true
unfolding experiment_id_domain
well_formed = refl

calculated : calculate_metrics "RUN-001" results cases "1.0.0" 9 ≡ ok (metrics "RUN-001")
unfolding calculate_metrics score measures mean_latency safe_rate metrics_validates is_run_id
calculated = refl

metrics_are_valid : metrics_validates (metrics "RUN-001") ≡ true
unfolding metrics_validates is_run_id
metrics_are_valid = refl

other_metrics_are_valid : metrics_validates (metrics "RUN-002") ≡ true
unfolding metrics_validates is_run_id
other_metrics_are_valid = refl

calculate_metrics-validates_example :
    (succeeded (calculate_metrics "RUN-001" results cases "1.0.0" 9)
      ≡ all_of (is_known_case cases) results)
    × ((m : ExperimentMetrics Fixed)
        → calculate_metrics "RUN-001" results cases "1.0.0" 9 ≡ ok m
        → metrics_validates m ≡ true)
calculate_metrics-validates_example =
    calculate_metrics-validates "RUN-001" results cases "1.0.0" 9 (refl, (refl, (refl, tt))) run_1
      refl

calculate_metrics-IsConfusion_example : IsConfusion cases results (metrics "RUN-001")
calculate_metrics-IsConfusion_example =
    calculate_metrics-IsConfusion "RUN-001" results cases "1.0.0" 9 (metrics "RUN-001") calculated

compare-validates_example :
    report_validates (compare "ZC-VPN-EXP-001" 3 (metrics "RUN-001") (metrics "RUN-002") 12) ≡ true
compare-validates_example =
    compare-validates "ZC-VPN-EXP-001" 3 (metrics "RUN-001") (metrics "RUN-002") 12 well_formed
      (omega arith) refl metrics_are_valid other_metrics_are_valid
