-- ===== src/Runner/Tests.antt =====
-- A run of the bundled experiment over two cases, one of which makes the mitigation raise.
use zero_shield.Base.{
  ℕ, ◌+◌, String, ◌≡◌, ◌⊎◌, refl, subst, inr, List, [], ◌∷◌, true, false, arith, length, is_some,
}
use zero_shield.Base.Effects.{Result, ok, err, succeeded}
use zero_shield.Base.Int.{pos}
use zero_shield.Base.Floats.{Fixed, fixed_float}
use zero_shield.Base.Fixed.{Fixed-IsOrderedFloat}
use zero_shield.Models.Enums.{Domain, Decision, TestCaseCategory, ExecutionContext}
use zero_shield.Models.Experiment.{nonempty, codes, experiment_id_domain}
use zero_shield.Models.Patterns.{is_run_id, is_sha256, is_git_commit}
use zero_shield.Models.Values.{Fields}
use zero_shield.Models.Runs.{
  TestCase, TestSet, StrategyOutcome, outcome_validates, case_result_validates, run_validates,
  test_set_validates,
}
use zero_shield.Policies.{evaluate}
use zero_shield.Policies.Evaluate.{IsSafe}
use zero_shield.Metrics.Calculator.{calculate_metrics}
use zero_shield.Strategies.Checks.{accepted_outcome}
use zero_shield.Samples.{approved_experiment}
use zero_shield.Runner.{
  Raised, ProcessingStrategy, RunState, message_of, run_experiment, run_decided, run_loaded,
  run_modes, execute_mode, execute_cases, execute_case, validated, case_result,
}
use zero_shield.Runner.Cases.{IsWellBehaved}
use zero_shield.Runner.Passing.{IsCompleted, IsRefused, IsAdmitted, result_of}
use zero_shield.Runner.Outcome.{Outcome, run_on, run_experiment_cases, run_experiment_guarded}
use zero_shield.Runner.Measurable.{run_experiment-measurable}
use zero_shield.Runner.Ready.{IsReady}

abbrev case : String → Decision → TestCase Fixed
case id expected = record {
  case_id = id;
  category = TestCaseCategory.valid;
  input_data = Fields.end;
  expected_outcome = expected;
  provenance = "synthetic";
  version = "1.0.0";
}

abbrev test_set : TestSet Fixed
test_set = record {
  test_set_id = "vpn-set";
  version = "1.0.0";
  domain = Domain.vpn;
  cases = case "a" Decision.blocked ∷ case "b" Decision.accepted ∷ [];
}

abbrev lenient : ProcessingStrategy Fixed
lenient = record { strategy_id = "weak_schema_length_baseline"; process = λ d. ok accepted_outcome }

abbrev failing : ProcessingStrategy Fixed
failing = record {
  strategy_id = "strict_schema_canonicalisation_mitigation";
  process = λ d. err (record { text = ""; class_name = "TypeError" });
}

abbrev timer : String → TestCase Fixed → Fixed
timer run_id c = pos 5

abbrev clock : ℕ → ℕ
clock n = 100 + n

abbrev start : RunState
start = record { readings = 0; events = []; processed = [] }

abbrev data_hash : String
data_hash = "0123456789abcdef0123456789abcdef0123456789abcdef0123456789abcdef"

abbrev environment : List (String × String)
environment = ("python_version", "3.12") ∷ []

abbrev loaded : Result String (TestSet Fixed × String)
loaded = ok (test_set, data_hash)

run_1 : is_run_id "RUN-001" ≡ true
unfolding is_run_id
run_1 = refl

run_2 : is_run_id "RUN-002" ≡ true
unfolding is_run_id
run_2 = refl

experiment_named : is_some (experiment_id_domain (codes "ZC-VPN-EXP-001")) ≡ true
unfolding experiment_id_domain
experiment_named = refl

commit_ok : is_git_commit "0000000" ≡ true
unfolding is_git_commit
commit_ok = refl

test_set_valid : test_set_validates test_set ≡ true
unfolding test_set_validates
test_set_valid = refl

hash_valid : is_sha256 data_hash ≡ true
unfolding is_sha256
hash_valid = refl

failing-IsWellBehaved : IsWellBehaved failing
failing-IsWellBehaved = record {
  answers = λ d o h. cc;
  failures = λ d e h.
      let same : Path Raised (record { text = ""; class_name = "TypeError" }) e = cc in
      subst (λ x. nonempty (message_of x) ≡ true) same refl;
}

lenient-IsWellBehaved : IsWellBehaved lenient
unfolding outcome_validates
lenient-IsWellBehaved = record {
  answers = λ d o h.
      let same : Path StrategyOutcome accepted_outcome o = cc in
      subst (λ x. outcome_validates x ≡ true) same refl;
  failures = λ d e h. cc;
}

ready :
    IsReady timer clock approved_experiment loaded lenient failing "RUN-001" "RUN-002" "0000000"
      environment
ready = record {
  baseline_behaves = lenient-IsWellBehaved;
  mitigation_behaves = failing-IsWellBehaved;
  timer = λ run_id c. refl;
  forward = λ n. omega arith;
  baseline_id = run_1;
  mitigation_id = run_2;
  named = experiment_named;
  commit = commit_ok;
  environment = refl;
  loads = λ t dataset_hash h. (
    subst (λ (x : TestSet Fixed). test_set_validates x ≡ true) (cc h) test_set_valid,
    subst (λ x. is_sha256 x ≡ true) (cc h) hash_valid,
  );
}

run_experiment_cases_example :
    Outcome timer clock approved_experiment lenient failing "RUN-001" "RUN-002" "0000000"
      environment start ExecutionContext.experiment_run loaded
run_experiment_cases_example =
    run_experiment_cases timer clock approved_experiment lenient failing "RUN-001" "RUN-002"
      "0000000" environment start ExecutionContext.experiment_run loaded ready

-- A hash that is none is refused only once the strategy has run.
run_experiment_guarded_example :
    IsRefused timer clock approved_experiment
      (ok (test_set, "00"))
      lenient
      failing
      "RUN-001"
      "RUN-002"
      "0000000"
      environment
      start
      (run_on timer clock approved_experiment lenient failing "RUN-001" "RUN-002" "0000000"
        environment start ExecutionContext.experiment_run
        (ok (test_set, "00")))
    ⊎ IsAdmitted timer clock approved_experiment
        (ok (test_set, "00"))
        lenient
        failing
        "RUN-001"
        "RUN-002"
        "0000000"
        environment
        ExecutionContext.experiment_run
run_experiment_guarded_example =
    run_experiment_guarded timer clock approved_experiment lenient failing "RUN-001" "RUN-002"
      "0000000" environment start ExecutionContext.experiment_run (ok (test_set, "00"))

bad_hash :
    let (r, after) =
      run_on timer clock approved_experiment lenient failing "RUN-001" "RUN-002" "0000000"
        environment start ExecutionContext.experiment_run
        (ok (test_set, "00")) in
    (succeeded r ≡ false) × (length after.processed ≡ 2)
unfolding run_experiment run_decided run_loaded run_modes execute_mode execute_cases execute_case
    evaluate validated case_result case_result_validates run_validates is_run_id is_sha256
    is_git_commit experiment_id_domain
bad_hash = (refl, refl)

approved-IsSafe : IsSafe approved_experiment ExecutionContext.experiment_run
approved-IsSafe = record {
  no_targeting = refl;
  synthetic_input = refl;
  no_payloads = refl;
  approved_or_test = inr refl;
}

completed_run :
    IsCompleted timer clock approved_experiment loaded lenient failing "RUN-001" "RUN-002" "0000000"
      environment start ExecutionContext.experiment_run
      (run_on timer clock approved_experiment lenient failing "RUN-001" "RUN-002" "0000000"
        environment start ExecutionContext.experiment_run loaded)
unfolding run_experiment run_decided run_loaded run_modes execute_mode execute_cases execute_case
    evaluate validated case_result case_result_validates run_validates is_run_id is_sha256
    is_git_commit experiment_id_domain
completed_run = record {
  safe = approved-IsSafe;
  baseline_declared = refl;
  mitigation_declared = refl;
  test_set = test_set;
  dataset_hash = data_hash;
  data_loaded = refl;
  same_domain = refl;
  result =
      result_of timer clock approved_experiment loaded lenient failing "RUN-001" "RUN-002" "0000000"
        environment (test_set, data_hash)
        (evaluate approved_experiment ExecutionContext.experiment_run 100) 1;
  returned = refl;
  baseline_results = refl;
  mitigation_results = refl;
  events = refl;
  processed = refl;
}

run_experiment-measurable_example :
    (succeeded (
        calculate_metrics "RUN-001" completed_run.result.baseline.case_results
          completed_run.test_set.cases "1.0.0" 9)
      ≡ true)
    × (succeeded (
          calculate_metrics "RUN-002" completed_run.result.mitigation.case_results
            completed_run.test_set.cases "1.0.0" 9)
        ≡ true)
run_experiment-measurable_example =
    run_experiment-measurable timer clock approved_experiment lenient failing "RUN-001" "RUN-002"
      "0000000" environment start ExecutionContext.experiment_run loaded "1.0.0" 9 ready refl
      completed_run
