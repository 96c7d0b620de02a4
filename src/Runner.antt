-- ===== src/Runner.antt =====
-- src/zeroshield/runners/experiment_runner.py. What a strategy, a file, a clock and a timer yield
-- are arguments: a strategy is its identifier and its `process`, `latency` is what the timer
-- shows for a case of a run, and `clock n` is the n-th reading of the clock. The state records
-- the events that are sent and the calls of strategies.
pub mod Cases
pub mod Ready
pub mod Passing
pub mod Outcome
pub mod Measurable
mod Tests
use zero_shield.Base.{
  ℕ, ◌+◌, String, Bool, true, false, not, Option, none, some, List, [], ◌∷◌, ◌++◌, str_eq,
  if◌then◌else◌,
}
use zero_shield.Base.Effects.{
  Result, ok, err, Action, pure, raise, gets, lift, ◌>>=◌, ◌>>◌, modify, raise_if,
}
use zero_shield.Base.Floats.{Float}
use zero_shield.Models.Enums.{
  Decision, RunMode, RunStatus, RunEventType, ExecutionContext, eq_domain,
}
use zero_shield.Models.Values.{Fields}
use zero_shield.Models.Experiment.{ExperimentDefinition}
use zero_shield.Models.Policy.{PolicyDecision}
use zero_shield.Models.Runs.{
  TestCase, TestSet, StrategyOutcome, CaseResult, ExperimentRun, case_result_validates,
  run_validates,
}
use zero_shield.Policies.{evaluate}

-- An exception: `str(exc)` and the name of its class
pub record Raised : Type 0 where
  pub text : String
  pub class_name : String

pub record ProcessingStrategy (F : Type 0) : Type 0 where
  pub strategy_id : String
  pub process : Fields F → Result Raised StrategyOutcome

pub record RunState : Type 0 where
  pub readings : ℕ
  pub events : List RunEventType
  -- The strategy and the case of each call of `process`
  pub processed : List (String × String)

-- PolicyRefusalError, the ValueErrors, what loading the data set raises, and the ValidationError of
-- a record that does not satisfy its constraints
pub data RunError : Type 0 where
  policy_refusal : PolicyDecision → RunError
  baseline_mismatch mitigation_mismatch domain_mismatch : RunError
  dataset_error : String → RunError
  validation_error : RunError

abbrev pub Run : Type 0 → Type 0
Run A = Action RunState RunError A

pub record RunOutcome (F : Type 0) : Type 0 where
  pub run : ExperimentRun
  pub strategy_id : String
  pub case_results : List (CaseResult F)

pub record ExecutionResult (F : Type 0) : Type 0 where
  pub baseline : RunOutcome F
  pub mitigation : RunOutcome F
  pub safety_decision : PolicyDecision

-- `str(exc) or exc.__class__.__name__`
abbrev pub message_of : Raised → String
message_of e = if str_eq e.text "" then e.class_name else e.text

abbrev pub emit : RunEventType → Run Unit
emit e = modify (λ s. record s { events = s.events ++ e ∷ [] })

-- A reading of the clock
abbrev pub read_clock : (ℕ → ℕ) → Run ℕ
read_clock clock s = (ok (clock s.readings), record s { readings = s.readings + 1 })

-- A record is built where its validators pass.
unfoldable pub validated : {A : Type 0} → Bool → A → Run A
validated passes a = raise_if (not passes) RunError.validation_error >> pure a

abbrev pub note_call : String → String → Run Unit
note_call strategy_id case_id =
    modify (λ s. record s { processed = s.processed ++ (strategy_id, case_id) ∷ [] })

module _ {F : Type 0} where
  -- The result of a case, from what `process` returned or raised
  unfoldable pub case_result :
      String → TestCase F → F → Result Raised StrategyOutcome → CaseResult F
  case_result run_id case latency (err e) = record {
    run_id = run_id;
    case_id = case.case_id;
    decision = Decision.blocked;
    parser_reached = false;
    errored = true;
    error_message = some (message_of e);
    logged = true;
    latency_ms = latency;
  }
  case_result run_id case latency (ok o) = record {
    run_id = run_id;
    case_id = case.case_id;
    decision = o.decision;
    parser_reached = o.parser_reached;
    errored = o.errored;
    error_message = o.error_message;
    logged = o.logged;
    latency_ms = latency;
  }

module _ {F : Type 0} ⦃f : Float F⦄ (latency : String → TestCase F → F) where
  -- `_execute_case`
  unfoldable pub execute_case : ProcessingStrategy F → String → TestCase F → Run (CaseResult F)
  unfolding case_result_validates
  execute_case strategy run_id case = do
    note_call strategy.strategy_id case.case_id
    let r = case_result run_id case (latency run_id case) (strategy.process case.input_data)
    validated (case_result_validates r) r

  unfoldable pub execute_cases :
      ProcessingStrategy F → String → List (TestCase F) → Run (List (CaseResult F))
  unfolding execute_case
  execute_cases strategy run_id [] = pure []
  execute_cases strategy run_id (c ∷ cs) = do
    r ← execute_case strategy run_id c
    rs ← execute_cases strategy run_id cs
    pure (r ∷ rs)

module _ {F : Type 0} ⦃f : Float F⦄ (latency : String → TestCase F → F) (clock : ℕ → ℕ) where
  -- `_execute_mode`
  unfoldable pub execute_mode :
      ProcessingStrategy F
      → List (TestCase F)
      → (experiment_id run_id : String) (mode : RunMode) (dataset_hash git_commit : String)
      → List (String × String)
      → Run (RunOutcome F)
  execute_mode strategy cases experiment_id run_id mode dataset_hash git_commit environment = do
    started_at ← read_clock clock
    results ← execute_cases latency strategy run_id cases
    completed_at ← read_clock clock
    let built : ExperimentRun = record {
      run_id = run_id;
      experiment_id = experiment_id;
      mode = mode;
      dataset_hash = dataset_hash;
      git_commit = git_commit;
      environment = environment;
      started_at = started_at;
      completed_at = some completed_at;
      status = RunStatus.completed;
    }
    run ← validated (run_validates built) built
    pure (record { run = run; strategy_id = strategy.strategy_id; case_results = results })

  -- Both modes over the loaded cases
  unfoldable pub run_modes :
      ExperimentDefinition
      → TestSet F × String
      → (baseline mitigation : ProcessingStrategy F)
      → (baseline_run_id mitigation_run_id git_commit : String) → List (String × String)
      → PolicyDecision
      → Run (ExecutionResult F)
  run_modes e data_set baseline mitigation baseline_run_id mitigation_run_id git_commit env
        decision =
      do
        emit RunEventType.running_baseline
        b ←
            execute_mode baseline data_set.0.cases e.experiment_id baseline_run_id RunMode.baseline
              data_set.1 git_commit env
        emit RunEventType.running_mitigation
        m ←
            execute_mode mitigation data_set.0.cases e.experiment_id mitigation_run_id
              RunMode.mitigated data_set.1 git_commit env
        pure (record { baseline = b; mitigation = m; safety_decision = decision })

  -- What `load_test_set` returns or raises, and the test of its domain
  unfoldable pub run_loaded :
      ExperimentDefinition
      → Result String (TestSet F × String)
      → (baseline mitigation : ProcessingStrategy F)
      → (baseline_run_id mitigation_run_id git_commit : String) → List (String × String)
      → PolicyDecision
      → Run (ExecutionResult F)
  run_loaded e (err x) baseline mitigation b_id m_id git_commit env decision =
      raise (RunError.dataset_error x)
  run_loaded e (ok data_set) baseline mitigation b_id m_id git_commit env decision =
      raise_if (not (eq_domain data_set.0.domain e.domain)) RunError.domain_mismatch
      >> run_modes e data_set baseline mitigation b_id m_id git_commit env decision

  -- `run`, from the decision of the policy on: `loaded` is what `load_test_set` returns or raises
  unfoldable pub run_decided :
      ExperimentDefinition
      → Result String (TestSet F × String)
      → (baseline mitigation : ProcessingStrategy F)
      → (baseline_run_id mitigation_run_id git_commit : String) → List (String × String)
      → PolicyDecision
      → Run (ExecutionResult F)
  run_decided e loaded baseline mitigation b_id m_id git_commit env decision =
      raise_if (not decision.allowed) (RunError.policy_refusal decision)
      >> (raise_if (not (str_eq baseline.strategy_id e.baseline_strategy))
            RunError.baseline_mismatch
          >> (raise_if (not (str_eq mitigation.strategy_id e.mitigation_strategy))
                RunError.mitigation_mismatch
              >> run_loaded e loaded baseline mitigation b_id m_id git_commit env decision))

  -- `ExperimentRunner.run`
  unfoldable pub run_experiment :
      ExperimentDefinition
      → Result String (TestSet F × String)
      → (baseline mitigation : ProcessingStrategy F)
      → (baseline_run_id mitigation_run_id git_commit : String) → List (String × String)
      → ExecutionContext
      → Run (ExecutionResult F)
  run_experiment e loaded baseline mitigation b_id m_id git_commit env context = do
    emit RunEventType.safety_check
    now ← read_clock clock
    run_decided e loaded baseline mitigation b_id m_id git_commit env (evaluate e context now)
