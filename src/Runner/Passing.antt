-- ===== src/Runner/Passing.antt =====
-- What a run does: it is refused before any strategy is called, or it is admitted; an admitted run
-- whose records validate runs both strategies over every case.
use zero_shield.Base.{
  ℕ, ◌+◌, String, ◌≡◌, refl, sym, ◌∙◌, ap, subst, true, false, not, List, [], ◌∷◌, ◌++◌, str_eq,
}
use zero_shield.Base.Effects.{
  Result, ok, err, succeeded, bind_ok, guard_raises, guard_passes, ◌>>=◌, ◌>>◌, pure, raise_if,
}
use zero_shield.Models.Enums.{RunMode, RunEventType, ExecutionContext, eq_domain}
use zero_shield.Models.Experiment.{ExperimentDefinition}
use zero_shield.Models.Policy.{PolicyDecision}
use zero_shield.Base.Floats.{Float}
use zero_shield.Models.Runs.{TestCase, TestSet, run_validates}
use zero_shield.Policies.{evaluate}
use zero_shield.Policies.Evaluate.{IsSafe}
use zero_shield.Runner.{
  ProcessingStrategy, RunState, RunError, Run, RunOutcome, ExecutionResult, emit, execute_mode,
  run_modes, run_loaded, run_decided, run_experiment,
}
use zero_shield.Runner.Cases.{
  calls, results_of, mode_outcome, after_mode, AllValid, execute_mode_lem,
}

-- The state before the first guard
abbrev pub checked : RunState → RunState
checked s = record {
  readings = s.readings + 1;
  events = s.events ++ RunEventType.safety_check ∷ [];
  processed = s.processed;
}

module _ {F : Type 0} ⦃f : Float F⦄ (latency : String → TestCase F → F) (clock : ℕ → ℕ)
    (e : ExperimentDefinition) (loaded : Result String (TestSet F × String))
    (baseline mitigation : ProcessingStrategy F) (b_id m_id git_commit : String)
    (env : List (String × String)) where
  -- What a completed run has been through, from the state before it, and what it returns.
  pub record IsCompleted (s : RunState) (context : ExecutionContext)
      (outcome : Result RunError (ExecutionResult F) × RunState) : Type 0 where
    pub safe : IsSafe e context
    pub baseline_declared : baseline.strategy_id ≡ e.baseline_strategy
    pub mitigation_declared : mitigation.strategy_id ≡ e.mitigation_strategy
    pub test_set : TestSet F
    pub dataset_hash : String
    pub data_loaded : loaded ≡ ok (test_set, dataset_hash)
    pub same_domain : eq_domain test_set.domain e.domain ≡ true
    pub result : ExecutionResult F
    pub returned : outcome.0 ≡ ok result
    pub baseline_results :
        result.baseline.case_results ≡ results_of latency baseline b_id test_set.cases
    pub mitigation_results :
        result.mitigation.case_results ≡ results_of latency mitigation m_id test_set.cases
    pub events :
        outcome.1.events
        ≡ s.events
          ++ RunEventType.safety_check ∷ RunEventType.running_baseline
            ∷ RunEventType.running_mitigation ∷ []
    pub processed :
        outcome.1.processed
        ≡ s.processed ++ calls baseline test_set.cases ++ calls mitigation test_set.cases

  -- What holds of a run that may call a strategy
  pub record IsAdmitted (context : ExecutionContext) : Type 0 where
    pub safe : IsSafe e context
    pub baseline_declared : baseline.strategy_id ≡ e.baseline_strategy
    pub mitigation_declared : mitigation.strategy_id ≡ e.mitigation_strategy
    pub test_set : TestSet F
    pub dataset_hash : String
    pub data_loaded : loaded ≡ ok (test_set, dataset_hash)
    pub same_domain : eq_domain test_set.domain e.domain ≡ true

  -- What a run has done that has called no strategy
  pub record IsRefused (s : RunState) (outcome : Result RunError (ExecutionResult F) × RunState)
      : Type 0 where
    pub raised : succeeded outcome.0 ≡ false
    pub events : outcome.1.events ≡ s.events ++ RunEventType.safety_check ∷ []
    pub processed : outcome.1.processed ≡ s.processed

  -- The state that both modes leave
  abbrev pub after_modes : TestSet F → RunState → RunState
  after_modes t s = record {
    readings = s.readings + 1 + 1 + 1 + 1;
    events =
        (s.events ++ RunEventType.running_baseline ∷ []) ++ RunEventType.running_mitigation ∷ [];
    processed = (s.processed ++ calls baseline t.cases) ++ calls mitigation t.cases;
  }

  abbrev pub result_of : TestSet F × String → PolicyDecision → ℕ → ExecutionResult F
  result_of data_set decision n = record {
    baseline =
        mode_outcome latency clock n baseline data_set.0.cases e.experiment_id b_id RunMode.baseline
          data_set.1 git_commit env;
    mitigation =
        mode_outcome latency clock (n + 1 + 1) mitigation data_set.0.cases e.experiment_id m_id
          RunMode.mitigated data_set.1 git_commit env;
    safety_decision = decision;
  }

  -- Every record that both modes build is valid, from a reading of the clock on.
  pub record AreValid (data_set : TestSet F × String) (n : ℕ) : Type 0 where
    pub baseline_results : AllValid latency baseline b_id data_set.0.cases
    pub mitigation_results : AllValid latency mitigation m_id data_set.0.cases
    pub baseline_run :
        (decision : PolicyDecision)
        → run_validates (result_of data_set decision n).baseline.run ≡ true
    pub mitigation_run :
        (decision : PolicyDecision)
        → run_validates (result_of data_set decision n).mitigation.run ≡ true

  pub run_modes_lem :
      (data_set : TestSet F × String) (decision : PolicyDecision) (s : RunState)
      → AreValid data_set s.readings
      → run_modes latency clock e data_set baseline mitigation b_id m_id git_commit env decision s
        ≡ (ok (result_of data_set decision s.readings), after_modes data_set.0 s)
  unfolding run_modes
  run_modes_lem data_set decision s v =
      let cases = data_set.0.cases in
      let s1 = record s { events = s.events ++ RunEventType.running_baseline ∷ [] } in
      let s2 = after_mode latency clock baseline cases s1 in
      let s3 = record s2 { events = s2.events ++ RunEventType.running_mitigation ∷ [] } in
      let b =
        mode_outcome latency clock s1.readings baseline cases e.experiment_id b_id RunMode.baseline
          data_set.1 git_commit env in
      let run_baseline =
        execute_mode latency clock baseline cases e.experiment_id b_id RunMode.baseline data_set.1
          git_commit env in
      let run_mitigation =
        execute_mode latency clock mitigation cases e.experiment_id m_id RunMode.mitigated
          data_set.1 git_commit env in
      let finish : RunOutcome F → RunOutcome F → Run (ExecutionResult F) =
        λ b m. pure (record { baseline = b; mitigation = m; safety_decision = decision }) in
      bind_ok run_baseline
        (λ b. emit RunEventType.running_mitigation >> (run_mitigation >>= finish b)) s1 s2 b
        (execute_mode_lem latency clock baseline cases e.experiment_id b_id RunMode.baseline
          data_set.1 git_commit env s1 v.baseline_results (v.baseline_run decision))
      ∙ bind_ok run_mitigation (finish b) s3 (after_mode latency clock mitigation cases s3)
          (mode_outcome latency clock s3.readings mitigation cases e.experiment_id m_id
            RunMode.mitigated data_set.1 git_commit env)
          (execute_mode_lem latency clock mitigation cases e.experiment_id m_id RunMode.mitigated
            data_set.1 git_commit env s3 v.mitigation_results (v.mitigation_run decision))

  pub IsRefused-by :
      (s : RunState) (x : RunError) (outcome : Result RunError (ExecutionResult F) × RunState)
      → outcome ≡ (err x, checked s)
      → IsRefused s outcome
  IsRefused-by s x outcome h =
      subst (IsRefused s) (sym h) (record { raised = refl; events = refl; processed = refl })

  module _ (s : RunState) (context : ExecutionContext) where
    -- The decision of the policy
    abbrev pub decision : PolicyDecision
    decision = evaluate e context (clock s.readings)

    abbrev pub rest_loaded : Run (ExecutionResult F)
    rest_loaded =
        run_loaded latency clock e loaded baseline mitigation b_id m_id git_commit env decision

    abbrev rest_mitigation : Run (ExecutionResult F)
    rest_mitigation =
        raise_if (not (str_eq mitigation.strategy_id e.mitigation_strategy))
          RunError.mitigation_mismatch
        >> rest_loaded

    abbrev rest_baseline : Run (ExecutionResult F)
    rest_baseline =
        raise_if (not (str_eq baseline.strategy_id e.baseline_strategy)) RunError.baseline_mismatch
        >> rest_mitigation

    abbrev pub the_run : Result RunError (ExecutionResult F) × RunState
    the_run =
        run_experiment latency clock e loaded baseline mitigation b_id m_id git_commit env context s

    pub policy_refused :
        decision.allowed ≡ false → the_run ≡ (err (RunError.policy_refusal decision), checked s)
    unfolding run_experiment run_decided
    policy_refused h =
        guard_raises (not decision.allowed) (RunError.policy_refusal decision) rest_baseline
          (checked s) (ap not h)

    pub guards_passed :
        decision.allowed ≡ true
        → str_eq baseline.strategy_id e.baseline_strategy ≡ true
        → str_eq mitigation.strategy_id e.mitigation_strategy ≡ true
        → the_run ≡ rest_loaded (checked s)
    unfolding run_experiment run_decided
    guards_passed allowed same_baseline same_mitigation =
        guard_passes (not decision.allowed) (RunError.policy_refusal decision) rest_baseline
          (checked s) (ap not allowed)
        ∙ guard_passes (not (str_eq baseline.strategy_id e.baseline_strategy))
            RunError.baseline_mismatch rest_mitigation (checked s) (ap not same_baseline)
        ∙ guard_passes (not (str_eq mitigation.strategy_id e.mitigation_strategy))
            RunError.mitigation_mismatch rest_loaded (checked s) (ap not same_mitigation)

    pub baseline_refused :
        decision.allowed ≡ true
        → str_eq baseline.strategy_id e.baseline_strategy ≡ false
        → the_run ≡ (err RunError.baseline_mismatch, checked s)
    unfolding run_experiment run_decided
    baseline_refused allowed other =
        guard_passes (not decision.allowed) (RunError.policy_refusal decision) rest_baseline
          (checked s) (ap not allowed)
        ∙ guard_raises (not (str_eq baseline.strategy_id e.baseline_strategy))
            RunError.baseline_mismatch rest_mitigation (checked s) (ap not other)

    pub mitigation_refused :
        decision.allowed ≡ true
        → str_eq baseline.strategy_id e.baseline_strategy ≡ true
        → str_eq mitigation.strategy_id e.mitigation_strategy ≡ false
        → the_run ≡ (err RunError.mitigation_mismatch, checked s)
    unfolding run_experiment run_decided
    mitigation_refused allowed same_baseline other =
        guard_passes (not decision.allowed) (RunError.policy_refusal decision) rest_baseline
          (checked s) (ap not allowed)
        ∙ guard_passes (not (str_eq baseline.strategy_id e.baseline_strategy))
            RunError.baseline_mismatch rest_mitigation (checked s) (ap not same_baseline)
        ∙ guard_raises (not (str_eq mitigation.strategy_id e.mitigation_strategy))
            RunError.mitigation_mismatch rest_loaded (checked s) (ap not other)
