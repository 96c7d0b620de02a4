-- ===== src/Runner/Measurable.antt =====
-- That the results of a completed run can be measured.
use zero_shield.Base.{ℕ, String, ◌≡◌, refl, ◌∙◌, true, List, [], ◌∷◌, All}
use zero_shield.Base.Effects.{Result, ok, err, succeeded}
use zero_shield.Base.Floats.{Float, IsOrderedFloat, zero_float}
use zero_shield.Models.Enums.{ExecutionContext}
use zero_shield.Models.Experiment.{ExperimentDefinition, nonempty}
use zero_shield.Models.Patterns.{is_run_id}
use zero_shield.Models.Runs.{TestCase, TestSet, StrategyOutcome, CaseResult}
use zero_shield.Metrics.Calculator.{calculate_metrics}
use zero_shield.Metrics.Calculator.Rates.{HasLatency, calculate_metrics-validates}
use zero_shield.Runner.{Raised, ProcessingStrategy, RunState, case_result}
use zero_shield.Runner.Cases.{results_of, results_of-known}
use zero_shield.Runner.Ready.{IsReady}
use zero_shield.Runner.Passing.{IsCompleted}
use zero_shield.Runner.Outcome.{run_on}

latency_lem :
    {F : Type 0} (run_id : String) (c : TestCase F) (l : F) (o : Result Raised StrategyOutcome)
    → (case_result run_id c l o).latency_ms ≡ l
unfolding case_result
latency_lem run_id c l (ok o) = refl
latency_lem run_id c l (err e) = refl

module _ {F : Type 0} ⦃f : Float F⦄ (latency : String → TestCase F → F)
    (timer : (run_id : String) (c : TestCase F) → f.le zero_float (latency run_id c) ≡ true) where
  results_of-HasLatency :
      (strategy : ProcessingStrategy F) (run_id : String) (cases : List (TestCase F))
      → All HasLatency (results_of latency strategy run_id cases)
  results_of-HasLatency strategy run_id [] = tt
  results_of-HasLatency strategy run_id (c ∷ cs) = (
    rw (latency_lem run_id c (latency run_id c) (strategy.process c.input_data)) (timer run_id c),
    results_of-HasLatency strategy run_id cs,
  )

module _ {F : Type 0} ⦃f : Float F⦄ ⦃o : IsOrderedFloat F⦄ (latency : String → TestCase F → F)
    (clock : ℕ → ℕ) (e : ExperimentDefinition) (baseline mitigation : ProcessingStrategy F)
    (b_id m_id git_commit : String) (env : List (String × String)) (s : RunState)
    (context : ExecutionContext) (loaded : Result String (TestSet F × String)) where
  -- With ordered floats, what a ready run returns can be measured: whatever the strategies
  -- answered or raised, for a version that is not empty the metrics of either mode over the same
  -- test cases are calculated, and neither an unknown case nor a validation stops them.
  pub run_experiment-measurable :
      (version : String) (now : ℕ)
      → IsReady latency clock e loaded baseline mitigation b_id m_id git_commit env
      → nonempty version ≡ true
      → (c : IsCompleted latency clock e loaded baseline mitigation b_id m_id git_commit env s
          context
          (run_on latency clock e baseline mitigation b_id m_id git_commit env s context loaded))
      → (succeeded
            (calculate_metrics b_id c.result.baseline.case_results c.test_set.cases version now)
          ≡ true)
        × (succeeded
              (calculate_metrics m_id c.result.mitigation.case_results c.test_set.cases version now)
            ≡ true)
  run_experiment-measurable version now ready v c = (
    measurable b_id c.result.baseline.case_results baseline ready.baseline_id c.baseline_results,
    measurable m_id c.result.mitigation.case_results mitigation ready.mitigation_id
        c.mitigation_results,
  )
    where
      measurable :
          (run_id : String) (results : List (CaseResult F)) (strategy : ProcessingStrategy F)
          → is_run_id run_id ≡ true
          → results ≡ results_of latency strategy run_id c.test_set.cases
          → succeeded (calculate_metrics run_id results c.test_set.cases version now) ≡ true
      measurable run_id results strategy i h = rw h (
          (calculate_metrics-validates run_id (results_of latency strategy run_id c.test_set.cases)
            c.test_set.cases version now
            (results_of-HasLatency latency ready.timer strategy run_id c.test_set.cases) i v).0
          ∙ results_of-known latency strategy run_id [] c.test_set.cases)
