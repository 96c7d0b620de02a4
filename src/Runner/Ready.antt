-- ===== src/Runner/Ready.antt =====
-- When a run builds no record that fails validation: what the runner is given is well formed, and
-- the strategies, the timer and the clock behave.
use zero_shield.Base.{
  ℕ, ◌+◌, ◌≤◌, String, ◌≡◌, refl, true, List, [], ◌∷◌, arith, leb, all_of, All, is_some,
}
use zero_shield.Base.Effects.{Result, ok}
use zero_shield.Base.Floats.{Float, zero_float}
use zero_shield.Models.Enums.{RunMode}
use zero_shield.Models.Experiment.{
  ExperimentDefinition, codes, nonempty, nonempty_list, experiment_id_domain,
}
use zero_shield.Models.Patterns.{is_run_id, is_sha256, is_git_commit}
use zero_shield.Models.Runs.{
  TestCase, TestSet, test_case_validates, test_set_validates, run_validates,
}
use zero_shield.Runner.{ProcessingStrategy}
use zero_shield.Runner.Cases.{IsWellBehaved, AllValid, case_result-validates, mode_outcome}

cases_named :
    {F : Type 0} (cases : List (TestCase F))
    → all_of test_case_validates cases ≡ true
    → All (λ (c : TestCase F). nonempty c.case_id ≡ true) cases
cases_named [] h = tt
cases_named (c ∷ cs) h = (ground arith, cases_named cs (ground arith))

test_set-named :
    {F : Type 0} (t : TestSet F)
    → test_set_validates t ≡ true
    → all_of test_case_validates t.cases ≡ true
unfolding test_set_validates
test_set-named t h = ground arith

module _ {F : Type 0} ⦃f : Float F⦄ (latency : String → TestCase F → F) (clock : ℕ → ℕ)
    (e : ExperimentDefinition) (loaded : Result String (TestSet F × String))
    (baseline mitigation : ProcessingStrategy F) (b_id m_id git_commit : String)
    (env : List (String × String)) where
  -- Strategies that answer with valid outcomes or raise with a name, a timer and a clock that do
  -- not go back, well-formed identifiers, a commit, an environment, and, if a data set is loaded,
  -- one that is valid and has a SHA-256 hash
  pub record IsReady : Type 0 where
    pub baseline_behaves : IsWellBehaved baseline
    pub mitigation_behaves : IsWellBehaved mitigation
    pub timer : (run_id : String) (c : TestCase F) → f.le zero_float (latency run_id c) ≡ true
    pub forward : (n : ℕ) → clock n ≤ clock (n + 1)
    pub baseline_id : is_run_id b_id ≡ true
    pub mitigation_id : is_run_id m_id ≡ true
    pub named : is_some (experiment_id_domain (codes e.experiment_id)) ≡ true
    pub commit : is_git_commit git_commit ≡ true
    pub environment : nonempty_list env ≡ true
    pub loads :
        (t : TestSet F) (dataset_hash : String)
        → loaded ≡ ok (t, dataset_hash)
        → (test_set_validates t ≡ true) × (is_sha256 dataset_hash ≡ true)

  module _ (ready : IsReady) where
    pub ready-AllValid :
        (strategy : ProcessingStrategy F) (run_id : String) (cases : List (TestCase F))
        → IsWellBehaved strategy
        → is_run_id run_id ≡ true
        → All (λ (c : TestCase F). nonempty c.case_id ≡ true) cases
        → AllValid latency strategy run_id cases
    ready-AllValid strategy run_id [] w i h = tt
    ready-AllValid strategy run_id (c ∷ cs) w i (k, h) = (
      case_result-validates strategy run_id c (latency run_id c) w i k (ready.timer run_id c),
      ready-AllValid strategy run_id cs w i h,
    )

    pub ready-run_validates :
        (n : ℕ) (strategy : ProcessingStrategy F) (cases : List (TestCase F)) (run_id : String)
        → (mode : RunMode) (dataset_hash : String) → is_run_id run_id ≡ true
        → is_sha256 dataset_hash ≡ true
        → run_validates
            (mode_outcome latency clock n strategy cases e.experiment_id run_id mode dataset_hash
              git_commit env).run
          ≡ true
    unfolding run_validates
    ready-run_validates n strategy cases run_id mode dataset_hash i h =
        let in_order : leb (clock n) (clock (n + 1)) ≡ true = ground (arith, ready.forward n) in
        rw (i, ready.named, h, ready.commit, ready.environment, in_order) refl

    pub ready-named :
        (t : TestSet F) (dataset_hash : String)
        → loaded ≡ ok (t, dataset_hash)
        → All (λ (c : TestCase F). nonempty c.case_id ≡ true) t.cases
    ready-named t dataset_hash h =
        cases_named t.cases (test_set-named t (ready.loads t dataset_hash h).0)
