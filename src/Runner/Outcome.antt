-- ===== src/Runner/Outcome.antt =====
-- The outcome of a run: refused before any strategy is called, or admitted, and then completed.
use zero_shield.Base.{
  ℕ, ◌+◌, String, ◌≡◌, refl, sym, ◌∙◌, ap, subst, ◌⊎◌, inl, inr, not, List, [], ◌∷◌, append_assoc,
  str_eq, eq_iff, Bool-cases,
}
use zero_shield.Base.Effects.{Result, ok, err, guard_raises, guard_passes}
use zero_shield.Base.Floats.{Float}
use zero_shield.Models.Enums.{RunMode, RunEventType, ExecutionContext, eq_domain}
use zero_shield.Models.Experiment.{ExperimentDefinition}
use zero_shield.Models.Runs.{TestCase, TestSet}
use zero_shield.Policies.{evaluate}
use zero_shield.Policies.Evaluate.{IsSafe, evaluate-allowed_iff}
use zero_shield.Runner.{
  ProcessingStrategy, RunState, RunError, ExecutionResult, run_modes, run_loaded,
}
use zero_shield.Runner.Ready.{IsReady, ready-AllValid, ready-run_validates, ready-named}
use zero_shield.Runner.Passing.{
  IsCompleted, IsRefused, checked, result_of, run_modes_lem, IsRefused-by, rest_loaded, the_run,
  policy_refused, guards_passed, baseline_refused, mitigation_refused, IsAdmitted, AreValid,
}

module _ {F : Type 0} ⦃f : Float F⦄ (latency : String → TestCase F → F) (clock : ℕ → ℕ)
    (e : ExperimentDefinition) (baseline mitigation : ProcessingStrategy F)
    (b_id m_id git_commit : String) (env : List (String × String)) (s : RunState)
    (context : ExecutionContext) where
  -- The run on what was loaded
  abbrev pub run_on :
      Result String (TestSet F × String) → Result RunError (ExecutionResult F) × RunState
  run_on loaded =
      the_run latency clock e loaded baseline mitigation b_id m_id git_commit env s context

  abbrev pub Outcome : Result String (TestSet F × String) → Type 0
  Outcome loaded =
      IsRefused latency clock e loaded baseline mitigation b_id m_id git_commit env s
        (run_on loaded)
      ⊎ IsCompleted latency clock e loaded baseline mitigation b_id m_id git_commit env s context
          (run_on loaded)

  -- Both modes, from the state before the first guard
  abbrev modes_from : TestSet F × String → Result RunError (ExecutionResult F) × RunState
  modes_from d =
      run_modes latency clock e d baseline mitigation b_id m_id git_commit env
        (evaluate e context (clock s.readings)) (checked s)

  abbrev Refused : Result String (TestSet F × String) → Type 0
  Refused loaded =
      IsRefused latency clock e loaded baseline mitigation b_id m_id git_commit env s
        (run_on loaded)

  abbrev Admitted : Result String (TestSet F × String) → Type 0
  Admitted loaded =
      IsAdmitted latency clock e loaded baseline mitigation b_id m_id git_commit env context

  -- The run is admitted, and is that of both modes.
  record IsRun (loaded : Result String (TestSet F × String)) : Type 0 where
    admitted : Admitted loaded
    runs : run_on loaded ≡ modes_from (admitted.test_set, admitted.dataset_hash)

  module _ (safe : IsSafe e context) (same_baseline : baseline.strategy_id ≡ e.baseline_strategy)
      (same_mitigation : mitigation.strategy_id ≡ e.mitigation_strategy) where
    loaded_cases :
        (loaded : Result String (TestSet F × String))
        → run_on loaded
          ≡ rest_loaded latency clock e loaded baseline mitigation b_id m_id git_commit env s
              context
              (checked s)
        → Refused loaded ⊎ IsRun loaded
    unfolding run_loaded
    loaded_cases (err x) h = inl (
        IsRefused-by latency clock e (err x) baseline mitigation b_id m_id git_commit env s
          (RunError.dataset_error x) (run_on (err x)) h)
    loaded_cases (ok d) h =
        let modes =
          run_modes latency clock e d baseline mitigation b_id m_id git_commit env
            (evaluate e context (clock s.readings)) in
        elim (Bool-cases (eq_domain d.0.domain e.domain)) [
          | inl same ↦ inr (record {
            admitted = record {
              safe = safe;
              baseline_declared = same_baseline;
              mitigation_declared = same_mitigation;
              test_set = d.0;
              dataset_hash = d.1;
              data_loaded = refl;
              same_domain = same;
            };
            runs =
                h
                ∙ guard_passes (not (eq_domain d.0.domain e.domain)) RunError.domain_mismatch modes
                    (checked s) (ap not same);
          })
          | inr other ↦ inl (
              IsRefused-by latency clock e (ok d) baseline mitigation b_id m_id git_commit env s
                RunError.domain_mismatch (run_on (ok d))
                (h
                  ∙ guard_raises (not (eq_domain d.0.domain e.domain)) RunError.domain_mismatch
                      modes (checked s) (ap not other)))
        ]

  admission : (loaded : Result String (TestSet F × String)) → Refused loaded ⊎ IsRun loaded
  admission loaded =
      let d = evaluate e context (clock s.readings) in
      let refuse : (x : RunError)
          → run_on loaded ≡ (err x, checked s)
          → Refused loaded ⊎ IsRun loaded =
        λ x h. inl (
          IsRefused-by latency clock e loaded baseline mitigation b_id m_id git_commit env s x
            (run_on loaded) h) in
      elim (Bool-cases d.allowed) [
        | inr denied ↦ refuse (RunError.policy_refusal d) (
            policy_refused latency clock e loaded baseline mitigation b_id m_id git_commit env s
              context denied)
        | inl allowed ↦ elim (Bool-cases (str_eq baseline.strategy_id e.baseline_strategy)) [
          | inr other ↦ refuse RunError.baseline_mismatch (
              baseline_refused latency clock e loaded baseline mitigation b_id m_id git_commit env s
                context allowed other)
          | inl same_b ↦ elim (Bool-cases (str_eq mitigation.strategy_id e.mitigation_strategy)) [
            | inr other ↦ refuse RunError.mitigation_mismatch (
                mitigation_refused latency clock e loaded baseline mitigation b_id m_id git_commit
                  env s context allowed same_b other)
            | inl same_m ↦
                loaded_cases ((evaluate-allowed_iff e context (clock s.readings)).0 allowed)
                  ((eq_iff baseline.strategy_id e.baseline_strategy).0 same_b)
                  ((eq_iff mitigation.strategy_id e.mitigation_strategy).0 same_m) loaded
                  (guards_passed latency clock e loaded baseline mitigation b_id m_id git_commit env
                    s context allowed same_b same_m)
          ]
        ]
      ]

  -- Whatever the strategies, the timer and the clock do and whatever fails to validate, a run
  -- calls no strategy unless the experiment is safe, both strategies are the declared ones and the
  -- data set is loaded and of the experiment's domain: otherwise it raises with SAFETY_CHECK as
  -- its only event and no call.
  pub run_experiment_guarded :
      (loaded : Result String (TestSet F × String)) → Refused loaded ⊎ Admitted loaded
  run_experiment_guarded loaded = elim (admission loaded) [ inl r ↦ inl r | inr r ↦ inr r.admitted ]

  module _ (loaded : Result String (TestSet F × String)) where
    abbrev pub Ready : Type 0
    Ready = IsReady latency clock e loaded baseline mitigation b_id m_id git_commit env

    ready-AreValid :
        Ready
        → (t : TestSet F) (dataset_hash : String) → loaded ≡ ok (t, dataset_hash)
        → (n : ℕ)
        → AreValid latency clock e loaded baseline mitigation b_id m_id git_commit env
            (t, dataset_hash)
            n
    ready-AreValid ready t dataset_hash h n =
        let named =
          ready-named latency clock e loaded baseline mitigation b_id m_id git_commit env ready t
            dataset_hash h in
        let is_hash = (ready.loads t dataset_hash h).1 in
        let valid =
          ready-AllValid latency clock e loaded baseline mitigation b_id m_id git_commit env
            ready in
        let run_valid =
          ready-run_validates latency clock e loaded baseline mitigation b_id m_id git_commit env
            ready in
        record {
          baseline_results =
              valid baseline b_id t.cases ready.baseline_behaves ready.baseline_id named;
          mitigation_results =
              valid mitigation m_id t.cases ready.mitigation_behaves ready.mitigation_id named;
          baseline_run = λ d.
              run_valid n baseline t.cases b_id RunMode.baseline dataset_hash ready.baseline_id
                is_hash;
          mitigation_run = λ d.
              run_valid (n + 1 + 1) mitigation t.cases m_id RunMode.mitigated dataset_hash
                ready.mitigation_id is_hash;
        }

    completed :
        Ready
        → IsRun loaded
        → IsCompleted latency clock e loaded baseline mitigation b_id m_id git_commit env s context
            (run_on loaded)
    completed ready r =
        let a = r.admitted in
        let decision = evaluate e context (clock s.readings) in
        let d : TestSet F × String = (a.test_set, a.dataset_hash) in
        let after =
          r.runs
          ∙ run_modes_lem latency clock e loaded baseline mitigation b_id m_id git_commit env d
              decision (checked s)
              (ready-AreValid ready a.test_set a.dataset_hash a.data_loaded (s.readings + 1)) in
        subst
          (IsCompleted latency clock e loaded baseline mitigation b_id m_id git_commit env s
            context)
          (sym after)
          (record {
            safe = a.safe;
            baseline_declared = a.baseline_declared;
            mitigation_declared = a.mitigation_declared;
            test_set = a.test_set;
            dataset_hash = a.dataset_hash;
            data_loaded = a.data_loaded;
            same_domain = a.same_domain;
            result =
                result_of latency clock e loaded baseline mitigation b_id m_id git_commit env d
                  decision (s.readings + 1);
            returned = refl;
            baseline_results = refl;
            mitigation_results = refl;
            events =
                rw
                  (
                    append_assoc s.events (RunEventType.safety_check ∷ [])
                        (RunEventType.running_baseline ∷ []),
                    append_assoc s.events
                        (RunEventType.safety_check ∷ RunEventType.running_baseline ∷ [])
                        (RunEventType.running_mitigation ∷ []),
                  )
                  refl;
            processed = refl;
          })

    -- With well-formed identifiers, commit, environment and data set, strategies that answer with
    -- valid outcomes or raise with a name, and a timer and a clock that do not go back: a run
    -- either raises before any strategy is called, with SAFETY_CHECK as its only event, or it is a
    -- run of a safe experiment whose declared strategies and domain match. Then it returns, has
    -- called the baseline on every case in order and then the mitigation, has one result for each
    -- case, and has sent SAFETY_CHECK, RUNNING_BASELINE and RUNNING_MITIGATION in this order.
    pub run_experiment_cases : Ready → Outcome loaded
    run_experiment_cases ready = elim (admission loaded) [
      | inl r ↦ inl r
      | inr r ↦ inr (completed ready r)
    ]
