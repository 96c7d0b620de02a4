-- ===== src/Runner/Cases.antt =====
-- The loop over the cases: one result for each case, in order, where every result validates.
use zero_shield.Base.{
  ℕ, ◌+◌, String, ◌≡◌, refl, ◌∙◌, ap, Bool, true, false, some, List, [], ◌∷◌, ◌++◌, map, all_of,
  any_of, any_of-append, append_assoc, append-nil, subst, ◌||◌, str_eq, eq_refl, inl, inr, not, All,
}
use zero_shield.Base.Effects.{Result, ok, err, pure, bind_ok, guard_passes, ◌>>=◌, Result-cases}
use zero_shield.Base.Floats.{Float, zero_float}
use zero_shield.Models.Enums.{RunMode, RunStatus}
use zero_shield.Models.Experiment.{nonempty}
use zero_shield.Models.Values.{Fields}
use zero_shield.Models.Patterns.{is_run_id}
use zero_shield.Models.Runs.{
  TestCase, StrategyOutcome, CaseResult, outcome_validates, case_result_validates, ExperimentRun,
  run_validates,
}
use zero_shield.Metrics.Calculator.Confusion.{is_known_case}
use zero_shield.Runner.{
  Raised, ProcessingStrategy, RunState, RunError, RunOutcome, Run, validated, message_of,
  case_result, execute_case, execute_cases, execute_mode, read_clock,
}

module _ {F : Type 0} where
  -- The calls that a strategy gets
  abbrev pub calls : ProcessingStrategy F → List (TestCase F) → List (String × String)
  calls strategy cases = map (λ (c : TestCase F). (strategy.strategy_id, c.case_id)) cases

module _ {F : Type 0} (latency : String → TestCase F → F) where
  -- The result of each case on its own
  abbrev pub results_of : ProcessingStrategy F → String → List (TestCase F) → List (CaseResult F)
  results_of strategy run_id cases =
      map
        (λ (c : TestCase F).
          case_result run_id c (latency run_id c) (strategy.process c.input_data))
        cases

pub validated_lem :
    {A : Type 0} (passes : Bool) (a : A) (s : RunState)
    → passes ≡ true
    → validated passes a s ≡ (ok a, s)
unfolding validated
validated_lem passes a s h =
    guard_passes (not passes) RunError.validation_error (pure a) s (ap not h)

module _ {F : Type 0} ⦃f : Float F⦄ (latency : String → TestCase F → F) where
  execute_case_lem :
      (strategy : ProcessingStrategy F) (run_id : String) (c : TestCase F) (s : RunState)
      → let r = case_result run_id c (latency run_id c) (strategy.process c.input_data) in
        case_result_validates r ≡ true
        → execute_case latency strategy run_id c s
          ≡ (ok r, record s { processed = s.processed ++ (strategy.strategy_id, c.case_id) ∷ [] })
  unfolding execute_case
  execute_case_lem strategy run_id c s h =
      let r = case_result run_id c (latency run_id c) (strategy.process c.input_data) in
      validated_lem (case_result_validates r) r _ h

  -- Every result that the loop builds is valid.
  abbrev pub AllValid : ProcessingStrategy F → String → List (TestCase F) → Type 0
  AllValid strategy run_id cases =
      All
        (λ (c : TestCase F).
          case_result_validates
            (case_result run_id c (latency run_id c) (strategy.process c.input_data))
          ≡ true)
        cases

  execute_cases_lem :
      (strategy : ProcessingStrategy F) (run_id : String) (cases : List (TestCase F)) (s : RunState)
      → AllValid strategy run_id cases
      → execute_cases latency strategy run_id cases s ≡ (
        ok (results_of latency strategy run_id cases),
        record s { processed = s.processed ++ calls strategy cases },
      )
  unfolding execute_cases
  execute_cases_lem strategy run_id [] s v = rw (append-nil s.processed) refl
  execute_cases_lem strategy run_id (c ∷ cs) s (is_valid, v) =
      let before = record s { processed = s.processed ++ (strategy.strategy_id, c.case_id) ∷ [] } in
      let r = case_result run_id c (latency run_id c) (strategy.process c.input_data) in
      let last : CaseResult F → List (CaseResult F) → Run (List (CaseResult F)) =
        λ r rs. pure (r ∷ rs) in
      bind_ok (execute_case latency strategy run_id c)
        (λ r. execute_cases latency strategy run_id cs >>= last r) s before r
        (execute_case_lem strategy run_id c s is_valid)
      ∙ bind_ok (execute_cases latency strategy run_id cs) (last r) before
          (record s { processed = before.processed ++ calls strategy cs })
          (results_of latency strategy run_id cs) (execute_cases_lem strategy run_id cs before v)
      ∙ ap
          (λ (l : List (String × String)).
            (ok (r ∷ results_of latency strategy run_id cs), record s { processed = l }))
          (append_assoc s.processed ((strategy.strategy_id, c.case_id) ∷ []) (calls strategy cs))

module _ {F : Type 0} (latency : String → TestCase F → F) (clock : ℕ → ℕ) where
  -- What a mode returns that starts at the given reading of the clock
  abbrev pub mode_outcome :
      ℕ
      → ProcessingStrategy F
      → List (TestCase F)
      → (experiment_id run_id : String) (mode : RunMode) (dataset_hash git_commit : String)
      → List (String × String)
      → RunOutcome F
  mode_outcome n strategy cases experiment_id run_id mode dataset_hash git_commit env = record {
    run = record {
      run_id = run_id;
      experiment_id = experiment_id;
      mode = mode;
      dataset_hash = dataset_hash;
      git_commit = git_commit;
      environment = env;
      started_at = clock n;
      completed_at = some (clock (n + 1));
      status = RunStatus.completed;
    };
    strategy_id = strategy.strategy_id;
    case_results = results_of latency strategy run_id cases;
  }

  -- The state that a mode leaves
  abbrev pub after_mode : ProcessingStrategy F → List (TestCase F) → RunState → RunState
  after_mode strategy cases s = record {
    readings = s.readings + 1 + 1;
    events = s.events;
    processed = s.processed ++ calls strategy cases;
  }

module _ {F : Type 0} ⦃f : Float F⦄ (latency : String → TestCase F → F) (clock : ℕ → ℕ) where
  pub execute_mode_lem :
      (strategy : ProcessingStrategy F) (cases : List (TestCase F))
      → (experiment_id run_id : String) (mode : RunMode) (dataset_hash git_commit : String)
      → (env : List (String × String)) (s : RunState)
      → let outcome =
          mode_outcome latency clock s.readings strategy cases experiment_id run_id mode
            dataset_hash git_commit env in
        AllValid latency strategy run_id cases
        → run_validates outcome.run ≡ true
        → execute_mode latency clock strategy cases experiment_id run_id mode dataset_hash
            git_commit env s
          ≡ (ok outcome, after_mode latency clock strategy cases s)
  unfolding execute_mode
  execute_mode_lem strategy cases experiment_id run_id mode dataset_hash git_commit env s v w =
      let outcome =
        mode_outcome latency clock s.readings strategy cases experiment_id run_id mode dataset_hash
          git_commit env in
      let started = record s { readings = s.readings + 1 } in
      let finish : List (CaseResult F) → ExperimentRun → Run (RunOutcome F) = λ rs run.
        pure (record { run = run; strategy_id = strategy.strategy_id; case_results = rs }) in
      let build : ℕ → ExperimentRun = λ t. record outcome.run { completed_at = some t } in
      let close : List (CaseResult F) → Run (RunOutcome F) = λ rs.
        read_clock clock >>= λ t. (validated (run_validates (build t)) (build t) >>= finish rs) in
      let results = results_of latency strategy run_id cases in
      bind_ok (execute_cases latency strategy run_id cases) close started
        (record started { processed = s.processed ++ calls strategy cases }) results
        (execute_cases_lem latency strategy run_id cases started v)
      ∙ bind_ok (validated (run_validates outcome.run) outcome.run) (finish results)
          (after_mode latency clock strategy cases s) (after_mode latency clock strategy cases s)
          outcome.run
          (validated_lem (run_validates outcome.run) outcome.run
            (after_mode latency clock strategy cases s) w)

-- Every answer of the strategy validates, and every exception has a message.
pub record IsWellBehaved {F : Type 0} (strategy : ProcessingStrategy F) : Type 0 where
  pub answers :
      (d : Fields F) (o : StrategyOutcome) → strategy.process d ≡ ok o → outcome_validates o ≡ true
  pub failures :
      (d : Fields F) (e : Raised) → strategy.process d ≡ err e → nonempty (message_of e) ≡ true

-- The result of a case satisfies every constraint of CaseResult, whether the strategy answers or
-- raises; when it raises, the case counts as blocked before the parser, errored and logged.
pub case_result-validates :
    {F : Type 0} ⦃f : Float F⦄ (strategy : ProcessingStrategy F) (run_id : String)
    → (case : TestCase F) (latency : F) → IsWellBehaved strategy
    → is_run_id run_id ≡ true
    → nonempty case.case_id ≡ true
    → f.le zero_float latency ≡ true
    → case_result_validates (case_result run_id case latency (strategy.process case.input_data))
      ≡ true
unfolding case_result case_result_validates outcome_validates
case_result-validates ⦃f⦄ strategy run_id case latency w is_id is_case is_latency =
    elim (Result-cases (strategy.process case.input_data)) [
      | inl (o, e) ↦ rw (e, is_id, is_case, is_latency) (w.answers case.input_data o e)
      | inr (x, e) ↦ rw (e, is_id, is_case, is_latency) (w.failures case.input_data x e)
    ]

module _ {F : Type 0} (latency : String → TestCase F → F) where
  head-known :
      (pre cs : List (TestCase F)) (c : TestCase F)
      → any_of (λ (t : TestCase F). str_eq t.case_id c.case_id) (pre ++ c ∷ cs) ≡ true
  head-known pre cs c =
      rw
        (
          any_of-append (λ (t : TestCase F). str_eq t.case_id c.case_id) pre (c ∷ cs),
          eq_refl c.case_id,
        )
        (or_true (any_of (λ (t : TestCase F). str_eq t.case_id c.case_id) pre))
    where
      or_true : (b : Bool) → (b || true) ≡ true
      or_true true = refl
      or_true false = refl

  pub results_of-known :
      (strategy : ProcessingStrategy F) (run_id : String) (pre cs : List (TestCase F))
      → all_of (is_known_case (pre ++ cs)) (results_of latency strategy run_id cs) ≡ true
  unfolding case_result
  results_of-known strategy run_id pre [] = refl
  results_of-known strategy run_id pre (c ∷ cs) =
      let rest =
        subst (λ l. all_of (is_known_case l) (results_of latency strategy run_id cs) ≡ true)
          (append_assoc pre (c ∷ []) cs) (results_of-known strategy run_id (pre ++ c ∷ []) cs) in
      rw
        (
          case_id_lem run_id c (latency run_id c) (strategy.process c.input_data),
          head-known pre cs c,
        )
        rest
    where
      case_id_lem :
          (run_id : String) (c : TestCase F) (l : F) (o : Result Raised StrategyOutcome)
          → (case_result run_id c l o).case_id ≡ c.case_id
      case_id_lem run_id c l (ok o) = refl
      case_id_lem run_id c l (err e) = refl
