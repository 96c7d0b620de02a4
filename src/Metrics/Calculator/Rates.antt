-- ===== src/Metrics/Calculator/Rates.antt =====
-- That the measures satisfy the constraints of ExperimentMetrics.
use zero_shield.Base.{
  ℕ, String, ◌≡◌, ◌≤◌, ◌<◌, refl, inl, inr, Bool, true, List, [], ◌∷◌, arith, length, keep, map,
  count_if, count_if-le, All, Bool-cases, ◌==◌, all_of, ap, sym, ◌∙◌, false,
}
use zero_shield.Base.Effects.{ok, err, succeeded, Result-cases}
use zero_shield.Base.Floats.{Float, IsOrderedFloat, zero_float}
use zero_shield.Models.Enums.{Decision}
use zero_shield.Models.Experiment.{nonempty}
use zero_shield.Models.Patterns.{is_run_id}
use zero_shield.Models.Runs.{TestCase, CaseResult}
use zero_shield.Models.Metrics.{ExperimentMetrics, rate_ok, metrics_validates}
use zero_shield.Metrics.Calculator.{
  score, safe_rate, sum_latency, mean_latency, measures, calculate_metrics, was_blocked,
  was_accepted, expects_block, expects_accept, reached_parser, was_logged,
}
use zero_shield.Metrics.Calculator.Confusion.{is_known_case, score-succeeded}
use zero_shield.Metrics.Calculator.Scores.{score-length, calculate_metrics_cases}

module _ {F : Type 0} ⦃f : Float F⦄ where
  -- The latencies are what CaseResult demands.
  abbrev pub HasLatency : CaseResult F → Type 0
  HasLatency r = f.le zero_float r.latency_ms ≡ true

safe_rate-rate_ok :
    (F : Type 0) ⦃f : Float F⦄ ⦃o : IsOrderedFloat F⦄ (n d : ℕ)
    → n ≤ d
    → rate_ok (safe_rate {F = F} n d) ≡ true
unfolding safe_rate
safe_rate-rate_ok F ⦃o = o⦄ n d le = elim (Bool-cases (d == 0)) [
  | inl e ↦ rw e (rw (o.le_refl zero_float, o.literal_mono 0 10000 (omega arith)) refl)
  | inr e ↦
      let pos_d : 0 < d = ground arith in
      rw e (rw (o.ratio_nonneg n d pos_d, o.ratio_le_one n d pos_d le) refl)
]

module _ {F : Type 0} ⦃f : Float F⦄ ⦃o : IsOrderedFloat F⦄ where
  latencies-nonneg :
      (rs : List (CaseResult F))
      → All HasLatency rs
      → All (λ x. f.le zero_float x ≡ true) (map (λ (r : CaseResult F). r.latency_ms) rs)
  latencies-nonneg [] k = tt
  latencies-nonneg (r ∷ rs) (l, k) = (l, latencies-nonneg rs k)

  sum_latency-nonneg :
      (rs : List (CaseResult F)) → All HasLatency rs → f.le zero_float (sum_latency rs) ≡ true
  sum_latency-nonneg rs k = o.sum_nonneg (map (λ r. r.latency_ms) rs) (latencies-nonneg rs k)

  mean_latency-nonneg :
      (rs : List (CaseResult F)) → All HasLatency rs → f.le zero_float (mean_latency rs) ≡ true
  unfolding mean_latency
  mean_latency-nonneg rs k = elim (Bool-cases (length rs == 0)) [
    | inl e ↦ rw e (o.le_refl zero_float)
    | inr e ↦
        rw e (o.over_nonneg (sum_latency rs) (length rs) (ground arith) (sum_latency-nonneg rs k))
  ]

module _ {F : Type 0} ⦃f : Float F⦄ ⦃o : IsOrderedFloat F⦄ where
  keep-rate_ok :
      (p q : CaseResult F × Decision → Bool) (xs : List (CaseResult F × Decision))
      → rate_ok (safe_rate {F = F} (count_if p (keep q xs)) (length (keep q xs))) ≡ true
  keep-rate_ok p q xs =
      safe_rate-rate_ok F (count_if p (keep q xs)) (length (keep q xs)) (count_if-le p (keep q xs))

  measures-validates :
      (run_id : String) (rs : List (CaseResult F)) (scored : List (CaseResult F × Decision))
      → (version : String) (now : ℕ) → All HasLatency rs
      → is_run_id run_id ≡ true
      → nonempty version ≡ true
      → length scored ≤ length rs
      → metrics_validates (measures run_id rs scored version now) ≡ true
  unfolding metrics_validates measures
  measures-validates run_id rs scored version now k i v le =
      rw
        (
          safe_rate-rate_ok F (length scored) (length rs) le,
          keep-rate_ok was_blocked expects_block scored,
          keep-rate_ok was_accepted expects_accept scored,
          keep-rate_ok was_blocked expects_accept scored,
          keep-rate_ok was_accepted expects_block scored,
          keep-rate_ok reached_parser expects_block scored,
          keep-rate_ok was_logged was_blocked scored,
          mean_latency-nonneg rs k,
          i,
          v,
        )
        refl

  calculate_metrics-scored :
      (run_id : String) (rs : List (CaseResult F)) (cases : List (TestCase F))
      → (version : String) (now : ℕ) (scored : List (CaseResult F × Decision))
      → score cases rs ≡ ok scored
      → metrics_validates (measures run_id rs scored version now) ≡ true
      → calculate_metrics run_id rs cases version now ≡ ok (measures run_id rs scored version now)
  unfolding calculate_metrics
  calculate_metrics-scored run_id rs cases version now scored h v =
      rw (h, v, calculate_metrics) refl

  calculate_metrics-unknown :
      (run_id : String) (rs : List (CaseResult F)) (cases : List (TestCase F))
      → (version : String) (now : ℕ) (x : String) → score cases rs ≡ err x
      → succeeded (calculate_metrics run_id rs cases version now) ≡ false
  unfolding calculate_metrics
  calculate_metrics-unknown run_id rs cases version now x h = rw (h, calculate_metrics) refl

  -- Whatever the results say, with latencies of at least zero, a well-formed run id and a version
  -- that is not empty, the measures never fail to validate: the calculation returns exactly when
  -- every result's case is among the test cases, and what it returns satisfies every constraint of
  -- ExperimentMetrics, with rates between 0 and 1 and a mean latency of at least 0.
  pub calculate_metrics-validates :
      (run_id : String) (rs : List (CaseResult F)) (cases : List (TestCase F))
      → (version : String) (now : ℕ) → All HasLatency rs
      → is_run_id run_id ≡ true
      → nonempty version ≡ true
      → (succeeded (calculate_metrics run_id rs cases version now)
          ≡ all_of (is_known_case cases) rs)
        × ((m : ExperimentMetrics F)
            → calculate_metrics run_id rs cases version now ≡ ok m
            → metrics_validates m ≡ true)
  calculate_metrics-validates run_id rs cases version now k i v = (
    elim (Result-cases (score cases rs)) [
      | inl (scored, h) ↦
          let valid =
            measures-validates run_id rs scored version now k i v
              (score-length cases rs scored h) in
          ap succeeded (calculate_metrics-scored run_id rs cases version now scored h valid)
          ∙ sym (ap succeeded h)
          ∙ score-succeeded cases rs
      | inr (x, h) ↦
          calculate_metrics-unknown run_id rs cases version now x h
          ∙ sym (ap succeeded h)
          ∙ score-succeeded cases rs
    ],
    λ m h.
        let (scored, is_scored, is_m) = calculate_metrics_cases run_id rs cases version now m h in
        rw is_m (
          measures-validates run_id rs scored version now k i v
            (score-length cases rs scored is_scored)),
  )
