-- ===== src/Metrics/Calculator/Scores.antt =====
-- What the loop of calculate_metrics keeps of the results.
use zero_shield.Base.{
  ℕ, String, ◌≡◌, ◌≤◌, refl, inl, inr, Bool, true, false, not, ◌&&◌, List, [], ◌∷◌, arith, length,
  Option-cases, count_if, if◌then◌else◌, none, some, suc, Bool-cases,
}
use zero_shield.Base.Effects.{Result, ok, Result-cases}
use zero_shield.Base.Floats.{Float}
use zero_shield.Models.Enums.{Decision}
use zero_shield.Models.Runs.{TestCase, CaseResult}
use zero_shield.Models.Metrics.{ExperimentMetrics, metrics_validates}
use zero_shield.Metrics.Calculator.{
  expected_by_case_id, score, measures, checked_metrics, calculate_metrics,
}

module _ {F : Type 0} where
  pub score_cases :
      (cases : List (TestCase F)) (r : CaseResult F) (rs : List (CaseResult F))
      → (scored : List (CaseResult F × Decision)) → score cases (r ∷ rs) ≡ ok scored
      → (e : Decision) × (below : List (CaseResult F × Decision)) × (expected_by_case_id cases
            r.case_id
          ≡ some e)
        × (score cases rs ≡ ok below)
        × (scored ≡ (if r.errored then below else (r, e) ∷ below))
  unfolding score
  score_cases cases r rs scored h = elim (Option-cases (expected_by_case_id cases r.case_id)) [
    | inl unknown ↦ absurd (cc (rw (unknown, score) at h))
    | inr (e, known) ↦ elim (Result-cases (score cases rs)) [
      | inl (below, is_ok) ↦ (e, below, known, is_ok, ok-inj (rw (known, is_ok, score) at h))
      | inr (x, is_err) ↦ absurd (cc (rw (known, is_err, score) at h))
    ]
  ]
    where
      ok-inj : {A : Type 0} {x y : A} → Path (Result String A) (ok x) (ok y) → y ≡ x
      ok-inj h = cc

  pub score-nil :
      (cases : List (TestCase F)) (scored : List (CaseResult F × Decision))
      → score cases [] ≡ ok scored
      → scored ≡ []
  unfolding score
  score-nil cases scored h = cc

  -- A result that did not err, with a pair that passes the test
  abbrev pub scores : List (TestCase F) → (CaseResult F × Decision → Bool) → CaseResult F → Bool
  scores cases p r =
      not r.errored
      && elim (expected_by_case_id cases r.case_id) [ none ↦ false | some e ↦ p (r, e) ]

  count_if-cons :
      (p : CaseResult F × Decision → Bool) (skipped : Bool)
      → (x : CaseResult F × Decision) (xs : List (CaseResult F × Decision))
      → count_if p (if skipped then xs else x ∷ xs)
        ≡ (if not skipped && p x then suc (count_if p xs) else count_if p xs)
  count_if-cons p true x xs = refl
  count_if-cons p false x xs = refl

  pub count_if-score :
      (cases : List (TestCase F)) (rs : List (CaseResult F))
      → (scored : List (CaseResult F × Decision)) (p : CaseResult F × Decision → Bool)
      → score cases rs ≡ ok scored
      → count_if p scored ≡ count_if (scores cases p) rs
  count_if-score cases [] scored p h = rw (score-nil cases scored h) refl
  count_if-score cases (r ∷ rs) scored p h =
      let (e, below, known, is_ok, is_scored) = score_cases cases r rs scored h in
      rw
        (
          is_scored,
          count_if-cons p r.errored (r, e) below,
          known,
          count_if-score cases rs below p is_ok,
        )
        refl

module _ {F : Type 0} where
  pub score-length :
      (cases : List (TestCase F)) (rs : List (CaseResult F))
      → (scored : List (CaseResult F × Decision)) → score cases rs ≡ ok scored
      → length scored ≤ length rs
  score-length cases [] scored h = rw (score-nil cases scored h) (omega arith)
  score-length cases (r ∷ rs) scored h =
      let (e, below, known, is_ok, is_scored) = score_cases cases r rs scored h in
      let shorter = score-length cases rs below is_ok in
      rw is_scored (if-length r.errored (r, e) below (length rs) shorter)
    where
      if-length :
          (b : Bool) (x : CaseResult F × Decision) (xs : List (CaseResult F × Decision)) (n : ℕ)
          → length xs ≤ n
          → length (if b then xs else x ∷ xs) ≤ suc n
      if-length true x xs n le = omega arith
      if-length false x xs n le = omega arith

module _ {F : Type 0} ⦃f : Float F⦄ where
  checked_metrics-ok :
      (m m' : ExperimentMetrics F)
      → checked_metrics m ≡ ok m'
      → (m' ≡ m) × (metrics_validates m ≡ true)
  checked_metrics-ok m m' h = elim (Bool-cases (metrics_validates m)) [
    | inl e ↦ (cc (rw e at h), e)
    | inr e ↦ absurd (cc (rw e at h))
  ]

  pub calculate_metrics_cases :
      (run_id : String) (rs : List (CaseResult F)) (cases : List (TestCase F))
      → (version : String) (now : ℕ) (m : ExperimentMetrics F)
      → calculate_metrics run_id rs cases version now ≡ ok m
      → (scored : List (CaseResult F × Decision)) × (score cases rs ≡ ok scored)
        × (m ≡ measures run_id rs scored version now)
  unfolding calculate_metrics
  calculate_metrics_cases run_id rs cases version now m h = elim (Result-cases (score cases rs)) [
    | inl (scored, is_ok) ↦
        let measured = measures run_id rs scored version now in
        (scored, is_ok, (checked_metrics-ok measured m (rw (is_ok, calculate_metrics) at h)).0)
    | inr (x, is_err) ↦ absurd (cc (rw (is_err, calculate_metrics) at h))
  ]
