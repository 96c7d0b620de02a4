-- ===== src/Metrics/Calculator/Confusion.antt =====
-- The rates as a confusion matrix that is counted on the results themselves.
use zero_shield.Base.{
  ℕ, String, ◌≡◌, ◌+◌, refl, Bool, true, false, not, ◌&&◌, List, [], ◌∷◌, arith, length, keep,
  length-keep, inl, inr, count_if, count_if-add-not, subst, any_of, str_eq, none, some, sym, all_of,
  is_some, ◌∙◌, Option-cases,
}
use zero_shield.Base.Effects.{ok, succeeded, Result-cases}
use zero_shield.Base.Floats.{Float}
use zero_shield.Models.Enums.{Decision, is_blocked}
use zero_shield.Models.Runs.{TestCase, CaseResult}
use zero_shield.Models.Metrics.{ExperimentMetrics}
use zero_shield.Metrics.Calculator.{
  expected_by_case_id, score, safe_rate, measures, calculate_metrics, was_blocked, was_accepted,
  expects_block, expects_accept, reached_parser,
}
use zero_shield.Metrics.Calculator.Scores.{scores, count_if-score, calculate_metrics_cases}

module _ {A : Type 0} where
  count_if-keep :
      (p q : A → Bool) (xs : List A) → count_if p (keep q xs) ≡ count_if (λ x. q x && p x) xs
  count_if-keep p q [] = refl
  count_if-keep p q (x ∷ xs) = ground (arith, count_if-keep p q xs)

  count_if-split :
      (p q : A → Bool) (xs : List A)
      → count_if q xs ≡ count_if (λ x. q x && p x) xs + count_if (λ x. q x && not (p x)) xs
  count_if-split p q [] = omega arith
  count_if-split p q (x ∷ xs) = ground (arith, count_if-split p q xs)

module _ {F : Type 0} (cases : List (TestCase F)) (rs : List (CaseResult F)) where
  -- The results that did not err and that pass a test of the decision, among the cases that
  -- expect to be blocked, or to be accepted
  abbrev pub among : (CaseResult F → Bool) → Bool → ℕ
  among p expected =
      count_if
        (λ r. not r.errored && elim (expected_by_case_id cases r.case_id) [
          | none ↦ false
          | some e ↦ elim expected [ true ↦ is_blocked e | false ↦ not (is_blocked e) ] && p r
        ])
        rs

  -- The four entries of the matrix
  abbrev pub true_positive : ℕ
  true_positive = among (λ r. is_blocked r.decision) true

  abbrev pub false_negative : ℕ
  false_negative = among (λ r. not (is_blocked r.decision)) true

  abbrev pub true_negative : ℕ
  true_negative = among (λ r. not (is_blocked r.decision)) false

  abbrev pub false_positive : ℕ
  false_positive = among (λ r. is_blocked r.decision) false

module _ {F : Type 0} ⦃f : Float F⦄ where
  -- The rates of the measures as quotients of entries of the matrix
  pub record IsConfusion (cases : List (TestCase F)) (rs : List (CaseResult F))
      (m : ExperimentMetrics F) : Type 0 where
    pub blocks :
        m.block_rate
        ≡ safe_rate (true_positive cases rs) (true_positive cases rs + false_negative cases rs)
    pub misses :
        m.false_negative_rate
        ≡ safe_rate (false_negative cases rs) (true_positive cases rs + false_negative cases rs)
    pub acceptances :
        m.valid_acceptance_rate
        ≡ safe_rate (true_negative cases rs) (true_negative cases rs + false_positive cases rs)
    pub alarms :
        m.false_positive_rate
        ≡ safe_rate (false_positive cases rs) (true_negative cases rs + false_positive cases rs)
    pub reaches :
        m.parser_reach_rate
        ≡ safe_rate
            (among cases rs (λ r. r.parser_reached) true)
            (true_positive cases rs + false_negative cases rs)
    pub successes :
        m.processing_success_rate
        ≡ safe_rate
            ((true_positive cases rs + false_negative cases rs)
              + (true_negative cases rs + false_positive cases rs))
            (length rs)

module _ {F : Type 0} (cases : List (TestCase F)) (rs : List (CaseResult F))
    (scored : List (CaseResult F × Decision)) (h : score cases rs ≡ ok scored) where
  kept :
      (p q : CaseResult F × Decision → Bool)
      → count_if p (keep q scored) ≡ count_if (scores cases (λ x. q x && p x)) rs
  kept p q = count_if-keep p q scored ∙ count_if-score cases rs scored (λ x. q x && p x) h

  kept_length :
      (q : CaseResult F × Decision → Bool)
      → length (keep q scored)
        ≡ count_if (scores cases (λ x. q x && was_blocked x)) rs
          + count_if (scores cases (λ x. q x && not (was_blocked x))) rs
  kept_length q =
      rw
        (
          length-keep q scored,
          count_if-split was_blocked q scored,
          count_if-score cases rs scored (λ x. q x && was_blocked x) h,
          count_if-score cases rs scored (λ x. q x && not (was_blocked x)) h,
        )
        refl

  expects_block-length :
      length (keep expects_block scored) ≡ true_positive cases rs + false_negative cases rs
  expects_block-length = kept_length expects_block

  expects_accept-length :
      length (keep expects_accept scored) ≡ true_negative cases rs + false_positive cases rs
  expects_accept-length = omega (arith, kept_length expects_accept)

  scored-length :
      length scored
      ≡ (true_positive cases rs + false_negative cases rs)
        + (true_negative cases rs + false_positive cases rs)
  scored-length = omega (
    arith,
    expects_block-length,
    expects_accept-length,
    length-keep expects_block scored,
    length-keep expects_accept scored,
    count_if-add-not expects_block scored,
  )

module _ {F : Type 0} ⦃f : Float F⦄ where
  measures-IsConfusion :
      (run_id : String) (cases : List (TestCase F)) (rs : List (CaseResult F))
      → (scored : List (CaseResult F × Decision)) (version : String) (now : ℕ)
      → score cases rs ≡ ok scored
      → IsConfusion cases rs (measures run_id rs scored version now)
  unfolding measures
  measures-IsConfusion run_id cases rs scored version now h =
      let blocks = expects_block-length cases rs scored h in
      let accepts = expects_accept-length cases rs scored h in
      record {
        blocks = ap2 (kept cases rs scored h was_blocked expects_block) blocks;
        misses = ap2 (kept cases rs scored h was_accepted expects_block) blocks;
        acceptances = ap2 (kept cases rs scored h was_accepted expects_accept) accepts;
        alarms = ap2 (kept cases rs scored h was_blocked expects_accept) accepts;
        reaches = ap2 (kept cases rs scored h reached_parser expects_block) blocks;
        successes = ap2 (scored-length cases rs scored h) refl;
      }
    where
      ap2 : {a b c d : ℕ} → a ≡ b → c ≡ d → Path F (safe_rate a c) (safe_rate b d)
      ap2 p q = rw (p, q) refl

  -- When the measures are calculated, its rates are those of a confusion matrix counted on the
  -- results themselves: a result that erred counts nowhere, the block and false negative rates
  -- share out the cases that should be blocked, the acceptance and false positive rates those
  -- that should be accepted, and the success rate is what the four entries add up to.
  pub calculate_metrics-IsConfusion :
      (run_id : String) (rs : List (CaseResult F)) (cases : List (TestCase F))
      → (version : String) (now : ℕ) (m : ExperimentMetrics F)
      → calculate_metrics run_id rs cases version now ≡ ok m
      → IsConfusion cases rs m
  calculate_metrics-IsConfusion run_id rs cases version now m h =
      let (scored, is_scored, is_m) = calculate_metrics_cases run_id rs cases version now m h in
      subst (IsConfusion cases rs) (sym is_m)
        (measures-IsConfusion run_id cases rs scored version now is_scored)

-- The result's case is one of the test cases.
abbrev pub is_known_case : {F : Type 0} → List (TestCase F) → CaseResult F → Bool
is_known_case cases r = any_of (λ t. str_eq t.case_id r.case_id) cases

expected-known :
    {F : Type 0} (cases : List (TestCase F)) (key : String)
    → is_some (expected_by_case_id cases key) ≡ any_of (λ t. str_eq t.case_id key) cases
expected-known [] key = refl
expected-known (t ∷ rest) key = ground (arith, expected-known rest key)

pub score-succeeded :
    {F : Type 0} (cases : List (TestCase F)) (rs : List (CaseResult F))
    → succeeded (score cases rs) ≡ all_of (is_known_case cases) rs
unfolding score
score-succeeded cases [] = refl
score-succeeded cases (r ∷ rs) = elim (Option-cases (expected_by_case_id cases r.case_id)) [
  | inl e ↦ rw (sym (expected-known cases r.case_id), e, score) refl
  | inr (d, e) ↦ elim (Result-cases (score cases rs)) [
    | inl (s, e2) ↦
        rw (sym (expected-known cases r.case_id), sym (score-succeeded cases rs), e, e2, score) refl
    | inr (x, e2) ↦
        rw (sym (expected-known cases r.case_id), sym (score-succeeded cases rs), e, e2, score) refl
  ]
]
