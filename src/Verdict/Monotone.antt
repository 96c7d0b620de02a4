-- ===== src/Verdict/Monotone.antt =====
-- That a comparison which is at least as good gets a label that is at least as good.
use zero_shield.Base.{
  ℕ, ◌≡◌, ◌≤◌, inl, inr, refl, Bool, true, false, ◌&&◌, Option, none, some, ltb, if◌then◌else◌,
  arith, Bool-cases,
}
use zero_shield.Base.Floats.{Float, IsOrderedFloat}
use zero_shield.Models.Enums.{VerdictLabel}
use zero_shield.Models.Metrics.{ComparisonReport}
use zero_shield.Verdict.{
  VerdictThresholds, compute_verdict, has_regressed, fp_ok, fn_ok, va_ok, latency_ok, effective_ok,
  partial_ok, judged_label,
}

-- The order of the labels that regression detection goes by
abbrev pub severity : VerdictLabel → ℕ
severity VerdictLabel.effective = 4
severity VerdictLabel.partially_effective = 3
severity VerdictLabel.inconclusive = 2
severity VerdictLabel.ineffective = 1
severity VerdictLabel.regression = 0

-- `b` holds wherever `a` does.
abbrev Implies : Bool → Bool → Type 0
Implies a b = a ≡ true → b ≡ true

-- The label from whether all effective criteria, and the partial ones, are met
abbrev graded : Bool → Bool → VerdictLabel
graded all_met partly_met =
    if all_met
    then VerdictLabel.effective
    else if partly_met
    then VerdictLabel.partially_effective
    else VerdictLabel.ineffective

and_mono : (a b c d : Bool) → Implies a c → Implies b d → Implies (a && b) (c && d)
and_mono true b c d h k both = rw (h refl) (k both)
and_mono false b c d h k both = cc

graded_mono :
    (x y z w : Bool) → Implies x z → Implies y w → severity (graded x y) ≤ severity (graded z w)
graded_mono true y z w h k = rw (h refl) (omega arith)
graded_mono false true true w h k = omega arith
graded_mono false true false w h k = rw (k refl) (omega arith)
graded_mono false false true w h k = omega arith
graded_mono false false false true h k = omega arith
graded_mono false false false false h k = omega arith

module _ {F : Type 0} ⦃f : Float F⦄ where
  -- The comparison `d` is at least as good as `c` on the same number of cases.
  pub record IsAtLeast (c d : ComparisonReport F) : Type 0 where
    pub same_cases : d.total_cases ≡ c.total_cases
    pub improvement : f.le c.block_rate_improvement d.block_rate_improvement ≡ true
    pub block_rate : f.le c.mitigation_metrics.block_rate d.mitigation_metrics.block_rate ≡ true
    pub alarms :
        f.le d.mitigation_metrics.false_positive_rate c.mitigation_metrics.false_positive_rate
        ≡ true
    pub misses :
        f.le d.mitigation_metrics.false_negative_rate c.mitigation_metrics.false_negative_rate
        ≡ true
    pub acceptance :
        f.le c.mitigation_metrics.valid_acceptance_rate d.mitigation_metrics.valid_acceptance_rate
        ≡ true
    pub latency : f.le d.latency_overhead_ms c.latency_overhead_ms ≡ true

module _ {F : Type 0} ⦃f : Float F⦄ ⦃o : IsOrderedFloat F⦄ (c d : ComparisonReport F)
    (better : IsAtLeast c d) (previous : Option (ComparisonReport F)) (t : VerdictThresholds F)
    (now : ℕ) where
  has_regressed_mono :
      (q : Option (ComparisonReport F)) → has_regressed c q t ≡ false → has_regressed d q t ≡ false
  has_regressed_mono none h = refl
  has_regressed_mono (some p) h =
      let was = p.mitigation_metrics.block_rate in
      let c_drop = f.sub was c.mitigation_metrics.block_rate in
      let d_drop = f.sub was d.mitigation_metrics.block_rate in
      let smaller : f.le d_drop c_drop ≡ true =
        o.sub_mono was was d.mitigation_metrics.block_rate c.mitigation_metrics.block_rate
          (o.le_refl was) better.block_rate in
      let within : f.le c_drop t.regression_block_rate_drop ≡ true =
        ground (arith, h, o.lt-eq-not-le t.regression_block_rate_drop c_drop) in
      rw
        (
          o.lt-eq-not-le t.regression_block_rate_drop d_drop,
          o.le_trans d_drop c_drop t.regression_block_rate_drop smaller within,
        )
        refl

  effective_ok_mono : Implies (effective_ok c t) (effective_ok d t)
  effective_ok_mono h =
      o.le_trans t.min_block_rate_improvement_effective c.block_rate_improvement
        d.block_rate_improvement h better.improvement

  partial_ok_mono : Implies (partial_ok c t) (partial_ok d t)
  partial_ok_mono h =
      o.le_trans t.min_block_rate_improvement_partial c.block_rate_improvement
        d.block_rate_improvement h better.improvement

  fp_ok_mono : Implies (fp_ok c t) (fp_ok d t)
  fp_ok_mono h =
      o.le_trans d.mitigation_metrics.false_positive_rate c.mitigation_metrics.false_positive_rate
        t.max_false_positive_rate better.alarms h

  fn_ok_mono : Implies (fn_ok c t) (fn_ok d t)
  fn_ok_mono h =
      o.le_trans d.mitigation_metrics.false_negative_rate c.mitigation_metrics.false_negative_rate
        t.max_false_negative_rate better.misses h

  va_ok_mono : Implies (va_ok c t) (va_ok d t)
  va_ok_mono h =
      o.le_trans t.min_valid_acceptance_rate c.mitigation_metrics.valid_acceptance_rate
        d.mitigation_metrics.valid_acceptance_rate h better.acceptance

  latency_ok_mono : Implies (latency_ok c t) (latency_ok d t)
  latency_ok_mono h =
      o.le_trans d.latency_overhead_ms c.latency_overhead_ms t.max_latency_overhead_ms
        better.latency h

  judged_label_mono : severity (judged_label c t) ≤ severity (judged_label d t)
  unfolding judged_label
  judged_label_mono =
      graded_mono (effective_ok c t && fp_ok c t && fn_ok c t && va_ok c t && latency_ok c t)
        (partial_ok c t && va_ok c t)
        (effective_ok d t && fp_ok d t && fn_ok d t && va_ok d t && latency_ok d t)
        (partial_ok d t && va_ok d t)
        (and_mono _ (latency_ok c t) _ (latency_ok d t)
          (and_mono _ (va_ok c t) _ (va_ok d t)
            (and_mono _ (fn_ok c t) _ (fn_ok d t)
              (and_mono (effective_ok c t) (fp_ok c t) (effective_ok d t) (fp_ok d t)
                effective_ok_mono fp_ok_mono)
              fn_ok_mono)
            va_ok_mono)
          latency_ok_mono)
        (and_mono (partial_ok c t) (va_ok c t) (partial_ok d t) (va_ok d t) partial_ok_mono
          va_ok_mono)

  -- With ordered floats, a comparison that is at least as good in every measure, on as many
  -- cases, with the same previous comparison and the same thresholds, gets a label that is at
  -- least as good.
  pub compute_verdict_mono :
      severity (compute_verdict c previous t now).label
      ≤ severity (compute_verdict d previous t now).label
  unfolding compute_verdict judged_label
  compute_verdict_mono = elim (Bool-cases (ltb c.total_cases t.min_total_cases)) [
    | inl few ↦ rw (better.same_cases, few) (omega arith)
    | inr enough ↦ elim (Bool-cases (has_regressed c previous t)) [
      | inl worse ↦ rw (better.same_cases, enough, worse) (omega arith)
      | inr fine ↦
          rw (better.same_cases, enough, fine, has_regressed_mono previous fine) judged_label_mono
    ]
  ]
