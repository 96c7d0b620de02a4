-- ===== src/Verdict/Labels.antt =====
-- When a verdict has which label, and what its failed criteria say.
use zero_shield.Base.{
  ℕ, ◌≡◌, ◌≤◌, ◌↔◌, inl, inr, refl, String, Bool, true, false, not, Option, List, [], ◌++◌, ltb,
  none, some, arith, Bool-cases,
}
use zero_shield.Base.Floats.{Float, IsOrderedFloat}
use zero_shield.Models.Enums.{VerdictLabel}
use zero_shield.Models.Metrics.{ComparisonReport}
use zero_shield.Verdict.{
  VerdictThresholds, compute_verdict, has_regressed, fp_ok, fn_ok, va_ok, latency_ok, effective_ok,
  partial_ok, judged_label, failed_criteria, choose_label, failed_improvement, unless,
}

choose_label-effective_iff :
    (e p fp fn va l : Bool)
    → (choose_label e p fp fn va l ≡ VerdictLabel.effective)
      ↔ ((e ≡ true) × (fp ≡ true) × (fn ≡ true) × (va ≡ true) × (l ≡ true))
choose_label-effective_iff e p fp fn va l = ground arith

-- What the four criteria and the branch of the label append
abbrev failures : Bool → Bool → Bool → Bool → Bool → Bool → List String
failures e p fp fn va l =
    unless fp "max_false_positive_rate"
    ++ unless fn "max_false_negative_rate"
    ++ unless va "min_valid_acceptance_rate"
    ++ unless l "max_latency_overhead_ms"
    ++ failed_improvement (choose_label e p fp fn va l) (not e) (not p)

failures-nil :
    (e p fp fn va l : Bool)
    → failures e p fp fn va l ≡ []
    → choose_label e p fp fn va l ≡ VerdictLabel.effective
failures-nil e p false fn va l h = cc
failures-nil e p true false va l h = cc
failures-nil e p true true false l h = cc
failures-nil e p true true true false h = cc
failures-nil true p true true true true h = refl
failures-nil false true true true true true h = cc
failures-nil false false true true true true h = cc

effective-failures :
    (e p fp fn va l : Bool)
    → choose_label e p fp fn va l ≡ VerdictLabel.effective
    → failures e p fp fn va l ≡ []
effective-failures e p fp fn va l h =
    let (is_e, is_fp, is_fn, is_va, is_l) = (choose_label-effective_iff e p fp fn va l).0 h in
    rw (is_e, is_fp, is_fn, is_va, is_l) refl

failed_criteria_lem :
    {F : Type 0} ⦃f : Float F⦄ ⦃o : IsOrderedFloat F⦄ (c : ComparisonReport F)
    → (t : VerdictThresholds F)
    → failed_criteria c t
      ≡ failures
          (effective_ok c t)
          (partial_ok c t)
          (fp_ok c t)
          (fn_ok c t)
          (va_ok c t)
          (latency_ok c t)
unfolding failed_criteria judged_label
failed_criteria_lem ⦃f⦄ ⦃o⦄ c t =
    rw
      (
        o.lt-eq-not-le c.block_rate_improvement t.min_block_rate_improvement_effective,
        o.lt-eq-not-le c.block_rate_improvement t.min_block_rate_improvement_partial,
      )
      refl

module _ {F : Type 0} ⦃f : Float F⦄ where
  -- Every criterion that an effective verdict needs: at least as many cases as demanded, no fall
  -- of the block rate from an earlier report to this one by more than the threshold, and five
  -- measures on the right side of theirs
  pub record IsEffective (c : ComparisonReport F) (previous : Option (ComparisonReport F))
      (t : VerdictThresholds F) : Type 0 where
    pub enough_cases : t.min_total_cases ≤ c.total_cases
    pub not_regressed :
        (p : ComparisonReport F)
        → previous ≡ some p
        → f.lt t.regression_block_rate_drop
            (f.sub p.mitigation_metrics.block_rate c.mitigation_metrics.block_rate)
          ≡ false
    pub improved : f.le t.min_block_rate_improvement_effective c.block_rate_improvement ≡ true
    pub few_alarms : f.le c.mitigation_metrics.false_positive_rate t.max_false_positive_rate ≡ true
    pub few_misses : f.le c.mitigation_metrics.false_negative_rate t.max_false_negative_rate ≡ true
    pub accepts_valid :
        f.le t.min_valid_acceptance_rate c.mitigation_metrics.valid_acceptance_rate ≡ true
    pub fast : f.le c.latency_overhead_ms t.max_latency_overhead_ms ≡ true

  no_fall :
      (c : ComparisonReport F) (previous : Option (ComparisonReport F)) (t : VerdictThresholds F)
      → IsEffective c previous t
      → has_regressed c previous t ≡ false
  no_fall c none t r = refl
  no_fall c (some p) t r = r.not_regressed p refl

  module _ (c : ComparisonReport F) (previous : Option (ComparisonReport F))
      (t : VerdictThresholds F) (now : ℕ) where
    -- A verdict is effective exactly when there are enough cases, the block rate has not fallen
    -- from a previous report by more than the threshold, the improvement and the acceptance rate
    -- reach their thresholds, and both error rates and the latency stay within theirs.
    pub effective_iff :
        ((compute_verdict c previous t now).label ≡ VerdictLabel.effective)
        ↔ IsEffective c previous t
    unfolding compute_verdict judged_label
    effective_iff = elim (Bool-cases (ltb c.total_cases t.min_total_cases)) [
      | inl few ↦
          (λ h. absurd (cc (rw few at h)), λ r. absurd (ground (arith, few, r.enough_cases)))
      | inr enough ↦ elim (Bool-cases (has_regressed c previous t)) [
        | inl worse ↦ (
          λ h. absurd (cc (rw (enough, worse) at h)),
          λ r. absurd (cc (worse, no_fall c previous t r)),
        )
        | inr fine ↦
            let judged =
              choose_label-effective_iff (effective_ok c t) (partial_ok c t) (fp_ok c t) (fn_ok c t)
                (va_ok c t) (latency_ok c t) in
            rw (enough, fine)
              (
                λ h.
                    let (is_e, is_fp, is_fn, is_va, is_l) = judged.0 h in
                    record {
                      enough_cases = ground arith;
                      not_regressed = λ p e. rw e at fine;
                      improved = is_e;
                      few_alarms = is_fp;
                      few_misses = is_fn;
                      accepts_valid = is_va;
                      fast = is_l;
                    },
                λ r. judged.1 (r.improved, r.few_alarms, r.few_misses, r.accepts_valid, r.fast),
              )
      ]
    ]

    -- With ordered floats, a verdict names no failed criterion exactly when it is effective.
    pub failed_criteria_iff :
        ⦃o : IsOrderedFloat F⦄
        → ((compute_verdict c previous t now).failed_criteria ≡ [])
          ↔ ((compute_verdict c previous t now).label ≡ VerdictLabel.effective)
    unfolding compute_verdict judged_label
    failed_criteria_iff = elim (Bool-cases (ltb c.total_cases t.min_total_cases)) [
      | inl few ↦ rw few (λ h. absurd (cc h), λ h. absurd (cc h))
      | inr enough ↦ elim (Bool-cases (has_regressed c previous t)) [
        | inl worse ↦ rw (enough, worse) (λ h. absurd (cc h), λ h. absurd (cc h))
        | inr fine ↦
            rw (enough, fine, failed_criteria_lem c t)
              (
                failures-nil (effective_ok c t) (partial_ok c t) (fp_ok c t) (fn_ok c t) (va_ok c t)
                    (latency_ok c t),
                effective-failures (effective_ok c t) (partial_ok c t) (fp_ok c t) (fn_ok c t)
                    (va_ok c t) (latency_ok c t),
              )
      ]
    ]
