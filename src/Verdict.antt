-- ===== src/Verdict.antt =====
-- src/zeroshield/verdict/engine.py. A reason, which the code formats as text, is a constructor
-- with the values in it.
pub mod Labels
pub mod Monotone
mod Tests
use zero_shield.Base.{
  ℕ, ◌*◌, String, Bool, true, false, not, ◌&&◌, Option, none, some, List, [], ◌∷◌, ◌++◌, ltb,
  if◌then◌else◌,
}
use zero_shield.Base.Floats.{Float, zero_float}
use zero_shield.Models.Enums.{VerdictLabel}
use zero_shield.Models.Metrics.{ExperimentMetrics, ComparisonReport}

pub record VerdictThresholds (F : Type 0) : Type 0 where
  pub min_total_cases : ℕ
  pub min_block_rate_improvement_effective : F
  pub min_block_rate_improvement_partial : F
  pub max_false_positive_rate : F
  pub max_false_negative_rate : F
  pub min_valid_acceptance_rate : F
  pub max_latency_overhead_ms : F
  pub regression_block_rate_drop : F

-- `DEFAULT_THRESHOLDS`
abbrev pub default_thresholds : {F : Type 0} ⦃f : Float F⦄ → VerdictThresholds F
default_thresholds ⦃f⦄ = record {
  min_total_cases = 5;
  min_block_rate_improvement_effective = f.literal 5000;
  min_block_rate_improvement_partial = f.literal 1000;
  max_false_positive_rate = f.literal 500;
  max_false_negative_rate = f.literal 1000;
  min_valid_acceptance_rate = f.literal 9500;
  max_latency_overhead_ms = f.literal 1000000;
  regression_block_rate_drop = f.literal 0;
}

pub data Reason (F : Type 0) : Type 0 where
  too_few_cases : ℕ → ℕ → Reason F
  block_rate_regressed : F → F → F → F → Reason F
  improvement_was : F → Reason F
  false_positive_rate_was : F → Reason F
  false_negative_rate_was : F → Reason F
  valid_acceptance_rate_was : F → Reason F
  latency_overhead_was : F → Reason F
  all_met : Reason F
  one_or_more_not_met : Reason F
  partial_not_met : Reason F

pub record VerdictResult (F : Type 0) : Type 0 where
  pub label : VerdictLabel
  pub reasons : List (Reason F)
  pub thresholds_used : List (String × F)
  pub failed_criteria : List String
  pub limitations : List String
  pub generated_at : ℕ

abbrev pub standard_limitations : List String
standard_limitations =
    "Verdict reflects only the cases included in this comparison's dataset version, not general real-world attack traffic."
    ∷ "Verdict is deterministic and threshold-based; it is not a certification of production readiness and does not replace manual security review."
    ∷ []

-- `_thresholds_dict`
abbrev pub thresholds_dict : {F : Type 0} ⦃f : Float F⦄ → VerdictThresholds F → List (String × F)
thresholds_dict ⦃f⦄ t =
    ("min_total_cases", f.literal (t.min_total_cases * 10000))
    ∷ ("min_block_rate_improvement_effective", t.min_block_rate_improvement_effective)
    ∷ ("min_block_rate_improvement_partial", t.min_block_rate_improvement_partial)
    ∷ ("max_false_positive_rate", t.max_false_positive_rate)
    ∷ ("max_false_negative_rate", t.max_false_negative_rate)
    ∷ ("min_valid_acceptance_rate", t.min_valid_acceptance_rate)
    ∷ ("max_latency_overhead_ms", t.max_latency_overhead_ms)
    ∷ ("regression_block_rate_drop", t.regression_block_rate_drop)
    ∷ []

-- `if not met: failed.append(name)`
abbrev pub unless : Bool → String → List String
unless met name = if met then [] else name ∷ []

-- The branches of the label, from `improvement >= …` at both thresholds and the four criteria
abbrev pub choose_label : Bool → Bool → Bool → Bool → Bool → Bool → VerdictLabel
choose_label effective partial fp_ok fn_ok va_ok latency_ok =
    if effective && fp_ok && fn_ok && va_ok && latency_ok
    then VerdictLabel.effective
    else if partial && va_ok
    then VerdictLabel.partially_effective
    else VerdictLabel.ineffective

-- What the branch of the label appends, from `improvement < …` at both thresholds
abbrev pub failed_improvement : VerdictLabel → Bool → Bool → List String
failed_improvement VerdictLabel.partially_effective below_effective below_partial =
    if below_effective then "min_block_rate_improvement_effective" ∷ [] else []
failed_improvement VerdictLabel.ineffective below_effective below_partial =
    if below_partial then "min_block_rate_improvement_partial" ∷ [] else []
failed_improvement _ below_effective below_partial = []

-- What the branch of the label inserts in front of the reasons
abbrev pub headline : {F : Type 0} → VerdictLabel → Reason F
headline VerdictLabel.effective = Reason.all_met
headline VerdictLabel.partially_effective = Reason.one_or_more_not_met
headline _ = Reason.partial_not_met

module _ {F : Type 0} ⦃f : Float F⦄ where
  -- `drop > thresholds.regression_block_rate_drop`, where there is a previous comparison
  abbrev pub has_regressed :
      ComparisonReport F → Option (ComparisonReport F) → VerdictThresholds F → Bool
  has_regressed c none t = false
  has_regressed c (some p) t =
      f.lt t.regression_block_rate_drop
        (f.sub p.mitigation_metrics.block_rate c.mitigation_metrics.block_rate)

  abbrev pub regression_reason :
      ComparisonReport F → Option (ComparisonReport F) → VerdictThresholds F → List (Reason F)
  regression_reason c none t = []
  regression_reason c (some p) t =
      let was = p.mitigation_metrics.block_rate in
      let is = c.mitigation_metrics.block_rate in
      Reason.block_rate_regressed was is (f.sub was is) t.regression_block_rate_drop ∷ []

  -- The tests of the criteria
  abbrev pub fp_ok : ComparisonReport F → VerdictThresholds F → Bool
  fp_ok c t = f.le c.mitigation_metrics.false_positive_rate t.max_false_positive_rate

  abbrev pub fn_ok : ComparisonReport F → VerdictThresholds F → Bool
  fn_ok c t = f.le c.mitigation_metrics.false_negative_rate t.max_false_negative_rate

  abbrev pub va_ok : ComparisonReport F → VerdictThresholds F → Bool
  va_ok c t = f.le t.min_valid_acceptance_rate c.mitigation_metrics.valid_acceptance_rate

  abbrev pub latency_ok : ComparisonReport F → VerdictThresholds F → Bool
  latency_ok c t = f.le c.latency_overhead_ms t.max_latency_overhead_ms

  abbrev pub effective_ok : ComparisonReport F → VerdictThresholds F → Bool
  effective_ok c t = f.le t.min_block_rate_improvement_effective c.block_rate_improvement

  abbrev pub partial_ok : ComparisonReport F → VerdictThresholds F → Bool
  partial_ok c t = f.le t.min_block_rate_improvement_partial c.block_rate_improvement

  -- The part of `compute_verdict` after the early returns: the label and the failed criteria
  unfoldable pub judged_label : ComparisonReport F → VerdictThresholds F → VerdictLabel
  judged_label c t =
      choose_label (effective_ok c t) (partial_ok c t) (fp_ok c t) (fn_ok c t) (va_ok c t)
        (latency_ok c t)

  unfoldable pub failed_criteria : ComparisonReport F → VerdictThresholds F → List String
  failed_criteria c t =
      unless (fp_ok c t) "max_false_positive_rate"
      ++ unless (fn_ok c t) "max_false_negative_rate"
      ++ unless (va_ok c t) "min_valid_acceptance_rate"
      ++ unless (latency_ok c t) "max_latency_overhead_ms"
      ++ failed_improvement (judged_label c t)
          (f.lt c.block_rate_improvement t.min_block_rate_improvement_effective)
          (f.lt c.block_rate_improvement t.min_block_rate_improvement_partial)

  abbrev pub measured : ComparisonReport F → List (Reason F)
  measured c =
      Reason.improvement_was c.block_rate_improvement
      ∷ Reason.false_positive_rate_was c.mitigation_metrics.false_positive_rate
      ∷ Reason.false_negative_rate_was c.mitigation_metrics.false_negative_rate
      ∷ Reason.valid_acceptance_rate_was c.mitigation_metrics.valid_acceptance_rate
      ∷ Reason.latency_overhead_was c.latency_overhead_ms
      ∷ []

  -- A result with what every return shares
  abbrev pub result :
      VerdictThresholds F → ℕ → VerdictLabel → List (Reason F) → List String → VerdictResult F
  result t now label reasons failed = record {
    label = label;
    reasons = reasons;
    thresholds_used = thresholds_dict t;
    failed_criteria = failed;
    limitations = standard_limitations;
    generated_at = now;
  }

  unfoldable pub compute_verdict :
      ComparisonReport F → Option (ComparisonReport F) → VerdictThresholds F → ℕ → VerdictResult F
  compute_verdict c previous t now =
      if ltb c.total_cases t.min_total_cases
      then result t now VerdictLabel.inconclusive
          (Reason.too_few_cases c.total_cases t.min_total_cases ∷ []) ("min_total_cases" ∷ [])
      else if has_regressed c previous t
      then result t now VerdictLabel.regression (regression_reason c previous t)
          ("regression_block_rate_drop" ∷ [])
      else result t now (judged_label c t) (headline (judged_label c t) ∷ measured c)
          (failed_criteria c t)
