-- ===== src/Verdict/Tests.antt =====
-- Comparisons on which the theorems on verdicts are applied.
use zero_shield.Base.{ℕ, String, ◌≡◌, ◌≤◌, ◌↔◌, refl, [], ◌∷◌, none, some}
use zero_shield.Base.Int.{pos}
use zero_shield.Base.Floats.{Fixed, fixed_float}
use zero_shield.Base.Fixed.{Fixed-IsOrderedFloat}
use zero_shield.Models.Enums.{VerdictLabel}
use zero_shield.Models.Metrics.{ExperimentMetrics, ComparisonReport}
use zero_shield.Metrics.Comparator.{compare}
use zero_shield.Verdict.{compute_verdict, default_thresholds, judged_label, failed_criteria}
use zero_shield.Verdict.Labels.{IsEffective, effective_iff, failed_criteria_iff}
use zero_shield.Verdict.Monotone.{severity, IsAtLeast, compute_verdict_mono}

-- Measures with a block rate and a false negative rate, in ten-thousandths
abbrev metrics : String → ℕ → ℕ → ExperimentMetrics Fixed
metrics run_id block_rate false_negative_rate = record {
  run_id = run_id;
  processing_success_rate = pos 10000;
  block_rate = pos block_rate;
  valid_acceptance_rate = pos 10000;
  false_positive_rate = pos 0;
  false_negative_rate = pos false_negative_rate;
  parser_reach_rate = pos 0;
  mean_latency_ms = pos 10000;
  log_completeness_rate = pos 10000;
  calculated_at = 9;
  calculation_version = "1.0.0";
}

abbrev weak : ComparisonReport Fixed
weak = compare "ZC-VPN-EXP-001" 10 (metrics "RUN-001" 2000 8000) (metrics "RUN-002" 5000 5000) 12

abbrev strong : ComparisonReport Fixed
strong = compare "ZC-VPN-EXP-001" 10 (metrics "RUN-001" 2000 8000) (metrics "RUN-003" 10000 0) 12

strong_is_effective :
    (compute_verdict strong (some weak) default_thresholds 13).label ≡ VerdictLabel.effective
unfolding compute_verdict judged_label compare
strong_is_effective = refl

weak_after_strong :
    (compute_verdict weak (some strong) default_thresholds 13).label ≡ VerdictLabel.regression
unfolding compute_verdict judged_label compare
weak_after_strong = refl

weak_fails :
    (compute_verdict weak none default_thresholds 13).failed_criteria
    ≡ "max_false_negative_rate" ∷ "min_block_rate_improvement_effective" ∷ []
unfolding compute_verdict judged_label failed_criteria compare
weak_fails = refl

strong-IsAtLeast-weak : IsAtLeast weak strong
unfolding compare
strong-IsAtLeast-weak = record {
  same_cases = refl;
  improvement = refl;
  block_rate = refl;
  alarms = refl;
  misses = refl;
  acceptance = refl;
  latency = refl;
}

effective_iff_example :
    ((compute_verdict strong (some weak) default_thresholds 13).label ≡ VerdictLabel.effective)
    ↔ IsEffective strong (some weak) default_thresholds
effective_iff_example = effective_iff strong (some weak) default_thresholds 13

failed_criteria_iff_example :
    ((compute_verdict weak none default_thresholds 13).failed_criteria ≡ [])
    ↔ ((compute_verdict weak none default_thresholds 13).label ≡ VerdictLabel.effective)
failed_criteria_iff_example = failed_criteria_iff weak none default_thresholds 13

compute_verdict-mono_example :
    severity (compute_verdict weak (some strong) default_thresholds 13).label
    ≤ severity (compute_verdict strong (some strong) default_thresholds 13).label
compute_verdict-mono_example =
    compute_verdict_mono weak strong strong-IsAtLeast-weak (some strong) default_thresholds 13
