-- ===== src/Metrics/Comparator.antt =====
-- src/zeroshield/metrics/comparator.py. The texts of the limitations are named by their order.
use zero_shield.Base.{
  ℕ, String, List, [], ◌∷◌, ◌≡◌, ◌≤◌, refl, is_some, subst, true, false, arith, leb_iff, str_eq,
  eq_refl,
}
use zero_shield.Base.Floats.{Float, IsOrderedFloat, IsRate, zero_float, one_float}
use zero_shield.Models.Experiment.{codes, experiment_id_domain}
use zero_shield.Models.Patterns.{is_run_id}
use zero_shield.Models.Metrics.{
  ExperimentMetrics, ComparisonReport, metrics_validates, report_validates,
}

abbrev pub standard_limitations : List String
standard_limitations =
    "Results reflect a synthetic, abstracted model of the failure pattern and do not prove mitigation effectiveness for the original vendor product."
    ∷ "Metrics are computed only over the cases included in this dataset version and are not a general claim about real-world attack traffic distributions."
    ∷ []

-- What `compare` hands to the constructor of ComparisonReport
unfoldable pub compare :
    {F : Type 0} ⦃f : Float F⦄
    → String
    → ℕ
    → ExperimentMetrics F
    → ExperimentMetrics F
    → ℕ
    → ComparisonReport F
compare ⦃f⦄ experiment_id total_cases baseline mitigation now = record {
  experiment_id = experiment_id;
  baseline_run_id = baseline.run_id;
  mitigation_run_id = mitigation.run_id;
  total_cases = total_cases;
  baseline_metrics = baseline;
  mitigation_metrics = mitigation;
  block_rate_improvement = f.sub mitigation.block_rate baseline.block_rate;
  latency_overhead_ms = f.sub mitigation.mean_latency_ms baseline.mean_latency_ms;
  limitations = standard_limitations;
  generated_at = now;
}

module _ {F : Type 0} ⦃f : Float F⦄ ⦃o : IsOrderedFloat F⦄ where
  block_rate_cases : (m : ExperimentMetrics F) → metrics_validates m ≡ true → IsRate m.block_rate
  unfolding metrics_validates
  block_rate_cases m h = ground arith

  run_id_cases : (m : ExperimentMetrics F) → metrics_validates m ≡ true → is_run_id m.run_id ≡ true
  unfolding metrics_validates
  run_id_cases m h = ground arith

  -- The report of two runs satisfies every constraint of ComparisonReport as soon as the runs are
  -- different ones, there is a case, the experiment id is well formed and the measures of both
  -- runs satisfy the constraints of ExperimentMetrics.
  pub compare-validates :
      (experiment_id : String) (total : ℕ) (b m : ExperimentMetrics F) (now : ℕ)
      → is_some (experiment_id_domain (codes experiment_id)) ≡ true
      → 1 ≤ total
      → str_eq b.run_id m.run_id ≡ false
      → metrics_validates b ≡ true
      → metrics_validates m ≡ true
      → report_validates (compare experiment_id total b m now) ≡ true
  unfolding compare report_validates
  compare-validates experiment_id total b m now well_formed le differ vb vm =
      let (b0, b1) = block_rate_cases b vb in
      let (m0, m1) = block_rate_cases m vm in
      let low = o.sub_mono zero_float m.block_rate one_float b.block_rate m0 b1 in
      let high = o.sub_mono m.block_rate one_float b.block_rate zero_float m1 b0 in
      rw
        (
          well_formed,
          run_id_cases b vb,
          run_id_cases m vm,
          vb,
          vm,
          low,
          subst (λ x. f.le (f.sub m.block_rate b.block_rate) x ≡ true) (o.sub_zero one_float) high,
          eq_refl b.run_id,
          eq_refl m.run_id,
          differ,
          (leb_iff 1 total).1 le,
        )
        refl
