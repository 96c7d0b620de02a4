-- ===== src/Models/Metrics.antt =====
-- src/zeroshield/models/experiment_metrics.py and comparison_report.py.
use zero_shield.Base.{ℕ, String, Bool, not, ◌&&◌, List, leb, str_eq, is_some}
use zero_shield.Base.Floats.{Float, zero_float, one_float, minus_one_float}
use zero_shield.Models.Experiment.{codes, nonempty, nonempty_list, experiment_id_domain}
use zero_shield.Models.Patterns.{is_run_id}

pub record ExperimentMetrics (F : Type 0) : Type 0 where
  pub run_id : String
  pub processing_success_rate : F
  pub block_rate : F
  pub valid_acceptance_rate : F
  pub false_positive_rate : F
  pub false_negative_rate : F
  pub parser_reach_rate : F
  pub mean_latency_ms : F
  pub log_completeness_rate : F
  pub calculated_at : ℕ
  pub calculation_version : String

-- `Field(ge=0.0, le=1.0)`
abbrev pub rate_ok : {F : Type 0} ⦃f : Float F⦄ → F → Bool
rate_ok ⦃f⦄ x = f.le zero_float x && f.le x one_float

unfoldable pub metrics_validates : {F : Type 0} ⦃f : Float F⦄ → ExperimentMetrics F → Bool
metrics_validates ⦃f⦄ m =
    is_run_id m.run_id
    && rate_ok m.processing_success_rate
    && rate_ok m.block_rate
    && rate_ok m.valid_acceptance_rate
    && rate_ok m.false_positive_rate
    && rate_ok m.false_negative_rate
    && rate_ok m.parser_reach_rate
    && f.le zero_float m.mean_latency_ms
    && rate_ok m.log_completeness_rate
    && nonempty m.calculation_version

pub record ComparisonReport (F : Type 0) : Type 0 where
  pub experiment_id : String
  pub baseline_run_id : String
  pub mitigation_run_id : String
  pub total_cases : ℕ
  pub baseline_metrics : ExperimentMetrics F
  pub mitigation_metrics : ExperimentMetrics F
  pub block_rate_improvement : F
  pub latency_overhead_ms : F
  pub limitations : List String
  pub generated_at : ℕ

-- The constraints of the fields, `check_run_ids_differ` and `check_metrics_run_ids_match`.
unfoldable pub report_validates : {F : Type 0} ⦃f : Float F⦄ → ComparisonReport F → Bool
report_validates ⦃f⦄ c =
    is_some (experiment_id_domain (codes c.experiment_id))
    && is_run_id c.baseline_run_id
    && is_run_id c.mitigation_run_id
    && metrics_validates c.baseline_metrics
    && metrics_validates c.mitigation_metrics
    && leb 1 c.total_cases
    && f.le minus_one_float c.block_rate_improvement
    && f.le c.block_rate_improvement one_float
    && nonempty_list c.limitations
    && not (str_eq c.baseline_run_id c.mitigation_run_id)
    && str_eq c.baseline_metrics.run_id c.baseline_run_id
    && str_eq c.mitigation_metrics.run_id c.mitigation_run_id
