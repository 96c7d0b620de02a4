-- ===== src/Metrics/Calculator.antt =====
-- src/zeroshield/metrics/calculator.py.
pub mod Scores
pub mod Rates
pub mod Confusion
use zero_shield.Base.{
  ℕ, String, Bool, true, false, not, ◌&&◌, Option, none, some, List, [], ◌∷◌, length, keep, map,
  count_if, str_eq, ◌==◌, if◌then◌else◌,
}
use zero_shield.Base.Effects.{Result, ok, err}
use zero_shield.Base.Floats.{Float, zero_float}
use zero_shield.Models.Enums.{Decision, is_blocked}
use zero_shield.Models.Runs.{TestCase, CaseResult}
use zero_shield.Models.Metrics.{ExperimentMetrics, metrics_validates}

-- ValueError on a result without a case, and the ValidationError of the measures
pub data MetricsError : Type 0 where
  unknown_case : String → MetricsError
  invalid_metrics : MetricsError

module _ {F : Type 0} where
  -- `expected_by_case_id.get(key)`: in a dict that a comprehension makes, the last case wins.
  abbrev pub expected_by_case_id : List (TestCase F) → String → Option Decision
  expected_by_case_id [] key = none
  expected_by_case_id (t ∷ rest) key =
      let below = expected_by_case_id rest key in
      elim below [
        | some e ↦ some e
        | none ↦ if str_eq t.case_id key then some t.expected_outcome else none
      ]

  -- The loop that scores: the results that did not err, with what was expected of them, or
  -- ValueError on a result whose case is not there.
  unfoldable pub score :
      List (TestCase F) → List (CaseResult F) → Result String (List (CaseResult F × Decision))
  score cases [] = ok []
  score cases (r ∷ rest) =
      let below = score cases rest in
      elim (expected_by_case_id cases r.case_id) [
        | none ↦ err r.case_id
        | some e ↦ elim below [
          | err x ↦ err x
          | ok scored ↦ ok (if r.errored then scored else (r, e) ∷ scored)
        ]
      ]

  -- The tests of the comprehensions
  abbrev pub expects_block : CaseResult F × Decision → Bool
  expects_block (r, e) = is_blocked e

  abbrev pub expects_accept : CaseResult F × Decision → Bool
  expects_accept (r, e) = not (is_blocked e)

  abbrev pub was_blocked : CaseResult F × Decision → Bool
  was_blocked (r, e) = is_blocked r.decision

  abbrev pub was_accepted : CaseResult F × Decision → Bool
  was_accepted (r, e) = not (is_blocked r.decision)

  abbrev pub reached_parser : CaseResult F × Decision → Bool
  reached_parser (r, e) = r.parser_reached

  abbrev pub was_logged : CaseResult F × Decision → Bool
  was_logged (r, e) = r.logged

module _ {F : Type 0} ⦃f : Float F⦄ where
  -- `_safe_rate`
  unfoldable pub safe_rate : ℕ → ℕ → F
  safe_rate numerator denominator =
      if denominator == 0 then zero_float else f.ratio numerator denominator

  -- `sum(r.latency_ms for r in case_results)`
  abbrev pub sum_latency : List (CaseResult F) → F
  sum_latency results = f.sum (map (λ r. r.latency_ms) results)

  unfoldable pub mean_latency : List (CaseResult F) → F
  mean_latency results =
      if length results == 0 then zero_float else f.over (sum_latency results) (length results)

  -- The measures, from the scored results
  unfoldable pub measures :
      String
      → List (CaseResult F)
      → List (CaseResult F × Decision)
      → String
      → ℕ
      → ExperimentMetrics F
  measures run_id results scored calculation_version now =
      let should_block = keep expects_block scored in
      let should_accept = keep expects_accept scored in
      let blocked_results = keep was_blocked scored in
      record {
        run_id = run_id;
        processing_success_rate = safe_rate (length scored) (length results);
        block_rate = safe_rate (count_if was_blocked should_block) (length should_block);
        valid_acceptance_rate =
            safe_rate (count_if was_accepted should_accept) (length should_accept);
        false_positive_rate = safe_rate (count_if was_blocked should_accept) (length should_accept);
        false_negative_rate = safe_rate (count_if was_accepted should_block) (length should_block);
        parser_reach_rate = safe_rate (count_if reached_parser should_block) (length should_block);
        mean_latency_ms = mean_latency results;
        log_completeness_rate =
            safe_rate (count_if was_logged blocked_results) (length blocked_results);
        calculated_at = now;
        calculation_version = calculation_version;
      }

  -- The measures are built where they satisfy the constraints of ExperimentMetrics.
  abbrev pub checked_metrics : ExperimentMetrics F → Result MetricsError (ExperimentMetrics F)
  checked_metrics m = if metrics_validates m then ok m else err MetricsError.invalid_metrics

  unfoldable pub calculate_metrics :
      String
      → List (CaseResult F)
      → List (TestCase F)
      → String
      → ℕ
      → Result MetricsError (ExperimentMetrics F)
  calculate_metrics run_id results cases calculation_version now = elim (score cases results) [
    | err x ↦ err (MetricsError.unknown_case x)
    | ok scored ↦ checked_metrics (measures run_id results scored calculation_version now)
  ]
