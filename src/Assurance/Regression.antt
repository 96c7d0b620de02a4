-- ===== src/Assurance/Regression.antt =====
-- src/zeroshield/assurance/regression.py. A reason is the rule that tripped, with the two values.
pub mod Degradation
use zero_shield.Base.{
  ℕ, String, Bool, true, false, not, ◌&&◌, ◌||◌, List, [], ◌∷◌, ◌++◌, length, ltb, str_eq,
  if◌then◌else◌,
}
use zero_shield.Base.Floats.{Float}
use zero_shield.Assurance.{ControlValidation}

pub record RegressionThresholds (F : Type 0) : Type 0 where
  pub max_block_rate_improvement_drop : F
  pub max_false_positive_rate_increase : F
  pub max_false_negative_rate_increase : F
  pub max_valid_acceptance_rate_drop : F
  pub max_parser_reach_rate_increase : F

-- `DEFAULT_THRESHOLDS`
abbrev pub default_thresholds : {F : Type 0} ⦃f : Float F⦄ → RegressionThresholds F
default_thresholds ⦃f⦄ = record {
  max_block_rate_improvement_drop = f.literal 1000;
  max_false_positive_rate_increase = f.literal 500;
  max_false_negative_rate_increase = f.literal 500;
  max_valid_acceptance_rate_drop = f.literal 500;
  max_parser_reach_rate_increase = f.literal 500;
}

-- `_VERDICT_SEVERITY.get(label, 2)`
abbrev pub verdict_severity : String → ℕ
verdict_severity label =
    if str_eq label "effective"
    then 4
    else if str_eq label "partially_effective"
    then 3
    else if str_eq label "inconclusive"
    then 2
    else if str_eq label "ineffective"
    then 1
    else if str_eq label "regression"
    then 0
    else 2

pub data RegressionReason (F : Type 0) : Type 0 where
  verdict_deteriorated : String → String → RegressionReason F
  improvement_dropped : F → F → RegressionReason F
  false_positives_increased : F → F → RegressionReason F
  false_negatives_increased : F → F → RegressionReason F
  valid_acceptance_dropped : F → F → RegressionReason F
  parser_reach_increased : F → F → RegressionReason F

pub record RegressionResult (F : Type 0) : Type 0 where
  pub is_regression : Bool
  pub reasons : List (RegressionReason F)
  pub thresholds_used : List (String × F)

-- `_thresholds_dict`
abbrev pub thresholds_dict : {F : Type 0} → RegressionThresholds F → List (String × F)
thresholds_dict t =
    ("max_block_rate_improvement_drop", t.max_block_rate_improvement_drop)
    ∷ ("max_false_positive_rate_increase", t.max_false_positive_rate_increase)
    ∷ ("max_false_negative_rate_increase", t.max_false_negative_rate_increase)
    ∷ ("max_valid_acceptance_rate_drop", t.max_valid_acceptance_rate_drop)
    ∷ ("max_parser_reach_rate_increase", t.max_parser_reach_rate_increase)
    ∷ []

-- `if tripped: reasons.append(reason)`
abbrev pub note_if : {A : Type 0} → Bool → A → List A
note_if tripped reason = if tripped then reason ∷ [] else []

module _ {F : Type 0} ⦃f : Float F⦄ (previous latest : ControlValidation F)
    (t : RegressionThresholds F) where
  -- The six rules
  abbrev pub verdict_worse : Bool
  verdict_worse =
      ltb (verdict_severity latest.verdict_label) (verdict_severity previous.verdict_label)

  abbrev pub improvement_worse : Bool
  improvement_worse =
      f.lt t.max_block_rate_improvement_drop
        (f.sub previous.block_rate_improvement latest.block_rate_improvement)

  abbrev pub alarms_worse : Bool
  alarms_worse =
      f.lt t.max_false_positive_rate_increase
        (f.sub latest.false_positive_rate previous.false_positive_rate)

  abbrev pub misses_worse : Bool
  misses_worse =
      f.lt t.max_false_negative_rate_increase
        (f.sub latest.false_negative_rate previous.false_negative_rate)

  abbrev pub acceptance_worse : Bool
  acceptance_worse =
      f.lt t.max_valid_acceptance_rate_drop
        (f.sub previous.valid_acceptance_rate latest.valid_acceptance_rate)

  abbrev pub reach_worse : Bool
  reach_worse =
      f.lt t.max_parser_reach_rate_increase
        (f.sub latest.parser_reach_rate previous.parser_reach_rate)

  unfoldable pub regression_reasons : List (RegressionReason F)
  regression_reasons =
      note_if verdict_worse
        (RegressionReason.verdict_deteriorated previous.verdict_label latest.verdict_label)
      ++ note_if improvement_worse (
          RegressionReason.improvement_dropped previous.block_rate_improvement
            latest.block_rate_improvement)
      ++ note_if alarms_worse (
          RegressionReason.false_positives_increased previous.false_positive_rate
            latest.false_positive_rate)
      ++ note_if misses_worse (
          RegressionReason.false_negatives_increased previous.false_negative_rate
            latest.false_negative_rate)
      ++ note_if acceptance_worse (
          RegressionReason.valid_acceptance_dropped previous.valid_acceptance_rate
            latest.valid_acceptance_rate)
      ++ note_if reach_worse (
          RegressionReason.parser_reach_increased previous.parser_reach_rate
            latest.parser_reach_rate)

  unfoldable pub detect_regressions : RegressionResult F
  unfolding regression_reasons
  detect_regressions = record {
    is_regression = ltb 0 (length regression_reasons);
    reasons = regression_reasons;
    thresholds_used = thresholds_dict t;
  }
