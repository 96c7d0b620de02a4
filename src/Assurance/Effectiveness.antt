-- ===== src/Assurance/Effectiveness.antt =====
-- src/zeroshield/assurance/effectiveness.py. `round4` is Python's `round(x, 4)`.
pub mod Comparable
use zero_shield.Base.{ℕ, String, Option, none, some, List, [], ◌∷◌, length, keep, map, str_eq}
use zero_shield.Base.Floats.{Float, zero_float}
use zero_shield.Assurance.{ControlValidation}

pub record EffectivenessSummary (F : Type 0) : Type 0 where
  pub control_id : String
  pub current_version_id : Option String
  pub current_version_label : Option String
  pub validation_count_current_version : ℕ
  pub total_validation_count : ℕ
  pub mean_block_rate_improvement_current_version : Option F
  pub latest_verdict : Option String
  pub previous_verdict : Option String
  pub last_validated_at : Option ℕ
  pub trend : List (ControlValidation F)

module _ {A : Type 0} where
  -- `xs[-1]` of a list that is not empty
  abbrev pub last_of : A → List A → A
  last_of x [] = x
  last_of x (y ∷ ys) = last_of y ys

  -- `xs[-2] if len(xs) >= 2 else None`
  abbrev pub before_last : A → List A → Option A
  before_last x [] = none
  before_last x (y ∷ []) = some x
  before_last x (y ∷ z ∷ zs) = before_last y (z ∷ zs)

module _ {F : Type 0} where
  -- The validations of the version of the latest one
  abbrev pub same_version :
      ControlValidation F → List (ControlValidation F) → List (ControlValidation F)
  same_version latest vs = keep (λ v. str_eq v.version_id latest.version_id) vs

  abbrev pub verdict_of : Option (ControlValidation F) → Option String
  verdict_of none = none
  verdict_of (some v) = some v.verdict_label

module _ {F : Type 0} ⦃f : Float F⦄ where
  -- `sum(v.block_rate_improvement for v in vs)`, from the left
  abbrev pub sum_improvement : F → List (ControlValidation F) → F
  sum_improvement acc [] = acc
  sum_improvement acc (v ∷ vs) = sum_improvement (f.add acc v.block_rate_improvement) vs

  abbrev pub mean_improvement : List (ControlValidation F) → F
  mean_improvement vs = f.over (sum_improvement zero_float vs) (length vs)

  unfoldable pub summarise_effectiveness :
      (F → F) → String → List (ControlValidation F) → Option (EffectivenessSummary F)
  summarise_effectiveness round4 control_id [] = none
  summarise_effectiveness round4 control_id (v ∷ vs) =
      let latest = last_of v vs in
      let current = same_version latest (v ∷ vs) in
      some (record {
        control_id = control_id;
        current_version_id = some latest.version_id;
        current_version_label = some latest.version_id;
        validation_count_current_version = length current;
        total_validation_count = length (v ∷ vs);
        mean_block_rate_improvement_current_version = some (round4 (mean_improvement current));
        latest_verdict = some latest.verdict_label;
        previous_verdict = verdict_of (before_last v vs);
        last_validated_at = some latest.validated_at;
        trend = v ∷ vs;
      })
