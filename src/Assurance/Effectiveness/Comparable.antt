-- ===== src/Assurance/Effectiveness/Comparable.antt =====
-- That no validation of another version is averaged in.
use zero_shield.Base.{
  ℕ, String, ◌≡◌, refl, ap, sym, ◌∙◌, Bool, false, Option, none, some, List, [], ◌∷◌, ◌++◌, length,
  keep, str_eq,
}
use zero_shield.Base.Floats.{Float}
use zero_shield.Assurance.{ControlValidation}
use zero_shield.Assurance.Effectiveness.{
  EffectivenessSummary, summarise_effectiveness, last_of, same_version, mean_improvement,
}

module _ {F : Type 0} where
  -- The mean and the count of a summary, if there is one
  abbrev pub aggregates : Option (EffectivenessSummary F) → Option (Option F × ℕ)
  aggregates none = none
  aggregates (some e) =
      some (e.mean_block_rate_improvement_current_version, e.validation_count_current_version)

  last_of-append :
      (x y : ControlValidation F) (xs ys : List (ControlValidation F))
      → last_of x (xs ++ y ∷ ys) ≡ last_of y ys
  last_of-append x y [] ys = refl
  last_of-append x y (z ∷ xs) ys = last_of-append z y xs ys

  keep-skips :
      (p : ControlValidation F → Bool) (xs ys : List (ControlValidation F))
      → (other : ControlValidation F) → p other ≡ false
      → keep p (xs ++ other ∷ ys) ≡ keep p (xs ++ ys)
  keep-skips p [] ys other h = rw h refl
  keep-skips p (x ∷ xs) ys other h = rw (keep-skips p xs ys other h) refl

module _ {F : Type 0} ⦃f : Float F⦄ where
  -- The aggregates of the validations of the current version
  abbrev of_current : (F → F) → List (ControlValidation F) → Option (Option F × ℕ)
  of_current round4 current = some (some (round4 (mean_improvement current)), length current)

  -- A validation of a version that is not the latest one, wherever it stands before the latest,
  -- changes neither the mean nor the count of the summary.
  pub summarise_effectiveness-other_version :
      (round4 : F → F) (control_id : String) (first : ControlValidation F)
      → (xs : List (ControlValidation F)) (other next : ControlValidation F)
      → (ys : List (ControlValidation F))
      → str_eq other.version_id (last_of next ys).version_id ≡ false
      → aggregates (summarise_effectiveness round4 control_id (first ∷ xs ++ other ∷ next ∷ ys))
        ≡ aggregates (summarise_effectiveness round4 control_id (first ∷ xs ++ next ∷ ys))
  unfolding summarise_effectiveness
  summarise_effectiveness-other_version round4 control_id first xs other next ys h =
      let with_other = first ∷ xs ++ other ∷ next ∷ ys in
      let without = first ∷ xs ++ next ∷ ys in
      ap (λ latest. of_current round4 (same_version latest with_other))
        (last_of-append first other xs (next ∷ ys))
      ∙ ap (of_current round4) (
          keep-skips (λ v. str_eq v.version_id (last_of next ys).version_id) (first ∷ xs)
            (next ∷ ys) other h)
      ∙ sym (
          ap (λ latest. of_current round4 (same_version latest without))
            (last_of-append first next xs ys))
