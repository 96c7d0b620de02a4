-- ===== src/Studio/Service.antt =====
-- src/zeroshield/studio/service.py. `now` is what the clock shows when a call reads it.
pub mod Store
pub mod Reviewed
use zero_shield.Base.{ℕ, String, Bool, true, false, ◌&&◌, Option, none, some, is_some}
use zero_shield.Base.Effects.{Result, ok, err, Action, pure, raise, lift, ◌>>=◌, ◌>>◌}
use zero_shield.Models.Enums.{ExperimentVersionStatus}
use zero_shield.Models.Experiment.{ExperimentDefinition}
use zero_shield.Models.Versions.{ExperimentVersion, ApprovalDecision}
use zero_shield.Studio.Approval.{
  StudioError, version_not_found, invalid_transition, transition, edit_draft,
}
use zero_shield.Studio.Repository.{
  Studio, save_version, get_version, append_approval_decision, materialise_to_experiments_dir,
}

abbrev pub found_or : String → Option ExperimentVersion → Studio ExperimentVersion
found_or id none = raise (version_not_found id)
found_or id (some v) = pure v

-- `_get_or_raise`
unfoldable pub get_or_raise : String → Studio ExperimentVersion
unfolding get_version
get_or_raise id = get_version id >>= found_or id

-- `create_draft`, of a version that the builder has built
unfoldable pub create_draft : ExperimentVersion → Studio ExperimentVersion
unfolding save_version
create_draft v = do save_version v; pure v

unfoldable pub edit :
    String → (ExperimentDefinition → ExperimentDefinition) → ℕ → Studio ExperimentVersion
unfolding get_or_raise save_version
edit id updates now = do
  v ← get_or_raise id
  updated ← lift (edit_draft v updates now)
  save_version updated
  pure updated

abbrev pub is_approval : ExperimentVersionStatus → Bool
is_approval ExperimentVersionStatus.approved = true
is_approval _ = false

abbrev pub when : Bool → Studio Unit → Studio Unit
when true m = m
when false m = pure tt

-- `materialise`: the call was given a directory of experiments.
unfoldable pub apply_transition :
    String
    → ExperimentVersionStatus
    → (actor : String) (reason : Option String) (materialise : Bool) (now : ℕ)
    → Studio ExperimentVersion
unfolding get_or_raise save_version append_approval_decision materialise_to_experiments_dir
apply_transition id target actor reason materialise now = do
  v ← get_or_raise id
  moved ← lift (transition v target actor reason now)
  save_version moved.0
  append_approval_decision moved.1
  when (is_approval target && materialise) (materialise_to_experiments_dir moved.0)
  pure moved.0

module _ (id actor : String) (reason : Option String) (now : ℕ) where
  unfoldable pub submit_for_review : Studio ExperimentVersion
  submit_for_review =
      apply_transition id ExperimentVersionStatus.ready_for_review actor reason false now

  unfoldable pub start_review : Studio ExperimentVersion
  start_review = apply_transition id ExperimentVersionStatus.under_review actor reason false now

  unfoldable pub approve : Studio ExperimentVersion
  approve = apply_transition id ExperimentVersionStatus.approved actor reason true now

  unfoldable pub reject : Studio ExperimentVersion
  reject = apply_transition id ExperimentVersionStatus.rejected actor reason false now

  unfoldable pub retire : Studio ExperimentVersion
  retire = apply_transition id ExperimentVersionStatus.retired actor reason false now
