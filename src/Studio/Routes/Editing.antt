-- ===== src/Studio/Routes/Editing.antt =====
-- Editing a draft, and whether the row can be read back.
use zero_shield.Base.{
  ℕ, String, ◌≡◌, refl, Bool, true, ◌&&◌, Option, none, some, arith, eq_iff, if◌then◌else◌,
}
use zero_shield.Base.Effects.{ok, err}
use zero_shield.Models.Enums.{ExperimentVersionStatus}
use zero_shield.Models.Experiment.{
  ExperimentDefinition, validates, check_editable_texts, check_rest, nonempty,
}
use zero_shield.Models.Versions.{
  ExperimentVersion, version_validates, check_version_fields,
  check_experiment_id_matches_definition, check_approval_status_matches_workflow_status,
}
use zero_shield.Studio.Approval.{edit_draft, validation_error}
use zero_shield.Studio.Repository.{Store, find_row, get_version}
use zero_shield.Studio.Repository.Rows.{find_row-put_row}
use zero_shield.Studio.Routes.{EditRequest, apply_updates, edit_experiment_version}
use zero_shield.Auth.Models.{User}

-- No text of the request is the empty string.
abbrev keeps_text : Option String → Bool
keeps_text none = true
keeps_text (some t) = nonempty t

abbrev pub texts_nonempty : EditRequest → Bool
texts_nonempty r =
    keeps_text r.title
    && keeps_text r.description
    && keeps_text r.research_question
    && keeps_text r.hypothesis

texts_after :
    (r : EditRequest) (e : ExperimentDefinition)
    → check_editable_texts e ≡ true
    → check_editable_texts (apply_updates r e) ≡ texts_nonempty r
unfolding check_editable_texts apply_updates
texts_after r e h = ground arith

rest_after :
    (r : EditRequest) (e : ExperimentDefinition) → check_rest (apply_updates r e) ≡ check_rest e
unfolding check_rest apply_updates
rest_after r e = refl

-- A definition that validates does so after the update exactly when no new text is empty.
apply_updates-validates :
    (r : EditRequest) (e : ExperimentDefinition)
    → validates e ≡ true
    → validates (apply_updates r e) ≡ texts_nonempty r
unfolding validates
apply_updates-validates r e h = ground (arith, texts_after r e, rest_after r e)

abbrev edited : ExperimentVersion → EditRequest → ℕ → ExperimentVersion
edited v r now = record v { definition = apply_updates r v.definition; updated_at = now }

same_checks :
    (v : ExperimentVersion) (r : EditRequest) (now : ℕ)
    → (check_version_fields (edited v r now) ≡ check_version_fields v)
      × (check_experiment_id_matches_definition (edited v r now)
          ≡ check_experiment_id_matches_definition v)
      × (check_approval_status_matches_workflow_status (edited v r now)
          ≡ check_approval_status_matches_workflow_status v)
unfolding check_version_fields check_experiment_id_matches_definition apply_updates
    check_approval_status_matches_workflow_status
same_checks v r now = (refl, refl, refl)

edited-validates :
    (v : ExperimentVersion) (r : EditRequest) (now : ℕ)
    → version_validates v ≡ true
    → version_validates (edited v r now) ≡ texts_nonempty r
unfolding version_validates
edited-validates v r now h =
    ground (arith, same_checks v r now, apply_updates-validates r v.definition)

-- An edit of a draft succeeds and stores the new texts, and the row can be read back exactly when
-- no text of the request is empty: with an empty text every later read of the version raises.
pub edit-readable_iff :
    (id : String) (r : EditRequest) (user : User) (now : ℕ) (s : Store) (v : ExperimentVersion)
    → find_row id s.versions ≡ some v
    → v.version_id ≡ id
    → version_validates v ≡ true
    → v.status ≡ ExperimentVersionStatus.draft
    → let w = record v { definition = apply_updates r v.definition; updated_at = now } in
      let (outcome, t) = edit_experiment_version id r user now s in
      (outcome ≡ ok w)
      × ((get_version id t).0 ≡ (if texts_nonempty r then ok (some w) else err validation_error))
unfolding edit_experiment_version edit_draft get_version
edit-readable_iff id r user now s v found named valid draft = ground (
  arith,
  edited-validates v r now valid,
  eq_iff v.version_id id,
  find_row-put_row id (edited v r now) s.versions,
)
