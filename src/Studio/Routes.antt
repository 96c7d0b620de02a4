-- ===== src/Studio/Routes.antt =====
-- The routes of src/zeroshield/api/routes/studio.py that change a version. An HTTPException is an
-- error, and the role check of a route is a guard in front of its body.
pub mod SelfApproval
pub mod Editing
use zero_shield.Base.{
  ℕ, String, Bool, true, false, not, ◌&&◌, ◌||◌, Option, none, some, List, [], ◌∷◌, str_eq, is_some,
  or_else, if◌then◌else◌,
}
use zero_shield.Base.Effects.{Result, ok, err, Action, pure, raise, lift, modify, ◌>>=◌, ◌>>◌}
use zero_shield.Models.Enums.{ExperimentVersionStatus}
use zero_shield.Models.Experiment.{ExperimentDefinition}
use zero_shield.Models.Versions.{ExperimentVersion, ApprovalDecision}
use zero_shield.Studio.Approval.{StudioError, self_approval_forbidden, transition, edit_draft}
use zero_shield.Studio.Repository.{
  Studio, save_version, append_approval_decision, materialise_to_experiments_dir,
}
use zero_shield.Studio.Service.{get_or_raise, is_approval, when}
use zero_shield.Audit.{
  AuditAction, AuditEvent, MetaValue, text, texts, record_event, experiment_version_edited,
  experiment_version_submitted_for_review, experiment_version_review_started,
  experiment_version_approved, experiment_version_rejected, experiment_version_retired,
  experiment_version_self_approval_blocked,
}
use zero_shield.Auth.Models.{User, is_admin}

abbrev pub version_event : User → AuditAction → String → List (String × MetaValue) → AuditEvent
version_event user action id metadata = record {
  actor_user_id = some user.user_id;
  actor_username = some user.username;
  actor_role = some user.role;
  action = action;
  target_type = "experiment_version";
  target_id = some id;
  metadata = metadata;
}

abbrev pub log : User → AuditAction → String → List (String × MetaValue) → Studio Unit
log user action id metadata =
    modify λ s. record s { audit = record_event (version_event user action id metadata) s.audit }

-- `_TRANSITION_AUDIT_ACTIONS[target]`; no route moves a version back to DRAFT.
abbrev pub transition_audit_action : ExperimentVersionStatus → AuditAction
transition_audit_action ExperimentVersionStatus.ready_for_review =
    experiment_version_submitted_for_review
transition_audit_action ExperimentVersionStatus.under_review = experiment_version_review_started
transition_audit_action ExperimentVersionStatus.approved = experiment_version_approved
transition_audit_action ExperimentVersionStatus.rejected = experiment_version_rejected
transition_audit_action ExperimentVersionStatus.retired = experiment_version_retired
transition_audit_action ExperimentVersionStatus.draft = experiment_version_edited

-- `{"reason": reason} if reason else {}`
abbrev pub reason_metadata : Option String → List (String × MetaValue)
reason_metadata none = []
reason_metadata (some r) = if str_eq r "" then [] else ("reason", text r) ∷ []

-- The target is APPROVED, and the user wrote the version and is no ADMIN.
unfoldable pub is_self_approval : User → ExperimentVersionStatus → ExperimentVersion → Bool
is_self_approval user target v =
    is_approval target && str_eq user.username v.created_by && not (is_admin user.role)

abbrev pub refuse_self_approval : String → User → ExperimentVersion → Bool → Studio Unit
refuse_self_approval id user v false = pure tt
refuse_self_approval id user v true = do
  log user experiment_version_self_approval_blocked id (("created_by", text v.created_by) ∷ [])
  raise self_approval_forbidden

-- `_do_transition`
unfoldable pub do_transition :
    String
    → ExperimentVersionStatus
    → User
    → (reason : Option String) (materialise : Bool) (now : ℕ) → Studio ExperimentVersion
unfolding get_or_raise save_version append_approval_decision materialise_to_experiments_dir
do_transition id target user reason materialise now = do
  v ← get_or_raise id
  refuse_self_approval id user v (is_self_approval user target v)
  moved ← lift (transition v target user.username reason now)
  save_version moved.0
  append_approval_decision moved.1
  when (is_approval target && materialise) (materialise_to_experiments_dir moved.0)
  log user (transition_audit_action target) id (reason_metadata reason)
  pure moved.0

-- `EditExperimentVersionRequest`
pub record EditRequest : Type 0 where
  pub title : Option String
  pub description : Option String
  pub research_question : Option String
  pub hypothesis : Option String

-- Every field of the request that is not None replaces that of the definition.
unfoldable pub apply_updates : EditRequest → ExperimentDefinition → ExperimentDefinition
apply_updates r e = record e {
  title = or_else r.title e.title;
  description = or_else r.description e.description;
  research_question = or_else r.research_question e.research_question;
  hypothesis = or_else r.hypothesis e.hypothesis;
}

abbrev changed : String → Option String → List String → List String
changed name none rest = rest
changed name (some _) rest = name ∷ rest

-- `sorted(updates)`
abbrev pub fields_changed : EditRequest → List String
fields_changed r = changed "description" r.description (
    changed "hypothesis" r.hypothesis
      (changed "research_question" r.research_question (changed "title" r.title [])))

-- `edit_experiment_version`
unfoldable pub edit_experiment_version : String → EditRequest → User → ℕ → Studio ExperimentVersion
unfolding get_or_raise save_version
edit_experiment_version id request user now = do
  v ← get_or_raise id
  updated ← lift (edit_draft v (apply_updates request) now)
  save_version updated
  log user experiment_version_edited id (("fields_changed", texts (fields_changed request)) ∷ [])
  pure updated
