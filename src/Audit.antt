-- ===== src/Audit.antt =====
-- src/zeroshield/audit: events that are only ever appended. The id and the time of an event, which
-- are drawn when it is recorded, the request id, and the states before and after are left out.
use zero_shield.Base.{ℕ, String, Option, List, [], ◌∷◌, ◌++◌}

-- The constants of `class Action` that the modelled code records.
pub data AuditAction : Type 0 where
  login_success login_failure logout account_locked : AuditAction
  user_created user_role_changed user_deactivated user_reactivated : AuditAction
  experiment_version_created experiment_version_edited : AuditAction
  experiment_version_submitted_for_review experiment_version_review_started : AuditAction
  experiment_version_approved experiment_version_rejected experiment_version_retired : AuditAction
  experiment_version_self_approval_blocked : AuditAction
  run_submitted run_denied run_failed evidence_created : AuditAction
  revalidation_candidate_approved revalidation_candidate_dismissed : AuditAction

-- A value in the metadata of an event.
pub data MetaValue : Type 0 where
  text : String → MetaValue
  number : ℕ → MetaValue
  texts : List String → MetaValue

pub data Role : Type 0 where
  viewer researcher reviewer admin : Role

pub record AuditEvent : Type 0 where
  pub actor_user_id : Option String
  pub actor_username : Option String
  pub actor_role : Option Role
  pub action : AuditAction
  pub target_type : String
  pub target_id : Option String
  pub metadata : List (String × MetaValue)

-- `AuditRepository.record`
abbrev pub record_event : AuditEvent → List AuditEvent → List AuditEvent
record_event e log = log ++ e ∷ []
