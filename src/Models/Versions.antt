-- ===== src/Models/Versions.antt =====
-- src/zeroshield/models/experiment_version.py. The provenance of the dataset is left out.
use zero_shield.Base.{ℕ, String, Bool, true, false, ◌&&◌, Option, leb, str_eq}
use zero_shield.Models.Enums.{ApprovalStatus, ExperimentVersionStatus}
use zero_shield.Models.Experiment.{ExperimentDefinition, nonempty, validates}

pub record ExperimentVersion : Type 0 where
  pub version_id : String
  pub experiment_id : String
  pub version_number : ℕ
  pub status : ExperimentVersionStatus
  pub domain_pack_id : String
  pub template_id : String
  pub template_version : String
  pub definition : ExperimentDefinition
  pub created_by : String
  pub created_at : ℕ
  pub updated_at : ℕ

-- `_APPROVED_DEFINITION_STATUS.get(status, ApprovalStatus.DRAFT)`
abbrev pub expected_approval : ExperimentVersionStatus → ApprovalStatus
expected_approval ExperimentVersionStatus.approved = ApprovalStatus.approved
expected_approval _ = ApprovalStatus.draft

abbrev is_expected : ApprovalStatus → ApprovalStatus → Bool
is_expected ApprovalStatus.approved ApprovalStatus.approved = true
is_expected ApprovalStatus.draft ApprovalStatus.draft = true
is_expected _ _ = false

unfoldable pub check_experiment_id_matches_definition : ExperimentVersion → Bool
check_experiment_id_matches_definition v = str_eq v.experiment_id v.definition.experiment_id

unfoldable pub check_approval_status_matches_workflow_status : ExperimentVersion → Bool
check_approval_status_matches_workflow_status v =
    is_expected v.definition.approval_status (expected_approval v.status)

-- The constraints of the single fields.
unfoldable pub check_version_fields : ExperimentVersion → Bool
check_version_fields v =
    nonempty v.version_id
    && leb 1 v.version_number
    && nonempty v.domain_pack_id
    && nonempty v.template_id
    && nonempty v.template_version
    && nonempty v.created_by

-- The model accepts the version, and with it the definition inside.
unfoldable pub version_validates : ExperimentVersion → Bool
unfolding check_approval_status_matches_workflow_status
version_validates v =
    check_version_fields v
    && check_experiment_id_matches_definition v
    && check_approval_status_matches_workflow_status v
    && validates v.definition

pub record ApprovalDecision : Type 0 where
  pub version_id : String
  pub from_status : ExperimentVersionStatus
  pub to_status : ExperimentVersionStatus
  pub actor : String
  pub reason : Option String
  pub decided_at : ℕ

unfoldable pub approval_validates : ApprovalDecision → Bool
approval_validates d = nonempty d.version_id && nonempty d.actor
