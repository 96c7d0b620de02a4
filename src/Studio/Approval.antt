-- ===== src/Studio/Approval.antt =====
-- src/zeroshield/studio/approval.py, and `edit_draft` of builder.py.
pub mod Lockstep
use zero_shield.Base.{ℕ, String, Bool, true, false, not, Option, if◌then◌else◌}
use zero_shield.Base.Effects.{Result, ok, err}
use zero_shield.Models.Enums.{ApprovalStatus, ExperimentVersionStatus}
use zero_shield.Models.Experiment.{ExperimentDefinition}
use zero_shield.Models.Versions.{ExperimentVersion, ApprovalDecision, approval_validates}

pub data StudioError : Type 0 where
  invalid_transition : (current target : ExperimentVersionStatus) → StudioError
  immutable_version : String → StudioError
  version_not_found : String → StudioError
  -- pydantic's ValidationError
  validation_error : StudioError
  self_approval_forbidden : StudioError

-- `target in _ALLOWED_TRANSITIONS.get(current, frozenset())`
unfoldable pub allowed_transition : ExperimentVersionStatus → ExperimentVersionStatus → Bool
allowed_transition ExperimentVersionStatus.draft ExperimentVersionStatus.ready_for_review = true
allowed_transition ExperimentVersionStatus.ready_for_review ExperimentVersionStatus.under_review =
    true
allowed_transition ExperimentVersionStatus.ready_for_review ExperimentVersionStatus.draft = true
allowed_transition ExperimentVersionStatus.under_review ExperimentVersionStatus.approved = true
allowed_transition ExperimentVersionStatus.under_review ExperimentVersionStatus.rejected = true
allowed_transition ExperimentVersionStatus.under_review ExperimentVersionStatus.ready_for_review =
    true
allowed_transition ExperimentVersionStatus.approved ExperimentVersionStatus.retired = true
allowed_transition _ _ = false

unfoldable pub check_transition :
    ExperimentVersionStatus → ExperimentVersionStatus → Result StudioError Unit
unfolding allowed_transition
check_transition current target =
    if allowed_transition current target then ok tt else err (invalid_transition current target)

abbrev pub new_definition_status : ExperimentVersionStatus → ApprovalStatus
new_definition_status ExperimentVersionStatus.approved = ApprovalStatus.approved
new_definition_status _ = ApprovalStatus.draft

-- `model_copy(update=…)` runs no validator.
abbrev pub moved : ExperimentVersion → ExperimentVersionStatus → ℕ → ExperimentVersion
moved v target now =
    let definition = record (v.definition) { approval_status = new_definition_status target } in
    record v { status = target; definition = definition; updated_at = now }

abbrev pub decision_of :
    ExperimentVersion → ExperimentVersionStatus → String → Option String → ℕ → ApprovalDecision
decision_of v target actor reason now = record {
  version_id = v.version_id;
  from_status = v.status;
  to_status = target;
  actor = actor;
  reason = reason;
  decided_at = now;
}

abbrev then_decide :
    Result StudioError Unit
    → ExperimentVersion
    → ApprovalDecision
    → Result StudioError (ExperimentVersion × ApprovalDecision)
then_decide (err e) v d = err e
then_decide (ok _) v d = if approval_validates d then ok (v, d) else err validation_error

-- `now` is what `clock()` returns.
unfoldable pub transition :
    ExperimentVersion
    → ExperimentVersionStatus
    → (actor : String) (reason : Option String) (now : ℕ)
    → Result StudioError (ExperimentVersion × ApprovalDecision)
unfolding check_transition approval_validates
transition v target actor reason now =
    then_decide (check_transition v.status target) (moved v target now)
      (decision_of v target actor reason now)

abbrev is_draft : ExperimentVersionStatus → Bool
is_draft ExperimentVersionStatus.draft = true
is_draft _ = false

-- `edit_draft`: `updates` is any change of fields of the definition, and is not validated.
unfoldable pub edit_draft :
    ExperimentVersion
    → (updates : ExperimentDefinition → ExperimentDefinition) → ℕ
    → Result StudioError ExperimentVersion
edit_draft v updates now =
    if not (is_draft v.status)
    then err (immutable_version v.version_id)
    else let definition = updates v.definition in
      ok (record v { definition = definition; updated_at = now })
