-- ===== src/Studio/Tests.antt =====
-- The workflow on small stores.
use zero_shield.Base.{◌≡◌, ◌≢◌, refl, ◌⊎◌, ◌↔◌, true, false, none, some, [], ◌∷◌, String, arith}
use zero_shield.Base.Effects.{ok, err, succeeded}
use zero_shield.Models.Enums.{ExperimentVersionStatus}
use zero_shield.Models.Experiment.{
  validates, check_editable_texts, check_rest, experiment_id_domain, is_strategy_id, nonempty,
  cve_reference_validates,
}
use zero_shield.Models.Paths.{is_unsafe_relative_path}
use zero_shield.Models.Versions.{
  ExperimentVersion, ApprovalDecision, version_validates, check_version_fields,
  check_experiment_id_matches_definition, expected_approval,
}
use zero_shield.Studio.Approval.{
  transition, moved, decision_of, allowed_transition, invalid_transition, validation_error,
}
use zero_shield.Studio.Approval.Lockstep.{transition_cases, transition-validates}
use zero_shield.Studio.Repository.{Store, find_row, get_version}
use zero_shield.Studio.Service.{apply_transition}
use zero_shield.Studio.Service.Reviewed.{
  IsReviewed, create, move, after_calls, after_calls-IsReviewed,
}
use zero_shield.Studio.Routes.{
  is_self_approval, do_transition, edit_experiment_version, apply_updates, EditRequest,
}
use zero_shield.Studio.Routes.SelfApproval.{do_transition-not_author}
use zero_shield.Studio.Routes.Editing.{edit-readable_iff}
use zero_shield.Audit.{Role}
use zero_shield.Samples.{draft_version, version_under_review, alice, bob}

-- What a test of the validators computes with.
validators : Unit {0}
unfolding version_validates check_version_fields check_experiment_id_matches_definition validates
    check_editable_texts check_rest is_unsafe_relative_path experiment_id_domain is_strategy_id
    cve_reference_validates
validators = tt

draft_validates : version_validates draft_version ≡ true
unfolding validators
draft_validates = refl

under_review_validates : version_validates version_under_review ≡ true
unfolding validators
under_review_validates = refl

abbrev store : Store
store = record { versions = version_under_review ∷ []; decisions = []; files = []; audit = [] }

abbrev draft_store : Store
draft_store = record store { versions = draft_version ∷ [] }

abbrev empty_store : Store
empty_store = record store { versions = [] }

abbrev approved_target : ExperimentVersionStatus
approved_target = ExperimentVersionStatus.approved

transition_cases_example :
    (succeeded (transition version_under_review approved_target "bob" none 20) ≡ true ↔ (
      (allowed_transition ExperimentVersionStatus.under_review approved_target ≡ true)
      × (nonempty "ZC-VPN-EXP-001@v1" ≡ true)
      × (nonempty "bob" ≡ true)))
    × (transition version_under_review approved_target "bob" none 20
          ≡ err (invalid_transition ExperimentVersionStatus.under_review approved_target)
        ↔ (allowed_transition ExperimentVersionStatus.under_review approved_target ≡ false))
transition_cases_example = transition_cases version_under_review approved_target "bob" none 20

abbrev approved_version : ExperimentVersion
approved_version = moved version_under_review approved_target 20

abbrev approval : ApprovalDecision
approval = decision_of version_under_review approved_target "bob" none 20

approves_bob :
    transition version_under_review approved_target "bob" none 20 ≡ ok (approved_version, approval)
unfolding transition
approves_bob = refl

transition-validates_example :
    (version_validates approved_version ≡ true)
    × (approved_version.status ≡ approved_target)
    × (approved_version.definition ≡ record (version_under_review.definition) {
      approval_status = expected_approval approved_target;
    })
    × (approval.version_id ≡ version_under_review.version_id)
    × (approval.from_status ≡ version_under_review.status)
    × (approval.to_status ≡ approved_target)
    × (approval.actor ≡ "bob")
transition-validates_example =
    transition-validates version_under_review approved_target "bob" none 20 approved_version
      approval under_review_validates approves_bob

found : find_row "ZC-VPN-EXP-001@v1" store.versions ≡ some version_under_review
unfolding find_row
found = refl

retire_fails :
    (apply_transition "ZC-VPN-EXP-001@v1" ExperimentVersionStatus.retired "bob" none false 20
      store).0
    ≡ err (invalid_transition ExperimentVersionStatus.under_review ExperimentVersionStatus.retired)
unfolding apply_transition transition find_row validators
retire_fails = refl

empty_IsReviewed : IsReviewed empty_store
empty_IsReviewed = ground arith

after_calls-IsReviewed_example : IsReviewed (
    after_calls
      (create draft_version refl
        ∷ move "ZC-VPN-EXP-001@v1" ExperimentVersionStatus.ready_for_review "alice" none false 11
        ∷ move "ZC-VPN-EXP-001@v1" ExperimentVersionStatus.under_review "bob" none false 12
        ∷ move "ZC-VPN-EXP-001@v1" ExperimentVersionStatus.approved "bob" none true 13
        ∷ [])
      empty_store)
after_calls-IsReviewed_example =
    after_calls-IsReviewed
      (create draft_version refl
        ∷ move "ZC-VPN-EXP-001@v1" ExperimentVersionStatus.ready_for_review "alice" none false 11
        ∷ move "ZC-VPN-EXP-001@v1" ExperimentVersionStatus.under_review "bob" none false 12
        ∷ move "ZC-VPN-EXP-001@v1" ExperimentVersionStatus.approved "bob" none true 13
        ∷ [])
      empty_store empty_IsReviewed

bob_approves :
    succeeded (do_transition "ZC-VPN-EXP-001@v1" approved_target bob none true 20 store).0 ≡ true
unfolding do_transition transition find_row validators is_self_approval
bob_approves = refl

do_transition-not_author_example : (◌≢◌ {A = String} "bob" "alice") ⊎ (Role.reviewer ≡ Role.admin)
do_transition-not_author_example =
    do_transition-not_author "ZC-VPN-EXP-001@v1" bob none true 20 store version_under_review found
      bob_approves

reviewer_is_no_admin : Role.reviewer ≢ Role.admin
reviewer_is_no_admin e = cc

abbrev empty_title : EditRequest
empty_title = record {
  title = some "";
  description = none;
  research_question = none;
  hypothesis = none;
}

abbrev untitled : ExperimentVersion
untitled = record draft_version {
  definition = apply_updates empty_title draft_version.definition;
  updated_at = 30;
}

draft_found : find_row "ZC-VPN-EXP-001@v1" draft_store.versions ≡ some draft_version
unfolding find_row
draft_found = refl

-- The edit is accepted, and the version can no longer be read.
edit-readable_iff_example :
    let (outcome, t) =
      edit_experiment_version "ZC-VPN-EXP-001@v1" empty_title alice 30 draft_store in
    (outcome ≡ ok untitled) × ((get_version "ZC-VPN-EXP-001@v1" t).0 ≡ err validation_error)
edit-readable_iff_example =
    edit-readable_iff "ZC-VPN-EXP-001@v1" empty_title alice 30 draft_store draft_version draft_found
      refl draft_validates refl
