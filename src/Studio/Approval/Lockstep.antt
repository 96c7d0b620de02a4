-- ===== src/Studio/Approval/Lockstep.antt =====
-- The workflow status and the approval status of the definition move together.
use zero_shield.Base.{ℕ, String, ◌≡◌, refl, ap, ◌↔◌, true, false, Option, arith}
use zero_shield.Base.Effects.{ok, err, succeeded}
use zero_shield.Models.Enums.{ApprovalStatus, ExperimentVersionStatus}
use zero_shield.Models.Experiment.{
  ExperimentDefinition, validates, check_editable_texts, check_rest, nonempty,
}
use zero_shield.Models.Versions.{
  ExperimentVersion, ApprovalDecision, version_validates, check_version_fields,
  check_experiment_id_matches_definition, expected_approval,
}
use zero_shield.Studio.Approval.{
  transition, allowed_transition, invalid_transition, moved, decision_of, new_definition_status,
}

-- A transition succeeds exactly when the table has it and both the actor and the version are
-- named; it raises InvalidTransitionError exactly when the table has it not.
pub transition_cases :
    (v : ExperimentVersion) (target : ExperimentVersionStatus) (actor : String)
    (reason : Option String) (now : ℕ)
    → (succeeded (transition v target actor reason now) ≡ true ↔ (
        (allowed_transition v.status target ≡ true)
        × (nonempty v.version_id ≡ true)
        × (nonempty actor ≡ true)))
      × (transition v target actor reason now ≡ err (invalid_transition v.status target)
          ↔ (allowed_transition v.status target ≡ false))
unfolding transition
transition_cases v target actor reason now = ground arith

-- No validator of the definition reads its approval status.
validates-approval :
    (e : ExperimentDefinition) (s : ApprovalStatus)
    → validates (record e { approval_status = s }) ≡ validates e
unfolding validates check_editable_texts check_rest
validates-approval e s = refl

-- What a transition that succeeds returns.
pub transition-eq-ok :
    (v : ExperimentVersion) (target : ExperimentVersionStatus) (actor : String)
    (reason : Option String) (now : ℕ) {w : ExperimentVersion} {d : ApprovalDecision}
    → transition v target actor reason now ≡ ok (w, d)
    → (allowed_transition v.status target ≡ true)
      × (w ≡ moved v target now)
      × (d ≡ decision_of v target actor reason now)
unfolding transition
transition-eq-ok v target actor reason now e = ground arith

-- Nor do the other checks of a version read what a transition changes.
moved_same :
    (v : ExperimentVersion) (target : ExperimentVersionStatus) (now : ℕ)
    → (check_version_fields (moved v target now) ≡ check_version_fields v)
      × (check_experiment_id_matches_definition (moved v target now)
          ≡ check_experiment_id_matches_definition v)
unfolding check_version_fields check_experiment_id_matches_definition
moved_same v target now = (refl, refl)

moved-validates :
    (v : ExperimentVersion) (target : ExperimentVersionStatus) (now : ℕ)
    → version_validates v ≡ true
    → version_validates (moved v target now) ≡ true
unfolding version_validates
moved-validates v target now valid =
    ground (
      arith,
      moved_same v target now,
      validates-approval v.definition (new_definition_status target),
    )

expected_approval_lem :
    (target : ExperimentVersionStatus) → new_definition_status target ≡ expected_approval target
expected_approval_lem target = ground arith

-- A transition of a version that validates yields one that validates, with the target as its
-- status, the approval status of the definition in lockstep and all else of the definition kept,
-- and a decision that names the version, both statuses and the actor.
pub transition-validates :
    (v : ExperimentVersion) (target : ExperimentVersionStatus) (actor : String)
    (reason : Option String) (now : ℕ) (w : ExperimentVersion) (d : ApprovalDecision)
    → version_validates v ≡ true
    → transition v target actor reason now ≡ ok (w, d)
    → (version_validates w ≡ true)
      × (w.status ≡ target)
      × (w.definition ≡ record (v.definition) { approval_status = expected_approval target })
      × (d.version_id ≡ v.version_id)
      × (d.from_status ≡ v.status)
      × (d.to_status ≡ target)
      × (d.actor ≡ actor)
transition-validates v target actor reason now w d valid e =
    let (_, hw, hd) = transition-eq-ok v target actor reason now e in
    rw (hw, hd)
      (
        moved-validates v target now valid,
        refl,
        ap (λ s. record (v.definition) { approval_status = s }) (expected_approval_lem target),
        refl,
        refl,
        refl,
        refl,
      )
