-- ===== src/Studio/Routes/SelfApproval.antt =====
-- Nobody but an ADMIN approves a version of their own.
use zero_shield.Base.{
  ℕ, String, ◌≡◌, ◌≢◌, ◌↔◌, ◌⊎◌, inl, inr, Bool, true, false, Option, some, [], ◌∷◌, ◌++◌, arith,
  eq_iff, Bool-cases,
}
use zero_shield.Base.Effects.{err, succeeded}
use zero_shield.Models.Enums.{ExperimentVersionStatus}
use zero_shield.Models.Versions.{ExperimentVersion, version_validates}
use zero_shield.Studio.Approval.{self_approval_forbidden}
use zero_shield.Studio.Repository.{Store, find_row}
use zero_shield.Studio.Routes.{do_transition, is_self_approval, version_event}
use zero_shield.Audit.{Role, text, experiment_version_self_approval_blocked}
use zero_shield.Auth.Models.{User}

self_approval_iff :
    (user : User) (v : ExperimentVersion)
    → (is_self_approval user ExperimentVersionStatus.approved v ≡ true)
      ↔ ((user.username ≡ v.created_by) × (user.role ≢ Role.admin))
unfolding is_self_approval
self_approval_iff user v = ground (arith, eq_iff user.username v.created_by)

not_self_approval :
    (user : User) (v : ExperimentVersion)
    → is_self_approval user ExperimentVersionStatus.approved v ≡ false
    → (user.username ≢ v.created_by) ⊎ (user.role ≡ Role.admin)
unfolding is_self_approval
not_self_approval user v h = ground (arith, eq_iff user.username v.created_by)

-- Whoever approves a version through the route is not its author, or is an ADMIN.
pub do_transition-not_author :
    (id : String) (user : User) (reason : Option String) (materialise : Bool) (now : ℕ) (s : Store)
    (v : ExperimentVersion)
    → find_row id s.versions ≡ some v
    → succeeded (do_transition id ExperimentVersionStatus.approved user reason materialise now s).0
      ≡ true
    → (user.username ≢ v.created_by) ⊎ (user.role ≡ Role.admin)
unfolding do_transition
do_transition-not_author id user reason materialise now s v found h =
    elim (Bool-cases (version_validates v)) [
      | inl valid ↦ elim (Bool-cases (is_self_approval user ExperimentVersionStatus.approved v)) [
        | inl own ↦ absurd (blocked_fails own valid)
        | inr other ↦ not_self_approval user v other
      ]
      | inr broken ↦ absurd (unreadable broken)
    ]
  where
    blocked_fails :
        is_self_approval user ExperimentVersionStatus.approved v ≡ true
        → version_validates v ≡ true
        → ⊥
    blocked_fails own valid = ground arith

    unreadable : version_validates v ≡ false → ⊥
    unreadable broken = ground arith

-- An author who is no ADMIN is refused, whatever the status of the version. Only the audit trail
-- changes: it names the user and the author of the version.
pub do_transition-self_approval :
    (id : String) (user : User) (reason : Option String) (materialise : Bool) (now : ℕ) (s : Store)
    (v : ExperimentVersion)
    → find_row id s.versions ≡ some v
    → version_validates v ≡ true
    → user.username ≡ v.created_by
    → user.role ≢ Role.admin
    → do_transition id ExperimentVersionStatus.approved user reason materialise now s ≡ (
      err self_approval_forbidden,
      record s {
        audit =
            s.audit
            ++ version_event user experiment_version_self_approval_blocked id
                (("created_by", text v.created_by) ∷ [])
              ∷ [];
      },
    )
unfolding do_transition
do_transition-self_approval id user reason materialise now s v found valid same role =
    let own : is_self_approval user ExperimentVersionStatus.approved v ≡ true =
      (self_approval_iff user v).1 (same, role) in
    ground arith
