-- ===== src/Studio/Service/Store.antt =====
-- What a call of the service does to the store, on every path.
use zero_shield.Base.{
  ℕ, String, ◌≡◌, refl, ◌≢◌, ◌⊎◌, inl, inr, Bool-cases, Bool, true, Option, some, ◌++◌, [], ◌∷◌,
  arith, ◌&&◌, if◌then◌else◌, Option-cases,
}
use zero_shield.Base.Effects.{ok, err, Result-cases}
use zero_shield.Models.Enums.{ExperimentVersionStatus}
use zero_shield.Models.Experiment.{ExperimentDefinition}
use zero_shield.Models.Versions.{ExperimentVersion, ApprovalDecision, version_validates}
use zero_shield.Studio.Approval.{StudioError, transition, edit_draft}
use zero_shield.Studio.Repository.{Store, find_row, put_row, put_file}
use zero_shield.Studio.Service.{apply_transition, edit, is_approval}

-- The store behind a transition of a version that was found.
abbrev pub stored : Store → ExperimentVersion → ApprovalDecision → (writes : Bool) → Store
stored s w d writes = record s {
  versions = put_row w s.versions;
  decisions = s.decisions ++ d ∷ [];
  files = if writes then put_file w.experiment_id w.definition s.files else s.files;
}

-- A call that succeeds has found a valid row and an allowed transition; it overwrites that row,
-- appends its decision, and writes the file of the experiment exactly when the target is APPROVED
-- and a directory was given.
pub apply_transition_ok :
    (id : String) (target : ExperimentVersionStatus) (actor : String) (reason : Option String)
    (materialise : Bool) (now : ℕ) (s : Store) (v w : ExperimentVersion) (d : ApprovalDecision)
    → find_row id s.versions ≡ some v
    → version_validates v ≡ true
    → transition v target actor reason now ≡ ok (w, d)
    → apply_transition id target actor reason materialise now s
      ≡ (ok w, stored s w d (is_approval target && materialise))
unfolding apply_transition
apply_transition_ok id target actor reason materialise now s v w d found valid e = ground arith

-- A call that raises leaves the store as it was.
pub apply_transition_err :
    (id : String) (target : ExperimentVersionStatus) (actor : String) (reason : Option String)
    (materialise : Bool) (now : ℕ) (s : Store) (e : StudioError)
    → (apply_transition id target actor reason materialise now s).0 ≡ err e
    → (apply_transition id target actor reason materialise now s).1 ≡ s
unfolding apply_transition
apply_transition_err id target actor reason materialise now s e h = ground arith

-- What a call of `apply_transition` can have done.
pub apply_transition_cases :
    (id : String) (target : ExperimentVersionStatus) (actor : String) (reason : Option String)
    (materialise : Bool) (now : ℕ) (s : Store)
    → ((apply_transition id target actor reason materialise now s).1 ≡ s)
      ⊎ ((v : ExperimentVersion) × (w : ExperimentVersion) × (d : ApprovalDecision) × (find_row id
              s.versions
            ≡ some v)
          × (version_validates v ≡ true)
          × (transition v target actor reason now ≡ ok (w, d))
          × ((apply_transition id target actor reason materialise now s).1
              ≡ stored s w d (is_approval target && materialise)))
unfolding apply_transition
apply_transition_cases id target actor reason materialise now s =
    elim (Option-cases (find_row id s.versions)) [
      | inl missing ↦ inl (ground arith)
      | inr (v, found) ↦ elim (Bool-cases (version_validates v)) [
        | inl valid ↦ elim (Result-cases (transition v target actor reason now)) [
          | inl ((w, d), e) ↦ inr (v, w, d, found, valid, e, ground arith)
          | inr (x, e) ↦ inl (ground arith)
        ]
        | inr broken ↦ inl (ground arith)
      ]
    ]

status_cases :
    (t : ExperimentVersionStatus)
    → (t ≡ ExperimentVersionStatus.draft) ⊎ (t ≢ ExperimentVersionStatus.draft)
status_cases ExperimentVersionStatus.draft = inl refl
status_cases _ = inr (λ e. cc)

-- What a call of `edit` can have done: nothing, or a new definition in a row in status DRAFT.
pub edit_cases :
    (id : String) (updates : ExperimentDefinition → ExperimentDefinition) (now : ℕ) (s : Store)
    → ((edit id updates now s).1 ≡ s)
      ⊎ ((v : ExperimentVersion) × (find_row id s.versions ≡ some v)
          × (v.status ≡ ExperimentVersionStatus.draft)
          × ((edit id updates now s).1 ≡ record s {
            versions =
                put_row
                  (record v { definition = updates v.definition; updated_at = now })
                  s.versions;
          }))
unfolding edit edit_draft
edit_cases id updates now s = elim (Option-cases (find_row id s.versions)) [
  | inl missing ↦ inl (ground arith)
  | inr (v, found) ↦ elim (Bool-cases (version_validates v)) [
    | inl valid ↦ elim (status_cases v.status) [
      | inl draft ↦ inr (v, found, draft, ground arith)
      | inr later ↦ inl (ground arith)
    ]
    | inr broken ↦ inl (ground arith)
  ]
]
