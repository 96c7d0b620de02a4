-- ===== src/Studio/Service/Reviewed.antt =====
-- No version is approved, and no experiment file is written, without a recorded review.
use zero_shield.Base.{
  ℕ, String, ◌≡◌, ap, inl, inr, Bool, true, false, ◌&&◌, Bool-cases, Option, List, [], ◌∷◌, ◌++◌,
  arith, str_eq, eq_refl, any_of, All, All-map, any_of-append,
}
use zero_shield.Base.Effects.{ok}
use zero_shield.Models.Enums.{ApprovalStatus, ExperimentVersionStatus}
use zero_shield.Models.Experiment.{ExperimentDefinition, validates}
use zero_shield.Models.Versions.{
  ExperimentVersion, ApprovalDecision, version_validates, expected_approval,
}
use zero_shield.Studio.Approval.{transition, moved, decision_of, allowed_transition}
use zero_shield.Studio.Approval.Lockstep.{transition-eq-ok, transition-validates}
use zero_shield.Studio.Repository.{Store, put_file}
use zero_shield.Studio.Repository.Rows.{put_row-All}
use zero_shield.Studio.Service.{create_draft, edit, apply_transition, is_approval}
use zero_shield.Studio.Service.Store.{stored, apply_transition_cases, edit_cases}

abbrev is_review : ExperimentVersionStatus → Bool
is_review ExperimentVersionStatus.under_review = true
is_review _ = false

-- The decision took this version from UNDER_REVIEW to APPROVED.
abbrev pub approves : String → ApprovalDecision → Bool
approves id d = str_eq d.version_id id && (is_review d.from_status && is_approval d.to_status)

abbrev pub HasReview : List ApprovalDecision → ExperimentVersion → Type 0
HasReview ds v =
    v.status ≡ ExperimentVersionStatus.approved → any_of (approves v.version_id) ds ≡ true

abbrev pub IsRunnable : String × ExperimentDefinition → Type 0
IsRunnable (id, e) = (validates e ≡ true) × (e.approval_status ≡ ApprovalStatus.approved)

-- Every approved row has its review on record, and every experiment file holds an approved
-- definition that validates.
pub record IsReviewed (s : Store) : Type 0 where
  pub rows : All (HasReview s.decisions) s.versions
  pub files : All IsRunnable s.files

-- The calls of the service. What the builder hands to `create_draft` is in status DRAFT.
pub data Call : Type 0 where
  create : (v : ExperimentVersion) → v.status ≡ ExperimentVersionStatus.draft → Call
  edit_with : String → (ExperimentDefinition → ExperimentDefinition) → ℕ → Call
  move : String → ExperimentVersionStatus → String → Option String → Bool → ℕ → Call

-- The store behind a call, whether it returns or raises.
unfoldable pub after_call : Call → Store → Store
after_call (create v _) s = (create_draft v s).1
after_call (edit_with id updates now) s = (edit id updates now s).1
after_call (move id target actor reason materialise now) s =
    (apply_transition id target actor reason materialise now s).1

unfoldable pub after_calls : List Call → Store → Store
unfolding after_call
after_calls [] s = s
after_calls (c ∷ cs) s = after_calls cs (after_call c s)

put_file-All :
    (id : String) (e : ExperimentDefinition) (fs : List (String × ExperimentDefinition))
    → IsRunnable (id, e)
    → All IsRunnable fs
    → All IsRunnable (put_file id e fs)
unfolding put_file
put_file-All id e [] h hs = (h, tt)
put_file-All id e ((k, d) ∷ fs) h (hd, hs) = elim (Bool-cases (str_eq k id)) [
  | inl same ↦ rw same (h, hs)
  | inr other ↦ rw other (hd, put_file-All id e fs h hs)
]

-- A recorded review stays on record.
HasReview-snoc :
    (ds : List ApprovalDecision) (d : ApprovalDecision) (v : ExperimentVersion)
    → HasReview ds v
    → HasReview (ds ++ d ∷ []) v
HasReview-snoc ds d v h e = ground (arith, h e, any_of-append (approves v.version_id) ds (d ∷ []))

-- An allowed transition to APPROVED comes from UNDER_REVIEW.
from_review :
    (current target : ExperimentVersionStatus)
    → allowed_transition current target ≡ true
    → target ≡ ExperimentVersionStatus.approved
    → current ≡ ExperimentVersionStatus.under_review
unfolding allowed_transition
from_review current target h e = ground arith

moved-HasReview :
    (ds : List ApprovalDecision) (v : ExperimentVersion) (target : ExperimentVersionStatus)
    (actor : String) (reason : Option String) (now : ℕ)
    → allowed_transition v.status target ≡ true
    → HasReview (ds ++ decision_of v target actor reason now ∷ []) (moved v target now)
moved-HasReview ds v target actor reason now allowed e = ground (
  arith,
  from_review v.status target allowed e,
  eq_refl v.version_id,
  any_of-append (approves v.version_id) ds (decision_of v target actor reason now ∷ []),
)

definition-validates :
    (v : ExperimentVersion) → version_validates v ≡ true → validates v.definition ≡ true
unfolding version_validates
definition-validates v h = ground arith

is_approval_iff :
    (target : ExperimentVersionStatus) (b : Bool)
    → (is_approval target && b) ≡ true
    → target ≡ ExperimentVersionStatus.approved
is_approval_iff target b h = ground arith

-- The definition behind a transition to APPROVED may be written to a file.
transition-IsRunnable :
    (v : ExperimentVersion) (target : ExperimentVersionStatus) (actor : String)
    (reason : Option String) (now : ℕ) (w : ExperimentVersion) (d : ApprovalDecision)
    → version_validates v ≡ true
    → transition v target actor reason now ≡ ok (w, d)
    → target ≡ ExperimentVersionStatus.approved
    → IsRunnable (w.experiment_id, w.definition)
transition-IsRunnable v target actor reason now w d valid e approved =
    let facts = transition-validates v target actor reason now w d valid e in
    (
      definition-validates w facts.0,
      cc (
        ap expected_approval approved,
        ap (λ (x : ExperimentDefinition). x.approval_status) facts.2,
      ),
    )

-- The store behind a transition that succeeded.
stored-IsReviewed :
    (s : Store) (v : ExperimentVersion) (target : ExperimentVersionStatus) (actor : String)
    (reason : Option String) (now : ℕ) (materialise : Bool) (w : ExperimentVersion)
    (d : ApprovalDecision)
    → version_validates v ≡ true
    → transition v target actor reason now ≡ ok (w, d)
    → IsReviewed s
    → IsReviewed (stored s w d (is_approval target && materialise))
stored-IsReviewed s v target actor reason now materialise w d valid e h =
    let (allowed, hw, hd) = transition-eq-ok v target actor reason now e in
    let ds = s.decisions ++ d ∷ [] in
    record {
      rows =
          put_row-All (HasReview ds) w s.versions
            (rw (hw, hd) (moved-HasReview s.decisions v target actor reason now allowed))
            (All-map (HasReview s.decisions) (HasReview ds) s.versions
              (HasReview-snoc s.decisions d) h.rows);
      files = elim (Bool-cases (is_approval target && materialise)) [
        | inl writes ↦ rw writes (
            put_file-All w.experiment_id w.definition s.files
              (transition-IsRunnable v target actor reason now w d valid e
                (is_approval_iff target materialise writes))
              h.files)
        | inr nothing ↦ rw nothing h.files
      ];
    }

-- A call keeps the invariant, whether it returns or raises.
after_call-IsReviewed : (c : Call) (s : Store) → IsReviewed s → IsReviewed (after_call c s)
unfolding after_call create_draft
after_call-IsReviewed (create v draft) s h = record {
  rows = put_row-All (HasReview s.decisions) v s.versions (λ e. cc) h.rows;
  files = h.files;
}
after_call-IsReviewed (edit_with id updates now) s h = elim (edit_cases id updates now s) [
  | inl same ↦ rw same h
  | inr (v, found, draft, e) ↦ rw e record {
    rows =
        put_row-All (HasReview s.decisions)
          (record v { definition = updates v.definition; updated_at = now }) s.versions (λ e. cc)
          h.rows;
    files = h.files;
  }
]
after_call-IsReviewed (move id target actor reason materialise now) s h =
    elim (apply_transition_cases id target actor reason materialise now s) [
      | inl same ↦ rw same h
      | inr (v, w, d, found, valid, e, stores) ↦
          rw stores (stored-IsReviewed s v target actor reason now materialise w d valid e h)
    ]

-- After any calls of the service from a store where this holds, in any order and whether they return or
-- raise, every approved version has a recorded decision that took it from UNDER_REVIEW to
-- APPROVED, and every experiment file holds an approved definition that validates.
pub after_calls-IsReviewed :
    (cs : List Call) (s : Store) → IsReviewed s → IsReviewed (after_calls cs s)
unfolding after_calls
after_calls-IsReviewed [] s h = h
after_calls-IsReviewed (c ∷ cs) s h =
    after_calls-IsReviewed cs (after_call c s) (after_call-IsReviewed c s h)
