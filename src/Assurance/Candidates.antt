-- ===== src/Assurance/Candidates.antt =====
-- The revalidation candidates of src/zeroshield/assurance/repository.py and revalidation.py, and
-- the routes of api/routes/revalidation.py that create and decide them. The id of a candidate,
-- a fresh uuid, is an argument, and so is what the clock shows.
pub mod Pending
pub mod Deduplication
use zero_shield.Base.{
  ℕ, String, Bool, true, false, not, ◌&&◌, Option, none, some, List, [], ◌∷◌, ◌++◌, keep, any_of,
  str_eq, if◌then◌else◌,
}
use zero_shield.Base.Effects.{
  Result, ok, err, pure, raise, gets, lift, ◌>>=◌, ◌>>◌, modify, raise_if,
}
use zero_shield.Audit.{AuditAction, MetaValue, AuditEvent, record_event}
use zero_shield.Auth.Models.{User}
use zero_shield.Assurance.{RevalidationCandidate, AssuranceStore, AssuranceError, Assurance}

-- The `WHERE` of `find_pending_candidate`
abbrev pub is_pending_for : String → String → RevalidationCandidate → Bool
is_pending_for control_id trigger_type c =
    str_eq c.control_id control_id
    && str_eq c.trigger_type trigger_type
    && str_eq c.status "pending"

-- `scalar_one_or_none()`
abbrev pub one_or_none :
    List RevalidationCandidate → Result AssuranceError (Option RevalidationCandidate)
one_or_none [] = ok none
one_or_none (c ∷ []) = ok (some c)
one_or_none (c ∷ d ∷ _) = err AssuranceError.multiple_results_found

unfoldable pub find_pending_candidate : String → String → Assurance (Option RevalidationCandidate)
find_pending_candidate control_id trigger_type s =
    (one_or_none (keep (is_pending_for control_id trigger_type) s.candidates), s)

unfoldable pub create_candidate : RevalidationCandidate → Assurance RevalidationCandidate
create_candidate c = do modify (λ s. record s { candidates = s.candidates ++ c ∷ [] }); pure c

-- A candidate as it is made: pending, and not reviewed
abbrev pub new_candidate :
    String → String → Option String → String → String → ℕ → RevalidationCandidate
new_candidate id control_id experiment_id trigger_type trigger_detail now = record {
  candidate_id = id;
  control_id = control_id;
  experiment_id = experiment_id;
  trigger_type = trigger_type;
  trigger_detail = trigger_detail;
  status = "pending";
  created_at = now;
  reviewed_by = none;
  reviewed_at = none;
  review_note = none;
}

abbrev pub create_unless :
    RevalidationCandidate → Option RevalidationCandidate → Assurance (Option RevalidationCandidate)
create_unless c (some _) = pure none
create_unless c none = do
  modify (λ s. record s { candidates = s.candidates ++ c ∷ [] })
  pure (some c)

unfoldable pub create_candidate_if_new :
    String
    → String
    → Option String
    → (trigger_type trigger_detail : String) (now : ℕ) → Assurance (Option RevalidationCandidate)
unfolding find_pending_candidate
create_candidate_if_new id control_id experiment_id trigger_type trigger_detail now =
    find_pending_candidate control_id trigger_type
    >>= create_unless (new_candidate id control_id experiment_id trigger_type trigger_detail now)

-- `session.get(RevalidationCandidateORM, candidate_id)`
unfoldable pub find_candidate : String → List RevalidationCandidate → Option RevalidationCandidate
find_candidate id [] = none
find_candidate id (c ∷ cs) =
    let below = find_candidate id cs in if str_eq c.candidate_id id then some c else below

-- The row with that key, changed
unfoldable pub amend_candidate :
    String
    → (RevalidationCandidate → RevalidationCandidate)
    → List RevalidationCandidate
    → List RevalidationCandidate
amend_candidate id f [] = []
amend_candidate id f (c ∷ cs) =
    let below = amend_candidate id f cs in if str_eq c.candidate_id id then f c ∷ cs else c ∷ below

-- What `update_candidate_status` writes in a row
abbrev pub decided :
    String → String → Option String → ℕ → RevalidationCandidate → RevalidationCandidate
decided status reviewed_by review_note now c = record c {
  status = status;
  reviewed_by = some reviewed_by;
  reviewed_at = some now;
  review_note = review_note;
}

unfoldable pub update_candidate_status :
    String
    → (status reviewed_by : String) (review_note : Option String) (now : ℕ)
    → Assurance (Option RevalidationCandidate)
unfolding find_candidate amend_candidate
update_candidate_status id status reviewed_by review_note now s =
    elim (find_candidate id s.candidates) [
      | none ↦ (ok none, s)
      | some c ↦ (
        ok (some (decided status reviewed_by review_note now c)),
        record s {
          candidates = amend_candidate id (decided status reviewed_by review_note now) s.candidates;
        },
      )
    ]

-- `POST /revalidation`: no candidate is looked for.
unfoldable pub create_revalidation_candidate :
    String
    → String
    → Option String
    → (trigger_type trigger_detail : String) (now : ℕ) → Assurance RevalidationCandidate
unfolding create_candidate
create_revalidation_candidate id control_id experiment_id trigger_type trigger_detail now = do
  known ← gets (λ (s : AssuranceStore). any_of (str_eq control_id) s.controls)
  raise_if (not known) (AssuranceError.control_not_found control_id)
  create_candidate (new_candidate id control_id experiment_id trigger_type trigger_detail now)

-- The statuses that a decision gives
pub data CandidateDecision : Type 0 where
  approve dismiss : CandidateDecision

abbrev pub decision_status : CandidateDecision → String
decision_status CandidateDecision.approve = "approved"
decision_status CandidateDecision.dismiss = "dismissed"

-- `_DECISION_AUDIT_ACTIONS[status]`
abbrev pub decision_audit_action : CandidateDecision → AuditAction
decision_audit_action CandidateDecision.approve = AuditAction.revalidation_candidate_approved
decision_audit_action CandidateDecision.dismiss = AuditAction.revalidation_candidate_dismissed

abbrev pub candidate_event : String → User → CandidateDecision → RevalidationCandidate → AuditEvent
candidate_event id user decision c = record {
  actor_user_id = some user.user_id;
  actor_username = some user.username;
  actor_role = some user.role;
  action = decision_audit_action decision;
  target_type = "revalidation_candidate";
  target_id = some id;
  metadata =
      ("control_id", MetaValue.text c.control_id)
      ∷ ("trigger_type", MetaValue.text c.trigger_type)
      ∷ [];
}

-- `_transition`
unfoldable pub decide_candidate :
    String
    → CandidateDecision
    → User
    → (note : Option String) (now : ℕ) → Assurance RevalidationCandidate
unfolding find_candidate amend_candidate
decide_candidate id decision user note now s = elim (find_candidate id s.candidates) [
  | none ↦ (err (AssuranceError.candidate_not_found id), s)
  | some c ↦
      if str_eq c.status "pending"
      then (
        ok (decided (decision_status decision) user.username note now c),
        record s {
          candidates =
              amend_candidate id (decided (decision_status decision) user.username note now)
                s.candidates;
          audit = record_event (candidate_event id user decision c) s.audit;
        },
      )
      else (err (AssuranceError.candidate_not_pending id c.status), s)
]
