-- ===== src/Assurance/Candidates/Deduplication.antt =====
-- Calls of the candidates one after another: duplicates, decisions, and candidates made by hand.
use zero_shield.Base.{
  ℕ, String, ◌≡◌, ◌<◌, refl, ap, ◌∙◌, inl, inr, Bool, true, false, Option, none, some, List, [],
  ◌∷◌, ◌++◌, keep, any_of, length, length-keep, str_eq, arith, Bool-cases, Option-cases,
}
use zero_shield.Base.Effects.{ok, err, succeeded}
use zero_shield.Auth.Models.{User}
use zero_shield.Assurance.{RevalidationCandidate, AssuranceStore, AssuranceError}
use zero_shield.Assurance.Candidates.{
  is_pending_for, new_candidate, create_candidate_if_new, find_candidate, amend_candidate, decided,
  create_revalidation_candidate, create_candidate, CandidateDecision, decision_status,
  decide_candidate, candidate_event,
}
use zero_shield.Assurance.Candidates.Pending.{
  pending, IsDeduplicated, amend_candidate-pending, create_candidate_if_new-IsDeduplicated,
  create_many, candidate_pending,
}

decision_not_pending : (d : CandidateDecision) → str_eq (decision_status d) "pending" ≡ false
decision_not_pending CandidateDecision.approve = refl
decision_not_pending CandidateDecision.dismiss = refl

module _ (id : String) (decision : CandidateDecision) (user : User) (remark : Option String)
    (now : ℕ) where
  abbrev change : RevalidationCandidate → RevalidationCandidate
  change = decided (decision_status decision) user.username remark now

  -- A call that decides, from the candidate that was found
  decide_none :
      (s : AssuranceStore)
      → find_candidate id s.candidates ≡ none
      → decide_candidate id decision user remark now s
        ≡ (err (AssuranceError.candidate_not_found id), s)
  unfolding decide_candidate
  decide_none s e = ground (arith, e)

  decide_pending :
      (s : AssuranceStore) (c : RevalidationCandidate)
      → find_candidate id s.candidates ≡ some c
      → str_eq c.status "pending" ≡ true
      → decide_candidate id decision user remark now s ≡ (
        ok (change c),
        record s {
          candidates = amend_candidate id change s.candidates;
          audit = s.audit ++ candidate_event id user decision c ∷ [];
        },
      )
  unfolding decide_candidate
  decide_pending s c e p = ground (arith, e, p)

  decide_decided :
      (s : AssuranceStore) (c : RevalidationCandidate)
      → find_candidate id s.candidates ≡ some c
      → str_eq c.status "pending" ≡ false
      → decide_candidate id decision user remark now s
        ≡ (err (AssuranceError.candidate_not_pending id c.status), s)
  unfolding decide_candidate
  decide_decided s c e p = ground (arith, e, p)

  decide_candidate-IsDeduplicated :
      (s : AssuranceStore)
      → IsDeduplicated s.candidates
      → IsDeduplicated (decide_candidate id decision user remark now s).1.candidates
  decide_candidate-IsDeduplicated s h = elim (Option-cases (find_candidate id s.candidates)) [
    | inl e ↦ rw (decide_none s e) h
    | inr (c, e) ↦ elim (Bool-cases (str_eq c.status "pending")) [
      | inl p ↦ rw (decide_pending s c e p) (λ k t. omega (
        arith,
        amend_candidate-pending k t id (decision_status decision) user.username remark now
            s.candidates (decision_not_pending decision),
        h k t,
      ))
      | inr p ↦ rw (decide_decided s c e p) h
    ]
  ]

-- A call that looks for a candidate before it makes one, or that decides one
pub data CandidateCall : Type 0 where
  create_if_new :
      String → String → Option String → (trigger detail : String) (now : ℕ) → CandidateCall
  decide : String → CandidateDecision → User → (remark : Option String) (now : ℕ) → CandidateCall

-- The store after a call, whether it returned or raised
abbrev pub after_candidate_call : CandidateCall → AssuranceStore → AssuranceStore
after_candidate_call (CandidateCall.create_if_new id k e t detail now) s =
    (create_candidate_if_new id k e t detail now s).1
after_candidate_call (CandidateCall.decide id decision user remark now) s =
    (decide_candidate id decision user remark now s).1

abbrev pub after_candidate_calls : List CandidateCall → AssuranceStore → AssuranceStore
after_candidate_calls [] s = s
after_candidate_calls (c ∷ cs) s = after_candidate_calls cs (after_candidate_call c s)

after_candidate_call-IsDeduplicated :
    (c : CandidateCall) (s : AssuranceStore)
    → IsDeduplicated s.candidates
    → IsDeduplicated (after_candidate_call c s).candidates
after_candidate_call-IsDeduplicated (CandidateCall.create_if_new id k e t detail now) s h =
    (create_candidate_if_new-IsDeduplicated id k e t detail now s h).1
after_candidate_call-IsDeduplicated (CandidateCall.decide id decision user remark now) s h =
    decide_candidate-IsDeduplicated id decision user remark now s h

-- After any scans and decisions, in any order, from a table without duplicates, no control has
-- two pending candidates for one trigger, so that the next look for one does not raise.
pub after_candidate_calls-IsDeduplicated :
    (cs : List CandidateCall) (s : AssuranceStore)
    → IsDeduplicated s.candidates
    → IsDeduplicated (after_candidate_calls cs s).candidates
after_candidate_calls-IsDeduplicated [] s h = h
after_candidate_calls-IsDeduplicated (c ∷ cs) s h =
    after_candidate_calls-IsDeduplicated cs (after_candidate_call c s)
      (after_candidate_call-IsDeduplicated c s h)

find_candidate-amend_candidate :
    (id status by : String) (remark : Option String) (now : ℕ) (cs : List RevalidationCandidate)
    → (c : RevalidationCandidate) → find_candidate id cs ≡ some c
    → find_candidate id (amend_candidate id (decided status by remark now) cs)
      ≡ some (decided status by remark now c)
unfolding find_candidate amend_candidate
find_candidate-amend_candidate id status by remark now [] c h = cc
find_candidate-amend_candidate id status by remark now (d ∷ cs) c h =
    elim (Bool-cases (str_eq d.candidate_id id)) [
      | inl e ↦
          let same : Path (Option RevalidationCandidate) (some d) (some c) = rw e at h in
          rw (e, e)
            (ap
              (λ (o : Option RevalidationCandidate). elim o [
                | none ↦ none
                | some x ↦ some (decided status by remark now x)
              ])
              same)
      | inr e ↦ rw (e, e) (find_candidate-amend_candidate id status by remark now cs c (rw e at h))
    ]

-- A candidate is decided once: after a decision that returns, every later decision on the
-- candidate raises candidate_not_pending with the status that was given, and changes nothing.
pub decide_candidate_once :
    (id : String) (d e : CandidateDecision) (user other : User) (note1 note2 : Option String)
    → (t1 t2 : ℕ) (s : AssuranceStore) (c : RevalidationCandidate)
    → (decide_candidate id d user note1 t1 s).0 ≡ ok c
    → let after = (decide_candidate id d user note1 t1 s).1 in
      decide_candidate id e other note2 t2 after
      ≡ (err (AssuranceError.candidate_not_pending id (decision_status d)), after)
decide_candidate_once id d e user other note1 note2 t1 t2 s c h =
    elim (Option-cases (find_candidate id s.candidates)) [
      | inl missing ↦ absurd (cc (rw (decide_none id d user note1 t1 s missing) at h))
      | inr (row, found) ↦ elim (Bool-cases (str_eq row.status "pending")) [
        | inl p ↦ rw (decide_pending id d user note1 t1 s row found p) (
            decide_decided id e other note2 t2 _ (change id d user note1 t1 row)
              (find_candidate-amend_candidate id (decision_status d) user.username note1 t1
                s.candidates row found)
              (decision_not_pending d))
        | inr p ↦ absurd (cc (rw (decide_decided id d user note1 t1 s row found p) at h))
      ]
    ]

keep-append :
    (p : RevalidationCandidate → Bool) (cs : List RevalidationCandidate) (c : RevalidationCandidate)
    → p c ≡ true
    → keep p (cs ++ c ∷ []) ≡ keep p cs ++ c ∷ []
keep-append p [] c h = rw h refl
keep-append p (d ∷ cs) c h = elim (Bool-cases (p d)) [
  | inl e ↦ rw (e, keep-append p cs c h) refl
  | inr e ↦ rw (e, keep-append p cs c h) refl
]

create_revalidation_candidate_lem :
    (id control_id trigger detail : String) (experiment_id : Option String) (now : ℕ)
    → (s : AssuranceStore) → any_of (str_eq control_id) s.controls ≡ true
    → create_revalidation_candidate id control_id experiment_id trigger detail now s ≡ (
      ok (new_candidate id control_id experiment_id trigger detail now),
      record s {
        candidates =
            s.candidates ++ new_candidate id control_id experiment_id trigger detail now ∷ [];
      },
    )
unfolding create_revalidation_candidate create_candidate
create_revalidation_candidate_lem id control_id trigger detail experiment_id now s known =
    ground (arith, known)

two_of :
    (xs : List RevalidationCandidate) (c : RevalidationCandidate)
    → 0 < length xs
    → (a : RevalidationCandidate) × (b : RevalidationCandidate) × (rest : List
        RevalidationCandidate)
      × (xs ++ c ∷ [] ≡ a ∷ b ∷ rest)
two_of [] c h = absurd (omega (arith, h))
two_of (a ∷ []) c h = (a, c, [], refl)
two_of (a ∷ b ∷ rest) c h = (a, b, rest ++ c ∷ [], refl)

-- A candidate that is made by hand while one is pending for the same control and trigger is
-- accepted, and from then on `create_candidate_if_new` raises MultipleResultsFound for them.
pub create_revalidation_candidate-duplicate :
    (id control_id trigger detail : String) (experiment_id : Option String) (now : ℕ)
    → (s : AssuranceStore) → any_of (str_eq control_id) s.controls ≡ true
    → 0 < pending control_id trigger s.candidates
    → let (outcome, after) =
        create_revalidation_candidate id control_id experiment_id trigger detail now s in
      (succeeded outcome ≡ true)
      × ((new_id : String) (e : Option String) (new_detail : String) (later : ℕ)
          → create_candidate_if_new new_id control_id e trigger new_detail later after
            ≡ (err AssuranceError.multiple_results_found, after))
create_revalidation_candidate-duplicate id control_id trigger detail experiment_id now s known h =
    let p = is_pending_for control_id trigger in
    let made = new_candidate id control_id experiment_id trigger detail now in
    let (a, b, rest, two) = two_of (keep p s.candidates) made (rw (length-keep p s.candidates) h) in
    let kept =
      keep-append p s.candidates made
        (candidate_pending id control_id experiment_id trigger detail now) in
    rw (create_revalidation_candidate_lem id control_id trigger detail experiment_id now s known) (
      refl,
      λ new_id e new_detail later.
          create_many new_id control_id e trigger new_detail later
            (record s { candidates = s.candidates ++ made ∷ [] }) a b rest (kept ∙ two),
    )
