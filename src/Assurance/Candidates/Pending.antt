-- ===== src/Assurance/Candidates/Pending.antt =====
-- At most one pending candidate for a control and a trigger, as long as candidates are made by
-- `create_candidate_if_new`, and what a candidate made by hand does to that.
use zero_shield.Base.{
  ℕ, String, ◌≡◌, ◌≤◌, ◌+◌, refl, ap, subst, ◌⊎◌, inl, inr, true, false, Option, none, some, List,
  [], ◌∷◌, ◌++◌, keep, length, count_if, length-keep, str_eq, eq_iff, eq_refl, arith, Bool-cases,
  if◌then◌else◌,
}
use zero_shield.Base.Effects.{ok, err, succeeded, lift, ◌>>=◌}
use zero_shield.Assurance.{RevalidationCandidate, AssuranceStore, AssuranceError}
use zero_shield.Assurance.Candidates.{
  is_pending_for, one_or_none, create_unless, find_pending_candidate, new_candidate,
  create_candidate_if_new, amend_candidate, decided,
}

-- The number of pending candidates for a control and a trigger
abbrev pub pending : String → String → List RevalidationCandidate → ℕ
pending control_id trigger_type cs = count_if (is_pending_for control_id trigger_type) cs

abbrev pub IsDeduplicated : List RevalidationCandidate → Type 0
IsDeduplicated cs = (control_id trigger_type : String) → pending control_id trigger_type cs ≤ 1

pending-append :
    (k t : String) (cs : List RevalidationCandidate) (c : RevalidationCandidate)
    → pending k t (cs ++ c ∷ []) ≡ pending k t cs + (if is_pending_for k t c then 1 else 0)
pending-append k t [] c = ground arith
pending-append k t (d ∷ cs) c = ground (arith, pending-append k t cs c)

-- A decision makes no candidate pending.
pub amend_candidate-pending :
    (k t id status : String) (by : String) (remark : Option String) (now : ℕ)
    → (cs : List RevalidationCandidate) → str_eq status "pending" ≡ false
    → pending k t (amend_candidate id (decided status by remark now) cs) ≤ pending k t cs
unfolding amend_candidate
amend_candidate-pending k t id status by remark now [] h = omega arith
amend_candidate-pending k t id status by remark now (c ∷ cs) h =
    ground (arith, h, amend_candidate-pending k t id status by remark now cs h)

at_most_one :
    (cs : List RevalidationCandidate)
    → length cs ≤ 1
    → (cs ≡ []) ⊎ ((c : RevalidationCandidate) × (cs ≡ c ∷ []))
at_most_one [] h = inl refl
at_most_one (c ∷ []) h = inr (c, refl)
at_most_one (c ∷ d ∷ cs) h = absurd (omega (arith, h))

new_candidate-pending :
    (k t id control_id : String) (experiment_id : Option String) (trigger detail : String) (now : ℕ)
    → is_pending_for k t (new_candidate id control_id experiment_id trigger detail now) ≡ true
    → (control_id ≡ k) × (trigger ≡ t)
new_candidate-pending k t id control_id experiment_id trigger detail now h =
    ground (arith, h, eq_iff control_id k, eq_iff trigger t)

module _ (id control_id : String) (experiment_id : Option String) (trigger detail : String)
    (now : ℕ) where
  abbrev candidate : RevalidationCandidate
  candidate = new_candidate id control_id experiment_id trigger detail now

  -- The call, from what is pending for its control and trigger
  create_none :
      (s : AssuranceStore)
      → keep (is_pending_for control_id trigger) s.candidates ≡ []
      → create_candidate_if_new id control_id experiment_id trigger detail now s
        ≡ (ok (some candidate), record s { candidates = s.candidates ++ candidate ∷ [] })
  unfolding create_candidate_if_new find_pending_candidate
  create_none s e = ap (λ rows. (lift (one_or_none rows) >>= create_unless candidate) s) e

  create_some :
      (s : AssuranceStore) (c : RevalidationCandidate)
      → keep (is_pending_for control_id trigger) s.candidates ≡ c ∷ []
      → create_candidate_if_new id control_id experiment_id trigger detail now s ≡ (ok none, s)
  unfolding create_candidate_if_new find_pending_candidate
  create_some s c e = ap (λ rows. (lift (one_or_none rows) >>= create_unless candidate) s) e

  pub create_many :
      (s : AssuranceStore) (c d : RevalidationCandidate) (rest : List RevalidationCandidate)
      → keep (is_pending_for control_id trigger) s.candidates ≡ c ∷ d ∷ rest
      → create_candidate_if_new id control_id experiment_id trigger detail now s
        ≡ (err AssuranceError.multiple_results_found, s)
  unfolding create_candidate_if_new find_pending_candidate
  create_many s c d rest e = ap (λ rows. (lift (one_or_none rows) >>= create_unless candidate) s) e

  pub candidate_pending : is_pending_for control_id trigger candidate ≡ true
  candidate_pending = rw (eq_refl control_id, eq_refl trigger) refl

  -- A candidate where none is pending keeps the table deduplicated.
  added_candidate-IsDeduplicated :
      (cs : List RevalidationCandidate)
      → IsDeduplicated cs
      → pending control_id trigger cs ≡ 0
      → IsDeduplicated (cs ++ candidate ∷ [])
  added_candidate-IsDeduplicated cs h none_pending k t =
      elim (Bool-cases (is_pending_for k t candidate)) [
        | inl e ↦
            let (same_k, same_t) =
              new_candidate-pending k t id control_id experiment_id trigger detail now e in
            let empty : pending k t cs ≡ 0 =
              subst (λ j. pending j t cs ≡ 0) same_k
                (subst (λ u. pending control_id u cs ≡ 0) same_t none_pending) in
            rw (pending-append k t cs candidate, e, empty) (omega arith)
        | inr e ↦ rw (pending-append k t cs candidate, e) (omega (arith, h k t))
      ]

  -- While no control has two pending candidates for one trigger, `create_candidate_if_new`
  -- returns, no control has two afterwards either, and exactly one candidate is pending for the
  -- control and the trigger of the call.
  pub create_candidate_if_new-IsDeduplicated :
      (s : AssuranceStore)
      → IsDeduplicated s.candidates
      → let (outcome, after) =
          create_candidate_if_new id control_id experiment_id trigger detail now s in
        (succeeded outcome ≡ true)
        × IsDeduplicated after.candidates
        × (pending control_id trigger after.candidates ≡ 1)
  create_candidate_if_new-IsDeduplicated s h =
      let p = is_pending_for control_id trigger in
      let count = length-keep p s.candidates in
      elim (at_most_one (keep p s.candidates) (rw count (h control_id trigger))) [
        | inl e ↦
            let none_pending : pending control_id trigger s.candidates ≡ 0 =
              omega (arith, count, ap length e) in
            rw (create_none s e) (
              refl,
              added_candidate-IsDeduplicated s.candidates h none_pending,
              rw
                  (
                    pending-append control_id trigger s.candidates candidate,
                    candidate_pending,
                    none_pending,
                  )
                  (omega arith),
            )
        | inr (c, e) ↦ rw (create_some s c e) (refl, h, omega (arith, count, ap length e))
      ]
