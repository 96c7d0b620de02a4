-- ===== src/Studio/Repository/History.antt =====
-- The approval history of a version: ordered by time, and nothing lost.
use zero_shield.Base.{
  ℕ, ◌≤◌, String, inl, inr, Bool-cases, List, [], ◌∷◌, arith, leb, keep, str_eq, All,
}
use mathlib.Core.List.{Perm}
use mathlib.Core.List.Perm
use zero_shield.Models.Versions.{ApprovalDecision}
use zero_shield.Studio.Repository.{insert_decision, order_decisions, get_approval_history}

-- Each decision is at most as late as every decision behind it.
abbrev pub IsOrdered : List ApprovalDecision → Type 0
IsOrdered [] = Unit
IsOrdered (d ∷ ds) = All (λ e. d.decided_at ≤ e.decided_at) ds × IsOrdered ds

insert_decision-All :
    (t : ℕ) (d : ApprovalDecision) (ds : List ApprovalDecision)
    → t ≤ d.decided_at
    → All (λ e. t ≤ e.decided_at) ds
    → All (λ e. t ≤ e.decided_at) (insert_decision d ds)
unfolding insert_decision
insert_decision-All t d [] h hs = (h, tt)
insert_decision-All t d (e ∷ es) h (he, hs) = elim (Bool-cases (leb d.decided_at e.decided_at)) [
  | inl before ↦ rw before (h, (he, hs))
  | inr after ↦ rw after (he, insert_decision-All t d es h hs)
]

All-later :
    (t u : ℕ) (ds : List ApprovalDecision)
    → t ≤ u
    → All (λ e. u ≤ e.decided_at) ds
    → All (λ e. t ≤ e.decided_at) ds
All-later t u [] h hs = tt
All-later t u (d ∷ ds) h (hd, hs) = (omega arith, All-later t u ds h hs)

insert_decision-IsOrdered :
    (d : ApprovalDecision) (ds : List ApprovalDecision)
    → IsOrdered ds
    → IsOrdered (insert_decision d ds)
unfolding insert_decision
insert_decision-IsOrdered d [] h = (tt, tt)
insert_decision-IsOrdered d (e ∷ es) (he, hs) = elim (Bool-cases (leb d.decided_at e.decided_at)) [
  | inl before ↦
      let le : d.decided_at ≤ e.decided_at = ground arith in
      rw before ((le, All-later d.decided_at e.decided_at es le he), (he, hs))
  | inr after ↦
      let le : e.decided_at ≤ d.decided_at = ground arith in
      rw after (insert_decision-All e.decided_at d es le he, insert_decision-IsOrdered d es hs)
]

order_decisions-IsOrdered : (ds : List ApprovalDecision) → IsOrdered (order_decisions ds)
unfolding order_decisions
order_decisions-IsOrdered [] = tt
order_decisions-IsOrdered (d ∷ ds) =
    insert_decision-IsOrdered d (order_decisions ds) (order_decisions-IsOrdered ds)

insert_decision-perm :
    (d : ApprovalDecision) (ds : List ApprovalDecision) → Perm (insert_decision d ds) (d ∷ ds)
unfolding insert_decision
insert_decision-perm d [] = Perm.rfl
insert_decision-perm d (e ∷ es) = elim (Bool-cases (leb d.decided_at e.decided_at)) [
  | inl before ↦ rw before Perm.rfl
  | inr after ↦ rw after (Perm.trans (Perm.cons e (insert_decision-perm d es)) (Perm.swap d e es))
]

order_decisions-perm : (ds : List ApprovalDecision) → Perm (order_decisions ds) ds
unfolding order_decisions
order_decisions-perm [] = Perm.rfl
order_decisions-perm (d ∷ ds) =
    Perm.trans (insert_decision-perm d (order_decisions ds)) (Perm.cons d (order_decisions-perm ds))

-- The history of a version is ordered by time, and holds exactly the decisions that were recorded
-- for that version, each as often as it was recorded.
pub get_approval_history_lem :
    (id : String) (ds : List ApprovalDecision)
    → IsOrdered (get_approval_history id ds)
      × Perm (get_approval_history id ds) (keep (λ d. str_eq d.version_id id) ds)
unfolding get_approval_history
get_approval_history_lem id ds =
    let mine = keep (λ (d : ApprovalDecision). str_eq d.version_id id) ds in
    (order_decisions-IsOrdered mine, order_decisions-perm mine)
