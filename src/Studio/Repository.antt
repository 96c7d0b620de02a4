-- ===== src/Studio/Repository.antt =====
-- src/zeroshield/studio/repository.py, and the files that builder.py writes. A table is the list
-- of its rows; a row is read back through the validators of its model.
pub mod Rows
pub mod History
use Prim.Native.Nat.{max}
use zero_shield.Base.{
  ℕ, ◌+◌, String, Bool, true, false, not, Option, none, some, List, [], ◌∷◌, ◌++◌, leb,
  if◌then◌else◌, keep, str_eq,
}
use zero_shield.Base.Effects.{Result, ok, err, Action, pure, raise, gets, lift, modify, ◌>>=◌}
use zero_shield.Models.Experiment.{ExperimentDefinition}
use zero_shield.Models.Versions.{ExperimentVersion, ApprovalDecision, version_validates}
use zero_shield.Studio.Approval.{StudioError, validation_error}
use zero_shield.Audit.{AuditEvent}

pub record Store : Type 0 where
  pub versions : List ExperimentVersion
  pub decisions : List ApprovalDecision
  -- experiments/<experiment_id>.json
  pub files : List (String × ExperimentDefinition)
  pub audit : List AuditEvent

abbrev pub Studio : Type 0 → Type 0
Studio A = Action Store StudioError A

-- `session.get(ExperimentVersionORM, version_id)`
unfoldable pub find_row : String → List ExperimentVersion → Option ExperimentVersion
find_row id [] = none
find_row id (v ∷ vs) = let rest = find_row id vs in if str_eq v.version_id id then some v else rest

-- The row with that primary key is overwritten, or a new row is added.
unfoldable pub put_row : ExperimentVersion → List ExperimentVersion → List ExperimentVersion
put_row v [] = v ∷ []
put_row v (w ∷ ws) =
    let rest = put_row v ws in if str_eq w.version_id v.version_id then v ∷ ws else w ∷ rest

unfoldable pub save_version : ExperimentVersion → Studio Unit
save_version v = modify (λ s. record s { versions = put_row v s.versions })

-- `_from_orm` of the row, if there is one
abbrev pub read_row : Option ExperimentVersion → Result StudioError (Option ExperimentVersion)
read_row none = ok none
read_row (some v) = if version_validates v then ok (some v) else err validation_error

unfoldable pub get_version : String → Studio (Option ExperimentVersion)
get_version id s = (read_row (find_row id s.versions), s)

-- `max((v.version_number for v in versions), default=0)` over the versions of one experiment
unfoldable pub latest_version_number : String → List ExperimentVersion → ℕ
latest_version_number experiment_id [] = 0
latest_version_number experiment_id (v ∷ vs) =
    let rest = latest_version_number experiment_id vs in
    if str_eq v.experiment_id experiment_id then max v.version_number rest else rest

-- `next_version_number` of service.py
unfoldable pub next_version_number : String → List ExperimentVersion → ℕ
unfolding latest_version_number
next_version_number experiment_id vs = latest_version_number experiment_id vs + 1

unfoldable pub append_approval_decision : ApprovalDecision → Studio Unit
append_approval_decision d = modify (λ s. record s { decisions = s.decisions ++ d ∷ [] })

-- `ORDER BY decided_at, id`: among equal times the order of insertion.
unfoldable pub insert_decision : ApprovalDecision → List ApprovalDecision → List ApprovalDecision
insert_decision d [] = d ∷ []
insert_decision d (e ∷ es) =
    let rest = insert_decision d es in
    if leb d.decided_at e.decided_at then d ∷ e ∷ es else e ∷ rest

unfoldable pub order_decisions : List ApprovalDecision → List ApprovalDecision
unfolding insert_decision
order_decisions [] = []
order_decisions (d ∷ ds) = insert_decision d (order_decisions ds)

unfoldable pub get_approval_history : String → List ApprovalDecision → List ApprovalDecision
unfolding order_decisions
get_approval_history id ds = order_decisions (keep (λ d. str_eq d.version_id id) ds)

-- The file of that name is overwritten, or a new file is written.
unfoldable pub put_file :
    String
    → ExperimentDefinition
    → List (String × ExperimentDefinition)
    → List (String × ExperimentDefinition)
put_file id e [] = (id, e) ∷ []
put_file id e ((k, d) ∷ fs) =
    let rest = put_file id e fs in if str_eq k id then (id, e) ∷ fs else (k, d) ∷ rest

unfoldable pub materialise_to_experiments_dir : ExperimentVersion → Studio Unit
materialise_to_experiments_dir v =
    modify (λ s. record s { files = put_file v.experiment_id v.definition s.files })
