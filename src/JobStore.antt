-- ===== src/JobStore.antt =====
-- src/zeroshield/services/job_store.py and the message of a job: the files jobs/<job_id>.json as
-- a list.
use zero_shield.Base.{
  ℕ, String, Bool, true, false, Option, none, some, List, [], ◌∷◌, str_eq, if◌then◌else◌,
}
use zero_shield.Base.Effects.{Result, ok, err}
use zero_shield.Models.Enums.{ExecutionContext}

pub data JobStatus : Type 0 where
  queued running completed failed denied : JobStatus

-- `_TERMINAL_STATUSES`
abbrev pub is_terminal_status : JobStatus → Bool
is_terminal_status JobStatus.completed = true
is_terminal_status JobStatus.failed = true
is_terminal_status JobStatus.denied = true
is_terminal_status _ = false

pub record RunResultSummary (F : Type 0) : Type 0 where
  pub baseline_run_id : String
  pub mitigation_run_id : String
  pub total_cases : ℕ
  pub baseline_block_rate : F
  pub mitigation_block_rate : F
  pub block_rate_improvement : F
  pub evidence_location : String

pub record JobRecord (F : Type 0) : Type 0 where
  pub job_id : String
  pub experiment_id : String
  pub execution_context : ExecutionContext
  pub status : JobStatus
  pub submitted_at : ℕ
  pub updated_at : ℕ
  pub result : Option (RunResultSummary F)
  pub error : Option String

pub record RunJobMessage : Type 0 where
  pub job_id : String
  pub experiment_id : String
  pub execution_context : ExecutionContext
  pub submitted_by_user_id : Option String
  pub submitted_by_username : Option String

-- The file jobs/<job_id>.json: its record, or what reading it raises
pub record JobFile (F : Type 0) : Type 0 where
  pub job_id : String
  pub content : Result String (JobRecord F)

module _ {F : Type 0} where
  abbrev loaded : Result String (JobRecord F) → Result String (Option (JobRecord F))
  loaded (ok r) = ok (some r)
  loaded (err e) = err e

  -- `JobStore.load`: None without a file, and an exception on a file that holds no record
  unfoldable pub find_job : String → List (JobFile F) → Result String (Option (JobRecord F))
  find_job id [] = ok none
  find_job id (file ∷ files) =
      let below = find_job id files in if str_eq file.job_id id then loaded file.content else below

  abbrev pub file_of : JobRecord F → JobFile F
  file_of r = record { job_id = r.job_id; content = ok r }

  -- The file of that name is replaced, or a new file is there.
  unfoldable pub put_job : JobRecord F → List (JobFile F) → List (JobFile F)
  put_job r [] = file_of r ∷ []
  put_job r (file ∷ files) =
      let below = put_job r files in
      if str_eq file.job_id r.job_id then file_of r ∷ files else file ∷ below
