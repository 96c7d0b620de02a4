-- ===== src/Worker.antt =====
-- process_run_job and handle_message_body of src/zeroshield/worker. What `run_experiment` sends and
-- returns or raises, what `find_experiment` returns or raises and the times are arguments. A job
-- file that holds no record raises when it is loaded. A job store that cannot be written raises
-- the text that `save_error` gives for the record; the tables of events and of the audit trail
-- fail as `event_fails` and `audit_fails` say.
pub mod Records
pub mod Processing
pub mod Terminal
pub mod Queue
mod Tests
use zero_shield.Base.{
  ℕ, String, Bool, true, false, not, Option, none, some, List, [], ◌∷◌, ◌++◌, map, str_eq,
  if◌then◌else◌,
}
use Prim.Native.String.{◌++◌ as append_text}
use zero_shield.Base.Effects.{Result, ok, err, Action, pure, raise, gets, lift, ◌>>=◌, ◌>>◌, modify}
use zero_shield.JobStore.{
  JobStatus, is_terminal_status, RunResultSummary, JobRecord, JobFile, RunJobMessage, find_job,
  put_job,
}
use zero_shield.Models.Enums.{RunEventType, ExecutionContext}
use zero_shield.Models.Experiment.{ExperimentDefinition}
use zero_shield.Models.Policy.{PolicyDecision}
use zero_shield.Models.Metrics.{ComparisonReport}
use zero_shield.Audit.{AuditAction, MetaValue, AuditEvent, record_event}

-- A row of the table of run events
pub record RunEvent : Type 0 where
  pub job_id : String
  pub experiment_id : String
  pub event_type : RunEventType
  pub execution_context : ExecutionContext
  pub detail : List (String × MetaValue)

pub record WorkerState (F : Type 0) : Type 0 where
  -- jobs/<job_id>.json
  pub jobs : List (JobFile F)
  pub run_events : List RunEvent
  pub audit : List AuditEvent

-- How `experiment_service.run_experiment` ends
pub data ServiceOutcome (F : Type 0) : Type 0 where
  finished : ComparisonReport F → String → ServiceOutcome F
  refused : PolicyDecision → ServiceOutcome F
  service_error : String → ServiceOutcome F
  unhandled : String → ServiceOutcome F

-- What fails outside the worker
pub record Surroundings (F : Type 0) : Type 0 where
  pub save_error : JobRecord F → Option String
  pub event_fails : RunEvent → Bool
  pub audit_fails : AuditEvent → Bool

module _ {F : Type 0} where
  -- `JobStore.save`
  unfoldable pub save_job : Surroundings F → JobRecord F → Action (WorkerState F) String Unit
  save_job around r s = elim (around.save_error r) [
    | some e ↦ (err e, s)
    | none ↦ (ok tt, record s { jobs = put_job r s.jobs })
  ]

  -- `_emit`: a failure is logged and swallowed.
  abbrev pub emit : Surroundings F → RunEvent → Action (WorkerState F) String Unit
  emit around e = modify (λ s. record s {
    run_events = if around.event_fails e then s.run_events else s.run_events ++ e ∷ [];
  })

  -- The events that `run_experiment` sends through `_emit`
  abbrev pub emit_all : Surroundings F → List RunEvent → Action (WorkerState F) String Unit
  emit_all around [] = pure tt
  emit_all around (e ∷ es) = emit around e >> emit_all around es

  -- `_audit`: a failure is logged and swallowed.
  abbrev pub note : Surroundings F → AuditEvent → Action (WorkerState F) String Unit
  note around e =
      modify
        (λ s. record s { audit = if around.audit_fails e then s.audit else record_event e s.audit })

module _ {F : Type 0} (m : RunJobMessage) (submitted_at : ℕ) where
  -- `_record`
  abbrev pub job_record : JobStatus → Option (RunResultSummary F) → Option String → ℕ → JobRecord F
  job_record status result error now = record {
    job_id = m.job_id;
    experiment_id = m.experiment_id;
    execution_context = m.execution_context;
    status = status;
    submitted_at = submitted_at;
    updated_at = now;
    result = result;
    error = error;
  }

module _ (m : RunJobMessage) where
  abbrev pub run_event : RunEventType → List (String × MetaValue) → RunEvent
  run_event event_type detail = record {
    job_id = m.job_id;
    experiment_id = m.experiment_id;
    event_type = event_type;
    execution_context = m.execution_context;
    detail = detail;
  }

  abbrev pub job_event : AuditAction → String → String → List (String × MetaValue) → AuditEvent
  job_event action target_type target_id metadata = record {
    actor_user_id = m.submitted_by_user_id;
    actor_username = m.submitted_by_username;
    actor_role = none;
    action = action;
    target_type = target_type;
    target_id = some target_id;
    metadata = metadata;
  }

-- A `_record`, an `_emit` and an `_audit`, one after the other
pub record Conclusion (F : Type 0) : Type 0 where
  pub job : JobRecord F
  pub event : RunEvent
  pub audit : Option AuditEvent

module _ {F : Type 0} (around : Surroundings F) where
  abbrev pub note_last : RunEvent → Option AuditEvent → Action (WorkerState F) String Unit
  note_last e none = emit around e
  note_last e (some a) = do emit around e; note around a

  abbrev pub conclude : Conclusion F → Action (WorkerState F) String Unit
  conclude c = do save_job around c.job; note_last c.event c.audit

-- `"; ".join(reasons)`
abbrev pub join_reasons : List String → String
join_reasons [] = ""
join_reasons (r ∷ []) = r
join_reasons (r ∷ q ∷ rs) = append_text r (append_text "; " (join_reasons (q ∷ rs)))

-- `"; ".join(reasons) or "denied by safety policy"`
abbrev pub denial_text : List String → String
denial_text reasons =
    let joined = join_reasons reasons in
    if str_eq joined "" then "denied by safety policy" else joined

module _ {F : Type 0} where
  abbrev pub summary_of : ComparisonReport F → String → RunResultSummary F
  summary_of c location = record {
    baseline_run_id = c.baseline_run_id;
    mitigation_run_id = c.mitigation_run_id;
    total_cases = c.total_cases;
    baseline_block_rate = c.baseline_metrics.block_rate;
    mitigation_block_rate = c.mitigation_metrics.block_rate;
    block_rate_improvement = c.block_rate_improvement;
    evidence_location = location;
  }

module _ {F : Type 0} (m : RunJobMessage) (submitted_at now : ℕ) where
  -- What follows the call of `run_experiment`, in each of the four ways it can end
  unfoldable pub conclusion : ServiceOutcome F → Conclusion F
  conclusion (ServiceOutcome.refused d) = record {
    job = job_record m submitted_at JobStatus.denied none (some (denial_text d.reasons)) now;
    event = run_event m RunEventType.denied (("reasons", MetaValue.texts d.reasons) ∷ []);
    audit = some (
        job_event m AuditAction.run_denied "job" m.job_id (
          ("experiment_id", MetaValue.text m.experiment_id)
          ∷ ("reasons", MetaValue.texts d.reasons)
          ∷ []));
  }
  conclusion (ServiceOutcome.service_error _) = record {
    job =
        job_record m submitted_at JobStatus.failed none
          (some
            "the experiment's configured dataset or processing strategy could not be resolved on this server.")
          now;
    event = run_event m RunEventType.failed (("reason", MetaValue.text "service_error") ∷ []);
    audit = some (
        job_event m AuditAction.run_failed "job" m.job_id (
          ("experiment_id", MetaValue.text m.experiment_id)
          ∷ ("reason", MetaValue.text "service_error")
          ∷ []));
  }
  conclusion (ServiceOutcome.unhandled _) = record {
    job = job_record m submitted_at JobStatus.failed none (some "an internal error occurred") now;
    event = run_event m RunEventType.failed (("reason", MetaValue.text "internal_error") ∷ []);
    audit = some (
        job_event m AuditAction.run_failed "job" m.job_id (
          ("experiment_id", MetaValue.text m.experiment_id)
          ∷ ("reason", MetaValue.text "internal_error")
          ∷ []));
  }
  conclusion (ServiceOutcome.finished c location) = record {
    job = job_record m submitted_at JobStatus.completed (some (summary_of c location)) none now;
    event =
        run_event m RunEventType.completed (("total_cases", MetaValue.number c.total_cases) ∷ []);
    audit = some (
        job_event m AuditAction.evidence_created "experiment" m.experiment_id (
          ("baseline_run_id", MetaValue.text c.baseline_run_id)
          ∷ ("mitigation_run_id", MetaValue.text c.mitigation_run_id)
          ∷ ("total_cases", MetaValue.number c.total_cases)
          ∷ []));
  }

  -- What is recorded where `find_experiment` finds nothing
  abbrev pub not_found : Conclusion F
  not_found = record {
    job =
        job_record m submitted_at JobStatus.failed none
          (some (
            append_text "experiment '"
              (append_text m.experiment_id "' could not be found when the job started")))
          now;
    event =
        run_event m RunEventType.failed (("reason", MetaValue.text "experiment_not_found") ∷ []);
    audit = none;
  }

module _ {F : Type 0} (around : Surroundings F) (m : RunJobMessage) (submitted_at now : ℕ) where
  -- After the record RUNNING: looking for the definition raises, it is not there, or it is run.
  unfoldable pub work :
      Result String (Option ExperimentDefinition)
      → List RunEventType
      → ServiceOutcome F
      → Action (WorkerState F) String Unit
  work (err x) sent outcome = raise x
  work (ok none) sent outcome = conclude around (not_found m submitted_at now)
  work (ok (some e)) sent outcome =
      emit_all around (map (λ t. run_event m t []) sent)
      >> conclude around (conclusion m submitted_at now outcome)

module _ {F : Type 0} where
  -- `existing.submitted_at if existing is not None else now`
  abbrev pub submission_time : Option (JobRecord F) → ℕ → ℕ
  submission_time none now = now
  submission_time (some r) now = r.submitted_at

module _ {F : Type 0} (around : Surroundings F) where
  -- `process_run_job`: the clock shows `arrival` first, `start` at the record RUNNING and `stop`
  -- at the last record.
  unfoldable pub process_run_job :
      RunJobMessage
      → (arrival start stop : ℕ) → Result String (Option ExperimentDefinition)
      → List RunEventType
      → ServiceOutcome F
      → Action (WorkerState F) String Unit
  unfolding find_job
  process_run_job m arrival start stop experiment sent outcome = do
    files ← gets (λ s. s.jobs)
    existing ← lift (find_job m.job_id files)
    let submitted_at = submission_time existing arrival
    save_job around (job_record m submitted_at JobStatus.running none none start)
    work around m submitted_at stop experiment sent outcome

  -- `try: … except Exception`, where what was done stays done
  abbrev pub swallow : Action (WorkerState F) String Unit → Action (WorkerState F) String Unit
  swallow m s = (ok tt, (m s).1)

  -- `handle_message_body`, of a message that was parsed or is malformed
  unfoldable pub handle_message_body :
      Option RunJobMessage
      → (arrival start stop : ℕ) → Result String (Option ExperimentDefinition)
      → List RunEventType
      → ServiceOutcome F
      → Action (WorkerState F) String Unit
  unfolding process_run_job
  handle_message_body none arrival start stop experiment sent outcome = pure tt
  handle_message_body (some m) arrival start stop experiment sent outcome =
      swallow (process_run_job m arrival start stop experiment sent outcome)
