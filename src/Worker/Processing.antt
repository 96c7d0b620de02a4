-- ===== src/Worker/Processing.antt =====
-- What processing a job saves: the record that the end of its run asks for, and that record alone.
use zero_shield.Base.{
  ℕ, String, ◌≡◌, refl, sym, subst, ◌∙◌, ap, Option, none, some, List, [], ◌∷◌, map,
}
use zero_shield.Base.Effects.{Result, ok, err, bind_ok}
use zero_shield.Models.Enums.{RunEventType}
use zero_shield.Models.Experiment.{ExperimentDefinition}
use zero_shield.Audit.{AuditEvent}
use zero_shield.JobStore.{JobStatus, JobRecord, RunJobMessage, put_job}
use zero_shield.Worker.{
  RunEvent, WorkerState, ServiceOutcome, Surroundings, save_job, emit_all, conclude, Conclusion,
  note_last, conclusion, not_found, run_event, work,
}

-- The status that a job is left with
abbrev pub final_status :
    {F : Type 0} → Result String (Option ExperimentDefinition) → ServiceOutcome F → JobStatus
final_status (err x) o = JobStatus.running
final_status (ok none) o = JobStatus.failed
final_status (ok (some _)) (ServiceOutcome.finished _ _) = JobStatus.completed
final_status (ok (some _)) (ServiceOutcome.refused _) = JobStatus.denied
final_status (ok (some _)) (ServiceOutcome.service_error _) = JobStatus.failed
final_status (ok (some _)) (ServiceOutcome.unhandled _) = JobStatus.failed

-- A record of the message's job, with a status and a time of submission
pub record IsJobRecord {F : Type 0} (m : RunJobMessage) (submitted_at : ℕ) (status : JobStatus)
    (r : JobRecord F) : Type 0 where
  pub same_job : r.job_id ≡ m.job_id
  pub same_experiment : r.experiment_id ≡ m.experiment_id
  pub same_submission : r.submitted_at ≡ submitted_at
  pub has_status : r.status ≡ status

module _ {F : Type 0} (m : RunJobMessage) (submitted_at now : ℕ) where
  -- The last record of a job
  abbrev pub last_record : Option ExperimentDefinition → ServiceOutcome F → JobRecord F
  last_record none outcome = (not_found m submitted_at now).job
  last_record (some e) outcome = (conclusion m submitted_at now outcome).job

  pub last_record-IsJobRecord :
      (experiment : Option ExperimentDefinition) (outcome : ServiceOutcome F)
      → IsJobRecord m submitted_at
          (final_status (ok experiment) outcome)
          (last_record experiment outcome)
  unfolding conclusion
  last_record-IsJobRecord none outcome = record {
    same_job = refl;
    same_experiment = refl;
    same_submission = refl;
    has_status = refl;
  }
  last_record-IsJobRecord (some e) (ServiceOutcome.finished c l) = record {
    same_job = refl;
    same_experiment = refl;
    same_submission = refl;
    has_status = refl;
  }
  last_record-IsJobRecord (some e) (ServiceOutcome.refused d) = record {
    same_job = refl;
    same_experiment = refl;
    same_submission = refl;
    has_status = refl;
  }
  last_record-IsJobRecord (some e) (ServiceOutcome.service_error x) = record {
    same_job = refl;
    same_experiment = refl;
    same_submission = refl;
    has_status = refl;
  }
  last_record-IsJobRecord (some e) (ServiceOutcome.unhandled x) = record {
    same_job = refl;
    same_experiment = refl;
    same_submission = refl;
    has_status = refl;
  }

module _ {F : Type 0} (around : Surroundings F) where
  -- The job store can be written.
  abbrev pub IsWritable : Type 0
  IsWritable = (r : JobRecord F) → around.save_error r ≡ none

  -- The call returns, and has written exactly the record `r`.
  pub record HasSaved (r : JobRecord F) (s : WorkerState F)
      (outcome : Result String Unit × WorkerState F) : Type 0 where
    pub returned : outcome.0 ≡ ok tt
    pub jobs : outcome.1.jobs ≡ put_job r s.jobs

  pub save_job_lem :
      (r : JobRecord F) (s : WorkerState F)
      → IsWritable
      → save_job around r s ≡ (ok tt, record s { jobs = put_job r s.jobs })
  unfolding save_job
  save_job_lem r s w = rw (w r, save_job) refl

  emit_all_lem :
      (es : List RunEvent) (s : WorkerState F)
      → (s' : WorkerState F) × (emit_all around es s ≡ (ok tt, s')) × (s'.jobs ≡ s.jobs)
  emit_all_lem [] s = (s, refl, refl)
  emit_all_lem (e ∷ es) s = emit_all_lem es _

  saved_by :
      (r : JobRecord F) (s s' : WorkerState F) (outcome : Result String Unit × WorkerState F)
      → outcome ≡ (ok tt, s')
      → s'.jobs ≡ put_job r s.jobs
      → HasSaved r s outcome
  saved_by r s s' outcome h jobs =
      subst (HasSaved r s) (sym h) (record { returned = refl; jobs = jobs })

  conclude-HasSaved :
      (c : Conclusion F) (s : WorkerState F) → IsWritable → HasSaved c.job s (conclude around c s)
  conclude-HasSaved c s w =
      let saved = record s { jobs = put_job c.job s.jobs } in
      let (s', is_ok, same) = note_last_lem c.event c.audit saved in
      saved_by c.job s s' (conclude around c s)
        (bind_ok (save_job around c.job) (λ _. note_last around c.event c.audit) s saved tt
            (save_job_lem c.job s w)
          ∙ is_ok)
        same
    where
      note_last_lem :
          (e : RunEvent) (a : Option AuditEvent) (s : WorkerState F)
          → (s' : WorkerState F) × (note_last around e a s ≡ (ok tt, s')) × (s'.jobs ≡ s.jobs)
      note_last_lem e none s = (_, refl, refl)
      note_last_lem e (some a) s = (_, refl, refl)

  module _ (m : RunJobMessage) (submitted_at : ℕ) where
    pub work-HasSaved :
        (now : ℕ) (experiment : Option ExperimentDefinition) (sent : List RunEventType)
        → (outcome : ServiceOutcome F) (s : WorkerState F) → IsWritable
        → HasSaved
            (last_record m submitted_at now experiment outcome)
            s
            (work around m submitted_at now (ok experiment) sent outcome s)
    unfolding work
    work-HasSaved now none sent outcome s w = conclude-HasSaved (not_found m submitted_at now) s w
    work-HasSaved now (some e) sent outcome s w =
        let events = map (λ t. run_event m t []) sent in
        let c = conclusion m submitted_at now outcome in
        let (s1, is_ok, same) = emit_all_lem events s in
        let done = conclude-HasSaved c s1 w in
        let step = bind_ok (emit_all around events) (λ _. conclude around c) s s1 tt is_ok in
        record {
          returned = ap (λ (p : Result String Unit × WorkerState F). p.0) step ∙ done.returned;
          jobs =
              ap (λ (p : Result String Unit × WorkerState F). p.1.jobs) step
              ∙ done.jobs
              ∙ ap (put_job c.job) same;
        }
