-- ===== src/Worker/Terminal.antt =====
-- What record a job is left with, whatever the run and the tables beside the job store do.
use zero_shield.Base.{
  ℕ, String, ◌≡◌, refl, ◌∙◌, ap, false, Option, none, some, List, str_eq, eq_refl,
}
use zero_shield.Base.Effects.{Result, ok, err, succeeded, bind_ok, lift, ◌>>◌, Action}
use zero_shield.Models.Enums.{RunEventType}
use zero_shield.Models.Experiment.{ExperimentDefinition}
use zero_shield.JobStore.{
  JobStatus, JobRecord, RunJobMessage, find_job, put_job, is_terminal_status,
}
use zero_shield.Worker.{
  WorkerState, ServiceOutcome, Surroundings, save_job, job_record, work, submission_time,
  process_run_job,
}
use zero_shield.Worker.Records.{find_job-put_job}
use zero_shield.Worker.Processing.{
  final_status, IsWritable, IsJobRecord, last_record, last_record-IsJobRecord, save_job_lem,
  work-HasSaved,
}

final_status-terminal :
    {F : Type 0} (experiment : Result String (Option ExperimentDefinition))
    → (outcome : ServiceOutcome F)
    → is_terminal_status (final_status experiment outcome) ≡ succeeded experiment
final_status-terminal (err x) outcome = refl
final_status-terminal (ok none) outcome = refl
final_status-terminal (ok (some e)) (ServiceOutcome.finished c l) = refl
final_status-terminal (ok (some e)) (ServiceOutcome.refused d) = refl
final_status-terminal (ok (some e)) (ServiceOutcome.service_error x) = refl
final_status-terminal (ok (some e)) (ServiceOutcome.unhandled x) = refl

-- The call returns unless looking for the definition raises.
abbrev pub ending : Result String (Option ExperimentDefinition) → Result String Unit
ending (err x) = err x
ending (ok _) = ok tt

module _ {F : Type 0} (m : RunJobMessage) (arrival start stop : ℕ) (sent : List RunEventType)
    (outcome : ServiceOutcome F) (s : WorkerState F) (existing : Option (JobRecord F)) where
  -- When the job was submitted
  abbrev pub submission : ℕ
  submission = submission_time existing arrival

  abbrev running : JobRecord F
  running = job_record m submission JobStatus.running none none start

  -- The record that the job is left with
  abbrev pub final_record : Result String (Option ExperimentDefinition) → JobRecord F
  final_record (err x) = running
  final_record (ok found) = last_record m submission stop found outcome

  final_record-IsJobRecord :
      (experiment : Result String (Option ExperimentDefinition))
      → IsJobRecord m submission (final_status experiment outcome) (final_record experiment)
  final_record-IsJobRecord (err x) = record {
    same_job = refl;
    same_experiment = refl;
    same_submission = refl;
    has_status = refl;
  }
  final_record-IsJobRecord (ok found) = last_record-IsJobRecord m submission stop found outcome

  -- What a call leaves that has recorded the job as RUNNING and gone on
  record IsLeft (experiment : Result String (Option ExperimentDefinition))
      (after : Result String Unit × WorkerState F) : Type 0 where
    returned : after.0 ≡ ending experiment
    found : find_job m.job_id after.1.jobs ≡ ok (some (final_record experiment))
    others :
        (id : String) → str_eq m.job_id id ≡ false → find_job id after.1.jobs ≡ find_job id s.jobs

  module _ (around : Surroundings F) (w : IsWritable around) where
    abbrev started : WorkerState F
    started = record s { jobs = put_job running s.jobs }

    work-IsLeft :
        (experiment : Result String (Option ExperimentDefinition))
        → IsLeft experiment (work around m submission stop experiment sent outcome started)
    unfolding work
    work-IsLeft (err x) = record {
      returned = refl;
      found = rw (find_job-put_job m.job_id running s.jobs, eq_refl m.job_id) refl;
      others = λ id other. rw (find_job-put_job id running s.jobs, other) refl;
    }
    work-IsLeft (ok found) =
        let last = last_record m submission stop found outcome in
        let is_record = last_record-IsJobRecord m submission stop found outcome in
        let done = work-HasSaved around m submission stop found sent outcome started w in
        record {
          returned = done.returned;
          found =
              rw
                (
                  done.jobs,
                  find_job-put_job m.job_id last (put_job running s.jobs),
                  is_record.same_job,
                  eq_refl m.job_id,
                )
                refl;
          others = λ id other.
              rw
                (
                  done.jobs,
                  find_job-put_job id last (put_job running s.jobs),
                  is_record.same_job,
                  other,
                  find_job-put_job id running s.jobs,
                  other,
                )
                refl;
        }

    process_run_job-work :
        (experiment : Result String (Option ExperimentDefinition))
        → find_job m.job_id s.jobs ≡ ok existing
        → process_run_job around m arrival start stop experiment sent outcome s
          ≡ work around m submission stop experiment sent outcome started
    unfolding process_run_job
    process_run_job-work experiment readable =
        let rest : Option (JobRecord F) → Action (WorkerState F) String Unit = λ existing.
          let submitted_at = submission_time existing arrival in
          save_job around (job_record m submitted_at JobStatus.running none none start)
          >> work around m submitted_at stop experiment sent outcome in
        bind_ok (lift (find_job m.job_id s.jobs)) rest s s existing (ap (λ r. (r, s)) readable)
        ∙ bind_ok (save_job around running)
            (λ _. work around m submission stop experiment sent outcome) s started tt
            (save_job_lem around running s w)

  -- While the job store can be written and the record of the job, if there is one, can be read: a
  -- job that is processed ends with a record of a terminal status exactly when looking for its
  -- definition does not raise. The record is FAILED if the definition is gone, the service raises
  -- or anything else in it does, DENIED if the policy refuses, COMPLETED otherwise, and it stays
  -- RUNNING if looking for the definition raises. It keeps the job, the experiment and the time of
  -- submission, and the records of all other jobs stay as they were.
  pub process_run_job-terminal :
      (around : Surroundings F) (experiment : Result String (Option ExperimentDefinition))
      → IsWritable around
      → find_job m.job_id s.jobs ≡ ok existing
      → let (r, after) = process_run_job around m arrival start stop experiment sent outcome s in
        let last = final_record experiment in
        (r ≡ ending experiment)
        × (find_job m.job_id after.jobs ≡ ok (some last))
        × IsJobRecord m submission (final_status experiment outcome) last
        × (is_terminal_status last.status ≡ succeeded experiment)
        × ((id : String) → str_eq m.job_id id ≡ false → find_job id after.jobs ≡ find_job id s.jobs)
  process_run_job-terminal around experiment w readable =
      let is_record = final_record-IsJobRecord experiment in
      let left = work-IsLeft around w experiment in
      rw (process_run_job-work around w experiment readable) (
        left.returned,
        left.found,
        is_record,
        rw is_record.has_status (final_status-terminal experiment outcome),
        left.others,
      )
