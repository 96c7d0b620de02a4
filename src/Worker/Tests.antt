-- ===== src/Worker/Tests.antt =====
-- Jobs on which the theorems on the worker are applied.
use zero_shield.Base.{
  String, ◌≡◌, refl, List, [], ◌∷◌, true, false, Option, none, some, All, str_eq, map,
}
use zero_shield.Base.Effects.{Result, ok, err}
use zero_shield.Base.Floats.{Fixed}
use zero_shield.Models.Enums.{RunEventType, ExecutionContext}
use zero_shield.Samples.{vpn_experiment}
use zero_shield.JobStore.{
  JobStatus, JobRecord, JobFile, RunJobMessage, find_job, put_job, is_terminal_status,
}
use zero_shield.Worker.{WorkerState, ServiceOutcome, Surroundings, process_run_job, save_job, work}
use zero_shield.Worker.Processing.{IsJobRecord}
use zero_shield.Worker.Terminal.{submission, final_record, process_run_job-terminal}
use zero_shield.Worker.Queue.{
  Delivery, HasEnded, AreReadable, after_deliveries, after_deliveries-HasEnded,
}

abbrev message : RunJobMessage
message = record {
  job_id = "job-1";
  experiment_id = "ZC-VPN-EXP-001";
  execution_context = ExecutionContext.experiment_run;
  submitted_by_user_id = none;
  submitted_by_username = some "bob";
}

abbrev idle : WorkerState Fixed
idle = record { jobs = []; run_events = []; audit = [] }

-- The tables work, and they are down; the store can be written.
abbrev working : Surroundings Fixed
working = record { save_error = λ r. none; event_fails = λ e. false; audit_fails = λ a. false }

abbrev offline : Surroundings Fixed
offline = record working { event_fails = λ e. true; audit_fails = λ a. true }

abbrev full_disk : Surroundings Fixed
full_disk = record working { save_error = λ r. some "no space left on device" }

abbrev crash : ServiceOutcome Fixed
crash = ServiceOutcome.unhandled "KeyError"

no_files :
    (id : String) → Path (Result String (Option (JobRecord Fixed))) (find_job id []) (ok none)
unfolding find_job
no_files id = refl

idle-AreReadable : AreReadable idle
idle-AreReadable id = (none, no_files id)

process_run_job-terminal_example :
    let (r, after) =
      process_run_job working message 10 11 12
        (ok (some vpn_experiment))
        (RunEventType.preparing ∷ [])
        crash
        idle in
    let last =
      final_record message 10 11 12
        (RunEventType.preparing ∷ [])
        crash
        idle
        none
        (ok (some vpn_experiment)) in
    (r ≡ ok tt)
    × (find_job "job-1" after.jobs ≡ ok (some last))
    × IsJobRecord message
        (submission message 10 11 12 (RunEventType.preparing ∷ []) crash idle none)
        JobStatus.failed
        last
    × (is_terminal_status last.status ≡ true)
    × ((id : String) → str_eq "job-1" id ≡ false → find_job id after.jobs ≡ find_job id idle.jobs)
process_run_job-terminal_example =
    process_run_job-terminal message 10 11 12 (RunEventType.preparing ∷ []) crash idle none working
      (ok (some vpn_experiment)) (λ r. refl) (no_files message.job_id)

-- An experiment file that cannot be decoded leaves the job RUNNING, and a corrupt record stops it
-- before that.
undecodable :
    let (r, after) =
      process_run_job working message 10 11 12 (err "UnicodeDecodeError") [] crash idle in
    (r ≡ err "UnicodeDecodeError")
    × (map (λ (f : JobFile Fixed). f.job_id) after.jobs ≡ "job-1" ∷ [])
unfolding process_run_job save_job work find_job put_job
undecodable = (refl, refl)

abbrev corrupt : WorkerState Fixed
corrupt = record idle { jobs = (record { job_id = "job-1"; content = err "ValidationError" }) ∷ [] }

corrupt_record :
    process_run_job working message 10 11 12 (ok (some vpn_experiment)) [] crash corrupt
    ≡ (err "ValidationError", corrupt)
unfolding process_run_job find_job
corrupt_record = refl

abbrev delivery : Option RunJobMessage → Delivery Fixed
delivery m = record {
  message = m;
  arrival = 10;
  start = 11;
  stop = 12;
  experiment = ok none;
  sent = [];
  outcome = crash;
}

abbrev queue : List (Delivery Fixed)
queue = delivery (some message) ∷ delivery none ∷ delivery (some message) ∷ []

after_deliveries-HasEnded_example :
    All
      (λ (d : Delivery Fixed).
        (m : RunJobMessage)
        → d.message ≡ some m
        → HasEnded m.job_id (after_deliveries working queue idle))
      queue
after_deliveries-HasEnded_example =
    after_deliveries-HasEnded working (λ r. refl) queue idle idle-AreReadable
      (refl, (refl, (refl, tt)))
