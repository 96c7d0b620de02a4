-- ===== src/Worker/Queue.antt =====
-- The consume loop: messages that are handled one after another.
use zero_shield.Base.{
  ℕ, String, ◌≡◌, refl, sym, subst, ◌∙◌, ap, inl, inr, true, false, Bool-cases, Option-cases,
  Option, none, some, List, [], ◌∷◌, All, str_eq, eq_iff,
}
use zero_shield.Base.Effects.{Result, ok, succeeded}
use zero_shield.Models.Enums.{RunEventType}
use zero_shield.Models.Experiment.{ExperimentDefinition}
use zero_shield.JobStore.{JobRecord, RunJobMessage, find_job, is_terminal_status}
use zero_shield.Worker.{
  WorkerState, ServiceOutcome, Surroundings, process_run_job, handle_message_body,
}
use zero_shield.Worker.Processing.{IsWritable}
use zero_shield.Worker.Terminal.{process_run_job-terminal, final_record}

-- A message of the queue, with what the handling of it meets
pub record Delivery (F : Type 0) : Type 0 where
  pub message : Option RunJobMessage
  pub arrival : ℕ
  pub start : ℕ
  pub stop : ℕ
  pub experiment : Result String (Option ExperimentDefinition)
  pub sent : List RunEventType
  pub outcome : ServiceOutcome F

module _ {F : Type 0} (around : Surroundings F) where
  -- The state after `handle_message_body`
  abbrev pub after_delivery : Delivery F → WorkerState F → WorkerState F
  after_delivery d s =
      (handle_message_body around d.message d.arrival d.start d.stop d.experiment d.sent d.outcome
        s).1

  abbrev pub after_deliveries : List (Delivery F) → WorkerState F → WorkerState F
  after_deliveries [] s = s
  after_deliveries (d ∷ ds) s = after_deliveries ds (after_delivery d s)

  -- Handling a message never raises, whether the message is malformed, the store cannot be
  -- written, or the run fails; a malformed message changes nothing.
  pub handle_message_body_ok :
      (message : Option RunJobMessage) (arrival start stop : ℕ)
      → (experiment : Result String (Option ExperimentDefinition)) (sent : List RunEventType)
      → (outcome : ServiceOutcome F) (s : WorkerState F)
      → let (r, after) =
          handle_message_body around message arrival start stop experiment sent outcome s in
        (r ≡ ok tt) × (message ≡ none → after ≡ s)
  unfolding handle_message_body
  handle_message_body_ok none arrival start stop experiment sent outcome s = (refl, λ _. refl)
  handle_message_body_ok (some m) arrival start stop experiment sent outcome s = (refl, λ h. cc)

-- The job has a record of a terminal status.
abbrev pub HasEnded : {F : Type 0} → String → WorkerState F → Type 0
HasEnded {F} id s =
    (r : JobRecord F) × (find_job id s.jobs ≡ ok (some r)) × (is_terminal_status r.status ≡ true)

-- No file of the job store is corrupt.
abbrev pub AreReadable : {F : Type 0} → WorkerState F → Type 0
AreReadable {F} s =
    (id : String) → (existing : Option (JobRecord F)) × (find_job id s.jobs ≡ ok existing)

-- Looking for the definition of the delivered job does not raise.
abbrev pub IsLookedUp : {F : Type 0} → Delivery F → Type 0
IsLookedUp d = succeeded d.experiment ≡ true

module _ {F : Type 0} (around : Surroundings F) (w : IsWritable around) where
  module _ (d : Delivery F) (m : RunJobMessage) (s : WorkerState F) (readable : AreReadable s) where
    abbrev processed : WorkerState F
    processed =
        (process_run_job around m d.arrival d.start d.stop d.experiment d.sent d.outcome s).1

    processed-HasEnded : IsLookedUp d → HasEnded m.job_id processed
    processed-HasEnded looked =
        let (existing, is_read) = readable m.job_id in
        let (_, found, _, ended, _) =
          process_run_job-terminal m d.arrival d.start d.stop d.sent d.outcome s existing around
            d.experiment w is_read in
        (
          final_record m d.arrival d.start d.stop d.sent d.outcome s existing d.experiment,
          found,
          ended ∙ looked,
        )

    processed-others :
        (id : String) → str_eq m.job_id id ≡ false → find_job id processed.jobs ≡ find_job id s.jobs
    processed-others =
        let (existing, is_read) = readable m.job_id in
        let (_, _, _, _, others) =
          process_run_job-terminal m d.arrival d.start d.stop d.sent d.outcome s existing around
            d.experiment w is_read in
        others

    processed-AreReadable : AreReadable processed
    processed-AreReadable id = elim (Bool-cases (str_eq m.job_id id)) [
      | inl same ↦
          let (existing, is_read) = readable m.job_id in
          let (_, found, _, _, _) =
            process_run_job-terminal m d.arrival d.start d.stop d.sent d.outcome s existing around
              d.experiment w is_read in
          let last =
            final_record m d.arrival d.start d.stop d.sent d.outcome s existing d.experiment in
          (
            some last,
            subst (λ i. find_job i processed.jobs ≡ ok (some last)) ((eq_iff m.job_id id).0 same)
                found,
          )
      | inr other ↦
          let (existing, is_read) = readable id in (existing, processed-others id other ∙ is_read)
    ]

  delivered :
      (d : Delivery F) (m : RunJobMessage) (s : WorkerState F)
      → d.message ≡ some m
      → after_delivery around d s
        ≡ (process_run_job around m d.arrival d.start d.stop d.experiment d.sent d.outcome s).1
  unfolding handle_message_body
  delivered d m s h =
      ap
        (λ o.
          (handle_message_body around o d.arrival d.start d.stop d.experiment d.sent d.outcome s).1)
        h

  dropped : (d : Delivery F) (s : WorkerState F) → d.message ≡ none → after_delivery around d s ≡ s
  unfolding handle_message_body
  dropped d s h =
      ap
        (λ o.
          (handle_message_body around o d.arrival d.start d.stop d.experiment d.sent d.outcome s).1)
        h

  delivered-HasEnded :
      (d : Delivery F) (m : RunJobMessage) (s : WorkerState F)
      → AreReadable s
      → IsLookedUp d
      → d.message ≡ some m
      → HasEnded m.job_id (after_delivery around d s)
  delivered-HasEnded d m s readable looked h =
      subst (HasEnded m.job_id) (sym (delivered d m s h)) (processed-HasEnded d m s readable looked)

  delivered-AreReadable :
      (d : Delivery F) (s : WorkerState F) → AreReadable s → AreReadable (after_delivery around d s)
  delivered-AreReadable d s readable = elim (Option-cases d.message) [
    | inl malformed ↦
        subst (λ (s : WorkerState F). AreReadable s) (sym (dropped d s malformed)) readable
    | inr (m, parsed) ↦
        subst (λ (s : WorkerState F). AreReadable s) (sym (delivered d m s parsed))
          (processed-AreReadable d m s readable)
  ]

  kept-HasEnded :
      (id : String) (d : Delivery F) (s : WorkerState F)
      → AreReadable s
      → IsLookedUp d
      → HasEnded id s
      → HasEnded id (after_delivery around d s)
  kept-HasEnded id d s readable looked (r, found, ended) = elim (Option-cases d.message) [
    | inl malformed ↦ subst (HasEnded id) (sym (dropped d s malformed)) (r, found, ended)
    | inr (m, parsed) ↦ elim (Bool-cases (str_eq m.job_id id)) [
      | inl same ↦
          subst (λ i. HasEnded i (after_delivery around d s)) ((eq_iff m.job_id id).0 same)
            (delivered-HasEnded d m s readable looked parsed)
      | inr other ↦
          subst (HasEnded id) (sym (delivered d m s parsed))
            (r, processed-others d m s readable id other ∙ found, ended)
    ]
  ]

  still_ended :
      (id : String) (ds : List (Delivery F)) (s : WorkerState F)
      → AreReadable s
      → All IsLookedUp ds
      → HasEnded id s
      → HasEnded id (after_deliveries around ds s)
  still_ended id [] s readable looked h = h
  still_ended id (d ∷ ds) s readable (now, later) h =
      still_ended id ds (after_delivery around d s) (delivered-AreReadable d s readable) later
        (kept-HasEnded id d s readable now h)

  -- While the job store can be written and no file of it is corrupt at first, and looking for an
  -- experiment never raises: every job whose message has been handled has a record of a terminal
  -- status once the queue is empty, whatever messages came before and after it, redelivered and
  -- malformed ones included.
  pub after_deliveries-HasEnded :
      (ds : List (Delivery F)) (s : WorkerState F)
      → AreReadable s
      → All IsLookedUp ds
      → All
          (λ (d : Delivery F).
            (m : RunJobMessage)
            → d.message ≡ some m
            → HasEnded m.job_id (after_deliveries around ds s))
          ds
  after_deliveries-HasEnded ds s readable looked = go ds s readable looked (λ id h. h)
    where
      go :
          (rest : List (Delivery F)) (t : WorkerState F)
          → AreReadable t
          → All IsLookedUp rest
          → ((id : String)
              → HasEnded id (after_deliveries around rest t)
              → HasEnded id (after_deliveries around ds s))
          → All
              (λ (d : Delivery F).
                (m : RunJobMessage)
                → d.message ≡ some m
                → HasEnded m.job_id (after_deliveries around ds s))
              rest
      go [] t r l k = tt
      go (d ∷ rest) t r (now, later) k = (
        λ m parsed. k m.job_id (
            still_ended m.job_id rest (after_delivery around d t) (delivered-AreReadable d t r)
              later (delivered-HasEnded d m t r now parsed)),
        go rest (after_delivery around d t) (delivered-AreReadable d t r) later k,
      )
