-- ===== src/Intelligence/Sync/Outcome.antt =====
-- How a sync ends: with a record of its end, or with an exception that leaves it RUNNING.
use zero_shield.Base.{
  ℕ, ◌+◌, ◌≡◌, refl, sym, ◌∙◌, ap, subst, String, Bool, is_some, ltb, ◌==◌, Option, none, some,
  length, arith, str_eq, eq_refl, if◌then◌else◌, Bool-cases, inl, inr, true, false, ◌&&◌,
}
use zero_shield.Base.Floats.{Float}
use zero_shield.Base.Effects.{Result, ok, err}
use zero_shield.Models.Experiment.{nonempty, nonempty_list}
use zero_shield.Intelligence.Models.{IntelligenceSyncStatus, IntelligenceSync}
use zero_shield.Intelligence.Normalisation.{validation_error}
use zero_shield.Intelligence.Repository.{Store, find_row, save_sync, get_sync}
use zero_shield.Intelligence.Repository.RoundTrip.{find_row-put_row}
use zero_shield.Intelligence.Sync.{
  no_tally, regeneration, when_valid, final_status, report, Connector, SyncFailure, in_record,
  Tally, SyncState, Surroundings, running_sync, ended_sync, Turn, sync_records, finish, run_sync,
}
use zero_shield.Intelligence.Sync.Counts.{
  counted, IsLoop, sync_records-IsLoop, IsQuiet, regeneration-IsQuiet,
}

-- The end of a sync of n records, as it is returned and stored
pub record IsReported {F : Type 0} (sync_id : String) (n : ℕ) (fetch_error : Option String)
    (sync : IntelligenceSync) (store : Store F) : Type 0 where
  pub stored : get_sync sync_id store ≡ some sync
  pub fetched : sync.fetched_count ≡ n
  pub counted_each :
      sync.created_count + sync.updated_count + sync.unchanged_count + sync.failed_count ≡ n
  pub status : sync.status ≡ (
      if is_some fetch_error
      then IntelligenceSyncStatus.failed
      else if sync.failed_count == 0
      then IntelligenceSyncStatus.completed
      else if ltb sync.failed_count n
      then IntelligenceSyncStatus.partial
      else IntelligenceSyncStatus.failed)

abbrev Ends :
    {F : Type 0}
    → IntelligenceSync
    → ℕ
    → Option String
    → Result SyncFailure IntelligenceSync × Store F
    → Type 0
Ends start n fetch_error (ok sync, store) = IsReported start.sync_id n fetch_error sync store
Ends start n fetch_error (err e, store) = get_sync start.sync_id store ≡ some start

-- A sync that raises leaves its record as it was at the start, or, with an empty id, what was there
-- before.
abbrev pub HasOutcome :
    {F : Type 0}
    → Store F
    → IntelligenceSync
    → ℕ
    → Option String
    → Result SyncFailure IntelligenceSync × Store F
    → Type 0
HasOutcome before start n fetch_error (ok sync, store) =
    IsReported start.sync_id n fetch_error sync store
HasOutcome before start n fetch_error (err e, store) =
    get_sync start.sync_id store
    ≡ (if nonempty start.sync_id then some start else get_sync start.sync_id before)

Ends-HasOutcome :
    {F : Type 0} (before : Store F) (start : IntelligenceSync) (n : ℕ)
    → (fetch_error : Option String) (ended : Result SyncFailure IntelligenceSync × Store F)
    → nonempty start.sync_id ≡ true
    → Ends start n fetch_error ended
    → HasOutcome before start n fetch_error ended
Ends-HasOutcome before start n fetch_error (ok sync, store) there h = h
Ends-HasOutcome before start n fetch_error (err e, store) there h = rw there h

refused-HasOutcome :
    {F : Type 0} (before : Store F) (start : IntelligenceSync) (n : ℕ)
    → (fetch_error : Option String) → nonempty start.sync_id ≡ false
    → HasOutcome before start n fetch_error (err (in_record validation_error), before)
refused-HasOutcome before start n fetch_error empty = rw empty refl

status_of_counts :
    (t : Tally)
    → counted t ≡ t.fetched
    → final_status t ≡ (
        if t.failed == 0
        then IntelligenceSyncStatus.completed
        else if ltb t.failed t.fetched
        then IntelligenceSyncStatus.partial
        else IntelligenceSyncStatus.failed)
unfolding final_status
status_of_counts t h = ground arith

module _ {F : Type 0} ⦃f : Float F⦄ (env : Surroundings F) (start : IntelligenceSync) where
  -- The record of the start is there.
  abbrev IsBegun : Store F → Type 0
  IsBegun store = find_row (λ s. str_eq s.sync_id start.sync_id) store.syncs ≡ some start

  found_still :
      (after before : Store F)
      → after.syncs ≡ before.syncs
      → IsBegun before
      → get_sync start.sync_id after ≡ some start
  unfolding get_sync
  found_still after before same begun =
      ap (find_row (λ s. str_eq s.sync_id start.sync_id)) same ∙ begun

  saved_end :
      (status : IntelligenceSyncStatus) (now : ℕ) (t : Tally) (summary : Option String)
      (store : Store F)
      → let sync = ended_sync start status now t summary in
        get_sync start.sync_id (save_sync sync store) ≡ some sync
  unfolding get_sync save_sync
  saved_end status now t summary store =
      let sync = ended_sync start status now t summary in
      find_row-put_row (λ r. str_eq r.sync_id start.sync_id) (λ _. sync) sync
        (eq_refl start.sync_id) (λ _. refl) store.syncs

  report-Ends :
      (n : ℕ) (s : SyncState F) (t : Turn env)
      → counted s.tally ≡ n
      → s.tally.fetched ≡ n
      → IsBegun s.store
      → IsQuiet env s.tally s.store.syncs t
      → Ends start n none (report env start t)
  report-Ends n s (err e, after) h k begun (_, syncs) = found_still after.store s.store syncs begun
  report-Ends n s (ok _, after) h k begun (tally, syncs) =
      let count : counted after.tally ≡ n = ap counted tally ∙ h in
      let fetched : after.tally.fetched ≡ n = ap (λ t. t.fetched) tally ∙ k in
      record {
        stored = saved_end _ _ after.tally _ after.store;
        fetched = fetched;
        counted_each = count;
        status =
            subst
              (λ m. final_status after.tally ≡ (
                if after.tally.failed == 0
                then IntelligenceSyncStatus.completed
                else if ltb after.tally.failed m
                then IntelligenceSyncStatus.partial
                else IntelligenceSyncStatus.failed))
              fetched (status_of_counts after.tally (count ∙ sym fetched));
      }

  finish-Ends :
      (n : ℕ) (fetch_error : Option String) (regenerate : Bool) (s : SyncState F) (t : Turn env)
      → s.tally ≡ no_tally
      → IsBegun s.store
      → IsLoop env n s.tally s.store.syncs t
      → Ends start n fetch_error (finish env start fetch_error regenerate t)
  unfolding finish get_sync
  finish-Ends n fetch_error regenerate s (err e, after) h begun (caught, same) =
      found_still after.store s.store same begun
  finish-Ends n (some message) regenerate s (ok _, after) h begun (count, fetched, same) = record {
    stored = saved_end _ _ after.tally _ after.store;
    fetched = omega (arith, fetched, ap (λ t. t.fetched) h);
    counted_each = omega (arith, count, ap counted h);
    status = refl;
  }
  finish-Ends n none regenerate s (ok _, after) h begun (count, fetched, same) =
      report-Ends n after
        (regeneration env (regenerate && nonempty_list after.tally.touched_cve_ids) after)
        (omega (arith, count, ap counted h)) (omega (arith, fetched, ap (λ t. t.fetched) h))
        (found_still after.store s.store same begun) (regeneration-IsQuiet env _ after)

saved_start :
    {F : Type 0} (start : IntelligenceSync) (store : Store F)
    → find_row (λ s. str_eq s.sync_id start.sync_id) (save_sync start store).syncs ≡ some start
unfolding save_sync
saved_start start store =
    find_row-put_row (λ r. str_eq r.sync_id start.sync_id) (λ _. start) start
      (eq_refl start.sync_id) (λ _. refl) store.syncs

module _ {F : Type 0} ⦃f : Float F⦄ (env : Surroundings F) (connector : Connector F)
    (sync_id : String) (since : Option ℕ) (regenerate : Bool) (store : Store F) where
  -- A sync ends in one of two ways. It returns the record of its end, which is then the stored
  -- one: it has fetched every record and counted each exactly once, and its status is FAILED if the
  -- fetching failed or every record did, PARTIAL if some records failed, and COMPLETED if none did.
  -- Or an exception leaves it: then the stored record is still that of the start, RUNNING, or, with
  -- an empty id, what was stored before.
  pub run_sync-HasOutcome :
      HasOutcome store
        (running_sync sync_id connector.source since (env.clock 0))
        (length connector.records)
        connector.fetch_error
        (run_sync env connector sync_id since regenerate store)
  unfolding run_sync
  run_sync-HasOutcome =
      let start = running_sync sync_id connector.source since (env.clock 0) in
      let begun : SyncState F = record {
        store = save_sync start store;
        clock_calls = 1;
        tally = no_tally;
      } in
      let loop = sync_records env connector.is_vendor connector.records begun in
      let whole = finish env start connector.fetch_error regenerate loop in
      elim (Bool-cases (nonempty sync_id)) [
        | inr empty ↦
            subst (HasOutcome store start (length connector.records) connector.fetch_error)
              (ap (λ b. when_valid env b store whole) (sym empty))
              (refused-HasOutcome store start (length connector.records) connector.fetch_error
                empty)
        | inl there ↦
            subst (HasOutcome store start (length connector.records) connector.fetch_error)
              (ap (λ b. when_valid env b store whole) (sym there))
              (Ends-HasOutcome store start (length connector.records) connector.fetch_error whole
                there
                (finish-Ends env start (length connector.records) connector.fetch_error regenerate
                  begun loop refl (saved_start start store)
                  (sync_records-IsLoop env connector.is_vendor connector.records begun)))
      ]
