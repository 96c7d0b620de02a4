-- ===== src/Intelligence/Sync.antt =====
-- src/zeroshield/intelligence/sync_service.py. A connector is what its `fetch` yields and how it
-- ends; `clock` gives the time of its n-th call, and `set_order` the order in which Python runs over a
-- set. Log lines, the counter of syncs, and any
-- exception of a connector but ConnectorFetchError are left out.
mod Tallies
pub mod Counts
pub mod Outcome
pub mod Readable
pub mod Returns
pub mod Tests
use Prim.Native.String.{◌++◌ as append_text}
use zero_shield.Base.{
  ℕ, zero, suc, String, Bool, true, false, not, ◌&&◌, ◌||◌, Option, none, some, List, [], ◌∷◌, ◌++◌,
  ltb, ◌==◌, any_of, str_eq, if◌then◌else◌,
}
use zero_shield.Base.Floats.{Float}
use zero_shield.Base.Effects.{Result, ok, err}
use zero_shield.Models.Enums.{Domain}
use zero_shield.Models.Experiment.{nonempty, nonempty_list}
use zero_shield.Intelligence.Models.{
  VulnerabilitySourceName, IntelligenceSyncStatus, IntelligenceSync, VendorAdvisory, Vulnerability,
  ValidationCandidate,
}
use zero_shield.Intelligence.Normalisation.{
  Python, RawIntelligenceRecord, NormalisedContribution, NormalisationFailure, RecordFailure,
  failure, validation_error, Normal, normalise,
}
use zero_shield.Intelligence.Normalisation.Advisory.{normalise_vendor_advisory}
use zero_shield.Intelligence.Dedup.{Pydantic, MergeResult, merge}
use zero_shield.Intelligence.Priority.{PriorityWeights, ExplanationLine}
use zero_shield.Intelligence.Candidates.{classify_domain, generate_candidate}
use zero_shield.Intelligence.Repository.Rows.{RowFailure}
use zero_shield.Intelligence.Repository.{
  Store, same_domain, get_vulnerability, upsert_vulnerability, upsert_source_record, append_history,
  upsert_products, upsert_vendor_advisory, upsert_validation_candidate, save_sync,
}
unfoldable pub use Tallies.*

module _ {F : Type 0} ⦃f : Float F⦄ (env : Surroundings F) where
  -- The four calls of the repository that save what `merge` returns
  abbrev pub saves : String → MergeResult F → Store F → Store F
  saves id m store =
      let merged = append_history m.history (
        upsert_source_record m.source_record
          (upsert_vulnerability env.python m.vulnerability store)) in
      if nonempty_list m.products then upsert_products id m.products merged else merged

  abbrev pub Turn : Type 0
  Turn = Result SyncFailure Unit × SyncState F

  -- What follows `merge`, and what follows the look for the CVE
  abbrev pub save_merged :
      NormalisedContribution F → SyncState F → Result RecordFailure (MergeResult F) → Turn
  save_merged c s (err e) = (err (in_record e), s)
  save_merged c s (ok m) =
      (ok tt, with_tally (counts_merged c.cve_id m) (with_store (saves c.cve_id m) s))

  abbrev pub merge_into :
      NormalisedContribution F → SyncState F → Result RowFailure (Option (Vulnerability F)) → Turn
  merge_into c s (err e) = (err (in_row e), s)
  merge_into c s (ok existing) =
      save_merged c (ticked s) (merge env.pydantic env.python existing c (env.clock s.clock_calls))

  unfoldable pub merge_in : NormalisedContribution F → SyncState F → Turn
  merge_in c s = merge_into c s (get_vulnerability env.python env.pydantic c.cve_id s.store)

  -- What follows `normalise_vendor_advisory`, and `normalise`
  abbrev pub take_advisory :
      SyncState F → Result RecordFailure (VendorAdvisory × Option (NormalisedContribution F)) → Turn
  take_advisory s (err e) = (err (in_record e), s)
  take_advisory s (ok (advisory, none)) =
      (ok tt, with_tally counts_unchanged (with_store (upsert_vendor_advisory advisory) s))
  take_advisory s (ok (advisory, some c)) =
      merge_in c (with_store (upsert_vendor_advisory advisory) s)

  abbrev pub take_contribution : SyncState F → Normal (NormalisedContribution F) → Turn
  take_contribution s (err e) = (err (in_record (failure e)), s)
  take_contribution s (ok c) = merge_in c s

  -- What the `try` of one record does
  unfoldable pub take_record : Bool → RawIntelligenceRecord F → SyncState F → Turn
  take_record true r s = take_advisory s (normalise_vendor_advisory env.python r)
  take_record false r s = take_contribution s (normalise env.python r)

  -- What is caught is counted.
  abbrev pub settle : Turn → Turn
  settle (ok _, s) = (ok tt, s)
  settle (err e, s) =
      if is_caught e then (ok tt, with_tally (counts_failed (env.describe e)) s) else (err e, s)

  -- One turn of the loop
  unfoldable pub sync_record : Bool → RawIntelligenceRecord F → SyncState F → Turn
  sync_record vendor r s = settle (take_record vendor r (with_tally counts_fetched s))

  -- The next step, unless an exception came before
  abbrev pub and_then : Turn → (SyncState F → Turn) → Turn
  and_then (ok _, s) next = next s
  and_then (err e, s) next = (err e, s)

  unfoldable pub sync_records : Bool → List (RawIntelligenceRecord F) → SyncState F → Turn
  sync_records vendor [] s = (ok tt, s)
  sync_records vendor (r ∷ rs) s = and_then (sync_record vendor r s) (sync_records vendor rs)

  -- The vulnerability with the domain that was found, stored if that is new
  abbrev pub classified : Vulnerability F → Vulnerability F
  classified v =
      let found = classify_domain v in
      if same_domain v.domain_guess found.domain
      then v
      else record v { domain_guess = found.domain }

  abbrev pub save_classified : Vulnerability F → SyncState F → SyncState F
  save_classified v s =
      if same_domain v.domain_guess (classify_domain v).domain
      then s
      else with_store (upsert_vulnerability env.python (classified v)) s

  -- What follows `generate_candidate`, which calls the clock if there is to be a candidate
  abbrev pub save_candidate :
      SyncState F → Result RecordFailure (Option (ValidationCandidate F)) → Turn
  save_candidate s (err e) = (err (in_record e), ticked s)
  save_candidate s (ok none) = (ok tt, s)
  save_candidate s (ok (some c)) = (ok tt, with_store (upsert_validation_candidate c) (ticked s))

  -- What follows the look for a CVE that was touched
  abbrev pub regenerate_for : SyncState F → Result RowFailure (Option (Vulnerability F)) → Turn
  regenerate_for s (err e) = (err (in_row e), s)
  regenerate_for s (ok none) = (ok tt, s)
  regenerate_for s (ok (some v)) = save_candidate (save_classified v s) (
      generate_candidate env.format (classified v) env.experiment_ids_by_cve env.weights
        (env.clock s.clock_calls))

  unfoldable pub regenerate_candidate : String → SyncState F → Turn
  regenerate_candidate cve_id s =
      regenerate_for s (get_vulnerability env.python env.pydantic cve_id s.store)

  unfoldable pub regenerate_candidates : List String → SyncState F → Turn
  regenerate_candidates [] s = (ok tt, s)
  regenerate_candidates (id ∷ ids) s =
      and_then (regenerate_candidate id s) (regenerate_candidates ids)

  -- What follows `build_experiment_ids_by_cve`, which is called if there is something to regenerate
  abbrev pub after_discovery : Option String → SyncState F → Turn
  after_discovery (some x) s = (err (in_discovery x), s)
  after_discovery none s = regenerate_candidates (env.set_order s.tally.touched_cve_ids) s

  abbrev pub regeneration : Bool → SyncState F → Turn
  regeneration false s = (ok tt, s)
  regeneration true s = after_discovery env.discovery_error s

  abbrev pub Synced : Type 0
  Synced = Result SyncFailure IntelligenceSync × Store F

  -- The end of a sync is saved and returned.
  abbrev pub ends : IntelligenceSync → IntelligenceSyncStatus → Option String → SyncState F → Synced
  ends start status summary s =
      let sync = ended_sync start status (env.clock s.clock_calls) s.tally summary in
      (ok sync, save_sync sync s.store)

  -- What follows the candidates, and what follows the loop
  abbrev pub report : IntelligenceSync → Turn → Synced
  report start (err e, s) = (err e, s.store)
  report start (ok _, s) =
      ends start (final_status s.tally) (error_summary s.tally.error_messages) s

  unfoldable pub finish : IntelligenceSync → Option String → Bool → Turn → Synced
  finish start fetch_error regenerate (err e, s) = (err e, s.store)
  finish start (some message) regenerate (ok _, s) =
      ends start IntelligenceSyncStatus.failed (some message) s
  finish start none regenerate (ok _, s) =
      report start (regeneration (regenerate && nonempty_list s.tally.touched_cve_ids) s)

  -- The record of the start is built if the id is not empty.
  abbrev pub when_valid : Bool → Store F → Synced → Synced
  when_valid true store synced = synced
  when_valid false store synced = (err (in_record validation_error), store)

  unfoldable pub run_sync : Connector F → String → Option ℕ → Bool → Store F → Synced
  run_sync connector sync_id since regenerate store =
      let start = running_sync sync_id connector.source since (env.clock 0) in
      when_valid (nonempty sync_id) store (
        finish start connector.fetch_error regenerate (
          sync_records connector.is_vendor connector.records
            (record { store = save_sync start store; clock_calls = 1; tally = no_tally })))
