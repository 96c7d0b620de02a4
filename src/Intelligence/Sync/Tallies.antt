-- ===== src/Intelligence/Sync/Tallies.antt =====
-- The state of a sync and the records of its start and its end, of sync_service.py.
use Prim.Native.String.{◌++◌ as append_text}
use zero_shield.Base.{
  ℕ, zero, suc, String, Bool, true, false, ◌||◌, Option, none, some, List, [], ◌∷◌, ◌++◌, ltb, ◌==◌,
  any_of, str_eq, if◌then◌else◌,
}
use zero_shield.Models.Experiment.{nonempty_list}
use zero_shield.Intelligence.Models.{
  VulnerabilitySourceName, IntelligenceSyncStatus, IntelligenceSync,
}
use zero_shield.Intelligence.Normalisation.{
  Python, RawIntelligenceRecord, NormalisationFailure, RecordFailure, failure, validation_error,
}
use zero_shield.Intelligence.Dedup.{Pydantic, MergeResult}
use zero_shield.Intelligence.Priority.{PriorityWeights, ExplanationLine}
use zero_shield.Intelligence.Repository.Rows.{RowFailure}
use zero_shield.Intelligence.Repository.{Store}

pub record Connector (F : Type 0) : Type 0 where
  pub source : VulnerabilitySourceName
  -- `isinstance(connector, VendorAdvisoryConnector)`
  pub is_vendor : Bool
  pub records : List (RawIntelligenceRecord F)
  -- the text of the ConnectorFetchError that ends `fetch`, if one does
  pub fetch_error : Option String

pub data SyncFailure : Type 0 where
  in_record : RecordFailure → SyncFailure
  in_row : RowFailure → SyncFailure
  -- what `build_experiment_ids_by_cve` raises
  in_discovery : String → SyncFailure

-- `except (NormalisationError, ValidationError)`
abbrev pub is_caught : SyncFailure → Bool
is_caught (in_record (failure NormalisationFailure.missing_cve_id)) = true
is_caught (in_record (failure NormalisationFailure.wrong_source)) = true
is_caught (in_record (failure _)) = false
is_caught (in_record validation_error) = true
is_caught (in_row RowFailure.validation_error) = true
is_caught (in_row RowFailure.value_error) = false
is_caught (in_discovery _) = false

pub record Tally : Type 0 where
  pub fetched : ℕ
  pub created : ℕ
  pub updated : ℕ
  pub unchanged : ℕ
  pub failed : ℕ
  pub error_messages : List String
  pub touched_cve_ids : List String

abbrev pub no_tally : Tally
no_tally = record {
  fetched = 0;
  created = 0;
  updated = 0;
  unchanged = 0;
  failed = 0;
  error_messages = [];
  touched_cve_ids = [];
}

pub record SyncState (F : Type 0) : Type 0 where
  pub store : Store F
  pub clock_calls : ℕ
  pub tally : Tally

-- What `run_sync` is given and what it calls
pub record Surroundings (F : Type 0) : Type 0 where
  pub python : Python F
  pub pydantic : Pydantic F
  pub clock : ℕ → ℕ
  pub set_order : List String → List String
  -- `str(exc)`
  pub describe : SyncFailure → String
  pub format : ExplanationLine F → String
  -- `build_experiment_ids_by_cve`: the exception that leaves it, if one does, and its dict
  pub discovery_error : Option String
  pub experiment_ids_by_cve : String → List String
  pub weights : PriorityWeights F

abbrev pub counts_fetched : Tally → Tally
counts_fetched t = record t { fetched = suc t.fetched }

abbrev pub counts_unchanged : Tally → Tally
counts_unchanged t = record t { unchanged = suc t.unchanged }

abbrev pub counts_failed : String → Tally → Tally
counts_failed message t = record t {
  failed = suc t.failed;
  error_messages = t.error_messages ++ message ∷ [];
}

-- `touched_cve_ids.add`
abbrev pub touches : String → List String → List String
touches id ids = if any_of (str_eq id) ids then ids else ids ++ id ∷ []

abbrev pub counts_merged : {F : Type 0} → String → MergeResult F → Tally → Tally
counts_merged id m t =
    let touched = record t { touched_cve_ids = touches id t.touched_cve_ids } in
    if m.is_new
    then record touched { created = suc t.created }
    else if nonempty_list m.history
    then record touched { updated = suc t.updated }
    else counts_unchanged touched

-- `"; ".join(messages[:10])`
abbrev pub joined_first : ℕ → List String → String
joined_first n [] = ""
joined_first zero (s ∷ ss) = ""
joined_first (suc zero) (s ∷ ss) = s
joined_first (suc (suc n)) (s ∷ []) = s
joined_first (suc (suc n)) (s ∷ t ∷ rest) =
    append_text s (append_text "; " (joined_first (suc n) (t ∷ rest)))

abbrev pub error_summary : List String → Option String
error_summary [] = none
error_summary (s ∷ ss) = some (joined_first 10 (s ∷ ss))

unfoldable pub final_status : Tally → IntelligenceSyncStatus
final_status t =
    if t.fetched == 0 || t.failed == 0
    then IntelligenceSyncStatus.completed
    else if ltb t.failed t.fetched
    then IntelligenceSyncStatus.partial
    else IntelligenceSyncStatus.failed

-- The record of the start, and of the end
abbrev pub running_sync : String → VulnerabilitySourceName → Option ℕ → ℕ → IntelligenceSync
running_sync sync_id source since started_at = record {
  sync_id = sync_id;
  source = source;
  status = IntelligenceSyncStatus.running;
  since = since;
  started_at = started_at;
  completed_at = none;
  fetched_count = 0;
  created_count = 0;
  updated_count = 0;
  unchanged_count = 0;
  failed_count = 0;
  error_summary = none;
}

abbrev pub ended_sync :
    IntelligenceSync → IntelligenceSyncStatus → ℕ → Tally → Option String → IntelligenceSync
ended_sync start status completed_at t summary = record start {
  status = status;
  completed_at = some completed_at;
  fetched_count = t.fetched;
  created_count = t.created;
  updated_count = t.updated;
  unchanged_count = t.unchanged;
  failed_count = t.failed;
  error_summary = summary;
}

module _ {F : Type 0} where
  abbrev pub with_tally : (Tally → Tally) → SyncState F → SyncState F
  with_tally g s = record s { tally = g s.tally }

  abbrev pub with_store : (Store F → Store F) → SyncState F → SyncState F
  with_store g s = record s { store = g s.store }

  -- After a call of the clock
  abbrev pub ticked : SyncState F → SyncState F
  ticked s = record s { clock_calls = suc s.clock_calls }
