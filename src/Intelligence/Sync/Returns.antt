-- ===== src/Intelligence/Sync/Returns.antt =====
-- When a sync returns.
use zero_shield.Base.{
  ℕ, ◌≡◌, refl, sym, ◌∙◌, ap, subst, String, Bool, true, Bool-cases, inl, inr, Option, none, some,
  List, [], ◌∷◌, All, ◌&&◌, false,
}
use zero_shield.Base.Floats.{Float, IsOrderedFloat, IsScoreFloat}
use zero_shield.Base.Effects.{Result, ok, err, succeeded}
use zero_shield.Models.Experiment.{nonempty, nonempty_list}
use zero_shield.Intelligence.Models.{
  Vulnerability, vulnerability_validates, IntelligenceSync, ValidationCandidate,
}
use zero_shield.Intelligence.Normalisation.{RawIntelligenceRecord}
use zero_shield.Intelligence.Dedup.Safe.{IsReadable}
use zero_shield.Intelligence.Priority.{default_weights}
use zero_shield.Intelligence.Candidates.{classify_domain, generate_candidate}
use zero_shield.Intelligence.Candidates.Generated.{generate_candidate-returns}
use zero_shield.Intelligence.Repository.Rows.{RowFailure}
use zero_shield.Intelligence.Repository.RoundTrip.{ReadsDates}
use zero_shield.Intelligence.Repository.{
  Store, same_domain, get_vulnerability, upsert_validation_candidate, save_sync,
}
use zero_shield.Intelligence.Sync.{
  with_tally, counts_fetched, no_tally, finish, report, regeneration, after_discovery, when_valid,
  running_sync, Synced, Connector, SyncState, Surroundings, Turn, take_record, settle, sync_record,
  and_then, sync_records, classified, save_classified, save_candidate, regenerate_for,
  regenerate_candidate, regenerate_candidates, run_sync,
}
use zero_shield.Intelligence.Sync.Readable.{
  AreReadable, IsFound, IsSafe, IsTame, get_vulnerability-IsFound, upsert-AreReadable,
  take_record-IsSafe,
}

module _ {F : Type 0} ⦃f : Float F⦄ (env : Surroundings F) where
  -- A step that returns
  abbrev IsFine : Turn env → Type 0
  IsFine (ok _, s) = AreReadable env s.store
  IsFine (err e, s) = ⊥

  settle-IsFine : (t : Turn env) → IsSafe env t → IsFine (settle env t)
  settle-IsFine (ok _, s) h = h
  settle-IsFine (err e, s) (caught, h) = rw (caught, IsFine) h

  and_then-IsFine :
      (t : Turn env) (next : SyncState F → Turn env)
      → IsFine t
      → ((s : SyncState F) → AreReadable env s.store → IsFine (next s))
      → IsFine (and_then env t next)
  and_then-IsFine (ok _, s) next h k = k s h
  and_then-IsFine (err e, s) next h k = h

  module _ (dates : ReadsDates env.python) where
    sync_records-IsFine :
        (vendor : Bool) (rs : List (RawIntelligenceRecord F)) (s : SyncState F)
        → All (IsTame env vendor) rs
        → AreReadable env s.store
        → IsFine (sync_records env vendor rs s)
    unfolding sync_records sync_record
    sync_records-IsFine vendor [] s tame h = h
    sync_records-IsFine vendor (r ∷ rs) s (tame, more) h =
        let counted = with_tally counts_fetched s in
        let turn = take_record env vendor r counted in
        and_then-IsFine (settle env turn) (sync_records env vendor rs)
          (settle-IsFine turn (take_record-IsSafe env dates vendor r counted h tame))
          (λ after k. sync_records-IsFine vendor rs after more k)

  -- It returns, and the table can be read afterwards.
  abbrev pub IsDone : Synced env → Type 0
  IsDone (result, store) = (succeeded result ≡ true) × AreReadable env store

  module _ ⦃o : IsOrderedFloat F⦄ ⦃laws : IsScoreFloat F⦄ (dates : ReadsDates env.python)
      (default : env.weights ≡ default_weights) where
    found_candidate-IsFine :
        (s : SyncState F) (candidate : Option (ValidationCandidate F))
        → AreReadable env s.store
        → IsFine (save_candidate env s (ok candidate))
    unfolding upsert_validation_candidate
    found_candidate-IsFine s none h = h
    found_candidate-IsFine s (some c) h = h

    save_candidate-IsFine :
        (v : Vulnerability F) (s : SyncState F) (now : ℕ)
        → IsReadable env.pydantic v
        → AreReadable env s.store
        → IsFine (
            save_candidate env s
              (generate_candidate env.format v env.experiment_ids_by_cve env.weights now))
    save_candidate-IsFine v s now readable h =
        let generated =
          generate_candidate-returns env.format v env.experiment_ids_by_cve now readable.0 in
        subst (λ r. IsFine (save_candidate env s r))
          (sym (
            ap (λ w. generate_candidate env.format v env.experiment_ids_by_cve w now) default
            ∙ generated.0))
          (found_candidate-IsFine s _ h)

    classified-IsReadable :
        (v : Vulnerability F)
        → IsReadable env.pydantic v
        → IsReadable env.pydantic (classified env v)
    unfolding vulnerability_validates
    classified-IsReadable v h =
        elim (Bool-cases (same_domain v.domain_guess (classify_domain v).domain)) [
          | inl same ↦ rw same h
          | inr other ↦ rw other h
        ]

    save_classified-AreReadable :
        (v : Vulnerability F) (s : SyncState F)
        → IsReadable env.pydantic v
        → AreReadable env s.store
        → AreReadable env (save_classified env v s).store
    unfolding vulnerability_validates
    save_classified-AreReadable v s h k =
        elim (Bool-cases (same_domain v.domain_guess (classify_domain v).domain)) [
          | inl same ↦ rw same k
          | inr other ↦ rw other (upsert-AreReadable env _ s.store h k)
        ]

    regenerate_for-IsFine :
        (s : SyncState F) (found : Result RowFailure (Option (Vulnerability F)))
        → AreReadable env s.store
        → IsFound env found
        → IsFine (regenerate_for env s found)
    regenerate_for-IsFine s (err e) h k = elim k [ ]
    regenerate_for-IsFine s (ok none) h k = h
    regenerate_for-IsFine s (ok (some v)) h k =
        save_candidate-IsFine (classified env v) (save_classified env v s) (env.clock s.clock_calls)
          (classified-IsReadable v k) (save_classified-AreReadable v s k h)

    regenerate_candidates-IsFine :
        (ids : List String) (s : SyncState F)
        → AreReadable env s.store
        → IsFine (regenerate_candidates env ids s)
    unfolding regenerate_candidates regenerate_candidate
    regenerate_candidates-IsFine [] s h = h
    regenerate_candidates-IsFine (id ∷ ids) s h =
        let found = get_vulnerability env.python env.pydantic id s.store in
        and_then-IsFine (regenerate_for env s found) (regenerate_candidates env ids)
          (regenerate_for-IsFine s found h (get_vulnerability-IsFound env dates id s.store h))
          (λ after k. regenerate_candidates-IsFine ids after k)

    regeneration-IsFine :
        (b : Bool) (s : SyncState F)
        → env.discovery_error ≡ none
        → AreReadable env s.store
        → IsFine (regeneration env b s)
    regeneration-IsFine false s found h = h
    regeneration-IsFine true s found h =
        subst (λ x. IsFine (after_discovery env x s)) (sym found)
          (regenerate_candidates-IsFine (env.set_order s.tally.touched_cve_ids) s h)

    report-returns :
        (start : IntelligenceSync) (t : Turn env) → IsFine t → IsDone (report env start t)
    unfolding save_sync
    report-returns start (ok _, s) h = (refl, h)
    report-returns start (err e, s) h = elim h [ ]

    finish-returns :
        (start : IntelligenceSync) (fetch_error : Option String) (regenerate : Bool) (t : Turn env)
        → env.discovery_error ≡ none
        → IsFine t
        → IsDone (finish env start fetch_error regenerate t)
    unfolding finish save_sync
    finish-returns start fetch_error regenerate (err e, s) found h = elim h [ ]
    finish-returns start (some message) regenerate (ok _, s) found h = (refl, h)
    finish-returns start none regenerate (ok _, s) found h =
        let again = regenerate && nonempty_list s.tally.touched_cve_ids in
        report-returns start (regeneration env again s) (regeneration-IsFine again s found h)

    -- If the rows in the table of vulnerabilities can be read, the only exceptions of normalising
    -- the records are those that the loop catches, `HttpUrl` reads what it writes for the URLs of
    -- these records as it is, and the look for experiments does not raise, then a sync under an id
    -- that is not empty and with the default weights returns, and the rows can be read afterwards.
    -- The dates that are written can be read.
    pub run_sync-returns :
        (connector : Connector F) (sync_id : String) (since : Option ℕ) (regenerate : Bool)
        (store : Store F)
        → nonempty sync_id ≡ true
        → env.discovery_error ≡ none
        → AreReadable env store
        → All (IsTame env connector.is_vendor) connector.records
        → IsDone (run_sync env connector sync_id since regenerate store)
    unfolding run_sync save_sync
    run_sync-returns connector sync_id since regenerate store there found readable tame =
        let start = running_sync sync_id connector.source since (env.clock 0) in
        let begun : SyncState F = record {
          store = save_sync start store;
          clock_calls = 1;
          tally = no_tally;
        } in
        let loop = sync_records env connector.is_vendor connector.records begun in
        subst
          (λ b.
            IsDone
              (when_valid env b store (finish env start connector.fetch_error regenerate loop)))
          (sym there)
          (finish-returns start connector.fetch_error regenerate loop found
            (sync_records-IsFine dates connector.is_vendor connector.records begun tame readable))
