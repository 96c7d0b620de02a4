-- ===== src/Intelligence/Sync/Counts.antt =====
-- What a sync counts: every record that is fetched, once.
use zero_shield.Base.{
  ℕ, suc, ◌+◌, ◌≡◌, refl, ◌∙◌, String, Bool, true, false, Bool-cases, inl, inr, Option, none, some,
  List, [], ◌∷◌, length, arith,
}
use zero_shield.Base.Floats.{Float}
use zero_shield.Base.Effects.{Result, ok, err}
use zero_shield.Models.Experiment.{nonempty_list}
use zero_shield.Intelligence.Models.{
  VendorAdvisory, Vulnerability, ValidationCandidate, IntelligenceSync,
}
use zero_shield.Intelligence.Normalisation.{
  RawIntelligenceRecord, NormalisedContribution, RecordFailure, Normal, normalise,
}
use zero_shield.Intelligence.Repository.Rows.{RowFailure}
use zero_shield.Intelligence.Normalisation.Advisory.{normalise_vendor_advisory}
use zero_shield.Intelligence.Dedup.{MergeResult, merge}
use zero_shield.Intelligence.Repository.{
  Store, get_vulnerability, upsert_vulnerability, upsert_source_record, append_history,
  upsert_products, upsert_vendor_advisory, upsert_validation_candidate, same_domain,
}
use zero_shield.Intelligence.Candidates.{classify_domain, generate_candidate}
use zero_shield.Intelligence.Sync.{
  classified, save_classified, save_candidate, regenerate_for, regenerate_candidate,
  regenerate_candidates, regeneration, after_discovery, SyncFailure, is_caught, Tally, SyncState,
  Surroundings, counts_merged, counts_fetched, with_tally, ticked, Turn, saves, save_merged,
  merge_into, take_advisory, take_contribution, settle, and_then, merge_in, take_record,
  sync_record, sync_records,
}

-- What has been counted, all but what was fetched
abbrev pub counted : Tally → ℕ
counted t = t.created + t.updated + t.unchanged + t.failed

counted-merged :
    {F : Type 0} (id : String) (m : MergeResult F) (t : Tally)
    → (counted (counts_merged id m t) ≡ suc (counted t))
      × ((counts_merged id m t).fetched ≡ t.fetched)
counted-merged id m t = ground arith

syncs-upsert_products :
    {F : Type 0} (id : String) (ps : List (String × String × Option String)) (store : Store F)
    → (upsert_products id ps store).syncs ≡ store.syncs
unfolding upsert_products
syncs-upsert_products id [] store = refl
syncs-upsert_products id ((vendor, name, range) ∷ ps) store = syncs-upsert_products id ps _

module _ {F : Type 0} where
  -- What an attempt does: one more is counted if it returns, none if it raises, and the table of the
  -- syncs stays as it is.
  pub record IsCounted (before : Tally) (syncs : List IntelligenceSync) (more : ℕ)
      (after : SyncState F) : Type 0 where
    pub counted_more : counted after.tally ≡ more + counted before
    pub fetched_same : after.tally.fetched ≡ before.fetched
    pub syncs_same : after.store.syncs ≡ syncs

  abbrev pub IsAttempt :
      Tally → List IntelligenceSync → Result SyncFailure Unit × SyncState F → Type 0
  IsAttempt before syncs (ok _, after) = IsCounted before syncs 1 after
  IsAttempt before syncs (err _, after) = IsCounted before syncs 0 after

module _ {F : Type 0} ⦃f : Float F⦄ (env : Surroundings F) where
  syncs-saves :
      (id : String) (m : MergeResult F) (store : Store F)
      → (saves env id m store).syncs ≡ store.syncs
  unfolding upsert_vulnerability upsert_source_record append_history
  syncs-saves id m store = elim (Bool-cases (nonempty_list m.products)) [
    | inl some_products ↦ rw some_products (syncs-upsert_products id m.products _)
    | inr no_products ↦ rw no_products refl
  ]

  -- Nothing was counted or saved.
  nothing : (s : SyncState F) → IsCounted s.tally s.store.syncs 0 s
  nothing s = record { counted_more = omega arith; fetched_same = refl; syncs_same = refl }

  save_merged-IsAttempt :
      (c : NormalisedContribution F) (s : SyncState F) (m : Result RecordFailure (MergeResult F))
      → IsAttempt s.tally s.store.syncs (save_merged env c s m)
  save_merged-IsAttempt c s (err e) = nothing s
  save_merged-IsAttempt c s (ok m) = record {
    counted_more = omega (arith, (counted-merged c.cve_id m s.tally).0);
    fetched_same = (counted-merged c.cve_id m s.tally).1;
    syncs_same = syncs-saves c.cve_id m s.store;
  }

  merge_into-IsAttempt :
      (c : NormalisedContribution F) (s : SyncState F)
      (found : Result RowFailure (Option (Vulnerability F)))
      → IsAttempt s.tally s.store.syncs (merge_into env c s found)
  merge_into-IsAttempt c s (err e) = nothing s
  merge_into-IsAttempt c s (ok existing) =
      save_merged-IsAttempt c (ticked s)
        (merge env.pydantic env.python existing c (env.clock s.clock_calls))

  merge_in-IsAttempt :
      (c : NormalisedContribution F) (s : SyncState F)
      → IsAttempt s.tally s.store.syncs (merge_in env c s)
  unfolding merge_in
  merge_in-IsAttempt c s =
      merge_into-IsAttempt c s (get_vulnerability env.python env.pydantic c.cve_id s.store)

  take_advisory-IsAttempt :
      (s : SyncState F)
      (r : Result RecordFailure (VendorAdvisory × Option (NormalisedContribution F)))
      → IsAttempt s.tally s.store.syncs (take_advisory env s r)
  unfolding upsert_vendor_advisory
  take_advisory-IsAttempt s (err e) = nothing s
  take_advisory-IsAttempt s (ok (advisory, none)) = record {
    counted_more = omega arith;
    fetched_same = refl;
    syncs_same = refl;
  }
  take_advisory-IsAttempt s (ok (advisory, some c)) = merge_in-IsAttempt c _

  take_contribution-IsAttempt :
      (s : SyncState F) (r : Normal (NormalisedContribution F))
      → IsAttempt s.tally s.store.syncs (take_contribution env s r)
  take_contribution-IsAttempt s (err e) = nothing s
  take_contribution-IsAttempt s (ok c) = merge_in-IsAttempt c s

  take_record-IsAttempt :
      (vendor : Bool) (r : RawIntelligenceRecord F) (s : SyncState F)
      → IsAttempt s.tally s.store.syncs (take_record env vendor r s)
  unfolding take_record
  take_record-IsAttempt true r s =
      take_advisory-IsAttempt s (normalise_vendor_advisory env.python r)
  take_record-IsAttempt false r s = take_contribution-IsAttempt s (normalise env.python r)

  -- After n records: each was fetched and counted, unless an exception that is not caught came.
  abbrev pub IsLoop : ℕ → Tally → List IntelligenceSync → Turn env → Type 0
  IsLoop n before syncs (ok _, after) =
      (counted after.tally ≡ n + counted before)
      × (after.tally.fetched ≡ n + before.fetched)
      × (after.store.syncs ≡ syncs)
  IsLoop n before syncs (err e, after) = (is_caught e ≡ false) × (after.store.syncs ≡ syncs)

  settle-IsLoop :
      (s : SyncState F) (t : Turn env)
      → IsAttempt (counts_fetched s.tally) s.store.syncs t
      → IsLoop 1 s.tally s.store.syncs (settle env t)
  settle-IsLoop s (ok _, after) h = (h.counted_more, omega (arith, h.fetched_same), h.syncs_same)
  settle-IsLoop s (err e, after) h = elim (Bool-cases (is_caught e)) [
    | inl caught ↦
        rw caught (omega (arith, h.counted_more), omega (arith, h.fetched_same), h.syncs_same)
    | inr raised ↦ rw raised (raised, h.syncs_same)
  ]

  sync_record-IsLoop :
      (vendor : Bool) (r : RawIntelligenceRecord F) (s : SyncState F)
      → IsLoop 1 s.tally s.store.syncs (sync_record env vendor r s)
  unfolding sync_record
  sync_record-IsLoop vendor r s =
      settle-IsLoop s (take_record env vendor r (with_tally counts_fetched s))
        (take_record-IsAttempt vendor r (with_tally counts_fetched s))

  further :
      (n : ℕ) (s after : SyncState F) (t : Turn env)
      → IsLoop 1 s.tally s.store.syncs (ok tt, after)
      → IsLoop n after.tally after.store.syncs t
      → IsLoop (suc n) s.tally s.store.syncs t
  further n s after (err e, last) (h, fetched, same) (caught, k) = (caught, k ∙ same)
  further n s after (ok _, last) (h, fetched, same) (h', fetched', same') =
      (omega arith, omega arith, same' ∙ same)

  and_then-IsLoop :
      (n : ℕ) (s : SyncState F) (t : Turn env) (next : SyncState F → Turn env)
      → IsLoop 1 s.tally s.store.syncs t
      → ((after : SyncState F) → IsLoop n after.tally after.store.syncs (next after))
      → IsLoop (suc n) s.tally s.store.syncs (and_then env t next)
  and_then-IsLoop n s (err e, after) next h k = h
  and_then-IsLoop n s (ok _, after) next h k = further n s after (next after) h (k after)

  pub sync_records-IsLoop :
      (vendor : Bool) (rs : List (RawIntelligenceRecord F)) (s : SyncState F)
      → IsLoop (length rs) s.tally s.store.syncs (sync_records env vendor rs s)
  unfolding sync_records
  sync_records-IsLoop vendor [] s = (omega arith, omega arith, refl)
  sync_records-IsLoop vendor (r ∷ rs) s =
      and_then-IsLoop (length rs) s (sync_record env vendor r s) (sync_records env vendor rs)
        (sync_record-IsLoop vendor r s) (sync_records-IsLoop vendor rs)

  -- Candidates leave the counts and the syncs as they are.
  abbrev pub IsQuiet : Tally → List IntelligenceSync → Turn env → Type 0
  IsQuiet before syncs (_, after) = (after.tally ≡ before) × (after.store.syncs ≡ syncs)

  save_candidate-IsQuiet :
      (s : SyncState F) (r : Result RecordFailure (Option (ValidationCandidate F)))
      → IsQuiet s.tally s.store.syncs (save_candidate env s r)
  unfolding upsert_validation_candidate
  save_candidate-IsQuiet s (err e) = (refl, refl)
  save_candidate-IsQuiet s (ok none) = (refl, refl)
  save_candidate-IsQuiet s (ok (some c)) = (refl, refl)

  save_classified-IsQuiet :
      (v : Vulnerability F) (s : SyncState F)
      → IsQuiet s.tally s.store.syncs (ok tt, save_classified env v s)
  unfolding upsert_vulnerability
  save_classified-IsQuiet v s =
      elim (Bool-cases (same_domain v.domain_guess (classify_domain v).domain)) [
        | inl same ↦ rw same (refl, refl)
        | inr other ↦ rw other (refl, refl)
      ]

  regenerate_for-IsQuiet :
      (s : SyncState F) (r : Result RowFailure (Option (Vulnerability F)))
      → IsQuiet s.tally s.store.syncs (regenerate_for env s r)
  regenerate_for-IsQuiet s (err e) = (refl, refl)
  regenerate_for-IsQuiet s (ok none) = (refl, refl)
  regenerate_for-IsQuiet s (ok (some v)) =
      let (tally, syncs) = save_classified-IsQuiet v s in
      let (tally', syncs') = save_candidate-IsQuiet (save_classified env v s) (
        generate_candidate env.format (classified env v) env.experiment_ids_by_cve env.weights
          (env.clock s.clock_calls)) in
      (tally' ∙ tally, syncs' ∙ syncs)

  regenerate_candidate-IsQuiet :
      (id : String) (s : SyncState F)
      → IsQuiet s.tally s.store.syncs (regenerate_candidate env id s)
  unfolding regenerate_candidate
  regenerate_candidate-IsQuiet id s =
      regenerate_for-IsQuiet s (get_vulnerability env.python env.pydantic id s.store)

  and_then-IsQuiet :
      (s : SyncState F) (t : Turn env) (next : SyncState F → Turn env)
      → IsQuiet s.tally s.store.syncs t
      → ((after : SyncState F) → IsQuiet after.tally after.store.syncs (next after))
      → IsQuiet s.tally s.store.syncs (and_then env t next)
  and_then-IsQuiet s (err e, after) next h k = h
  and_then-IsQuiet s (ok _, after) next (tally, syncs) k =
      let (tally', syncs') = k after in (tally' ∙ tally, syncs' ∙ syncs)

  pub regenerate_candidates-IsQuiet :
      (ids : List String) (s : SyncState F)
      → IsQuiet s.tally s.store.syncs (regenerate_candidates env ids s)
  unfolding regenerate_candidates
  regenerate_candidates-IsQuiet [] s = (refl, refl)
  regenerate_candidates-IsQuiet (id ∷ ids) s =
      and_then-IsQuiet s (regenerate_candidate env id s) (regenerate_candidates env ids)
        (regenerate_candidate-IsQuiet id s) (regenerate_candidates-IsQuiet ids)

  pub regeneration-IsQuiet :
      (b : Bool) (s : SyncState F) → IsQuiet s.tally s.store.syncs (regeneration env b s)
  regeneration-IsQuiet false s = (refl, refl)
  regeneration-IsQuiet true s = found env.discovery_error
    where
      found : (x : Option String) → IsQuiet s.tally s.store.syncs (after_discovery env x s)
      found (some x) = (refl, refl)
      found none = regenerate_candidates-IsQuiet (env.set_order s.tally.touched_cve_ids) s
