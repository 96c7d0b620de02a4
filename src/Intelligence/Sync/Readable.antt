-- ===== src/Intelligence/Sync/Readable.antt =====
-- What a sync writes to the table of vulnerabilities can be read again.
use zero_shield.Base.{
  ◌≡◌, refl, sym, ◌∙◌, ap, subst, String, Bool, true, false, Bool-cases, inl, inr, Option, none,
  some, List, [], ◌∷◌, All, str_eq,
}
use zero_shield.Base.Floats.{Float}
use zero_shield.Base.Effects.{Result, ok, err}
use zero_shield.Base.Results.{◌>>=◌, Ensures}
use zero_shield.Models.Experiment.{nonempty_list}
use zero_shield.Intelligence.Models.{VendorAdvisory, Vulnerability}
use zero_shield.Intelligence.Normalisation.{
  RawIntelligenceRecord, NormalisedContribution, RecordFailure, Normal, failing, normalise,
}
use zero_shield.Intelligence.Normalisation.Advisory.{normalise_vendor_advisory}
use zero_shield.Intelligence.Dedup.{MergeResult, merge}
use zero_shield.Intelligence.Dedup.Safe.{
  IsCounted, IsStable, IsReadable, IsReadableKnown, merge-IsCounted, merge-IsReadable,
}
use zero_shield.Intelligence.Repository.Rows.{RowFailure, VulnerabilityRow, to_row, from_row}
use zero_shield.Intelligence.Repository.RoundTrip.{ReadsDates, from_row-to_row}
use zero_shield.Intelligence.Repository.{
  Store, find_row, put_row, read_found, get_vulnerability, upsert_vulnerability,
  upsert_source_record, append_history, upsert_products, upsert_vendor_advisory,
}
use zero_shield.Intelligence.Sync.{
  is_caught, SyncState, Surroundings, Turn, saves, save_merged, merge_into, merge_in, take_advisory,
  take_contribution, take_record,
}

put_row-All :
    {R : Type 0} (P : R → Type 0) (p : R → Bool) (new : R) (rows : List R)
    → P new
    → All P rows
    → All P (put_row p (λ _. new) new rows)
put_row-All P p new [] h k = (h, tt)
put_row-All P p new (r ∷ rows) h (pr, k) = elim (Bool-cases (p r)) [
  | inl here ↦ rw here (h, k)
  | inr there ↦ rw there (pr, put_row-All P p new rows h k)
]

find_row-All :
    {R : Type 0} (P : R → Type 0) (p : R → Bool) (rows : List R) (r : R)
    → All P rows
    → find_row p rows ≡ some r
    → P r
find_row-All P p [] r h k = cc
find_row-All P p (q ∷ rows) r (pq, h) k = elim (Bool-cases (p q)) [
  | inl here ↦
      let first : some q ≡ some r = rw here at k in let same : q ≡ r = cc in subst P same pq
  | inr there ↦ find_row-All P p rows r h (rw there at k)
]

vulnerabilities-upsert_products :
    {F : Type 0} (id : String) (ps : List (String × String × Option String)) (store : Store F)
    → (upsert_products id ps store).vulnerabilities ≡ store.vulnerabilities
unfolding upsert_products
vulnerabilities-upsert_products id [] store = refl
vulnerabilities-upsert_products id ((vendor, name, range) ∷ ps) store =
    vulnerabilities-upsert_products id ps _

module _ {F : Type 0} ⦃f : Float F⦄ (env : Surroundings F) where
  -- A row that was written for a view that can be read
  abbrev pub IsReadableRow : VulnerabilityRow F → Type 0
  IsReadableRow row =
      (v : Vulnerability F) × (row ≡ to_row env.python v) × IsReadable env.pydantic v

  abbrev pub AreReadable : Store F → Type 0
  AreReadable store = All IsReadableRow store.vulnerabilities

  -- What is looked for can be read, if it is there.
  abbrev pub IsFound : Result RowFailure (Option (Vulnerability F)) → Type 0
  IsFound (ok existing) = IsReadableKnown env.pydantic existing
  IsFound (err e) = ⊥

  read_found-IsFound :
      ReadsDates env.python
      → (found : Option (VulnerabilityRow F))
      → ((row : VulnerabilityRow F) → found ≡ some row → IsReadableRow row)
      → IsFound (read_found env.python env.pydantic found)
  read_found-IsFound dates none h = tt
  read_found-IsFound dates (some row) h =
      let (v, written, readable) = h row refl in
      let read : from_row env.python env.pydantic row ≡ ok v =
        ap (from_row env.python env.pydantic) written
        ∙ from_row-to_row env.python env.pydantic dates v readable.0 readable.1 in
      subst (λ r. IsFound (r >>= λ w. ok (some w))) (sym read) readable

  pub get_vulnerability-IsFound :
      ReadsDates env.python
      → (id : String) (store : Store F) → AreReadable store
      → IsFound (get_vulnerability env.python env.pydantic id store)
  unfolding get_vulnerability
  get_vulnerability-IsFound dates id store h =
      read_found-IsFound dates (find_row (λ row. str_eq row.cve_id id) store.vulnerabilities)
        (λ row k.
          find_row-All IsReadableRow (λ r. str_eq r.cve_id id) store.vulnerabilities row h k)

  pub upsert-AreReadable :
      (v : Vulnerability F) (store : Store F)
      → IsReadable env.pydantic v
      → AreReadable store
      → AreReadable (upsert_vulnerability env.python v store)
  unfolding upsert_vulnerability
  upsert-AreReadable v store h k =
      put_row-All IsReadableRow (λ row. str_eq row.cve_id v.cve_id) (to_row env.python v)
        store.vulnerabilities (v, refl, h) k

  saves-AreReadable :
      (id : String) (m : MergeResult F) (store : Store F)
      → IsReadable env.pydantic m.vulnerability
      → AreReadable store
      → AreReadable (saves env id m store)
  unfolding upsert_source_record append_history
  saves-AreReadable id m store h k = elim (Bool-cases (nonempty_list m.products)) [
    | inl some_products ↦ rw some_products (
        subst (All IsReadableRow) (sym (vulnerabilities-upsert_products id m.products _))
          (upsert-AreReadable m.vulnerability store h k))
    | inr no_products ↦ rw no_products (upsert-AreReadable m.vulnerability store h k)
  ]

  -- An attempt whose exception, if there is one, is counted; what is stored can be read.
  abbrev pub IsSafe : Turn env → Type 0
  IsSafe (ok _, s) = AreReadable s.store
  IsSafe (err e, s) = (is_caught e ≡ true) × AreReadable s.store

  save_merged-IsSafe :
      (c : NormalisedContribution F) (s : SyncState F) (m : Result RecordFailure (MergeResult F))
      → AreReadable s.store
      → IsCounted m
      → Ensures (λ r. IsReadable env.pydantic r.vulnerability) m
      → IsSafe (save_merged env c s m)
  save_merged-IsSafe c s (err e) h counted readable = (counted, h)
  save_merged-IsSafe c s (ok m) h counted readable = saves-AreReadable c.cve_id m s.store readable h

  -- The URLs of the contribution are such that `HttpUrl` reads what it writes for them as it is.
  abbrev pub AreStable : NormalisedContribution F → Type 0
  AreStable c = All (IsStable env.pydantic) c.references

  -- `normalise` of a record raises nothing but NormalisationError, or for a connector of advisories
  -- `normalise_vendor_advisory` nothing but that and ValidationError, and the URLs of what it
  -- yields can be read again.
  abbrev pub IsTame : Bool → RawIntelligenceRecord F → Type 0
  IsTame true r =
      IsCounted (normalise_vendor_advisory env.python r)
      × ((advisory : VendorAdvisory) (c : NormalisedContribution F)
          → normalise_vendor_advisory env.python r ≡ ok (advisory, some c)
          → AreStable c)
  IsTame false r =
      IsCounted (failing (normalise env.python r))
      × ((c : NormalisedContribution F) → normalise env.python r ≡ ok c → AreStable c)

  module _ (dates : ReadsDates env.python) where
    merge_into-IsSafe :
        (c : NormalisedContribution F) (s : SyncState F)
        (found : Result RowFailure (Option (Vulnerability F)))
        → AreReadable s.store
        → AreStable c
        → IsFound found
        → IsSafe (merge_into env c s found)
    merge_into-IsSafe c s (err e) h urls k = elim k [ ]
    merge_into-IsSafe c s (ok existing) h urls k =
        let now = env.clock s.clock_calls in
        save_merged-IsSafe c _ (merge env.pydantic env.python existing c now) h
          (merge-IsCounted env.pydantic env.python existing c now)
          (merge-IsReadable env.pydantic env.python existing c now urls k)

    merge_in-IsSafe :
        (c : NormalisedContribution F) (s : SyncState F)
        → AreReadable s.store
        → AreStable c
        → IsSafe (merge_in env c s)
    unfolding merge_in
    merge_in-IsSafe c s h urls =
        merge_into-IsSafe c s (get_vulnerability env.python env.pydantic c.cve_id s.store) h urls
          (get_vulnerability-IsFound dates c.cve_id s.store h)

    take_advisory-IsSafe :
        (s : SyncState F)
        (r : Result RecordFailure (VendorAdvisory × Option (NormalisedContribution F)))
        → AreReadable s.store
        → IsCounted r
        → ((advisory : VendorAdvisory) (c : NormalisedContribution F)
            → r ≡ ok (advisory, some c)
            → AreStable c)
        → IsSafe (take_advisory env s r)
    unfolding upsert_vendor_advisory
    take_advisory-IsSafe s (err e) h k urls = (k, h)
    take_advisory-IsSafe s (ok (advisory, none)) h k urls = h
    take_advisory-IsSafe s (ok (advisory, some c)) h k urls =
        merge_in-IsSafe c _ h (urls advisory c refl)

    take_contribution-IsSafe :
        (s : SyncState F) (r : Normal (NormalisedContribution F))
        → AreReadable s.store
        → IsCounted (failing r)
        → ((c : NormalisedContribution F) → r ≡ ok c → AreStable c)
        → IsSafe (take_contribution env s r)
    take_contribution-IsSafe s (err e) h k urls = (k, h)
    take_contribution-IsSafe s (ok c) h k urls = merge_in-IsSafe c s h (urls c refl)

    pub take_record-IsSafe :
        (vendor : Bool) (r : RawIntelligenceRecord F) (s : SyncState F)
        → AreReadable s.store
        → IsTame vendor r
        → IsSafe (take_record env vendor r s)
    unfolding take_record
    take_record-IsSafe true r s h (k, urls) =
        take_advisory-IsSafe s (normalise_vendor_advisory env.python r) h k urls
    take_record-IsSafe false r s h (k, urls) =
        take_contribution-IsSafe s (normalise env.python r) h k urls
