-- ===== src/Intelligence/Repository.antt =====
-- src/zeroshield/intelligence/repository.py: the tables as lists of rows, in the order of their
-- insertion. Only the row of a vulnerability keeps its columns as texts (Rows); in the other tables a
-- date stands for its text and a member for its value. A call is one transaction, and the database
-- does not fail.
pub mod Rows
pub mod RoundTrip
use zero_shield.Base.{
  ℕ, suc, String, Bool, true, false, ◌&&◌, Option, none, some, List, [], ◌∷◌, ◌++◌, length, ◌==◌,
  leb, str_eq, is_some, if◌then◌else◌,
}
use zero_shield.Base.Floats.{Float}
use zero_shield.Base.Effects.{Result, ok, err}
use zero_shield.Base.Results.{◌>>=◌}
use zero_shield.Models.Enums.{Domain, eq_domain}
use zero_shield.Intelligence.Models.{
  VulnerabilitySourceRecord, VulnerabilityHistoryEntry, VendorAdvisory, Vulnerability,
  ValidationCandidate, IntelligenceSync,
}
use zero_shield.Intelligence.Normalisation.{Python}
use zero_shield.Intelligence.Dedup.{Pydantic, eq_source}
use Rows.{VulnerabilityRow, RowFailure, to_row, from_row}

pub record Product : Type 0 where
  pub id : ℕ
  pub vendor : String
  pub name : String

pub record AffectedProduct : Type 0 where
  pub cve_id : String
  pub product_id : ℕ
  pub version_range : Option String

pub record Store (F : Type 0) : Type 0 where
  pub vulnerabilities : List (VulnerabilityRow F)
  pub source_records : List (VulnerabilitySourceRecord F)
  pub history : List VulnerabilityHistoryEntry
  pub products : List Product
  pub affected_products : List AffectedProduct
  pub advisories : List VendorAdvisory
  pub candidates : List (ValidationCandidate F)
  pub syncs : List IntelligenceSync

module _ {R : Type 0} (matches : R → Bool) where
  -- The row of a key, if there is one
  abbrev pub find_row : List R → Option R
  find_row [] = none
  find_row (r ∷ rs) = let below = find_row rs in if matches r then some r else below

  -- The row of a key is changed, or a new one is added.
  abbrev pub put_row : (R → R) → R → List R → List R
  put_row change new [] = new ∷ []
  put_row change new (r ∷ rs) =
      let below = put_row change new rs in if matches r then change r ∷ rs else r ∷ below

-- `domain == None` is asked as IS NULL.
abbrev pub same_domain : Option Domain → Option Domain → Bool
same_domain none none = true
same_domain (some a) (some b) = eq_domain a b
same_domain _ _ = false

-- The product of that vendor and name, which is added if it is not there
abbrev pub product_id : String → String → List Product → ℕ × List Product
product_id vendor name products =
    elim (find_row (λ p. str_eq p.vendor vendor && str_eq p.name name) products) [
      | some p ↦ (p.id, products)
      | none ↦
          let id = suc (length products) in
          (id, products ++ record { id = id; vendor = vendor; name = name } ∷ [])
    ]

abbrev pub link_version : Option String → AffectedProduct → AffectedProduct
link_version none link = link
link_version (some range) link = record link { version_range = some range }

module _ {F : Type 0} ⦃f : Float F⦄ (py : Python F) (pd : Pydantic F) where
  abbrev pub read_found : Option (VulnerabilityRow F) → Result RowFailure (Option (Vulnerability F))
  read_found none = ok none
  read_found (some row) = from_row py pd row >>= λ v. ok (some v)

  unfoldable pub get_vulnerability : String → Store F → Result RowFailure (Option (Vulnerability F))
  get_vulnerability cve_id store =
      read_found (find_row (λ row. str_eq row.cve_id cve_id) store.vulnerabilities)

module _ {F : Type 0} ⦃f : Float F⦄ (py : Python F) where
  unfoldable pub upsert_vulnerability : Vulnerability F → Store F → Store F
  upsert_vulnerability v store = record store {
    vulnerabilities =
        put_row (λ row. str_eq row.cve_id v.cve_id) (λ _. to_row py v) (to_row py v)
          store.vulnerabilities;
  }

module _ {F : Type 0} where
  -- The time at which a source was first seen is kept.
  unfoldable pub upsert_source_record : VulnerabilitySourceRecord F → Store F → Store F
  upsert_source_record r store = record store {
    source_records =
        put_row (λ old. str_eq old.cve_id r.cve_id && eq_source old.source r.source)
          (λ old. record r { first_seen_at = old.first_seen_at }) r store.source_records;
  }

  unfoldable pub append_history : List VulnerabilityHistoryEntry → Store F → Store F
  append_history entries store = record store { history = store.history ++ entries }

  unfoldable pub upsert_vendor_advisory : VendorAdvisory → Store F → Store F
  upsert_vendor_advisory a store = record store {
    advisories = put_row (λ old. str_eq old.advisory_id a.advisory_id) (λ _. a) a store.advisories;
  }

  unfoldable pub upsert_validation_candidate : ValidationCandidate F → Store F → Store F
  upsert_validation_candidate c store = record store {
    candidates =
        put_row (λ old. str_eq old.cve_id c.cve_id && same_domain old.domain c.domain) (λ _. c) c
          store.candidates;
  }

  unfoldable pub save_sync : IntelligenceSync → Store F → Store F
  save_sync s store = record store {
    syncs = put_row (λ old. str_eq old.sync_id s.sync_id) (λ _. s) s store.syncs;
  }

  unfoldable pub get_sync : String → Store F → Option IntelligenceSync
  get_sync id store = find_row (λ s. str_eq s.sync_id id) store.syncs

  unfoldable pub upsert_products :
      String → List (String × String × Option String) → Store F → Store F
  upsert_products cve_id [] store = store
  upsert_products cve_id ((vendor, name, range) ∷ rest) store =
      let (id, products) = product_id vendor name store.products in
      upsert_products cve_id rest (record store {
        products = products;
        affected_products =
            put_row (λ l. str_eq l.cve_id cve_id && l.product_id == id) (link_version range)
              (record { cve_id = cve_id; product_id = id; version_range = range })
              store.affected_products;
      })
