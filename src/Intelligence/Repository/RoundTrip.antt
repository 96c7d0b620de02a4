-- ===== src/Intelligence/Repository/RoundTrip.antt =====
-- What is written to the table of vulnerabilities is what is read from it.
use zero_shield.Base.{
  ℕ, ◌≡◌, refl, ◌∙◌, ap, String, Bool, true, false, Bool-cases, inl, inr, Option, none, some, List,
  [], ◌∷◌, map, All, str_eq, eq_iff, eq_refl,
}
use zero_shield.Base.Floats.{Float}
use zero_shield.Base.Effects.{ok}
use zero_shield.Base.Results.{◌>>=◌}
use zero_shield.Models.Enums.{Domain, ZeroClickRelevance}
use zero_shield.Models.Experiment.{nonempty}
use zero_shield.Intelligence.Models.{
  VulnerabilitySourceName, source_value, Vulnerability, vulnerability_validates,
}
use zero_shield.Intelligence.Normalisation.{Python}
use zero_shield.Intelligence.Dedup.{Pydantic, date_text}
use zero_shield.Intelligence.Repository.Rows.{
  VulnerabilityRow, domain_text, domain_of, relevance_column, relevance_of, source_of, when_text,
  read_all, read_date, read_url, to_row, from_row,
}
use zero_shield.Intelligence.Repository.{
  Store, find_row, put_row, read_found, get_vulnerability, upsert_vulnerability,
}

-- `date.fromisoformat` reads what `isoformat` writes.
pub record ReadsDates {F : Type 0} (py : Python F) : Type 0 where
  pub written : (d : ℕ) → nonempty (py.str_date d) ≡ true
  pub read : (d : ℕ) → py.date_fromisoformat (py.str_date d) ≡ some d

domain_read : (d : Option Domain) → when_text domain_of (domain_text d) ≡ ok d
domain_read none = refl
domain_read (some Domain.vpn) = refl
domain_read (some Domain.telecom) = refl

relevance_read :
    (z : Option ZeroClickRelevance) → when_text relevance_of (relevance_column z) ≡ ok z
relevance_read none = refl
relevance_read (some ZeroClickRelevance.high) = refl
relevance_read (some ZeroClickRelevance.medium) = refl
relevance_read (some ZeroClickRelevance.low) = refl

source_read : (s : VulnerabilitySourceName) → source_of (source_value s) ≡ ok s
source_read VulnerabilitySourceName.nvd = refl
source_read VulnerabilitySourceName.cisa_kev = refl
source_read VulnerabilitySourceName.epss = refl
source_read VulnerabilitySourceName.github_advisory = refl
source_read VulnerabilitySourceName.manual_import = refl

sources_read :
    (xs : List VulnerabilitySourceName) → read_all source_of (map source_value xs) ≡ ok xs
sources_read [] = refl
sources_read (x ∷ xs) = rw (source_read x, sources_read xs) refl

module _ {R : Type 0} (p : R → Bool) (change : R → R) (new : R) where
  -- What is put under a key is found there.
  pub find_row-put_row :
      p new ≡ true
      → ((r : R) → change r ≡ new)
      → (rows : List R) → find_row p (put_row p change new rows) ≡ some new
  find_row-put_row h k [] = rw h refl
  find_row-put_row h k (r ∷ rows) = elim (Bool-cases (p r)) [
    | inl here ↦ rw (here, k r, h) refl
    | inr there ↦ rw (there, there, find_row-put_row h k rows) refl
  ]

  -- What is put under another key is not found there.
  pub find_row-other :
      (q : R → Bool)
      → q new ≡ false
      → ((r : R) → p r ≡ true → (q r ≡ false) × (q (change r) ≡ false))
      → (rows : List R) → find_row q (put_row p change new rows) ≡ find_row q rows
  find_row-other q h k [] = rw h refl
  find_row-other q h k (r ∷ rows) = elim (Bool-cases (p r)) [
    | inl here ↦ let (before, after) = k r here in rw (here, after, before) refl
    | inr there ↦ rw (there, find_row-other q h k rows) refl
  ]

module _ {F : Type 0} (pd : Pydantic F) where
  -- Each of the URLs is one that `HttpUrl` writes, which it reads as it is.
  abbrev pub AreUrls : List String → Type 0
  AreUrls = All (λ u. pd.http_url u ≡ some u)

module _ {F : Type 0} ⦃f : Float F⦄ (py : Python F) (pd : Pydantic F) where
  references_read : (us : List String) → AreUrls pd us → read_all (read_url py pd) us ≡ ok us
  references_read [] h = refl
  references_read (u ∷ us) (h, hs) = rw (h, references_read us hs) refl

  date_read : ReadsDates py → (d : Option ℕ) → read_date py pd (date_text py d) ≡ ok d
  date_read dates none = refl
  date_read dates (some d) = rw (dates.written d, dates.read d) refl

  pub from_row-to_row :
      ReadsDates py
      → (v : Vulnerability F) → vulnerability_validates v ≡ true
      → AreUrls pd v.references
      → from_row py pd (to_row py v) ≡ ok v
  unfolding from_row to_row
  from_row-to_row dates v valid urls =
      rw
        (
          date_read dates v.epss_date,
          date_read dates v.kev_date_added,
          date_read dates v.kev_due_date,
          domain_read v.domain_guess,
          relevance_read v.zero_click_relevance,
          sources_read v.sources,
          references_read v.references urls,
          valid,
        )
        refl

  -- A vulnerability that validates, and whose URLs are as `HttpUrl` writes them, is read from the
  -- table as it was written; every other vulnerability is read as before.
  pub get_vulnerability-upsert_vulnerability :
      ReadsDates py
      → (v : Vulnerability F) (store : Store F) → vulnerability_validates v ≡ true
      → AreUrls pd v.references
      → (get_vulnerability py pd v.cve_id (upsert_vulnerability py v store) ≡ ok (some v))
        × ((id : String)
            → str_eq v.cve_id id ≡ false
            → get_vulnerability py pd id (upsert_vulnerability py v store)
              ≡ get_vulnerability py pd id store)
  unfolding get_vulnerability upsert_vulnerability to_row
  get_vulnerability-upsert_vulnerability dates v store valid urls =
      let row = to_row py v in
      let p = λ (r : VulnerabilityRow F). str_eq r.cve_id v.cve_id in
      let written =
        find_row-put_row p (λ _. row) row (eq_refl v.cve_id) (λ _. refl) store.vulnerabilities in
      (
        ap (read_found py pd) written
            ∙ ap (λ r. r >>= λ w. ok (some w)) (from_row-to_row dates v valid urls),
        λ id other. ap (read_found py pd) (
            find_row-other p (λ _. row) row (λ r. str_eq r.cve_id id) other
              (λ r here. (rw ((eq_iff r.cve_id v.cve_id).0 here) other, other))
              store.vulnerabilities),
      )
