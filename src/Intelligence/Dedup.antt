-- ===== src/Intelligence/Dedup.antt =====
-- src/zeroshield/intelligence/dedup.py: one contribution is merged into what is known of its CVE.
-- What pydantic makes of a value where a float or a URL is wanted is an argument. A URL that was
-- read before is an `HttpUrl`, which equals no text, so `dict.fromkeys` keeps both.
mod Choices
mod Changes
pub mod Merged
pub mod Stable
pub mod Again
pub mod Twice
pub mod Kept
pub mod Safe
use Prim.Native.String.{◌++◌ as append_text}
use zero_shield.Base.{
  ℕ, String, Bool, true, false, not, ◌&&◌, ◌||◌, Option, none, some, List, [], ◌∷◌, ◌++◌, ltb, ◌==◌,
  keep, any_of, str_eq, is_some, or_else, if◌then◌else◌,
}
use zero_shield.Base.Floats.{Float}
use zero_shield.Base.Effects.{Result, ok, err}
use zero_shield.Base.Results.{◌>>=◌, ◌>>◌, require}
use zero_shield.Base.Sorted.{sorted_set}
use zero_shield.Models.Enums.{ZeroClickRelevance}
use zero_shield.Models.Experiment.{nonempty}
use zero_shield.Models.Values.{Value, null, bool, int, float, str, list, dict, eq_value}
use zero_shield.Intelligence.Models.{
  VulnerabilitySourceName, VulnerabilitySourceRecord, VulnerabilityHistoryEntry, Vulnerability,
  vulnerability_validates, source_record_validates,
}
use zero_shield.Intelligence.Normalisation.{
  Python, NormalisedContribution, RecordFailure, validation_error,
}
unfoldable pub use Choices.*
unfoldable pub use Changes.*

module _ {F : Type 0} where
  abbrev pub first_seen : Option (Vulnerability F) → ℕ → ℕ
  first_seen none now = now
  first_seen (some v) now = v.first_seen_at

  -- The fields of the merged view, given those that pydantic has to read
  unfoldable pub merged_fields :
      Option (Vulnerability F)
      → NormalisedContribution F
      → ℕ
      → Option String
      → Option F
      → Option String
      → List String
      → Vulnerability F
  merged_fields existing c now description cvss_score cvss_vector references = record {
    cve_id = c.cve_id;
    description = description;
    published_at = earliest (known (λ v. v.published_at) existing) c.published_at;
    last_modified_at = latest (known (λ v. v.last_modified_at) existing) c.last_modified_at;
    cvss_score = cvss_score;
    cvss_vector = cvss_vector;
    cvss_version =
        if wins_cvss existing c then c.cvss_version else known (λ v. v.cvss_version) existing;
    epss_score = if is_some c.epss_score then c.epss_score else known (λ v. v.epss_score) existing;
    epss_percentile =
        if is_some c.epss_score then c.epss_percentile else known (λ v. v.epss_percentile) existing;
    epss_date = if is_some c.epss_score then c.epss_date else known (λ v. v.epss_date) existing;
    kev_listed = known_kev existing || lists_kev c;
    kev_date_added =
        if lists_kev c
        then or_date c.kev_date_added (known (λ v. v.kev_date_added) existing)
        else known (λ v. v.kev_date_added) existing;
    kev_due_date =
        if lists_kev c
        then or_date c.kev_due_date (known (λ v. v.kev_due_date) existing)
        else known (λ v. v.kev_due_date) existing;
    kev_known_ransomware =
        if lists_kev c
        then or_text c.kev_known_ransomware (known (λ v. v.kev_known_ransomware) existing)
        else known (λ v. v.kev_known_ransomware) existing;
    cwe_ids = sorted_set (known_list (λ v. v.cwe_ids) existing ++ c.cwe_ids);
    vendor = if wins_vendor existing c then c.vendor else known (λ v. v.vendor) existing;
    domain_guess = known (λ v. v.domain_guess) existing;
    zero_click_relevance =
        if is_some c.zero_click_relevance
        then c.zero_click_relevance
        else known (λ v. v.zero_click_relevance) existing;
    references = references;
    sources = sorted_sources (known_list (λ v. v.sources) existing ++ c.source ∷ []);
    first_seen_at = first_seen existing now;
    last_updated_at = now;
  }

  abbrev pub source_fields :
      NormalisedContribution F
      → ℕ
      → Option String
      → Option String
      → Option F
      → Option String
      → VulnerabilitySourceRecord F
  source_fields c now source_identifier description cvss_score cvss_vector = record {
    cve_id = c.cve_id;
    source = c.source;
    source_identifier = source_identifier;
    description = description;
    published_at = c.published_at;
    last_modified_at = c.last_modified_at;
    cvss_score = cvss_score;
    cvss_vector = cvss_vector;
    cvss_version = c.cvss_version;
    epss_score = c.epss_score;
    epss_percentile = c.epss_percentile;
    kev_listed = c.kev_listed;
    kev_date_added = c.kev_date_added;
    kev_due_date = c.kev_due_date;
    cwe_ids = c.cwe_ids;
    vendor = c.vendor;
    references = c.references;
    first_seen_at = now;
    last_seen_at = now;
  }

module _ {F : Type 0} (pd : Pydantic F) where
  -- `str | None`
  abbrev pub optional_text : Value F → Result RecordFailure (Option String)
  optional_text null = ok none
  optional_text (str s) = ok (some s)
  optional_text _ = err validation_error

  -- `float | None`
  abbrev pub optional_float : Value F → Result RecordFailure (Option F)
  optional_float null = ok none
  optional_float v = elim (pd.to_float v) [ none ↦ err validation_error | some x ↦ ok (some x) ]

  -- `list[HttpUrl]`
  abbrev pub read_urls : List String → Result RecordFailure (List String)
  read_urls [] = ok []
  read_urls (s ∷ ss) =
      let rest = read_urls ss in
      elim (pd.http_url s) [ none ↦ err validation_error | some u ↦ rest >>= λ us. ok (u ∷ us) ]

  module _ ⦃f : Float F⦄ where
    -- The merged view, whose description and CVSS fields are those of the winner
    unfoldable pub merged_vulnerability :
        Option (Vulnerability F)
        → NormalisedContribution F
        → ℕ
        → Result RecordFailure (Vulnerability F)
    merged_vulnerability existing c now = do
      description ←
          if wins_description existing c
          then optional_text c.description
          else ok (known (λ v. v.description) existing)
      cvss_score ←
          if wins_cvss existing c
          then optional_float c.cvss_score
          else ok (known (λ v. v.cvss_score) existing)
      cvss_vector ←
          if wins_cvss existing c
          then optional_text c.cvss_vector
          else ok (known (λ v. v.cvss_vector) existing)
      new_urls ← read_urls (distinct_after [] c.references)
      let v =
          merged_fields existing c now description cvss_score cvss_vector
            (distinct_after [] (known_list (λ v. v.references) existing) ++ new_urls)
      require (vulnerability_validates v) validation_error
      ok v

    -- `VulnerabilitySourceRecord(...)`
    unfoldable pub source_record :
        NormalisedContribution F → ℕ → Result RecordFailure (VulnerabilitySourceRecord F)
    source_record c now = do
      source_identifier ← optional_text c.source_identifier
      description ← optional_text c.description
      cvss_score ← optional_float c.cvss_score
      cvss_vector ← optional_text c.cvss_vector
      let r = source_fields c now source_identifier description cvss_score cvss_vector
      require (source_record_validates r) validation_error
      ok r

    unfoldable pub merge :
        Python F
        → Option (Vulnerability F)
        → NormalisedContribution F
        → ℕ
        → Result RecordFailure (MergeResult F)
    merge py existing c now = do
      v ← merged_vulnerability existing c now
      r ← source_record c now
      ok (record {
        vulnerability = v;
        history = changes py existing c now;
        source_record = r;
        products = c.products;
        is_new = not (is_some existing);
      })
