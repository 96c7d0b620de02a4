-- ===== src/Intelligence/Tests.antt =====
-- One CVE that CISA KEV lists, and what the code makes of it.
use zero_shield.Base.{
  ℕ, zero, suc, ◌-◌, ◌≡◌, refl, String, true, false, Option, none, some, [], ◌∷◌, if◌then◌else◌,
}
use zero_shield.Base.Int.{pos}
use zero_shield.Base.Floats.{Fixed, fixed_float}
use zero_shield.Base.Fixed.{Fixed-IsOrderedFloat, Fixed-IsScoreFloat}
use zero_shield.Base.Sorted.{sorted_set}
use zero_shield.Models.Experiment.{nonempty}
use zero_shield.Models.Patterns.{is_cve_id, matches_cve_id}
use zero_shield.Models.Values.{
  Value, int, float, str, list, nil, cons, Fields, end, field, eq_value,
}
use zero_shield.Intelligence.Texts.{find_urls, has_letter}
use zero_shield.Intelligence.Models.{
  VulnerabilitySourceName, Vulnerability, VulnerabilityHistoryEntry, VulnerabilitySourceRecord,
  vulnerability_validates, source_record_validates,
}
use zero_shield.Intelligence.Normalisation.{
  Python, RawIntelligenceRecord, NormalisedContribution, NormalisationFailure, no_contribution,
  require_cve_id, parse_date, normalise,
}
use zero_shield.Intelligence.Normalisation.Feeds.{normalise_cisa_kev}
use zero_shield.Intelligence.Normalisation.Raises.{
  IsOwned, failure_of, normalise-IsOwned, normalise_cisa_kev-failure,
}
use zero_shield.Intelligence.Dedup.{
  Pydantic, MergeResult, better, changes, merged_fields, merged_vulnerability, source_record, merge,
}
use zero_shield.Intelligence.Dedup.Twice.{IsRepeated, merge-IsRepeated}
use zero_shield.Intelligence.Dedup.Kept.{IsKept, merge-IsKept}

-- A day is written as one more letter than its number.
abbrev pub written : ℕ → String
written zero = "d"
written (suc n) = String.◌∷◌ "d" (written n)

abbrev pub letter_count : String → ℕ
letter_count String.[] = 0
letter_count (String.◌∷◌ c s) = suc (letter_count s)

abbrev pub python : Python Fixed
python = record {
  datetime_fromisoformat = λ s. none;
  date_fromisoformat = λ s. if nonempty s then some (letter_count s - 1) else none;
  float_of_text = λ s. none;
  float_of_int = λ n. some n;
  str_value = λ v. "value";
  str_date = written;
}

abbrev pub pydantic : Pydantic Fixed
pydantic = record {
  to_float = λ v. elim v [ float x ↦ some x | _ ↦ none ];
  http_url = λ s. if nonempty s then some s else none;
}

abbrev kev_fields : Value Fixed → Fields Fixed
kev_fields notes = field "cveID" (str "CVE-2025-0282") (
    field "shortDescription" (str "Overflow in Ivanti Connect Secure") (
      field "dateAdded" (str "ddd") (
        field "vendorProject" (str "Ivanti")
          (field "notes" notes (field "cwes" (list (cons (str "CWE-121") nil)) end)))))

abbrev pub kev_record : Value Fixed → RawIntelligenceRecord Fixed
kev_record notes = record {
  source = VulnerabilitySourceName.cisa_kev;
  external_id = "CVE-2025-0282";
  raw = kev_fields notes;
}

abbrev pub contribution : NormalisedContribution Fixed
contribution = record (no_contribution "CVE-2025-0282" VulnerabilitySourceName.cisa_kev) {
  description = str "Overflow in Ivanti Connect Secure";
  kev_listed = some true;
  kev_date_added = some 2;
  cwe_ids = "CWE-121" ∷ [];
  vendor = some "Ivanti";
  references = "https://a.example/x" ∷ [];
}

normalise-IsOwned_example : IsOwned VulnerabilitySourceName.cisa_kev contribution
unfolding normalise normalise_cisa_kev require_cve_id parse_date find_urls has_letter matches_cve_id
normalise-IsOwned_example =
    normalise-IsOwned python (kev_record (str "see https://a.example/x")) contribution refl

-- Notes that are a number
normalise_cisa_kev-failure_example :
    failure_of (normalise_cisa_kev python (kev_record (int (pos 3))))
    ≡ some NormalisationFailure.type_error
unfolding matches_cve_id
normalise_cisa_kev-failure_example =
    normalise_cisa_kev-failure python (kev_record (int (pos 3))) "CVE-2025-0282" refl refl

abbrev pub view : Vulnerability Fixed
view = record {
  cve_id = "CVE-2025-0282";
  description = some "Overflow in Ivanti Connect Secure";
  published_at = none;
  last_modified_at = none;
  cvss_score = none;
  cvss_vector = none;
  cvss_version = none;
  epss_score = none;
  epss_percentile = none;
  epss_date = none;
  kev_listed = true;
  kev_date_added = some 2;
  kev_due_date = none;
  kev_known_ransomware = none;
  cwe_ids = "CWE-121" ∷ [];
  vendor = some "Ivanti";
  domain_guess = none;
  zero_click_relevance = none;
  references = "https://a.example/x" ∷ [];
  sources = VulnerabilitySourceName.cisa_kev ∷ [];
  first_seen_at = 5;
  last_updated_at = 5;
}

abbrev change : String → Option String → String → VulnerabilityHistoryEntry
change name old new = record {
  cve_id = "CVE-2025-0282";
  source = VulnerabilitySourceName.cisa_kev;
  field = name;
  old_value = old;
  new_value = some new;
  observed_at = 5;
}

abbrev kev_source : VulnerabilitySourceRecord Fixed
kev_source = record {
  cve_id = "CVE-2025-0282";
  source = VulnerabilitySourceName.cisa_kev;
  source_identifier = none;
  description = some "Overflow in Ivanti Connect Secure";
  published_at = none;
  last_modified_at = none;
  cvss_score = none;
  cvss_vector = none;
  cvss_version = none;
  epss_score = none;
  epss_percentile = none;
  kev_listed = some true;
  kev_date_added = some 2;
  kev_due_date = none;
  cwe_ids = "CWE-121" ∷ [];
  vendor = some "Ivanti";
  references = "https://a.example/x" ∷ [];
  first_seen_at = 5;
  last_seen_at = 5;
}

abbrev merged : MergeResult Fixed
merged = record {
  vulnerability = view;
  history =
      change "description" none "value"
      ∷ change "kev_listed" (some "False") "True"
      ∷ change "kev_date_added" none "ddd"
      ∷ [];
  source_record = kev_source;
  products = [];
  is_new = true;
}

merge-IsRepeated_example : IsRepeated pydantic python contribution 9 view
unfolding merge merged_vulnerability source_record changes merged_fields better sorted_set
    vulnerability_validates source_record_validates is_cve_id eq_value
merge-IsRepeated_example = merge-IsRepeated pydantic python none contribution 5 9 merged refl

-- Another description of the CVE, from NVD
abbrev revised : NormalisedContribution Fixed
revised = record (no_contribution "CVE-2025-0282" VulnerabilitySourceName.nvd) {
  description = str "Buffer overflow before authentication";
}

abbrev revision : MergeResult Fixed
revision = record {
  vulnerability = record view {
    sources = VulnerabilitySourceName.cisa_kev ∷ VulnerabilitySourceName.nvd ∷ [];
    last_updated_at = 7;
  };
  history = [];
  source_record = record {
    cve_id = "CVE-2025-0282";
    source = VulnerabilitySourceName.nvd;
    source_identifier = none;
    description = some "Buffer overflow before authentication";
    published_at = none;
    last_modified_at = none;
    cvss_score = none;
    cvss_vector = none;
    cvss_version = none;
    epss_score = none;
    epss_percentile = none;
    kev_listed = none;
    kev_date_added = none;
    kev_due_date = none;
    cwe_ids = [];
    vendor = none;
    references = [];
    first_seen_at = 7;
    last_seen_at = 7;
  };
  products = [];
  is_new = false;
}

merge-IsKept_example : IsKept VulnerabilitySourceName.nvd view revision.vulnerability
unfolding merge merged_vulnerability source_record changes merged_fields better sorted_set
    vulnerability_validates source_record_validates is_cve_id eq_value
merge-IsKept_example = merge-IsKept pydantic view revised 7 python revision refl
