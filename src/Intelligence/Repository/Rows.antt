-- ===== src/Intelligence/Repository/Rows.antt =====
-- src/zeroshield/intelligence/repository.py and the columns of VulnerabilityORM in
-- src/zeroshield/db/models.py: how a vulnerability is written to a row and read from it. A time is
-- in UTC already, so `_as_utc` leaves it.
use zero_shield.Base.{
  ℕ, String, Bool, Option, none, some, List, [], ◌∷◌, map, str_eq, if◌then◌else◌,
}
use zero_shield.Base.Floats.{Float}
use zero_shield.Base.Effects.{Result, ok, err}
use zero_shield.Base.Results.{◌>>=◌, ◌>>◌, require}
use zero_shield.Models.Enums.{Domain, ZeroClickRelevance}
use zero_shield.Models.Experiment.{nonempty}
use zero_shield.Intelligence.Models.{
  VulnerabilitySourceName, source_value, Vulnerability, vulnerability_validates,
}
use zero_shield.Intelligence.Normalisation.{Python}
use zero_shield.Intelligence.Dedup.{Pydantic, relevance_value, date_text}

pub record VulnerabilityRow (F : Type 0) : Type 0 where
  pub cve_id : String
  pub description : Option String
  pub published_at : Option ℕ
  pub last_modified_at : Option ℕ
  pub cvss_score : Option F
  pub cvss_vector : Option String
  pub cvss_version : Option String
  pub epss_score : Option F
  pub epss_percentile : Option F
  pub epss_date : Option String
  pub kev_listed : Bool
  pub kev_date_added : Option String
  pub kev_due_date : Option String
  pub kev_known_ransomware : Option String
  pub cwe_ids : List String
  pub vendor : Option String
  pub domain_guess : Option String
  pub zero_click_relevance : Option String
  pub references : List String
  pub sources : List String
  pub first_seen_at : ℕ
  pub last_updated_at : ℕ

-- What reading a row raises: ValidationError of pydantic, or any other ValueError
pub data RowFailure : Type 0 where
  validation_error value_error : RowFailure

abbrev pub domain_value : Domain → String
domain_value Domain.vpn = "VPN"
domain_value Domain.telecom = "TELECOM"

abbrev pub domain_text : Option Domain → Option String
domain_text none = none
domain_text (some d) = some (domain_value d)

abbrev pub relevance_column : Option ZeroClickRelevance → Option String
relevance_column none = none
relevance_column (some z) = some (relevance_value z)

-- `Domain(text)`, `ZeroClickRelevance(text)` and `VulnerabilitySourceName(text)`
abbrev pub domain_of : String → Result RowFailure Domain
domain_of s =
    if str_eq s "VPN"
    then ok Domain.vpn
    else if str_eq s "TELECOM"
    then ok Domain.telecom
    else err RowFailure.value_error

abbrev pub relevance_of : String → Result RowFailure ZeroClickRelevance
relevance_of s =
    if str_eq s "High"
    then ok ZeroClickRelevance.high
    else if str_eq s "Medium"
    then ok ZeroClickRelevance.medium
    else if str_eq s "Low"
    then ok ZeroClickRelevance.low
    else err RowFailure.value_error

abbrev pub source_of : String → Result RowFailure VulnerabilitySourceName
source_of s =
    if str_eq s "nvd"
    then ok VulnerabilitySourceName.nvd
    else if str_eq s "cisa_kev"
    then ok VulnerabilitySourceName.cisa_kev
    else if str_eq s "epss"
    then ok VulnerabilitySourceName.epss
    else if str_eq s "github_advisory"
    then ok VulnerabilitySourceName.github_advisory
    else if str_eq s "manual_import"
    then ok VulnerabilitySourceName.manual_import
    else err RowFailure.value_error

-- `read(text) if text else None`
abbrev pub when_text :
    {A : Type 0} → (String → Result RowFailure A) → Option String → Result RowFailure (Option A)
when_text read none = ok none
when_text read (some s) = if nonempty s then (read s >>= λ a. ok (some a)) else ok none

abbrev pub read_all :
    {A : Type 0} → (String → Result RowFailure A) → List String → Result RowFailure (List A)
read_all read [] = ok []
read_all read (s ∷ ss) =
    let rest = read_all read ss in read s >>= λ a. rest >>= λ more. ok (a ∷ more)

abbrev pub or_raise : {A : Type 0} → Option A → RowFailure → Result RowFailure A
or_raise none e = err e
or_raise (some a) e = ok a

module _ {F : Type 0} ⦃f : Float F⦄ (py : Python F) where
  -- The columns that `upsert_vulnerability` sets
  unfoldable pub to_row : Vulnerability F → VulnerabilityRow F
  to_row v = record {
    cve_id = v.cve_id;
    description = v.description;
    published_at = v.published_at;
    last_modified_at = v.last_modified_at;
    cvss_score = v.cvss_score;
    cvss_vector = v.cvss_vector;
    cvss_version = v.cvss_version;
    epss_score = v.epss_score;
    epss_percentile = v.epss_percentile;
    epss_date = date_text py v.epss_date;
    kev_listed = v.kev_listed;
    kev_date_added = date_text py v.kev_date_added;
    kev_due_date = date_text py v.kev_due_date;
    kev_known_ransomware = v.kev_known_ransomware;
    cwe_ids = v.cwe_ids;
    vendor = v.vendor;
    domain_guess = domain_text v.domain_guess;
    zero_click_relevance = relevance_column v.zero_click_relevance;
    references = v.references;
    sources = map source_value v.sources;
    first_seen_at = v.first_seen_at;
    last_updated_at = v.last_updated_at;
  }

module _ {F : Type 0} where
  -- The view of a row, given the columns that have to be read
  abbrev pub row_fields :
      VulnerabilityRow F
      → (epss_date kev_date_added kev_due_date : Option ℕ) → Option Domain
      → Option ZeroClickRelevance
      → List VulnerabilitySourceName
      → List String
      → Vulnerability F
  row_fields row epss_date kev_date_added kev_due_date domain_guess zero_click_relevance sources
        references =
      record {
        cve_id = row.cve_id;
        description = row.description;
        published_at = row.published_at;
        last_modified_at = row.last_modified_at;
        cvss_score = row.cvss_score;
        cvss_vector = row.cvss_vector;
        cvss_version = row.cvss_version;
        epss_score = row.epss_score;
        epss_percentile = row.epss_percentile;
        epss_date = epss_date;
        kev_listed = row.kev_listed;
        kev_date_added = kev_date_added;
        kev_due_date = kev_due_date;
        kev_known_ransomware = row.kev_known_ransomware;
        cwe_ids = row.cwe_ids;
        vendor = row.vendor;
        domain_guess = domain_guess;
        zero_click_relevance = zero_click_relevance;
        references = references;
        sources = sources;
        first_seen_at = row.first_seen_at;
        last_updated_at = row.last_updated_at;
      }

module _ {F : Type 0} (py : Python F) (pd : Pydantic F) where
  abbrev pub read_date : Option String → Result RowFailure (Option ℕ)
  read_date = when_text (λ s. or_raise (py.date_fromisoformat s) RowFailure.value_error)

  abbrev pub read_url : String → Result RowFailure String
  read_url s = or_raise (pd.http_url s) RowFailure.validation_error

  -- `_vuln_from_orm`
  unfoldable pub from_row : ⦃f : Float F⦄ → VulnerabilityRow F → Result RowFailure (Vulnerability F)
  from_row row = do
    epss_date ← read_date row.epss_date
    kev_date_added ← read_date row.kev_date_added
    kev_due_date ← read_date row.kev_due_date
    domain_guess ← when_text domain_of row.domain_guess
    zero_click_relevance ← when_text relevance_of row.zero_click_relevance
    sources ← read_all source_of row.sources
    references ← read_all read_url row.references
    let v =
        row_fields row epss_date kev_date_added kev_due_date domain_guess zero_click_relevance
          sources references
    require (vulnerability_validates v) RowFailure.validation_error
    ok v
