-- ===== src/Intelligence/Models.antt =====
-- src/zeroshield/models/vulnerability.py. Times and dates are numbers. A URL is the text of the
-- `HttpUrl` that pydantic made of it.
use zero_shield.Base.{ℕ, String, Bool, true, ◌&&◌, Option, none, some, List}
use zero_shield.Base.Floats.{Float, zero_float, one_float}
use zero_shield.Models.Enums.{Domain, ZeroClickRelevance}
use zero_shield.Models.Experiment.{nonempty, nonempty_list}
use zero_shield.Models.Patterns.{is_cve_id}

pub data VulnerabilitySourceName : Type 0 where
  nvd cisa_kev epss github_advisory manual_import : VulnerabilitySourceName

abbrev pub source_value : VulnerabilitySourceName → String
source_value VulnerabilitySourceName.nvd = "nvd"
source_value VulnerabilitySourceName.cisa_kev = "cisa_kev"
source_value VulnerabilitySourceName.epss = "epss"
source_value VulnerabilitySourceName.github_advisory = "github_advisory"
source_value VulnerabilitySourceName.manual_import = "manual_import"

pub data SupportStatus : Type 0 where
  supported partially_supported unsupported : SupportStatus

pub data IntelligenceSyncStatus : Type 0 where
  queued running completed partial failed : IntelligenceSyncStatus

pub data PriorityLabel : Type 0 where
  critical high medium low : PriorityLabel

-- One source's latest contribution to a CVE
pub record VulnerabilitySourceRecord (F : Type 0) : Type 0 where
  pub cve_id : String
  pub source : VulnerabilitySourceName
  pub source_identifier : Option String
  pub description : Option String
  pub published_at : Option ℕ
  pub last_modified_at : Option ℕ
  pub cvss_score : Option F
  pub cvss_vector : Option String
  pub cvss_version : Option String
  pub epss_score : Option F
  pub epss_percentile : Option F
  pub kev_listed : Option Bool
  pub kev_date_added : Option ℕ
  pub kev_due_date : Option ℕ
  pub cwe_ids : List String
  pub vendor : Option String
  pub references : List String
  pub first_seen_at : ℕ
  pub last_seen_at : ℕ

pub record VulnerabilityHistoryEntry : Type 0 where
  pub cve_id : String
  pub source : VulnerabilitySourceName
  pub field : String
  pub old_value : Option String
  pub new_value : Option String
  pub observed_at : ℕ

pub record VendorAdvisory : Type 0 where
  pub advisory_id : String
  pub source : VulnerabilitySourceName
  pub cve_id : Option String
  pub title : String
  pub summary : Option String
  pub severity : Option String
  pub published_at : Option ℕ
  pub updated_at : Option ℕ
  pub references : List String

-- The merged view of a CVE
pub record Vulnerability (F : Type 0) : Type 0 where
  pub cve_id : String
  pub description : Option String
  pub published_at : Option ℕ
  pub last_modified_at : Option ℕ
  pub cvss_score : Option F
  pub cvss_vector : Option String
  pub cvss_version : Option String
  pub epss_score : Option F
  pub epss_percentile : Option F
  pub epss_date : Option ℕ
  pub kev_listed : Bool
  pub kev_date_added : Option ℕ
  pub kev_due_date : Option ℕ
  pub kev_known_ransomware : Option String
  pub cwe_ids : List String
  pub vendor : Option String
  pub domain_guess : Option Domain
  pub zero_click_relevance : Option ZeroClickRelevance
  pub references : List String
  pub sources : List VulnerabilitySourceName
  pub first_seen_at : ℕ
  pub last_updated_at : ℕ

pub record ValidationCandidate (F : Type 0) : Type 0 where
  pub cve_id : String
  pub domain : Option Domain
  pub support_status : SupportStatus
  pub priority_score : F
  pub priority_label : PriorityLabel
  pub explanation : List String
  pub existing_experiment_ids : List String
  pub generated_at : ℕ

pub record IntelligenceSync : Type 0 where
  pub sync_id : String
  pub source : VulnerabilitySourceName
  pub status : IntelligenceSyncStatus
  pub since : Option ℕ
  pub started_at : ℕ
  pub completed_at : Option ℕ
  pub fetched_count : ℕ
  pub created_count : ℕ
  pub updated_count : ℕ
  pub unchanged_count : ℕ
  pub failed_count : ℕ
  pub error_summary : Option String

module _ {F : Type 0} ⦃f : Float F⦄ where
  -- `Field(ge=0.0, le=10.0)` of an optional score
  abbrev pub cvss_ok : Option F → Bool
  cvss_ok none = true
  cvss_ok (some x) = f.le zero_float x && f.le x (f.literal 100000)

  -- `Field(ge=0.0, le=1.0)`
  abbrev pub epss_ok : Option F → Bool
  epss_ok none = true
  epss_ok (some x) = f.le zero_float x && f.le x one_float

  -- The constraints of `Vulnerability`
  unfoldable pub vulnerability_validates : Vulnerability F → Bool
  vulnerability_validates v =
      is_cve_id v.cve_id
      && cvss_ok v.cvss_score
      && epss_ok v.epss_score
      && epss_ok v.epss_percentile

  unfoldable pub source_record_validates : VulnerabilitySourceRecord F → Bool
  source_record_validates r =
      is_cve_id r.cve_id
      && cvss_ok r.cvss_score
      && epss_ok r.epss_score
      && epss_ok r.epss_percentile

  unfoldable pub candidate_validates : ValidationCandidate F → Bool
  candidate_validates c =
      is_cve_id c.cve_id
      && f.le zero_float c.priority_score
      && f.le c.priority_score (f.literal 1000000)
      && nonempty_list c.explanation

abbrev pub cve_ok : Option String → Bool
cve_ok none = true
cve_ok (some id) = is_cve_id id

-- The constraints of `VendorAdvisory`
unfoldable pub advisory_validates : VendorAdvisory → Bool
advisory_validates a = nonempty a.advisory_id && cve_ok a.cve_id && nonempty a.title
