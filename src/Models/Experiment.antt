-- ===== src/Models/Experiment.antt =====
-- src/zeroshield/models/experiment_definition.py and cve_reference.py. Of a CVE reference the
-- scores, the URLs and the date are left out, with their constraints: no modelled code reads them.
use zero_shield.Base.{
  ℕ, String, Bool, true, false, not, ◌&&◌, ◌||◌, Option, none, some, List, [], ◌∷◌, leb, ◌==◌,
  if◌then◌else◌, all_of, any_of, length, str_eq,
}
use zero_shield.Models.Enums.{
  Domain, SafetyLevel, ApprovalStatus, InputClassification, RootCauseCategory, MetricName,
  eq_domain, eq_metric,
}
pub use zero_shield.Models.Texts.{codes, nonempty, nonempty_list, after}
use zero_shield.Models.Texts.{is_decimal}
use zero_shield.Models.Patterns.{is_cve_id}
use zero_shield.Models.Paths.{is_unsafe_relative_path}

pub record CveReference : Type 0 where
  pub cve_id : String
  pub domain : Domain
  pub cisa_kev : Bool
  pub trust_boundary : String
  pub root_cause : RootCauseCategory
  pub vendor_mitigation : String
  pub mitigation_gap : String

pub record ExperimentDefinition : Type 0 where
  pub experiment_id : String
  pub title : String
  pub domain : Domain
  pub description : String
  pub related_cves : List CveReference
  pub failure_pattern : String
  pub root_cause : RootCauseCategory
  pub vendor_mitigation : String
  pub mitigation_gap : String
  pub research_question : String
  pub hypothesis : String
  pub safety_level : SafetyLevel
  pub external_targeting : Bool
  pub input_classification : InputClassification
  pub weaponised_payloads : Bool
  pub baseline_strategy : String
  pub mitigation_strategy : String
  pub dataset_path : String
  pub metrics_to_collect : List MetricName
  pub approval_status : ApprovalStatus
  pub version : String

abbrev ends_in_digits : Domain → Option (List ℕ) → Option Domain
ends_in_digits d none = none
ends_in_digits d (some s) = if leb 3 (length s) && all_of is_decimal s then some d else none

-- `EXPERIMENT_ID_PATTERN`, `^ZC-(VPN|TELECOM)-EXP-\d{3,}$`: the domain that group 1 names.
unfoldable pub experiment_id_domain : List ℕ → Option Domain
experiment_id_domain s = elim (after (codes "ZC-VPN-EXP-") s) [
  | some rest ↦ ends_in_digits Domain.vpn (some rest)
  | none ↦ ends_in_digits Domain.telecom (after (codes "ZC-TELECOM-EXP-") s)
]

abbrev is_lower : ℕ → Bool
is_lower c = leb b'a' c && leb c b'z'

-- `STRATEGY_ID_PATTERN`, `^[a-z][a-z0-9_]*$`
unfoldable pub is_strategy_id : List ℕ → Bool
is_strategy_id [] = false
is_strategy_id (c ∷ cs) =
    is_lower c && all_of (λ x. is_lower x || leb b'0' x && leb x b'9' || x == b'_') cs

-- `len(set(xs)) == len(xs)`, for the test of equality that the set makes.
abbrev pub all_distinct {ℓ} : {A : Type ℓ} → (A → A → Bool) → List A → Bool
all_distinct eq [] = true
all_distinct eq (x ∷ xs) = not (any_of (eq x) xs) && all_distinct eq xs

pub check_dataset_path : ExperimentDefinition → Bool
check_dataset_path e = not (is_unsafe_relative_path (codes e.dataset_path))

abbrev same_domain : Domain → Option Domain → Bool
same_domain d none = false
same_domain d (some g) = eq_domain g d

pub check_domain_matches_experiment_id : ExperimentDefinition → Bool
check_domain_matches_experiment_id e =
    same_domain e.domain (experiment_id_domain (codes e.experiment_id))

pub check_related_cves_match_domain : ExperimentDefinition → Bool
check_related_cves_match_domain e = all_of (λ c. eq_domain c.domain e.domain) e.related_cves

pub check_baseline_and_mitigation_differ : ExperimentDefinition → Bool
check_baseline_and_mitigation_differ e = not (str_eq e.baseline_strategy e.mitigation_strategy)

pub check_metrics_to_collect_unique : ExperimentDefinition → Bool
check_metrics_to_collect_unique e = all_distinct eq_metric e.metrics_to_collect

-- The constraints of the texts that an edit may replace.
unfoldable pub check_editable_texts : ExperimentDefinition → Bool
check_editable_texts e =
    nonempty e.title
    && nonempty e.description
    && nonempty e.research_question
    && nonempty e.hypothesis

-- The constraints of the fields of a CVE reference that are modelled
unfoldable pub cve_reference_validates : CveReference → Bool
unfolding is_cve_id
cve_reference_validates c =
    is_cve_id c.cve_id
    && nonempty c.trust_boundary
    && nonempty c.vendor_mitigation
    && nonempty c.mitigation_gap

-- The constraints of the other fields.
pub check_other_fields : ExperimentDefinition → Bool
check_other_fields e =
    nonempty_list e.related_cves
    && all_of cve_reference_validates e.related_cves
    && nonempty e.failure_pattern
    && nonempty e.vendor_mitigation
    && nonempty e.mitigation_gap
    && is_strategy_id (codes e.baseline_strategy)
    && is_strategy_id (codes e.mitigation_strategy)
    && nonempty_list e.metrics_to_collect
    && nonempty e.version

-- The model's validators, and the constraints of the fields that an edit leaves alone.
unfoldable pub check_rest : ExperimentDefinition → Bool
unfolding check_other_fields check_dataset_path check_domain_matches_experiment_id
    check_related_cves_match_domain check_baseline_and_mitigation_differ
    check_metrics_to_collect_unique
check_rest e =
    check_other_fields e
    && check_dataset_path e
    && check_domain_matches_experiment_id e
    && check_related_cves_match_domain e
    && check_baseline_and_mitigation_differ e
    && check_metrics_to_collect_unique e

-- `ExperimentDefinition.model_validate` accepts the data.
unfoldable pub validates : ExperimentDefinition → Bool
validates e = check_editable_texts e && check_rest e
