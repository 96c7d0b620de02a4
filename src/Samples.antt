-- ===== src/Samples.antt =====
-- Inputs for the tests: the bundled experiment ZC-VPN-EXP-001 with shortened texts, and versions
-- and users around it.
use zero_shield.Base.{true, false, [], ◌∷◌}
use zero_shield.Models.Enums.{
  Domain, SafetyLevel, ApprovalStatus, InputClassification, RootCauseCategory, MetricName,
  ExperimentVersionStatus,
}
use zero_shield.Models.Experiment.{CveReference, ExperimentDefinition}
use zero_shield.Models.Versions.{ExperimentVersion}
use zero_shield.Audit.{Role}
use zero_shield.Auth.Models.{User}

abbrev cve : CveReference
cve = record {
  cve_id = "CVE-2025-0282";
  domain = Domain.vpn;
  cisa_kev = true;
  trust_boundary = "pre-auth web interface";
  root_cause = RootCauseCategory.memory_safety_failure;
  vendor_mitigation = "patched release";
  mitigation_gap = "time to patch";
}

abbrev pub vpn_experiment : ExperimentDefinition
vpn_experiment = record {
  experiment_id = "ZC-VPN-EXP-001";
  title = "Pre-auth request validation";
  domain = Domain.vpn;
  description = "Weak against strict validation";
  related_cves = cve ∷ [];
  failure_pattern = "pre_auth_request_schema_validation";
  root_cause = RootCauseCategory.memory_safety_failure;
  vendor_mitigation = "patched release";
  mitigation_gap = "time to patch";
  research_question = "Does strict validation block?";
  hypothesis = "It does";
  safety_level = SafetyLevel.synthetic_only;
  external_targeting = false;
  input_classification = InputClassification.synthetic;
  weaponised_payloads = false;
  baseline_strategy = "weak_schema_length_baseline";
  mitigation_strategy = "strict_schema_canonicalisation_mitigation";
  dataset_path = "test_data/vpn/vpn_pre_auth_request_dataset.json";
  metrics_to_collect = MetricName.block_rate ∷ MetricName.mean_latency_ms ∷ [];
  approval_status = ApprovalStatus.draft;
  version = "1.0.0";
}

abbrev pub approved_experiment : ExperimentDefinition
approved_experiment = record vpn_experiment { approval_status = ApprovalStatus.approved }

abbrev pub draft_version : ExperimentVersion
draft_version = record {
  version_id = "ZC-VPN-EXP-001@v1";
  experiment_id = "ZC-VPN-EXP-001";
  version_number = 1;
  status = ExperimentVersionStatus.draft;
  domain_pack_id = "vpn";
  template_id = "vpn_schema_canonicalisation";
  template_version = "1.0.0";
  definition = vpn_experiment;
  created_by = "alice";
  created_at = 10;
  updated_at = 10;
}

abbrev pub version_under_review : ExperimentVersion
version_under_review = record draft_version { status = ExperimentVersionStatus.under_review }

abbrev pub alice : User
alice = record {
  user_id = "USER-1";
  username = "alice";
  role = Role.reviewer;
  active = true;
  created_at = 1;
  updated_at = 1;
}

abbrev pub bob : User
bob = record alice { user_id = "USER-2"; username = "bob" }
