-- ===== src/Intelligence/Normalisation/Advisory.antt =====
-- `normalise_vendor_advisory` of normalisation.py. The constraints of `VendorAdvisory` are tested
-- where it is made, and its title has to be a text.
use zero_shield.Base.{
  String, Bool, true, false, not, Option, none, some, List, [], ◌∷◌, if◌then◌else◌,
}
use zero_shield.Base.Floats.{Float}
use zero_shield.Base.Effects.{Result, ok, err}
use zero_shield.Base.Results.{◌>>=◌}
use zero_shield.Models.Experiment.{nonempty}
use zero_shield.Models.Patterns.{matches_cve_id}
use zero_shield.Models.Values.{Value, null, str, Fields, get}
use zero_shield.Intelligence.Models.{VulnerabilitySourceName, VendorAdvisory, advisory_validates}
use zero_shield.Intelligence.Normalisation.Values.{
  Python, RawIntelligenceRecord, NormalisedContribution, NormalisationFailure, RecordFailure,
  failure, validation_error, failing, truthy, or_empty, when_str, str_items, parse_datetime,
  no_contribution,
}
use zero_shield.Intelligence.Normalisation.Nvd.{as_dict, or_no_fields}

-- Where the CVSS entry of an advisory stands
pub data CvssEntry (F : Type 0) : Type 0 where
  v4 v3 legacy : Fields F → CvssEntry F
  no_entry : CvssEntry F

module _ {F : Type 0} where
  abbrev pub is_null : Value F → Bool
  is_null null = true
  is_null _ = false

  -- `isinstance(entry, dict) and entry.get("score") is not None`
  abbrev pub scored : Value F → Option (Fields F)
  scored v = elim (as_dict v) [
    | none ↦ none
    | some d ↦ if is_null (get "score" d) then none else some d
  ]

  -- `cvss`: the first of `cvss_v4`, `cvss_v3` and the old `cvss` that can be used
  unfoldable pub cvss_entry : (severities raw : Fields F) → CvssEntry F
  cvss_entry severities raw = elim (scored (get "cvss_v4" severities)) [
    | some d ↦ v4 d
    | none ↦ elim (scored (get "cvss_v3" severities)) [
      | some d ↦ v3 d
      | none ↦ elim (as_dict (get "cvss" raw)) [ some d ↦ legacy d | none ↦ no_entry ]
    ]
  ]

  -- `cvss.get(key) if isinstance(cvss, dict) else None`
  abbrev pub cvss_get : String → CvssEntry F → Value F
  cvss_get key (v4 d) = get key d
  cvss_get key (v3 d) = get key d
  cvss_get key (legacy d) = get key d
  cvss_get key no_entry = null

  -- `"4.0" if cvss is severities.get("cvss_v4") else "3.1"`: None is None.
  unfoldable pub cvss_version_of : CvssEntry F → Fields F → String
  cvss_version_of (v4 d) severities = "4.0"
  cvss_version_of (v3 d) severities = "3.1"
  cvss_version_of (legacy d) severities = "3.1"
  cvss_version_of no_entry severities = if is_null (get "cvss_v4" severities) then "4.0" else "3.1"

  -- `raw.get("cve_id")`, if it is a text that the pattern matches
  abbrev pub linked_cve : Fields F → Option String
  linked_cve raw = elim (when_str (get "cve_id" raw)) [
    | none ↦ none
    | some id ↦ if matches_cve_id id then some id else none
  ]

  -- The texts under `cwe_id` that are not empty
  abbrev pub cwe_ids_of : List (Value F) → List String
  cwe_ids_of [] = []
  cwe_ids_of (v ∷ vs) =
      let rest = cwe_ids_of vs in
      elim (as_dict v) [
        | none ↦ rest
        | some d ↦ elim (when_str (get "cwe_id" d)) [
          | none ↦ rest
          | some s ↦ if nonempty s then s ∷ rest else rest
        ]
      ]

abbrev pub str_value_of : {F : Type 0} → Option String → Value F
str_value_of none = null
str_value_of (some s) = str s

abbrev pub validated : VendorAdvisory → Result RecordFailure VendorAdvisory
validated a = if advisory_validates a then ok a else err validation_error

module _ {F : Type 0} ⦃f : Float F⦄ (py : Python F) where
  -- `title=raw.get("summary") or advisory_id`, where a title has to be a text
  abbrev pub title_of : String → Value F → Result RecordFailure String
  title_of advisory_id v =
      if not (truthy v) then ok advisory_id else elim v [ str s ↦ ok s | _ ↦ err validation_error ]

  abbrev pub linked_contribution :
      RawIntelligenceRecord F
      → VendorAdvisory
      → CvssEntry F
      → Fields F
      → Option String
      → Result RecordFailure (Option (NormalisedContribution F))
  unfolding cvss_version_of
  linked_contribution r advisory cvss severities none = ok none
  linked_contribution r advisory cvss severities (some cve_id) = do
    cwes ← failing (or_empty (get "cwes" r.raw))
    ok (
        some (record (no_contribution cve_id r.source) {
          source_identifier = str advisory.advisory_id;
          description = str_value_of (when_str (get "summary" r.raw));
          published_at = advisory.published_at;
          last_modified_at = advisory.updated_at;
          cvss_score = cvss_get "score" cvss;
          cvss_vector = cvss_get "vector_string" cvss;
          cvss_version = some (cvss_version_of cvss severities);
          cwe_ids = cwe_ids_of cwes;
          references = advisory.references;
        }))

  unfoldable pub normalise_vendor_advisory :
      RawIntelligenceRecord F
      → Result RecordFailure (VendorAdvisory × Option (NormalisedContribution F))
  unfolding cvss_entry cvss_version_of parse_datetime
  normalise_vendor_advisory r = elim r.source [
    | VulnerabilitySourceName.github_advisory ↦
        let advisory_id = if nonempty r.external_id then r.external_id else "UNKNOWN" in
        let severities = or_no_fields (as_dict (get "cvss_severities" r.raw)) in
        let cvss = cvss_entry severities r.raw in
        do
          references ← failing (or_empty (get "references" r.raw))
          title ← title_of advisory_id (get "summary" r.raw)
          advisory ← validated (record {
            advisory_id = advisory_id;
            source = r.source;
            cve_id = linked_cve r.raw;
            title = title;
            summary = when_str (get "description" r.raw);
            severity = when_str (get "severity" r.raw);
            published_at = parse_datetime py (get "published_at" r.raw);
            updated_at = parse_datetime py (get "updated_at" r.raw);
            references = str_items references;
          })
          contribution ← linked_contribution r advisory cvss severities (linked_cve r.raw)
          ok (advisory, contribution)
    | _ ↦ err (failure NormalisationFailure.wrong_source)
  ]
