-- ===== src/Intelligence/Candidates.antt =====
-- src/zeroshield/intelligence/candidates.py. The lines of an explanation are put into words by an
-- argument, and `experiment_ids_by_cve` is a function of the id.
pub mod Generated
use zero_shield.Base.{
  ℕ, ◌+◌, String, Bool, true, false, ◌&&◌, Option, none, some, List, [], ◌∷◌, ◌++◌, map, leb, ◌==◌,
  keep, if◌then◌else◌,
}
use zero_shield.Base.Floats.{Float}
use zero_shield.Base.Effects.{Result, ok, err}
use zero_shield.Base.Sorted.{sorted_set}
use zero_shield.Models.Enums.{Domain}
use zero_shield.Models.Experiment.{codes, nonempty, nonempty_list}
use zero_shield.Strategies.Vpn.{contains}
use zero_shield.Intelligence.Models.{
  SupportStatus, Vulnerability, ValidationCandidate, candidate_validates,
}
use zero_shield.Intelligence.Normalisation.{RecordFailure, validation_error}
use zero_shield.Intelligence.Priority.{PriorityWeights, PriorityResult, ExplanationLine, score}

abbrev pub vpn_strong_terms : List String
vpn_strong_terms = "vpn" ∷ "ssl-vpn" ∷ "ssl vpn" ∷ "ipsec" ∷ []

abbrev pub vpn_product_terms : List String
vpn_product_terms =
    "fortios" ∷ "forticlient" ∷ "pulse secure" ∷ "ivanti connect secure" ∷ "ivanti policy secure"
    ∷ "globalprotect" ∷ "anyconnect" ∷ "openvpn" ∷ "wireguard" ∷ "pptp" ∷ "l2tp" ∷ "sonicwall" ∷ []

abbrev pub telecom_strong_terms : List String
telecom_strong_terms = "telecom" ∷ "telecommunications" ∷ "baseband" ∷ "cellular" ∷ []

abbrev pub telecom_product_terms : List String
telecom_product_terms =
    "sip" ∷ "diameter" ∷ "gtp" ∷ "volte" ∷ "ims" ∷ "3gpp" ∷ "ss7" ∷ "asterisk" ∷ "freeswitch"
    ∷ "modem" ∷ "rcs" ∷ "radio access" ∷ "ios xe" ∷ []

pub record DomainClassification : Type 0 where
  pub domain : Option Domain
  pub support_status : SupportStatus
  pub matched_terms : List String

-- `str.lower` of a character, as far as ASCII can result: the Kelvin sign and the dotted capital I
-- are the only other characters whose lower case has an ASCII letter.
abbrev pub lower : ℕ → List ℕ
lower c =
    if leb b'A' c && leb c b'Z'
    then (c + 32) ∷ []
    else if c == 8490
    then b'k' ∷ []
    else if c == 304
    then b'i' ∷ 775 ∷ []
    else c ∷ []

abbrev pub lowered : List ℕ → List ℕ
lowered [] = []
lowered (c ∷ cs) = lower c ++ lowered cs

-- `" ".join(xs)`
abbrev pub joined : List String → List ℕ
joined [] = []
joined (s ∷ []) = codes s
joined (s ∷ t ∷ rest) = codes s ++ b' ' ∷ joined (t ∷ rest)

abbrev pub present : Option String → List String
present none = []
present (some s) = s ∷ []

-- `sorted(t for t in terms if t in text)`, of terms that are all different
abbrev pub hits : List String → List ℕ → List String
hits terms text = sorted_set (keep (λ t. contains (codes t) text) terms)

abbrev pub classification : Option Domain → SupportStatus → List String → DomainClassification
classification domain status terms = record {
  domain = domain;
  support_status = status;
  matched_terms = terms;
}

-- `text` of `classify_domain`
unfoldable pub classified_text : {F : Type 0} → Vulnerability F → List ℕ
classified_text v =
    lowered (joined (keep nonempty (present v.vendor ++ present v.description ++ v.cwe_ids)))

-- The branches of `classify_domain`, given which terms of each list occur
unfoldable pub classify_hits :
    (vpn_strong vpn_product telecom_strong telecom_product : List String) → DomainClassification
classify_hits vpn_strong vpn_product telecom_strong telecom_product =
    let vpn_hits = vpn_strong ++ vpn_product in
    let telecom_hits = telecom_strong ++ telecom_product in
    if nonempty_list vpn_hits && nonempty_list telecom_hits
    then classification none SupportStatus.partially_supported (vpn_hits ++ telecom_hits)
    else if nonempty_list vpn_product
    then classification (some Domain.vpn) SupportStatus.supported vpn_hits
    else if nonempty_list vpn_strong
    then classification (some Domain.vpn) SupportStatus.partially_supported vpn_hits
    else if nonempty_list telecom_product
    then classification (some Domain.telecom) SupportStatus.supported telecom_hits
    else if nonempty_list telecom_strong
    then classification (some Domain.telecom) SupportStatus.partially_supported telecom_hits
    else classification none SupportStatus.unsupported []

unfoldable pub classify_text : List ℕ → DomainClassification
classify_text text =
    classify_hits (hits vpn_strong_terms text) (hits vpn_product_terms text)
      (hits telecom_strong_terms text) (hits telecom_product_terms text)

unfoldable pub classify_domain : {F : Type 0} → Vulnerability F → DomainClassification
classify_domain v = classify_text (classified_text v)

abbrev pub is_unsupported : SupportStatus → Bool
is_unsupported SupportStatus.unsupported = true
is_unsupported _ = false

module _ {F : Type 0} ⦃f : Float F⦄ (format : ExplanationLine F → String) where
  -- `ValidationCandidate(...)` of a classification that is not UNSUPPORTED
  unfoldable pub candidate_of :
      Vulnerability F
      → DomainClassification
      → List String
      → PriorityWeights F
      → ℕ
      → ValidationCandidate F
  candidate_of v found experiment_ids weights now =
      let result = score v found.support_status (nonempty_list experiment_ids) weights in
      record {
        cve_id = v.cve_id;
        domain = found.domain;
        support_status = found.support_status;
        priority_score = result.score;
        priority_label = result.label;
        explanation = map format result.explanation;
        existing_experiment_ids = experiment_ids;
        generated_at = now;
      }

  unfoldable pub generate_candidate :
      Vulnerability F
      → (String → List String)
      → PriorityWeights F
      → ℕ
      → Result RecordFailure (Option (ValidationCandidate F))
  generate_candidate v experiment_ids_by_cve weights now =
      let found = classify_domain v in
      let candidate = candidate_of v found (experiment_ids_by_cve v.cve_id) weights now in
      if is_unsupported found.support_status
      then ok none
      else if candidate_validates candidate
      then ok (some candidate)
      else err validation_error
