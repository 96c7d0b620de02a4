-- ===== src/Intelligence/Normalisation/Nvd.antt =====
-- `_normalise_nvd`, `_extract_nvd_products` and `_cpe_version_range` of normalisation.py.
use Prim.Native.String.{◌++◌ as append_text}
use zero_shield.Base.{
  String, Bool, true, not, Option, none, some, List, [], ◌∷◌, ◌++◌, if◌then◌else◌,
}
use zero_shield.Base.Floats.{Float}
use zero_shield.Base.Effects.{ok}
use zero_shield.Base.Results.{◌>>=◌, collect}
use zero_shield.Models.Experiment.{nonempty}
use zero_shield.Models.Values.{
  Value, null, str, list, dict, cons, Fields, end, get, find_field, eq_value,
}
use zero_shield.Intelligence.Texts.{split_colons}
use zero_shield.Intelligence.Normalisation.Values.{
  Python, RawIntelligenceRecord, NormalisedContribution, Normal, truthy, or_empty, when_str,
  parse_datetime, require_cve_id, no_contribution,
}

module _ {F : Type 0} where
  -- `v if isinstance(v, dict) else None`
  abbrev pub as_dict : Value F → Option (Fields F)
  as_dict (dict d) = some d
  as_dict _ = none

  abbrev pub or_no_fields : Option (Fields F) → Fields F
  or_no_fields none = end
  or_no_fields (some d) = d

  -- The first element of a list that is a dict
  abbrev pub first_dict : Value F → Option (Fields F)
  first_dict (list (cons v _)) = as_dict v
  first_dict _ = none

  -- `isinstance(entries, list) and entries`, whose first dict has a dict under that key
  abbrev pub dict_under : String → Option (Fields F) → Option (Fields F)
  dict_under key none = none
  dict_under key (some d) = as_dict (get key d)

  -- The dicts under `cvssData`, by the version that is tried first
  abbrev pub cvss_data : Fields F → Option (Fields F × String)
  cvss_data metrics =
      let under = λ (key : String). dict_under "cvssData" (first_dict (get key metrics)) in
      elim (under "cvssMetricV31") [
        | some d ↦ some (d, "3.1")
        | none ↦ elim (under "cvssMetricV30") [
          | some d ↦ some (d, "3.0")
          | none ↦ elim (under "cvssMetricV2") [ some d ↦ some (d, "2.0") | none ↦ none ]
        ]
      ]

  -- `for v in vs: if isinstance(v, dict): …`
  abbrev pub for_dicts :
      {A : Type 0} → (Fields F → Normal (List A)) → List (Value F) → Normal (List A)
  for_dicts body = collect (λ v. elim (as_dict v) [ none ↦ ok [] | some d ↦ body d ])

  -- `[v] if isinstance(v, str) else []`
  abbrev pub str_list : Value F → List String
  str_list v = elim (when_str v) [ some s ↦ s ∷ [] | none ↦ [] ]

abbrev pub prefer : Option String → String → Option String
prefer (some v) w = if nonempty v then some v else some w
prefer none w = some w

-- The vendor after `vendor = vendor or cpe_vendor` for each product
abbrev pub first_vendor : Option String → List (String × String × Option String) → Option String
first_vendor v [] = v
first_vendor v ((w, _, _) ∷ ps) = first_vendor (prefer v w) ps

-- `" ".join(bounds)`
abbrev pub joined : List String → Option String
joined [] = none
joined (s ∷ ss) =
    let rest = joined ss in
    elim rest [ none ↦ some s | some t ↦ some (append_text s (append_text " " t)) ]

module _ {F : Type 0} ⦃f : Float F⦄ (py : Python F) where
  -- `descriptions`: the value of the first one in English
  abbrev pub english : List (Value F) → Value F
  english [] = null
  english (v ∷ vs) =
      let rest = english vs in
      elim (as_dict v) [
        | none ↦ rest
        | some d ↦ if eq_value (get "lang" d) (str "en") then get "value" d else rest
      ]

  abbrev pub bound : String → String → Fields F → List String
  bound key label match_ =
      if truthy (get key match_) then append_text label (py.str_value (get key match_)) ∷ [] else []

  unfoldable pub cpe_version_range : Fields F → Option String
  cpe_version_range m = joined (
      bound "versionStartIncluding" ">=" m
      ++ (bound "versionStartExcluding" ">" m
          ++ (bound "versionEndIncluding" "<=" m ++ bound "versionEndExcluding" "<" m)))

  -- The product that a `cpeMatch` names: `parts[3]` and `parts[4]` of at least six
  abbrev pub product_of : Option String → List String → List (String × String × Option String)
  product_of range (_ ∷ _ ∷ _ ∷ vendor ∷ product ∷ _ ∷ _) = (vendor, product, range) ∷ []
  product_of range _ = []

  abbrev pub is_vulnerable : Option (Value F) → Bool
  is_vulnerable none = true
  is_vulnerable (some v) = truthy v

  abbrev pub match_products : Fields F → Normal (List (String × String × Option String))
  unfolding cpe_version_range split_colons
  match_products m =
      if not (is_vulnerable (find_field "vulnerable" m))
      then ok []
      else elim (when_str (get "criteria" m)) [
        | none ↦ ok []
        | some uri ↦ ok (product_of (cpe_version_range m) (split_colons uri))
      ]

  unfoldable pub extract_nvd_products :
      Fields F → Normal (Option String × List (String × String × Option String))
  extract_nvd_products raw = do
    configurations ← or_empty (get "configurations" raw)
    products ←
        for_dicts
          (λ config.
            or_empty (get "nodes" config)
            >>= for_dicts (λ node. or_empty (get "cpeMatch" node) >>= for_dicts match_products))
          configurations
    ok (first_vendor none products, products)

  -- The texts under `value` of the descriptions of each weakness
  abbrev pub cwe_texts : List (Value F) → Normal (List String)
  cwe_texts = for_dicts (λ weakness.
      or_empty (get "description" weakness)
      >>= for_dicts (λ desc. ok (str_list (get "value" desc))))

  abbrev pub urls_under : List (Value F) → Normal (List String)
  urls_under = for_dicts (λ ref. ok (str_list (get "url" ref)))

  -- `cvss_score`, `cvss_vector` and `cvss_version`
  abbrev pub cvss_of : Option (Fields F × String) → Value F × Value F × Option String
  cvss_of none = (null, null, none)
  cvss_of (some (d, version)) = (get "baseScore" d, get "vectorString" d, some version)

  unfoldable pub normalise_nvd : RawIntelligenceRecord F → Normal (NormalisedContribution F)
  unfolding require_cve_id parse_datetime extract_nvd_products
  normalise_nvd r = do
    cve_id ← require_cve_id (get "id" r.raw)
    descriptions ← or_empty (get "descriptions" r.raw)
    let cvss = cvss_of (cvss_data (or_no_fields (as_dict (get "metrics" r.raw))))
    weaknesses ← or_empty (get "weaknesses" r.raw)
    cwe_ids ← cwe_texts weaknesses
    refs ← or_empty (get "references" r.raw)
    references ← urls_under refs
    found ← extract_nvd_products r.raw
    ok (record (no_contribution cve_id r.source) {
      source_identifier = get "sourceIdentifier" r.raw;
      description = english descriptions;
      published_at = parse_datetime py (get "published" r.raw);
      last_modified_at = parse_datetime py (get "lastModified" r.raw);
      cvss_score = cvss.0;
      cvss_vector = cvss.1;
      cvss_version = cvss.2;
      cwe_ids = cwe_ids;
      vendor = found.0;
      products = found.1;
      references = references;
    })
