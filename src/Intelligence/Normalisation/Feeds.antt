-- ===== src/Intelligence/Normalisation/Feeds.antt =====
-- `_normalise_cisa_kev` and `_normalise_epss` of normalisation.py.
use zero_shield.Base.{String, true, not, ◌&&◌, Option, none, some, List, [], ◌∷◌, if◌then◌else◌}
use zero_shield.Base.Floats.{Float}
use zero_shield.Base.Effects.{ok, err}
use zero_shield.Base.Results.{◌>>=◌}
use zero_shield.Models.Experiment.{nonempty}
use zero_shield.Models.Values.{Value, null, bool, int, float, str, get, bool_int}
use zero_shield.Intelligence.Texts.{find_urls}
use zero_shield.Intelligence.Normalisation.Values.{
  Python, RawIntelligenceRecord, NormalisedContribution, NormalisationFailure, Normal, truthy,
  or_empty, when_str, str_items, parse_date, require_cve_id, no_contribution,
}

-- `_URL_RE.findall(v or "")` raises TypeError for what is no text.
abbrev pub urls_of : {F : Type 0} ⦃f : Float F⦄ → Value F → Normal (List String)
urls_of v =
    if not (truthy v)
    then ok []
    else elim v [ str s ↦ ok (find_urls s) | _ ↦ err NormalisationFailure.type_error ]

-- `[(vendor, product, None)] if vendor and product else []`
abbrev pub named_product : Option String → Option String → List (String × String × Option String)
named_product (some v) (some p) = if nonempty v && nonempty p then (v, p, none) ∷ [] else []
named_product _ _ = []

module _ {F : Type 0} ⦃f : Float F⦄ (py : Python F) where
  unfoldable pub normalise_cisa_kev : RawIntelligenceRecord F → Normal (NormalisedContribution F)
  unfolding require_cve_id parse_date
  normalise_cisa_kev r = do
    cve_id ← require_cve_id (get "cveID" r.raw)
    references ← urls_of (get "notes" r.raw)
    cwes ← or_empty (get "cwes" r.raw)
    ok (record (no_contribution cve_id r.source) {
      description = elim (when_str (get "shortDescription" r.raw)) [ some s ↦ str s | none ↦ null ];
      kev_listed = some true;
      kev_date_added = parse_date py (get "dateAdded" r.raw);
      kev_due_date = parse_date py (get "dueDate" r.raw);
      kev_known_ransomware = when_str (get "knownRansomwareCampaignUse" r.raw);
      cwe_ids = str_items cwes;
      vendor = when_str (get "vendorProject" r.raw);
      products =
          named_product (when_str (get "vendorProject" r.raw)) (when_str (get "product" r.raw));
      references = references;
    })

  -- `float(n)` of an integer: OverflowError is not caught.
  abbrev pub float_of : Option F → Normal (Option F)
  float_of none = err NormalisationFailure.overflow_error
  float_of (some x) = ok (some x)

  -- `_to_float`
  unfoldable pub to_float : Value F → Normal (Option F)
  to_float (str s) = ok (py.float_of_text s)
  to_float (float x) = ok (some x)
  to_float (int n) = float_of (py.float_of_int n)
  to_float (bool b) = float_of (py.float_of_int (bool_int b))
  to_float _ = ok none

  unfoldable pub normalise_epss : RawIntelligenceRecord F → Normal (NormalisedContribution F)
  unfolding require_cve_id parse_date to_float
  normalise_epss r = do
    cve_id ← require_cve_id (get "cve" r.raw)
    epss_score ← to_float (get "epss" r.raw)
    epss_percentile ← to_float (get "percentile" r.raw)
    ok (record (no_contribution cve_id r.source) {
      epss_score = epss_score;
      epss_percentile = epss_percentile;
      epss_date = parse_date py (get "date" r.raw);
    })
