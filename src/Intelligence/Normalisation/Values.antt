-- ===== src/Intelligence/Normalisation/Values.antt =====
-- Reading an untrusted JSON object: what `x or []`, `for`, `isinstance` and `_require_cve_id` do
-- with any value.
use zero_shield.Base.{
  ℕ, String, Bool, true, false, not, Option, none, some, List, [], ◌∷◌, map, if◌then◌else◌,
}
use zero_shield.Base.Int.{ℤ, pos, eq_ℤ}
use zero_shield.Base.Floats.{Float}
use zero_shield.Base.Effects.{Result, ok, err}
use zero_shield.Models.Enums.{ZeroClickRelevance}
use zero_shield.Models.Experiment.{nonempty}
use zero_shield.Models.Patterns.{matches_cve_id}
use zero_shield.Models.Values.{
  Value, null, bool, int, float, str, list, dict, nil, cons, Fields, end, field, items_of,
}
use zero_shield.Intelligence.Models.{VulnerabilitySourceName}
use zero_shield.Intelligence.Texts.{letters, replace_z, has_letter}

-- What the standard library says of values
pub record Python (F : Type 0) : Type 0 where
  -- `datetime.fromisoformat`, with UTC where no zone is given: the time, and the date in its zone
  pub datetime_fromisoformat : String → Option (ℕ × ℕ)
  pub date_fromisoformat : String → Option ℕ
  -- `float(text)`, and `float(n)`, which overflows at large integers
  pub float_of_text : String → Option F
  pub float_of_int : ℤ → Option F
  -- `str(v)`, also of a date
  pub str_value : Value F → String
  pub str_date : ℕ → String

pub record RawIntelligenceRecord (F : Type 0) : Type 0 where
  pub source : VulnerabilitySourceName
  pub external_id : String
  pub raw : Fields F

-- `description`, `cvss_score`, `cvss_vector` and `source_identifier` are what the record says,
-- whatever its type is.
pub record NormalisedContribution (F : Type 0) : Type 0 where
  pub cve_id : String
  pub source : VulnerabilitySourceName
  pub source_identifier : Value F
  pub description : Value F
  pub published_at : Option ℕ
  pub last_modified_at : Option ℕ
  pub cvss_score : Value F
  pub cvss_vector : Value F
  pub cvss_version : Option String
  pub epss_score : Option F
  pub epss_percentile : Option F
  pub epss_date : Option ℕ
  pub kev_listed : Option Bool
  pub kev_date_added : Option ℕ
  pub kev_due_date : Option ℕ
  pub kev_known_ransomware : Option String
  pub cwe_ids : List String
  pub vendor : Option String
  -- vendor, product and range of versions
  pub products : List (String × String × Option String)
  pub references : List String
  pub zero_click_relevance : Option ZeroClickRelevance

-- NormalisationError, or an error that `normalise` does not mean to raise
pub data NormalisationFailure : Type 0 where
  missing_cve_id wrong_source : NormalisationFailure
  type_error overflow_error : NormalisationFailure

-- What stops one record of a sync: the above, or pydantic's ValidationError
pub data RecordFailure : Type 0 where
  failure : NormalisationFailure → RecordFailure
  validation_error : RecordFailure

abbrev pub Normal : Type 0 → Type 0
Normal A = Result NormalisationFailure A

abbrev pub failing : {A : Type 0} → Normal A → Result RecordFailure A
failing (ok a) = ok a
failing (err e) = err (failure e)

module _ {F : Type 0} ⦃f : Float F⦄ where
  -- `bool(v)`
  abbrev pub truthy : Value F → Bool
  truthy null = false
  truthy (bool b) = b
  truthy (int n) = not (eq_ℤ n (pos 0))
  truthy (float x) = not (f.eq_int x (pos 0))
  truthy (str s) = nonempty s
  truthy (list nil) = false
  truthy (list (cons _ _)) = true
  truthy (dict end) = false
  truthy (dict (field _ _ _)) = true

module _ {F : Type 0} where
  abbrev pub keys_of : Fields F → List String
  keys_of end = []
  keys_of (field k v rest) = k ∷ keys_of rest

  -- `for x in v`: a text runs over its characters, a dict over its keys.
  abbrev pub iterate : Value F → Normal (List (Value F))
  iterate (str s) = ok (map str (letters s))
  iterate (list xs) = ok (items_of xs)
  iterate (dict d) = ok (map str (keys_of d))
  iterate _ = err NormalisationFailure.type_error

  -- `v if isinstance(v, str) else None`
  abbrev pub when_str : Value F → Option String
  when_str (str s) = some s
  when_str _ = none

  -- `[x for x in xs if isinstance(x, str)]`
  abbrev pub str_items : List (Value F) → List String
  str_items [] = []
  str_items (v ∷ vs) =
      let rest = str_items vs in elim (when_str v) [ some s ↦ s ∷ rest | none ↦ rest ]

-- `for x in v or []`
abbrev pub or_empty : {F : Type 0} ⦃f : Float F⦄ → Value F → Normal (List (Value F))
or_empty v = if truthy v then iterate v else ok []

-- `_require_cve_id`: `re.match` raises TypeError for what is no text.
unfoldable pub require_cve_id : {F : Type 0} ⦃f : Float F⦄ → Value F → Normal String
require_cve_id v = if not (truthy v) then err NormalisationFailure.missing_cve_id else elim v [
  | str s ↦ if matches_cve_id s then ok s else err NormalisationFailure.missing_cve_id
  | _ ↦ err NormalisationFailure.type_error
]

module _ {F : Type 0} (py : Python F) where
  -- The time and the date that `_parse_datetime` reads
  abbrev pub read_datetime : Value F → Option (ℕ × ℕ)
  read_datetime (str s) = if nonempty s then py.datetime_fromisoformat (replace_z s) else none
  read_datetime _ = none

  unfoldable pub parse_datetime : Value F → Option ℕ
  parse_datetime v = elim (read_datetime v) [ some (time, date) ↦ some time | none ↦ none ]

  unfoldable pub parse_date : Value F → Option ℕ
  parse_date (str s) = elim (if has_letter b'T' s then read_datetime (str s) else none) [
    | some (time, date) ↦ some date
    | none ↦ py.date_fromisoformat s
  ]
  parse_date _ = none

-- A contribution that names its CVE and its source, and nothing else
abbrev pub no_contribution :
    {F : Type 0} → String → VulnerabilitySourceName → NormalisedContribution F
no_contribution cve_id source = record {
  cve_id = cve_id;
  source = source;
  source_identifier = null;
  description = null;
  published_at = none;
  last_modified_at = none;
  cvss_score = null;
  cvss_vector = null;
  cvss_version = none;
  epss_score = none;
  epss_percentile = none;
  epss_date = none;
  kev_listed = none;
  kev_date_added = none;
  kev_due_date = none;
  kev_known_ransomware = none;
  cwe_ids = [];
  vendor = none;
  products = [];
  references = [];
  zero_click_relevance = none;
}
