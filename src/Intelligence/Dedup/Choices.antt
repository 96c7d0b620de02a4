-- ===== src/Intelligence/Dedup/Choices.antt =====
-- What `merge` of dedup.py chooses between what is known and what a contribution says.
use zero_shield.Base.{
  ℕ, String, Bool, true, false, not, ◌||◌, Option, none, some, List, [], ◌∷◌, ltb, ◌==◌, keep,
  any_of, str_eq, is_some, or_else, if◌then◌else◌,
}
use zero_shield.Models.Enums.{ZeroClickRelevance}
use zero_shield.Models.Experiment.{nonempty}
use zero_shield.Models.Values.{Value, null, float, str}
use zero_shield.Intelligence.Models.{
  VulnerabilitySourceName, VulnerabilitySourceRecord, VulnerabilityHistoryEntry, Vulnerability,
}
use zero_shield.Intelligence.Normalisation.{NormalisedContribution}

-- What pydantic reads: a float (`None` is no float), and the text of a URL
pub record Pydantic (F : Type 0) : Type 0 where
  pub to_float : Value F → Option F
  pub http_url : String → Option String

-- `_SOURCE_PRIORITY`
abbrev pub source_priority : VulnerabilitySourceName → ℕ
source_priority VulnerabilitySourceName.nvd = 0
source_priority VulnerabilitySourceName.github_advisory = 1
source_priority VulnerabilitySourceName.cisa_kev = 2
source_priority VulnerabilitySourceName.epss = 3
source_priority VulnerabilitySourceName.manual_import = 4

-- `_better`: `owner` is the priority of the source of the first value.
unfoldable pub better : Option ℕ → Bool → VulnerabilitySourceName → Bool → Bool
better owner present source offered =
    if not offered
    then false
    else if not present || not (is_some owner)
    then true
    else ltb (source_priority source) (or_else owner 0)

pub record MergeResult (F : Type 0) : Type 0 where
  pub vulnerability : Vulnerability F
  pub history : List VulnerabilityHistoryEntry
  pub source_record : VulnerabilitySourceRecord F
  pub products : List (String × String × Option String)
  pub is_new : Bool

-- `sorted(set(xs), key=lambda s: s.value)`: the members in the order of their values
abbrev pub by_value : List VulnerabilitySourceName
by_value =
    VulnerabilitySourceName.cisa_kev ∷ VulnerabilitySourceName.epss
    ∷ VulnerabilitySourceName.github_advisory ∷ VulnerabilitySourceName.manual_import
    ∷ VulnerabilitySourceName.nvd ∷ []

abbrev pub eq_source : VulnerabilitySourceName → VulnerabilitySourceName → Bool
eq_source a b = source_priority a == source_priority b

abbrev pub sorted_sources : List VulnerabilitySourceName → List VulnerabilitySourceName
sorted_sources xs = keep (λ s. any_of (eq_source s) xs) by_value

-- `dict.fromkeys(xs)`: each text where it stands first; `seen` stands before.
abbrev pub distinct_after : List String → List String → List String
distinct_after seen [] = []
distinct_after seen (x ∷ xs) =
    let rest = distinct_after (x ∷ seen) xs in if any_of (str_eq x) seen then rest else x ∷ rest

-- `a or b` of optional dates, and of optional texts
abbrev pub or_date : Option ℕ → Option ℕ → Option ℕ
or_date (some d) old = some d
or_date none old = old

abbrev pub or_text : Option String → Option String → Option String
or_text (some s) old = if nonempty s then some s else old
or_text none old = old

abbrev pub has_text : Option String → Bool
has_text none = false
has_text (some s) = nonempty s

abbrev pub earliest : Option ℕ → Option ℕ → Option ℕ
earliest old none = old
earliest none (some t) = some t
earliest (some o) (some t) = if ltb t o then some t else some o

abbrev pub latest : Option ℕ → Option ℕ → Option ℕ
latest old none = old
latest none (some t) = some t
latest (some o) (some t) = if ltb o t then some t else some o

abbrev pub relevance_value : ZeroClickRelevance → String
relevance_value ZeroClickRelevance.high = "High"
relevance_value ZeroClickRelevance.medium = "Medium"
relevance_value ZeroClickRelevance.low = "Low"

-- `str` of the member
abbrev pub relevance_name : ZeroClickRelevance → String
relevance_name ZeroClickRelevance.high = "ZeroClickRelevance.HIGH"
relevance_name ZeroClickRelevance.medium = "ZeroClickRelevance.MEDIUM"
relevance_name ZeroClickRelevance.low = "ZeroClickRelevance.LOW"

-- The priority of NVD, which is taken for the owner of what is there
abbrev pub nvd_owner : Bool → Option ℕ
nvd_owner true = some 0
nvd_owner false = none

abbrev pub same_date : Option ℕ → ℕ → Bool
same_date none d = false
same_date (some o) d = o == d

abbrev pub bool_text : Bool → String
bool_text true = "True"
bool_text false = "False"

abbrev pub same_relevance : Option ZeroClickRelevance → ZeroClickRelevance → Bool
same_relevance none z = false
same_relevance (some o) z = str_eq (relevance_value o) (relevance_value z)

abbrev pub relevance_text : Option ZeroClickRelevance → Option String
relevance_text none = none
relevance_text (some z) = some (relevance_name z)

module _ {F : Type 0} where
  abbrev pub is_present : Value F → Bool
  is_present null = false
  is_present _ = true

  abbrev pub str_or_none : Option String → Value F
  str_or_none none = null
  str_or_none (some s) = str s

  abbrev pub float_or_none : Option F → Value F
  float_or_none none = null
  float_or_none (some x) = float x

  -- What is known of a field: nothing, if the CVE is new
  abbrev pub known :
      {A : Type 0} → (Vulnerability F → Option A) → Option (Vulnerability F) → Option A
  known g none = none
  known g (some v) = g v

  abbrev pub known_list :
      {A : Type 0} → (Vulnerability F → List A) → Option (Vulnerability F) → List A
  known_list g none = []
  known_list g (some v) = g v

  -- Where `_better` lets the contribution win
  abbrev pub wins_description : Option (Vulnerability F) → NormalisedContribution F → Bool
  wins_description existing c =
      let old = known (λ v. v.description) existing in
      better (nvd_owner (has_text old)) (is_some old) c.source (is_present c.description)

  abbrev pub wins_cvss : Option (Vulnerability F) → NormalisedContribution F → Bool
  wins_cvss existing c =
      let old = known (λ v. v.cvss_score) existing in
      better (nvd_owner (is_some old)) (is_some old) c.source (is_present c.cvss_score)

  abbrev pub wins_vendor : Option (Vulnerability F) → NormalisedContribution F → Bool
  wins_vendor existing c =
      let old = known (λ v. v.vendor) existing in
      better (nvd_owner (has_text old)) (is_some old) c.source (is_some c.vendor)

  -- `kev_listed` is known, or False.
  abbrev pub known_kev : Option (Vulnerability F) → Bool
  known_kev none = false
  known_kev (some v) = v.kev_listed

  -- `if contribution.kev_listed:`
  abbrev pub lists_kev : NormalisedContribution F → Bool
  lists_kev c = elim c.kev_listed [ none ↦ false | some b ↦ b ]
