-- ===== src/Intelligence/Dedup/Changes.antt =====
-- The history that `merge` of dedup.py records.
use zero_shield.Base.{
  ℕ, String, true, not, ◌||◌, Option, none, some, List, [], ◌∷◌, ◌++◌, if◌then◌else◌,
}
use zero_shield.Base.Floats.{Float}
use zero_shield.Models.Enums.{ZeroClickRelevance}
use zero_shield.Models.Values.{Value, eq_value}
use zero_shield.Intelligence.Models.{VulnerabilityHistoryEntry, Vulnerability}
use zero_shield.Intelligence.Normalisation.{Python, NormalisedContribution}
use zero_shield.Intelligence.Dedup.Choices.{
  relevance_value, same_date, bool_text, same_relevance, relevance_text, is_present, str_or_none,
  float_or_none, known, wins_description, wins_cvss, known_kev, lists_kev,
}

module _ {F : Type 0} ⦃f : Float F⦄ (py : Python F) where
  abbrev pub entry :
      NormalisedContribution F → ℕ → String → Option String → String → VulnerabilityHistoryEntry
  entry c now name old new = record {
    cve_id = c.cve_id;
    source = c.source;
    field = name;
    old_value = old;
    new_value = some new;
    observed_at = now;
  }

  -- `_track` of a value that was read from JSON
  abbrev pub track_value :
      NormalisedContribution F → ℕ → String → Value F → Value F → List VulnerabilityHistoryEntry
  track_value c now name old new =
      if eq_value old new || not (is_present new)
      then []
      else entry c now name (if is_present old then some (py.str_value old) else none)
          (py.str_value new)
        ∷ []

  abbrev pub date_text : Option ℕ → Option String
  date_text none = none
  date_text (some d) = some (py.str_date d)

  abbrev pub track_date :
      NormalisedContribution F → ℕ → String → Option ℕ → Option ℕ → List VulnerabilityHistoryEntry
  track_date c now name old none = []
  track_date c now name old (some d) =
      if same_date old d then [] else entry c now name (date_text old) (py.str_date d) ∷ []

  abbrev pub track_relevance :
      NormalisedContribution F
      → ℕ
      → Option ZeroClickRelevance
      → Option ZeroClickRelevance
      → List VulnerabilityHistoryEntry
  track_relevance c now old none = []
  track_relevance c now old (some z) =
      if same_relevance old z
      then []
      else entry c now "zero_click_relevance" (relevance_text old) (relevance_value z) ∷ []

  abbrev pub kev_changes :
      Option (Vulnerability F) → NormalisedContribution F → ℕ → List VulnerabilityHistoryEntry
  kev_changes existing c now =
      (if known_kev existing
        then []
        else entry c now "kev_listed" (some (bool_text (known_kev existing))) (bool_text true) ∷ [])
      ++ (track_date c now "kev_date_added" (known (λ v. v.kev_date_added) existing)
            c.kev_date_added
          ++ track_date c now "kev_due_date" (known (λ v. v.kev_due_date) existing) c.kev_due_date)

  -- `history`, in the order in which `_track` is called
  unfoldable pub changes :
      Option (Vulnerability F) → NormalisedContribution F → ℕ → List VulnerabilityHistoryEntry
  changes existing c now =
      (if wins_description existing c
        then track_value c now "description" (str_or_none (known (λ v. v.description) existing))
            c.description
        else [])
      ++ ((if wins_cvss existing c
            then track_value c now "cvss_score" (float_or_none (known (λ v. v.cvss_score) existing))
                c.cvss_score
            else [])
          ++ (track_value c now "epss_score" (float_or_none (known (λ v. v.epss_score) existing))
                (float_or_none c.epss_score)
              ++ ((if lists_kev c then kev_changes existing c now else [])
                  ++ track_relevance c now (known (λ v. v.zero_click_relevance) existing)
                      c.zero_click_relevance)))
