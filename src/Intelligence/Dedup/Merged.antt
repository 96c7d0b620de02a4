-- ===== src/Intelligence/Dedup/Merged.antt =====
-- What a merge that succeeds has read, and how each field stands to a second merge.
use zero_shield.Base.{
  ℕ, String, ◌≡◌, refl, Bool, true, false, Option, List, [], ◌++◌, if◌then◌else◌,
}
use zero_shield.Base.Floats.{Float}
use zero_shield.Base.Effects.{Result, ok}
use zero_shield.Base.Results.{require, Ensures, Ensures-bind}
use zero_shield.Intelligence.Models.{Vulnerability, vulnerability_validates}
use zero_shield.Intelligence.Normalisation.{NormalisedContribution, RecordFailure, validation_error}
use zero_shield.Intelligence.Dedup.{
  Pydantic, known, known_list, wins_description, wins_cvss, merged_fields, optional_text,
  optional_float, read_urls, distinct_after, merged_vulnerability,
}

pub require-true : {E : Type 0} (b : Bool) (e : E) (u : Unit) → require b e ≡ ok u → b ≡ true
require-true true e u h = refl
require-true false e u h = cc

module _ {F : Type 0} (pd : Pydantic F) (existing : Option (Vulnerability F))
    (c : NormalisedContribution F) where
  -- The description that a merge takes
  abbrev pub read_description : Result RecordFailure (Option String)
  read_description =
      if wins_description existing c
      then optional_text pd c.description
      else ok (known (λ v. v.description) existing)

  abbrev pub read_score : Result RecordFailure (Option F)
  read_score =
      if wins_cvss existing c
      then optional_float pd c.cvss_score
      else ok (known (λ v. v.cvss_score) existing)

  abbrev pub read_vector : Result RecordFailure (Option String)
  read_vector =
      if wins_cvss existing c
      then optional_text pd c.cvss_vector
      else ok (known (λ v. v.cvss_vector) existing)

  pub record IsMerged ⦃f : Float F⦄ (now : ℕ) (v : Vulnerability F) : Type 0 where
    pub urls : List String
    pub description_read : read_description ≡ ok v.description
    pub score_read : read_score ≡ ok v.cvss_score
    pub vector_read : read_vector ≡ ok v.cvss_vector
    pub urls_read : read_urls pd (distinct_after [] c.references) ≡ ok urls
    pub fields :
        v
        ≡ merged_fields existing c now v.description v.cvss_score v.cvss_vector
            (distinct_after [] (known_list (λ w. w.references) existing) ++ urls)
    pub valid : vulnerability_validates v ≡ true

  module _ ⦃f : Float F⦄ (now : ℕ) where
    pub merged_vulnerability-Ensures :
        Ensures (IsMerged now) (merged_vulnerability pd existing c now)
    unfolding merged_vulnerability merged_fields
    merged_vulnerability-Ensures = Ensures-bind (IsMerged now) read_description _ λ d hd.
        Ensures-bind (IsMerged now) read_score _ λ x hx.
          Ensures-bind (IsMerged now) read_vector _ λ w hw.
            Ensures-bind (IsMerged now) (read_urls pd (distinct_after [] c.references)) _ λ us hu.
              let v : Vulnerability F =
                merged_fields existing c now d x w
                  (distinct_after [] (known_list (λ o. o.references) existing) ++ us) in
              Ensures-bind (IsMerged now) (require (vulnerability_validates v) validation_error)
                (λ _. ok v)
                λ u hv. record {
                  urls = us;
                  description_read = hd;
                  score_read = hx;
                  vector_read = hw;
                  urls_read = hu;
                  fields = refl;
                  valid = require-true (vulnerability_validates v) validation_error u hv;
                }
