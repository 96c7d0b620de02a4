-- ===== src/Intelligence/Dedup/Kept.antt =====
-- What a merge keeps of what is known.
use zero_shield.Base.{
  ℕ, String, ◌≡◌, refl, sym, ◌∙◌, ap, subst, Bool, true, false, ◌||◌, Option, none, some, [], ◌∷◌,
  ◌++◌, any_of, any_of-append, is_some, str_eq, if◌then◌else◌,
}
use zero_shield.Base.Floats.{Float}
use zero_shield.Base.Effects.{ok}
use zero_shield.Base.Results.{Ensures}
use zero_shield.Base.Sorted.{contains, contains-sorted_set}
use zero_shield.Intelligence.Models.{VulnerabilitySourceName, Vulnerability}
use zero_shield.Intelligence.Normalisation.{Python, NormalisedContribution}
use zero_shield.Intelligence.Dedup.{
  Pydantic, has_text, nvd_owner, is_present, lists_kev, wins_description, wins_cvss, merged_fields,
  merge, MergeResult, eq_source,
}
use zero_shield.Intelligence.Dedup.Merged.{IsMerged}
use zero_shield.Intelligence.Dedup.Again.{better_present}
use zero_shield.Intelligence.Dedup.Twice.{Again, merge-Ensures}
use zero_shield.Intelligence.Dedup.Stable.{any_of-sorted_sources}

-- How a view after a merge stands to the one before it
pub record IsKept {F : Type 0} (source : VulnerabilitySourceName) (old new : Vulnerability F)
    : Type 0 where
  pub description :
      new.description ≡ (if has_text old.description then old.description else new.description)
  pub cvss_score :
      new.cvss_score ≡ (if is_some old.cvss_score then old.cvss_score else new.cvss_score)
  pub cvss_vector :
      new.cvss_vector ≡ (if is_some old.cvss_score then old.cvss_vector else new.cvss_vector)
  pub kev_listed : (old.kev_listed || new.kev_listed) ≡ new.kev_listed
  pub cwe_ids :
      (id : String) → (contains id old.cwe_ids || contains id new.cwe_ids) ≡ contains id new.cwe_ids
  pub sources :
      (s : VulnerabilitySourceName)
      → any_of (eq_source s) new.sources ≡ (any_of (eq_source s) old.sources || eq_source s source)
  pub domain_guess : new.domain_guess ≡ old.domain_guess
  pub first_seen_at : new.first_seen_at ≡ old.first_seen_at

text_present : (o : Option String) → has_text o ≡ true → is_some o ≡ true
text_present none h = cc
text_present (some s) h = refl

kept_if :
    {A : Type 0} (b : Bool) (old new : A) → (b ≡ true → new ≡ old) → new ≡ (if b then old else new)
kept_if true old new h = h refl
kept_if false old new h = refl

or_absorbed : (a b : Bool) → (a || (a || b)) ≡ (a || b)
or_absorbed true b = refl
or_absorbed false b = refl

or_false : (b : Bool) → (b || false) ≡ b
or_false true = refl
or_false false = refl

module _ {F : Type 0} ⦃f : Float F⦄ (pd : Pydantic F) (old : Vulnerability F)
    (c : NormalisedContribution F) (now : ℕ) where
  score_loses : is_some old.cvss_score ≡ true → wins_cvss (some old) c ≡ false
  score_loses h = rw (h, nvd_owner) (better_present c.source (is_present c.cvss_score))

  description_loses : has_text old.description ≡ true → wins_description (some old) c ≡ false
  description_loses h =
      rw (h, text_present old.description h) (better_present c.source (is_present c.description))

  module _ (v : Vulnerability F) (m : IsMerged pd (some old) c now v) where
    kept_description : has_text old.description ≡ true → v.description ≡ old.description
    kept_description h =
        let read : ok old.description ≡ ok v.description =
          rw (description_loses h) at m.description_read in
        cc

    kept_score : is_some old.cvss_score ≡ true → v.cvss_score ≡ old.cvss_score
    kept_score h =
        let read : ok old.cvss_score ≡ ok v.cvss_score = rw (score_loses h) at m.score_read in cc

    kept_vector : is_some old.cvss_score ≡ true → v.cvss_vector ≡ old.cvss_vector
    kept_vector h =
        let read : ok old.cvss_vector ≡ ok v.cvss_vector = rw (score_loses h) at m.vector_read in cc

    merged-IsKept : IsKept c.source old v
    unfolding merged_fields
    merged-IsKept = record {
      description = kept_if _ old.description v.description kept_description;
      cvss_score = kept_if _ old.cvss_score v.cvss_score kept_score;
      cvss_vector = kept_if _ old.cvss_vector v.cvss_vector kept_vector;
      kev_listed =
          subst (λ b. (old.kev_listed || b) ≡ b) (sym (ap (λ w. w.kev_listed) m.fields))
            (or_absorbed old.kev_listed (lists_kev c));
      cwe_ids = λ id.
          subst (λ b. (contains id old.cwe_ids || b) ≡ b)
            (sym (
              ap (λ w. contains id w.cwe_ids) m.fields
              ∙ contains-sorted_set id (old.cwe_ids ++ c.cwe_ids)
              ∙ any_of-append (str_eq id) old.cwe_ids c.cwe_ids))
            (or_absorbed (contains id old.cwe_ids) (contains id c.cwe_ids));
      sources = λ s.
          ap (λ w. any_of (eq_source s) w.sources) m.fields
          ∙ any_of-sorted_sources s (old.sources ++ c.source ∷ [])
          ∙ any_of-append (eq_source s) old.sources (c.source ∷ [])
          ∙ ap (λ b. any_of (eq_source s) old.sources || b) (or_false (eq_source s c.source));
      domain_guess = ap (λ w. w.domain_guess) m.fields;
      first_seen_at = ap (λ w. w.first_seen_at) m.fields;
    }

  -- A merge takes nothing away: a description or a CVSS score that is known stays as it is, whatever
  -- the contribution says and whoever makes it; a CVE that was listed in KEV stays listed, its
  -- weaknesses and its sources stay and the source of the contribution is added, and so stay the
  -- domain and the time at which the CVE was first seen.
  pub merge-IsKept :
      (py : Python F) (m : MergeResult F)
      → merge pd py (some old) c now ≡ ok m
      → IsKept c.source old m.vulnerability
  merge-IsKept py m h =
      let (merged, recorded) =
        subst (Ensures (λ n. IsMerged pd (some old) c now n.vulnerability × Again pd c now now)) h
          (merge-Ensures pd c now now py (some old)) in
      merged-IsKept m.vulnerability merged
