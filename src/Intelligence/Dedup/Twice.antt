-- ===== src/Intelligence/Dedup/Twice.antt =====
-- A contribution that is merged twice.
use zero_shield.Base.{
  ℕ, String, ◌≡◌, refl, sym, ◌∙◌, ap, subst, inl, inr, true, false, ◌||◌, Bool-cases, Option, some,
  List, [], ◌∷◌, ◌++◌, is_some, if◌then◌else◌,
}
use zero_shield.Base.Floats.{Float, IsScoreFloat}
use zero_shield.Base.Effects.{ok}
use zero_shield.Base.Results.{require, Ensures, Ensures-bind}
use zero_shield.Base.Sorted.{sorted_set}
use zero_shield.Intelligence.Models.{
  Vulnerability, VulnerabilitySourceRecord, vulnerability_validates, source_record_validates,
}
use zero_shield.Intelligence.Normalisation.{Python, NormalisedContribution, validation_error}
use zero_shield.Intelligence.Dedup.{
  Pydantic, or_text, or_date, earliest, latest, sorted_sources, known, known_list, wins_description,
  wins_vendor, merged_fields, optional_text, optional_float, read_urls, distinct_after,
  merged_vulnerability, lists_kev, merge, MergeResult, source_fields, source_record, changes,
}
use zero_shield.Intelligence.Dedup.Merged.{
  IsMerged, require-true, merged_vulnerability-Ensures, read_description,
}
use zero_shield.Intelligence.Dedup.Again.{
  changes_again, if_same, wins_cvss_again, description_again,
}
use zero_shield.Intelligence.Dedup.Stable.{
  earliest_again, latest_again, chosen_again, listed_again as or_again, guarded_again,
  or_date_again, or_text_again, sorted_set_again, sorted_sources_again,
}

module _ {F : Type 0} ⦃f : Float F⦄ (pd : Pydantic F) (existing : Option (Vulnerability F))
    (c : NormalisedContribution F) (now later : ℕ) (v : Vulnerability F)
    (m : IsMerged pd existing c now v) where
  abbrev again : Vulnerability F
  again =
      merged_fields (some v) c later v.description v.cvss_score v.cvss_vector
        (distinct_after [] v.references ++ m.urls)

  vendor_again : again.vendor ≡ v.vendor
  unfolding merged_fields
  vendor_again = elim (Bool-cases (wins_vendor existing c)) [
    | inl won ↦
        let here : v.vendor ≡ c.vendor = ap (λ w. w.vendor) m.fields ∙ rw won refl in
        ap (λ y. if wins_vendor (some v) c then c.vendor else y) here
        ∙ if_same (wins_vendor (some v) c) c.vendor
        ∙ sym here
    | inr kept ↦
        let here : v.vendor ≡ known (λ w. w.vendor) existing =
          ap (λ w. w.vendor) m.fields ∙ rw kept refl in
        let still : wins_vendor (some v) c ≡ false = rw here kept in
        ap (λ b. if b then c.vendor else v.vendor) still
  ]

  -- All that a second merge writes is there already, but for the URLs and the time.
  pub merged_again :
      record again { references = v.references; last_updated_at = v.last_updated_at } ≡ v
  unfolding merged_fields
  merged_again = λ i. record {
    cve_id = sym (ap (λ w. w.cve_id) m.fields) i;
    description = v.description;
    published_at =
        subst (λ y. earliest y c.published_at ≡ y) (sym (ap (λ w. w.published_at) m.fields))
          (earliest_again (known (λ w. w.published_at) existing) c.published_at) i;
    last_modified_at =
        subst (λ y. latest y c.last_modified_at ≡ y) (sym (ap (λ w. w.last_modified_at) m.fields))
          (latest_again (known (λ w. w.last_modified_at) existing) c.last_modified_at) i;
    cvss_score = v.cvss_score;
    cvss_vector = v.cvss_vector;
    cvss_version =
        ap (λ b. if b then c.cvss_version else v.cvss_version)
          (wins_cvss_again pd existing c v m.score_read) i;
    epss_score =
        subst (λ y. (if is_some c.epss_score then c.epss_score else y) ≡ y)
          (sym (ap (λ w. w.epss_score) m.fields))
          (chosen_again (is_some c.epss_score) c.epss_score _) i;
    epss_percentile =
        subst (λ y. (if is_some c.epss_score then c.epss_percentile else y) ≡ y)
          (sym (ap (λ w. w.epss_percentile) m.fields))
          (chosen_again (is_some c.epss_score) c.epss_percentile _) i;
    epss_date =
        subst (λ y. (if is_some c.epss_score then c.epss_date else y) ≡ y)
          (sym (ap (λ w. w.epss_date) m.fields)) (chosen_again (is_some c.epss_score) c.epss_date _)
          i;
    kev_listed =
        subst (λ y. (y || lists_kev c) ≡ y) (sym (ap (λ w. w.kev_listed) m.fields))
          (or_again _ (lists_kev c)) i;
    kev_date_added =
        subst (λ y. (if lists_kev c then or_date c.kev_date_added y else y) ≡ y)
          (sym (ap (λ w. w.kev_date_added) m.fields))
          (guarded_again (lists_kev c) (or_date c.kev_date_added) _
            (or_date_again c.kev_date_added _))
          i;
    kev_due_date =
        subst (λ y. (if lists_kev c then or_date c.kev_due_date y else y) ≡ y)
          (sym (ap (λ w. w.kev_due_date) m.fields))
          (guarded_again (lists_kev c) (or_date c.kev_due_date) _ (or_date_again c.kev_due_date _))
          i;
    kev_known_ransomware =
        subst (λ y. (if lists_kev c then or_text c.kev_known_ransomware y else y) ≡ y)
          (sym (ap (λ w. w.kev_known_ransomware) m.fields))
          (guarded_again (lists_kev c) (or_text c.kev_known_ransomware) _
            (or_text_again c.kev_known_ransomware _))
          i;
    cwe_ids =
        subst (λ y. sorted_set (y ++ c.cwe_ids) ≡ y) (sym (ap (λ w. w.cwe_ids) m.fields))
          (sorted_set_again (known_list (λ w. w.cwe_ids) existing) c.cwe_ids) i;
    vendor = vendor_again i;
    domain_guess = v.domain_guess;
    zero_click_relevance =
        subst (λ y. (if is_some c.zero_click_relevance then c.zero_click_relevance else y) ≡ y)
          (sym (ap (λ w. w.zero_click_relevance) m.fields))
          (chosen_again (is_some c.zero_click_relevance) c.zero_click_relevance _) i;
    references = v.references;
    sources =
        subst (λ y. sorted_sources (y ++ c.source ∷ []) ≡ y) (sym (ap (λ w. w.sources) m.fields))
          (sorted_sources_again (known_list (λ w. w.sources) existing) (c.source ∷ [])) i;
    first_seen_at = v.first_seen_at;
    last_updated_at = v.last_updated_at;
  }

  listed_references : again.references ≡ distinct_after [] v.references ++ m.urls
  unfolding merged_fields
  listed_references = refl

  description_read_again : read_description pd (some v) c ≡ ok v.description
  description_read_again = elim (description_again pd existing c v m.description_read) [
    | inl kept ↦ rw kept refl
    | inr read ↦
        ap (λ d. if wins_description (some v) c then d else ok v.description) read
        ∙ if_same (wins_description (some v) c) (ok v.description)
  ]

  again_valid : vulnerability_validates again ≡ true
  unfolding vulnerability_validates
  again_valid = ap vulnerability_validates merged_again ∙ m.valid

  vulnerability_again : merged_vulnerability pd (some v) c later ≡ ok again
  unfolding merged_vulnerability
  vulnerability_again =
      let kept = wins_cvss_again pd existing c v m.score_read in
      rw (description_read_again, kept, m.urls_read, again_valid) refl

module _ {F : Type 0} ⦃f : Float F⦄ (pd : Pydantic F) (c : NormalisedContribution F)
    (now later : ℕ) where
  abbrev pub Again : Type 0
  Again = (r : VulnerabilitySourceRecord F) × (source_record pd c later ≡ ok r)

  valid_later :
      (id d : Option String) (x : Option F) (w : Option String)
      → source_record_validates (source_fields c later id d x w)
        ≡ source_record_validates (source_fields c now id d x w)
  unfolding source_record_validates
  valid_later id d x w = refl

  -- Whether the record of a source validates does not depend on the time.
  source_record_again : Ensures (λ _. Again) (source_record pd c now)
  unfolding source_record
  source_record_again =
      Ensures-bind (λ _. Again) (optional_text pd c.source_identifier) _
        λ id hi.
          Ensures-bind (λ _. Again) (optional_text pd c.description) _
            λ d hd.
              Ensures-bind (λ _. Again) (optional_float pd c.cvss_score) _
                λ x hx.
                  Ensures-bind (λ _. Again) (optional_text pd c.cvss_vector) _
                    λ w hw.
                      let r = source_fields c now id d x w in
                      Ensures-bind (λ _. Again)
                        (require (source_record_validates r) validation_error) (λ _. ok r)
                        λ u hv.
                          let valid =
                            valid_later id d x w
                            ∙ require-true (source_record_validates r) validation_error u hv in
                          (source_fields c later id d x w, rw (hi, hd, hx, hw, valid) refl)

  pub merge-Ensures :
      (py : Python F) (existing : Option (Vulnerability F))
      → Ensures
          (λ m. IsMerged pd existing c now m.vulnerability × Again)
          (merge pd py existing c now)
  unfolding merge
  merge-Ensures py existing =
      let P = λ (m : MergeResult F). IsMerged pd existing c now m.vulnerability × Again in
      Ensures-bind P (merged_vulnerability pd existing c now) _ λ v hv.
        Ensures-bind P (source_record pd c now) _ λ r hr. (
          subst (Ensures (IsMerged pd existing c now)) hv
              (merged_vulnerability-Ensures pd existing c now),
          subst (Ensures (λ _. Again)) hr source_record_again,
        )

-- What a second merge of a contribution leaves, given the view after the first
pub record IsRepeated {F : Type 0} ⦃f : Float F⦄ (pd : Pydantic F) (py : Python F)
    (c : NormalisedContribution F) (later : ℕ) (v : Vulnerability F) : Type 0 where
  pub result : MergeResult F
  pub returned : merge pd py (some v) c later ≡ ok result
  pub unchanged :
      record result.vulnerability { references = v.references; last_updated_at = v.last_updated_at }
      ≡ v
  pub urls : List String
  pub urls_read : read_urls pd (distinct_after [] c.references) ≡ ok urls
  pub listed_again : result.vulnerability.references ≡ distinct_after [] v.references ++ urls
  pub no_history : result.history ≡ []
  pub old : result.is_new ≡ false

module _ {F : Type 0} ⦃f : Float F⦄ ⦃laws : IsScoreFloat F⦄ (pd : Pydantic F) (py : Python F)
    (existing : Option (Vulnerability F)) (c : NormalisedContribution F) (now later : ℕ) where
  -- When a contribution was merged, merging it again, at any time, returns, records no change, and
  -- leaves every field of the view as it was but the time of the update and the list of URLs, behind
  -- which those of the contribution stand once more.
  pub merge-IsRepeated :
      (m : MergeResult F)
      → merge pd py existing c now ≡ ok m
      → IsRepeated pd py c later m.vulnerability
  unfolding merge
  merge-IsRepeated m h =
      let (merged, recorded) =
        subst (Ensures (λ n. IsMerged pd existing c now n.vulnerability × Again pd c now later)) h
          (merge-Ensures pd c now later py existing) in
      let v = m.vulnerability in
      record {
        result = record {
          vulnerability = again pd existing c now later v merged;
          history = changes py (some v) c later;
          source_record = recorded.0;
          products = c.products;
          is_new = false;
        };
        returned = rw (vulnerability_again pd existing c now later v merged, recorded.1) refl;
        unchanged = merged_again pd existing c now later v merged;
        urls = merged.urls;
        urls_read = merged.urls_read;
        listed_again = listed_references pd existing c now later v merged;
        no_history = changes_again py pd existing c now later v merged;
        old = refl;
      }
