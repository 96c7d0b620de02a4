-- ===== src/Intelligence/Dedup/Again.antt =====
-- Merging a contribution once more.
use zero_shield.Base.{
  ℕ, String, ◌≡◌, refl, sym, ◌∙◌, ap, ◌⊎◌, inl, inr, Bool, true, false, not, ◌||◌, Bool-cases,
  Option, none, some, Option-cases, [], ◌++◌, arith, is_some, eq_refl, if◌then◌else◌,
}
use zero_shield.Base.Floats.{Float, IsScoreFloat}
use zero_shield.Base.Effects.{ok, err}
use zero_shield.Models.Enums.{ZeroClickRelevance}
use zero_shield.Models.Values.{Value, null, bool, int, float, str, list, dict, eq_value}
use zero_shield.Intelligence.Models.{VulnerabilitySourceName, Vulnerability}
use zero_shield.Intelligence.Normalisation.{Python, NormalisedContribution, validation_error}
use zero_shield.Intelligence.Dedup.{
  Pydantic, better, is_present, str_or_none, float_or_none, known, wins_description, wins_cvss,
  merged_fields, optional_text, optional_float, track_value, kev_changes, relevance_value,
  track_date, track_relevance, lists_kev, known_kev, changes,
}
use zero_shield.Intelligence.Dedup.Merged.{IsMerged, read_description, read_score}

-- What is present and offered by the owner itself or by a source behind it does not change.
pub better_present :
    (source : VulnerabilitySourceName) (offered : Bool)
    → better (some 0) true source offered ≡ false
unfolding better
better_present source offered = ground arith

better_absent :
    (owner : Option ℕ) (source : VulnerabilitySourceName) → better owner false source true ≡ true
unfolding better
better_absent owner source = refl

not_offered :
    (owner : Option ℕ) (present : Bool) (source : VulnerabilitySourceName)
    → better owner present source false ≡ false
unfolding better
not_offered owner present source = refl

or_true : (b : Bool) → (b || true) ≡ true
or_true true = refl
or_true false = refl

module _ {F : Type 0} (pd : Pydantic F) where
  -- A float that was read is there.
  is_some-read :
      (v : Value F) (x : Option F)
      → is_present v ≡ true
      → optional_float pd v ≡ ok x
      → is_some x ≡ true
  is_some-read null x p h = cc
  is_some-read v x p h = elim (Option-cases (pd.to_float v)) [
    | inl e ↦ let no : err validation_error ≡ ok x = rw (e, optional_float) at h in cc
    | inr (y, e) ↦
        let yes : ok (some y) ≡ ok x = rw (e, optional_float) at h in
        let eq : some y ≡ x = cc in rw (sym eq) refl
  ]

  module _ (existing : Option (Vulnerability F)) (c : NormalisedContribution F)
      (v : Vulnerability F) where
    -- A CVSS score never wins against what a merge of the same contribution left.
    pub wins_cvss_again : read_score pd existing c ≡ ok v.cvss_score → wins_cvss (some v) c ≡ false
    wins_cvss_again h = elim (Bool-cases (wins_cvss existing c)) [
      | inr kept ↦
          let old : ok (known (λ w. w.cvss_score) existing) ≡ ok v.cvss_score = rw kept at h in
          let eq : known (λ w. w.cvss_score) existing ≡ v.cvss_score = cc in rw (sym eq) kept
      | inl won ↦ elim (Bool-cases (is_present c.cvss_score)) [
        | inr absent ↦ rw absent (not_offered _ _ c.source)
        | inl present ↦
            let here = is_some-read c.cvss_score v.cvss_score present (rw won at h) in
            rw (here, present) (better_present c.source true)
      ]
    ]

    -- Nor does a description change.
    pub description_again :
        read_description pd existing c ≡ ok v.description
        → (wins_description (some v) c ≡ false)
          ⊎ (optional_text pd c.description ≡ ok v.description)
    description_again h = elim (Bool-cases (wins_description existing c)) [
      | inl won ↦ inr (rw won at h)
      | inr kept ↦
          let old : ok (known (λ w. w.description) existing) ≡ ok v.description = rw kept at h in
          let eq : known (λ w. w.description) existing ≡ v.description = cc in
          inl (rw (sym eq) kept)
    ]

  text_unchanged :
      ⦃f : Float F⦄ (v : Value F) (d : Option String)
      → optional_text pd v ≡ ok d
      → (eq_value (str_or_none d) v || not (is_present v)) ≡ true
  unfolding eq_value
  text_unchanged null none h = refl
  text_unchanged null (some s) h = cc
  text_unchanged (str s) none h = cc
  text_unchanged (str s) (some t) h = let eq : s ≡ t = cc in rw (sym eq, eq_refl s) refl
  text_unchanged (bool b) d h = cc
  text_unchanged (int n) d h = cc
  text_unchanged (float x) d h = cc
  text_unchanged (list xs) d h = cc
  text_unchanged (dict d') d h = cc

  score_unchanged :
      ⦃f : Float F⦄ ⦃laws : IsScoreFloat F⦄ (old new : Option F)
      → ((x : F) → new ≡ some x → old ≡ some x)
      → (eq_value (float_or_none old) (float_or_none new) || not (is_present (float_or_none new)))
        ≡ true
  unfolding eq_value
  score_unchanged old none h = or_true (eq_value (float_or_none old) null)
  score_unchanged ⦃laws⦄ old (some x) h = rw (h x refl, laws.eq_self x) refl

pub if_same : {A : Type 0} (b : Bool) (a : A) → (if b then a else a) ≡ a
if_same true a = refl
if_same false a = refl

module _ {F : Type 0} ⦃f : Float F⦄ ⦃laws : IsScoreFloat F⦄ (py : Python F) (pd : Pydantic F)
    (existing : Option (Vulnerability F)) (c : NormalisedContribution F) (now later : ℕ)
    (v : Vulnerability F) (m : IsMerged pd existing c now v) where
  epss_changes_again :
      track_value py c later "epss_score" (float_or_none v.epss_score) (float_or_none c.epss_score)
      ≡ []
  unfolding merged_fields
  epss_changes_again =
      rw
        (score_unchanged pd v.epss_score c.epss_score
          (λ x e. ap (λ w. w.epss_score) m.fields ∙ rw e refl))
        refl

  date_again :
      (field : String) (old new : Option ℕ)
      → ((d : ℕ) → new ≡ some d → old ≡ some d)
      → track_date py c later field old new ≡ []
  date_again field old none h = refl
  date_again field old (some d) h = rw (h d refl) (ground arith)

  kev_changes_again : lists_kev c ≡ true → kev_changes py (some v) c later ≡ []
  unfolding merged_fields
  kev_changes_again listed =
      let kev : v.kev_listed ≡ true =
        ap (λ w. w.kev_listed) m.fields ∙ rw listed (or_true (known_kev existing)) in
      rw
        (
          kev,
          date_again "kev_date_added" v.kev_date_added c.kev_date_added
              (λ d e. ap (λ w. w.kev_date_added) m.fields ∙ rw (listed, e) refl),
          date_again "kev_due_date" v.kev_due_date c.kev_due_date
              (λ d e. ap (λ w. w.kev_due_date) m.fields ∙ rw (listed, e) refl),
        )
        refl

  relevance_again :
      (old new : Option ZeroClickRelevance)
      → ((z : ZeroClickRelevance) → new ≡ some z → old ≡ some z)
      → track_relevance py c later old new ≡ []
  relevance_again old none h = refl
  relevance_again old (some z) h = rw (h z refl, eq_refl (relevance_value z)) refl

  relevance_changes_again :
      track_relevance py c later v.zero_click_relevance c.zero_click_relevance ≡ []
  unfolding merged_fields
  relevance_changes_again =
      relevance_again v.zero_click_relevance c.zero_click_relevance
        (λ z e. ap (λ w. w.zero_click_relevance) m.fields ∙ rw e refl)

  description_changes_again :
      (if wins_description (some v) c
        then track_value py c later "description" (str_or_none v.description) c.description
        else [])
      ≡ []
  description_changes_again = elim (description_again pd existing c v m.description_read) [
    | inl kept ↦ rw kept refl
    | inr read ↦
        rw (text_unchanged pd c.description v.description read)
          (if_same (wins_description (some v) c) [])
  ]

  -- A contribution that is merged again changes nothing that the history records.
  pub changes_again : changes py (some v) c later ≡ []
  unfolding changes
  changes_again =
      rw
        (
          description_changes_again,
          wins_cvss_again pd existing c v m.score_read,
          epss_changes_again,
          relevance_changes_again,
        )
        (if_kev (lists_kev c) refl)
    where
      if_kev :
          (b : Bool)
          → lists_kev c ≡ b
          → (if b then kev_changes py (some v) c later else []) ++ [] ≡ []
      if_kev true h = rw (kev_changes_again h) refl
      if_kev false h = refl
