-- ===== src/Intelligence/Candidates/Generated.antt =====
-- Which vulnerabilities become candidates, and under which domain.
use zero_shield.Base.{
  ℕ, ◌≡◌, refl, sym, ◌∙◌, ap, subst, String, Bool, true, false, not, ◌&&◌, ◌||◌, none, some, List,
  [], ◌∷◌, ◌++◌, arith, any_of, keep, if◌then◌else◌,
}
use zero_shield.Base.Floats.{Float, IsOrderedFloat, IsScoreFloat}
use zero_shield.Base.Effects.{ok, err}
use zero_shield.Intelligence.Normalisation.{validation_error}
use zero_shield.Base.Sorted.{sorted_set, insert_text, insert_all}
use zero_shield.Models.Enums.{Domain}
use zero_shield.Models.Experiment.{codes, nonempty_list}
use zero_shield.Models.Patterns.{is_cve_id}
use zero_shield.Strategies.Vpn.{contains}
use zero_shield.Intelligence.Models.{
  SupportStatus, Vulnerability, ValidationCandidate, vulnerability_validates, candidate_validates,
}
use zero_shield.Intelligence.Priority.{ExplanationLine, default_weights, score}
use zero_shield.Intelligence.Priority.Bounds.{score_range}
use zero_shield.Intelligence.Candidates.{
  DomainClassification, vpn_strong_terms, vpn_product_terms, telecom_strong_terms,
  telecom_product_terms, hits, classified_text, classify_hits, classify_text, classify_domain,
  candidate_of, is_unsupported, generate_candidate,
}

-- One of the terms occurs in the text.
abbrev pub mentions : List String → List ℕ → Bool
mentions terms text = any_of (λ t. contains (codes t) text) terms

nonempty-insert_text : (x : String) (ys : List String) → nonempty_list (insert_text x ys) ≡ true
nonempty-insert_text x [] = refl
nonempty-insert_text x (y ∷ ys) = ground arith

or_true : (b : Bool) → (b || true) ≡ true
or_true true = refl
or_true false = refl

nonempty-insert_all :
    (acc xs : List String)
    → nonempty_list (insert_all acc xs) ≡ (nonempty_list acc || nonempty_list xs)
nonempty-insert_all [] [] = refl
nonempty-insert_all (a ∷ acc) [] = refl
nonempty-insert_all acc (x ∷ xs) =
    nonempty-insert_all (insert_text x acc) xs
    ∙ ap (λ b. b || nonempty_list xs) (nonempty-insert_text x acc)
    ∙ sym (or_true (nonempty_list acc))

nonempty-keep : {A : Type 0} (p : A → Bool) (xs : List A) → nonempty_list (keep p xs) ≡ any_of p xs
nonempty-keep p [] = refl
nonempty-keep p (x ∷ xs) = ground (arith, nonempty-keep p xs)

nonempty-hits :
    (terms : List String) (text : List ℕ) → nonempty_list (hits terms text) ≡ mentions terms text
unfolding sorted_set
nonempty-hits terms text =
    nonempty-insert_all [] (keep (λ t. contains (codes t) text) terms)
    ∙ nonempty-keep (λ t. contains (codes t) text) terms

nonempty-append :
    {A : Type 0} (xs ys : List A)
    → nonempty_list (xs ++ ys) ≡ (nonempty_list xs || nonempty_list ys)
nonempty-append [] ys = refl
nonempty-append (x ∷ xs) ys = refl

-- The domain and the support of a text, by the kinds of terms that occur in it
pub record IsClassified (vpn_strong vpn_product telecom_strong telecom_product : Bool)
    (found : DomainClassification) : Type 0 where
  pub domain : found.domain ≡ (
      if vpn_strong || vpn_product
      then if telecom_strong || telecom_product then none else some Domain.vpn
      else if telecom_strong || telecom_product
      then some Domain.telecom
      else none)
  pub support_status : found.support_status ≡ (
      if (vpn_strong || vpn_product) && (telecom_strong || telecom_product)
      then SupportStatus.partially_supported
      else if vpn_product || telecom_product
      then SupportStatus.supported
      else if vpn_strong || telecom_strong
      then SupportStatus.partially_supported
      else SupportStatus.unsupported)

classify_hits-IsClassified :
    (a b c d : List String)
    → IsClassified
        (nonempty_list a)
        (nonempty_list b)
        (nonempty_list c)
        (nonempty_list d)
        (classify_hits a b c d)
unfolding classify_hits
classify_hits-IsClassified a b c d = record {
  domain = ground (arith, nonempty-append a b, nonempty-append c d);
  support_status = ground (arith, nonempty-append a b, nonempty-append c d);
}

hits-IsClassified :
    (a b c d : List String) (text : List ℕ)
    → IsClassified
        (mentions a text)
        (mentions b text)
        (mentions c text)
        (mentions d text)
        (classify_hits (hits a text) (hits b text) (hits c text) (hits d text))
hits-IsClassified a b c d text =
    subst
      (λ (p : Bool × Bool × Bool × Bool).
        IsClassified p.0 p.1 p.2 p.3
          (classify_hits (hits a text) (hits b text) (hits c text) (hits d text)))
      (λ i. (
        nonempty-hits a text i,
        nonempty-hits b text i,
        nonempty-hits c text i,
        nonempty-hits d text i,
      ))
      (classify_hits-IsClassified (hits a text) (hits b text) (hits c text) (hits d text))

-- A text with terms of both domains is given to neither and partially supported. A text with terms of
-- one of them is given to it: supported if it names a product, partially supported if it has
-- general terms only. A text with no term is unsupported.
pub classify_text-IsClassified :
    (text : List ℕ)
    → IsClassified
        (mentions vpn_strong_terms text)
        (mentions vpn_product_terms text)
        (mentions telecom_strong_terms text)
        (mentions telecom_product_terms text)
        (classify_text text)
unfolding classify_text
classify_text-IsClassified text =
    hits-IsClassified vpn_strong_terms vpn_product_terms telecom_strong_terms telecom_product_terms
      text

-- Some term of the four lists occurs.
abbrev pub is_relevant : List ℕ → Bool
is_relevant text =
    mentions vpn_strong_terms text
    || mentions vpn_product_terms text
    || mentions telecom_strong_terms text
    || mentions telecom_product_terms text

unsupported_status :
    (a b c d : Bool)
    → is_unsupported (
        if (a || b) && (c || d)
        then SupportStatus.partially_supported
        else if b || d
        then SupportStatus.supported
        else if a || c
        then SupportStatus.partially_supported
        else SupportStatus.unsupported)
      ≡ not (a || b || c || d)
unsupported_status a b c d = ground arith

unsupported-not_relevant :
    (a b c d : Bool) (found : DomainClassification)
    → IsClassified a b c d found
    → is_unsupported found.support_status ≡ not (a || b || c || d)
unsupported-not_relevant a b c d found h =
    ap is_unsupported h.support_status ∙ unsupported_status a b c d

made_if :
    {A : Type 0} (unsupported relevant valid : Bool) (a : A)
    → unsupported ≡ not relevant
    → valid ≡ true
    → (if unsupported then ok none else if valid then ok (some a) else err validation_error)
      ≡ ok (if relevant then some a else none)
made_if unsupported relevant valid a h k = ground arith

module _ {F : Type 0} ⦃f : Float F⦄ ⦃o : IsOrderedFloat F⦄ ⦃s : IsScoreFloat F⦄
    (format : ExplanationLine F → String) (v : Vulnerability F) (ids : String → List String)
    (now : ℕ) where
  abbrev candidate : ValidationCandidate F
  candidate = candidate_of format v (classify_domain v) (ids v.cve_id) default_weights now

  explained : nonempty_list candidate.explanation ≡ true
  unfolding candidate_of score
  explained = refl

  candidate-validates : vulnerability_validates v ≡ true → candidate_validates candidate ≡ true
  unfolding candidate_validates candidate_of vulnerability_validates
  candidate-validates h =
      let (low, high) =
        score_range v (classify_domain v).support_status (nonempty_list (ids v.cve_id)) h in
      let id : is_cve_id v.cve_id ≡ true = ground arith in
      let explained : nonempty_list candidate.explanation ≡ true = explained in
      rw (id, low, high, explained) refl

  -- With the default weights, the generation of a candidate for a vulnerability that validates never
  -- raises. There is a candidate exactly if a term of VPN or telecom occurs in the text of the
  -- vulnerability, and it satisfies the constraints of ValidationCandidate.
  pub generate_candidate-returns :
      vulnerability_validates v ≡ true
      → (generate_candidate format v ids default_weights now
          ≡ ok (if is_relevant (classified_text v) then some candidate else none))
        × (candidate_validates candidate ≡ true)
  unfolding generate_candidate classify_domain
  generate_candidate-returns h =
      let valid = candidate-validates h in
      let unsupported =
        unsupported-not_relevant _ _ _ _ (classify_domain v)
          (classify_text-IsClassified (classified_text v)) in
      (
        made_if (is_unsupported (classify_domain v).support_status)
            (is_relevant (classified_text v)) (candidate_validates candidate) candidate unsupported
            valid,
        valid,
      )
