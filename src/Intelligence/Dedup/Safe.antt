-- ===== src/Intelligence/Dedup/Safe.antt =====
-- A merge raises nothing that a sync does not count, and what it gives can be stored and read.
use zero_shield.Base.{
  ℕ, ◌≡◌, refl, sym, ap, subst, String, Bool, true, false, Bool-cases, inl, inr, Option, none, some,
  Option-cases, List, [], ◌∷◌, All, All-append, any_of, str_eq, if◌then◌else◌,
}
use zero_shield.Base.Floats.{Float}
use zero_shield.Base.Effects.{Result, ok, err}
use zero_shield.Base.Results.{◌>>=◌, ◌>>◌, require, Ensures, Ensures-bind, Ensures-map}
use zero_shield.Models.Values.{Value, null, str}
use zero_shield.Intelligence.Models.{Vulnerability, vulnerability_validates}
use zero_shield.Intelligence.Normalisation.{
  Python, NormalisedContribution, RecordFailure, validation_error,
}
use zero_shield.Intelligence.Dedup.{
  Pydantic, known_list, distinct_after, optional_text, optional_float, read_urls, wins_description,
  wins_cvss, merged_fields, merged_vulnerability, source_record, merge,
}
use zero_shield.Intelligence.Dedup.Merged.{IsMerged}
use zero_shield.Intelligence.Dedup.Twice.{Again, merge-Ensures}
use zero_shield.Intelligence.Repository.RoundTrip.{AreUrls}
use zero_shield.Intelligence.Sync.{in_record, is_caught}

-- An error that a sync counts
abbrev pub IsCounted : {A : Type 0} → Result RecordFailure A → Type 0
IsCounted (ok a) = Unit
IsCounted (err e) = is_caught (in_record e) ≡ true

IsCounted-bind :
    {A B : Type 0} (m : Result RecordFailure A) (g : A → Result RecordFailure B)
    → IsCounted m
    → ((a : A) → IsCounted (g a))
    → IsCounted (m >>= g)
IsCounted-bind (ok a) g h k = k a
IsCounted-bind (err e) g h k = h

IsCounted-if :
    {A : Type 0} (b : Bool) (m n : Result RecordFailure A)
    → IsCounted m
    → IsCounted n
    → IsCounted (if b then m else n)
IsCounted-if true m n h k = h
IsCounted-if false m n h k = k

IsCounted-require : {A : Type 0} (b : Bool) (a : A) → IsCounted (require b validation_error >> ok a)
IsCounted-require true a = tt
IsCounted-require false a = refl

distinct-All :
    (P : String → Type 0) (seen xs : List String) → All P xs → All P (distinct_after seen xs)
distinct-All P seen [] h = tt
distinct-All P seen (x ∷ xs) (px, h) = elim (Bool-cases (any_of (str_eq x) seen)) [
  | inl again ↦ rw again (distinct-All P (x ∷ seen) xs h)
  | inr first ↦ rw first (px, distinct-All P (x ∷ seen) xs h)
]

module _ {F : Type 0} ⦃f : Float F⦄ (pd : Pydantic F) where
  optional_text-IsCounted : (v : Value F) → IsCounted (optional_text pd v)
  optional_text-IsCounted null = tt
  optional_text-IsCounted (str s) = tt
  optional_text-IsCounted _ = refl

  optional_float-IsCounted : (v : Value F) → IsCounted (optional_float pd v)
  optional_float-IsCounted null = tt
  optional_float-IsCounted v = elim (Option-cases (pd.to_float v)) [
    | inl bad ↦ rw (bad, IsCounted) refl
    | inr (x, good) ↦ rw (good, IsCounted) tt
  ]

  read_urls-IsCounted : (ss : List String) → IsCounted (read_urls pd ss)
  read_urls-IsCounted [] = tt
  read_urls-IsCounted (s ∷ ss) = elim (Option-cases (pd.http_url s)) [
    | inl bad ↦ rw (bad, IsCounted) refl
    | inr (u, good) ↦
        rw (good, IsCounted) (IsCounted-bind (read_urls pd ss) _ (read_urls-IsCounted ss) (λ _. tt))
  ]

  -- What `HttpUrl` makes of the text can be read again, and is then the same.
  abbrev pub IsStable : String → Type 0
  IsStable s = (u : String) → pd.http_url s ≡ some u → pd.http_url u ≡ some u

  read_urls-AreUrls : (ss : List String) → All IsStable ss → Ensures (AreUrls pd) (read_urls pd ss)
  read_urls-AreUrls [] norm = tt
  read_urls-AreUrls (s ∷ ss) (stable, norm) = elim (Option-cases (pd.http_url s)) [
    | inl bad ↦ rw (bad, Ensures) tt
    | inr (u, good) ↦
        rw (good, Ensures)
          (Ensures-bind (AreUrls pd) (read_urls pd ss) _
            λ us h. (stable u good, subst (Ensures (AreUrls pd)) h (read_urls-AreUrls ss norm)))
  ]

  merged_vulnerability-IsCounted :
      (existing : Option (Vulnerability F)) (c : NormalisedContribution F) (now : ℕ)
      → IsCounted (merged_vulnerability pd existing c now)
  unfolding merged_vulnerability
  merged_vulnerability-IsCounted existing c now =
      IsCounted-bind _ _
        (IsCounted-if (wins_description existing c) _ _ (optional_text-IsCounted c.description) tt)
        λ d.
          IsCounted-bind _ _
            (IsCounted-if (wins_cvss existing c) _ _ (optional_float-IsCounted c.cvss_score) tt)
            λ x.
              IsCounted-bind _ _
                (IsCounted-if (wins_cvss existing c) _ _ (optional_text-IsCounted c.cvss_vector) tt)
                λ w.
                  IsCounted-bind _ _ (read_urls-IsCounted (distinct_after [] c.references))
                    λ us. IsCounted-require _ _

  source_record-IsCounted :
      (c : NormalisedContribution F) (now : ℕ) → IsCounted (source_record pd c now)
  unfolding source_record
  source_record-IsCounted c now =
      IsCounted-bind _ _ (optional_text-IsCounted c.source_identifier) λ id.
        IsCounted-bind _ _ (optional_text-IsCounted c.description) λ d.
          IsCounted-bind _ _ (optional_float-IsCounted c.cvss_score) λ x.
            IsCounted-bind _ _ (optional_text-IsCounted c.cvss_vector) λ w. IsCounted-require _ _

  -- A merge raises nothing but ValidationError.
  pub merge-IsCounted :
      (py : Python F) (existing : Option (Vulnerability F)) (c : NormalisedContribution F) (now : ℕ)
      → IsCounted (merge pd py existing c now)
  unfolding merge
  merge-IsCounted py existing c now =
      IsCounted-bind _ _ (merged_vulnerability-IsCounted existing c now)
        λ v. IsCounted-bind _ _ (source_record-IsCounted c now) λ _. tt

  -- A view that satisfies its constraints, and whose URLs are as `HttpUrl` writes them
  abbrev pub IsReadable : Vulnerability F → Type 0
  IsReadable v = (vulnerability_validates v ≡ true) × AreUrls pd v.references

  abbrev pub IsReadableKnown : Option (Vulnerability F) → Type 0
  IsReadableKnown none = Unit
  IsReadableKnown (some v) = IsReadable v

  known-AreUrls :
      (existing : Option (Vulnerability F))
      → IsReadableKnown existing
      → AreUrls pd (known_list (λ v. v.references) existing)
  known-AreUrls none h = tt
  known-AreUrls (some v) (valid, urls) = urls

  merged-IsReadable :
      (existing : Option (Vulnerability F)) (c : NormalisedContribution F) (now : ℕ)
      → All IsStable c.references
      → IsReadableKnown existing
      → (v : Vulnerability F) → IsMerged pd existing c now v
      → IsReadable v
  unfolding merged_fields
  merged-IsReadable existing c now norm h v m =
      let old = known_list (λ w. w.references) existing in
      let new : AreUrls pd m.urls = subst (Ensures (AreUrls pd)) m.urls_read (
        read_urls-AreUrls (distinct_after [] c.references)
          (distinct-All IsStable [] c.references norm)) in
      (
        m.valid,
        subst (AreUrls pd) (sym (ap (λ w. w.references) m.fields)) (
            All-append (λ u. pd.http_url u ≡ some u) (distinct_after [] old) m.urls
              (distinct-All (λ u. pd.http_url u ≡ some u) [] old (known-AreUrls existing h)) new),
      )

  -- A merge into such a view gives such a view.
  pub merge-IsReadable :
      (py : Python F) (existing : Option (Vulnerability F)) (c : NormalisedContribution F) (now : ℕ)
      → All IsStable c.references
      → IsReadableKnown existing
      → Ensures (λ m. IsReadable m.vulnerability) (merge pd py existing c now)
  merge-IsReadable py existing c now norm h =
      Ensures-map (λ m. IsMerged pd existing c now m.vulnerability × Again pd c now now)
        (λ m. IsReadable m.vulnerability) (merge pd py existing c now)
        (λ m k. merged-IsReadable existing c now norm h m.vulnerability k.0)
        (merge-Ensures pd c now now py existing)
