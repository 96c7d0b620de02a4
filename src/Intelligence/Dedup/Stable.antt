-- ===== src/Intelligence/Dedup/Stable.antt =====
-- How each way of merging a field stands to a second merge.
use zero_shield.Base.{
  ℕ, String, ◌≡◌, refl, ◌∙◌, Bool, true, false, ◌||◌, Option, none, some, List, [], ◌∷◌, ◌++◌,
  arith, str_eq, eq_refl, any_of, any_of-append, append_assoc, keep, All, if◌then◌else◌,
}
use zero_shield.Base.Sorted.{sorted_set, sorted_set-contained, contains}
use zero_shield.Intelligence.Models.{VulnerabilitySourceName}
use zero_shield.Intelligence.Dedup.{
  earliest, latest, or_text, or_date, sorted_sources, eq_source, by_value,
}

pub earliest_again : (o n : Option ℕ) → earliest (earliest o n) n ≡ earliest o n
earliest_again none none = refl
earliest_again (some o) none = refl
earliest_again none (some n) = ground arith
earliest_again (some o) (some n) = ground arith

pub latest_again : (o n : Option ℕ) → latest (latest o n) n ≡ latest o n
latest_again none none = refl
latest_again (some o) none = refl
latest_again none (some n) = ground arith
latest_again (some o) (some n) = ground arith

-- `new if given else old`
pub chosen_again :
    {A : Type 0} (given : Bool) (new old : A)
    → (if given then new else if given then new else old) ≡ (if given then new else old)
chosen_again true new old = refl
chosen_again false new old = refl

pub listed_again : (old new : Bool) → ((old || new) || new) ≡ (old || new)
listed_again true new = refl
listed_again false true = refl
listed_again false false = refl

pub or_text_again : (new old : Option String) → or_text new (or_text new old) ≡ or_text new old
or_text_again none old = refl
or_text_again (some s) old = ground arith

pub or_date_again : (new old : Option ℕ) → or_date new (or_date new old) ≡ or_date new old
or_date_again none old = refl
or_date_again (some d) old = refl

-- A field that changes only where the contribution lists the CVE
pub guarded_again :
    {A : Type 0} (guarded : Bool) (g : A → A) (old : A)
    → g (g old) ≡ g old
    → (if guarded then g (if guarded then g old else old) else if guarded then g old else old)
      ≡ (if guarded then g old else old)
guarded_again true g old h = h
guarded_again false g old h = refl

pub or_true : (b : Bool) → (b || true) ≡ true
or_true true = refl
or_true false = refl

self_contained : (seen xs : List String) → All (λ y. contains y (seen ++ xs) ≡ true) xs
self_contained seen [] = tt
self_contained seen (x ∷ xs) = (
  any_of-append (str_eq x) seen (x ∷ xs) ∙ rw (eq_refl x) (or_true (contains x seen)),
  rw (append_assoc seen (x ∷ []) xs) at (self_contained (seen ++ x ∷ []) xs),
)

pub sorted_set_again :
    (o n : List String) → sorted_set (sorted_set (o ++ n) ++ n) ≡ sorted_set (o ++ n)
sorted_set_again o n = sorted_set-contained (o ++ n) n (self_contained o n)

keep_same :
    {A : Type 0} (p q : A → Bool) (xs : List A) → ((x : A) → p x ≡ q x) → keep p xs ≡ keep q xs
keep_same p q [] h = refl
keep_same p q (x ∷ xs) h = rw (h x, keep_same p q xs h) refl

pub any_of-sorted_sources :
    (s : VulnerabilitySourceName) (xs : List VulnerabilitySourceName)
    → any_of (eq_source s) (sorted_sources xs) ≡ any_of (eq_source s) xs
any_of-sorted_sources VulnerabilitySourceName.nvd xs = ground arith
any_of-sorted_sources VulnerabilitySourceName.cisa_kev xs = ground arith
any_of-sorted_sources VulnerabilitySourceName.epss xs = ground arith
any_of-sorted_sources VulnerabilitySourceName.github_advisory xs = ground arith
any_of-sorted_sources VulnerabilitySourceName.manual_import xs = ground arith

pub sorted_sources_again :
    (o n : List VulnerabilitySourceName)
    → sorted_sources (sorted_sources (o ++ n) ++ n) ≡ sorted_sources (o ++ n)
sorted_sources_again o n =
    keep_same (λ s. any_of (eq_source s) (sorted_sources (o ++ n) ++ n))
      (λ s. any_of (eq_source s) (o ++ n)) by_value
      λ s.
        any_of-append (eq_source s) (sorted_sources (o ++ n)) n
        ∙ rw (any_of-sorted_sources s (o ++ n), any_of-append (eq_source s) o n)
            (listed_again (any_of (eq_source s) o) (any_of (eq_source s) n))
