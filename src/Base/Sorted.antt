-- ===== src/Base/Sorted.antt =====
-- `sorted(set(xs))` of texts, in the order of their code points: the strictly increasing list of
-- the elements.
use Prim.Native.Nat.{ℕ, compare as compare_ℕ, Ordering}
use Prim.Native.Char.{code}
use Prim.Native.String.compare
use Prim.Native.String.{String, compare, then as lex}
use mathlib.Core.Path.{◌≡◌, refl, sym, ◌∙◌}
use mathlib.Core.Logic.{inl, inr}
use mathlib.Core.Bool.{Bool, true, false, ◌||◌}
use mathlib.Core.List.{List, [], ◌∷◌, ◌++◌}
use native.Mathlib.Omega.{arith}
use text.Mathlib.Text.{◌==◌ as str_eq, is_lt}
use text.Mathlib.TextEquality.{eq_iff}
use text.Mathlib.TextPositions.{compare_refl}
use zero_shield.Base.Tests.{if◌then◌else◌, Bool-cases}
use zero_shield.Base.Lists.{any_of, All, All-map, append-nil, append_assoc}

abbrev pub text_lt : String → String → Bool
text_lt s t = is_lt (compare s t)

abbrev flip : Ordering → Ordering
flip Ordering.lt = Ordering.gt
flip Ordering.eq = Ordering.eq
flip Ordering.gt = Ordering.lt

flip-lex : (o r : Ordering) → flip (lex o r) ≡ lex (flip o) (flip r)
flip-lex Ordering.lt r = refl
flip-lex Ordering.eq r = refl
flip-lex Ordering.gt r = refl

compare_ℕ-flip : (m n : ℕ) → compare_ℕ n m ≡ flip (compare_ℕ m n)
compare_ℕ-flip m n = ground arith

compare-flip : (s t : String) → compare t s ≡ flip (compare s t)
compare-flip String.[] String.[] = rw compare.nil-nil refl
compare-flip String.[] (String.◌∷◌ d t) = rw (compare.nil-cons, compare.cons-nil) refl
compare-flip (String.◌∷◌ c s) String.[] = rw (compare.nil-cons, compare.cons-nil) refl
compare-flip (String.◌∷◌ c s) (String.◌∷◌ d t) =
    rw
      (
        compare.cons-cons c d s t,
        compare.cons-cons d c t s,
        compare_ℕ-flip (code c) (code d),
        compare-flip s t,
      )
      (sym (flip-lex (compare_ℕ (code c) (code d)) (compare s t)))

lex_trans :
    (m n k : ℕ) (p q r : Ordering)
    → (is_lt p ≡ true → is_lt q ≡ true → is_lt r ≡ true)
    → is_lt (lex (compare_ℕ m n) p) ≡ true
    → is_lt (lex (compare_ℕ n k) q) ≡ true
    → is_lt (lex (compare_ℕ m k) r) ≡ true
lex_trans m n k p q r trans g h = ground arith

text_lt_trans : (s t u : String) → text_lt s t ≡ true → text_lt t u ≡ true → text_lt s u ≡ true
text_lt_trans String.[] String.[] u h k = k
text_lt_trans (String.◌∷◌ c s) String.[] u h k =
    let no : false ≡ true = rw compare.cons-nil at h in cc
text_lt_trans String.[] (String.◌∷◌ d t) String.[] h k =
    let no : false ≡ true = rw compare.cons-nil at k in cc
text_lt_trans (String.◌∷◌ c s) (String.◌∷◌ d t) String.[] h k =
    let no : false ≡ true = rw compare.cons-nil at k in cc
text_lt_trans String.[] (String.◌∷◌ d t) (String.◌∷◌ e u) h k = rw compare.nil-cons refl
text_lt_trans (String.◌∷◌ c s) (String.◌∷◌ d t) (String.◌∷◌ e u) h k =
    rw (compare.cons-cons c e s u) (
      lex_trans (code c) (code d) (code e) (compare s t) (compare t u) (compare s u)
        (text_lt_trans s t u) (rw (compare.cons-cons c d s t) at h)
        (rw (compare.cons-cons d e t u) at k))

-- The order is total: of two different texts one comes first.
abbrev pub insert_text : String → List String → List String
insert_text x [] = x ∷ []
insert_text x (y ∷ ys) =
    let below = insert_text x ys in
    if str_eq x y then y ∷ ys else if text_lt x y then x ∷ y ∷ ys else y ∷ below

-- The elements are put in one after the other.
abbrev pub insert_all : List String → List String → List String
insert_all acc [] = acc
insert_all acc (x ∷ xs) = insert_all (insert_text x acc) xs

-- `sorted(set(xs))`
unfoldable pub sorted_set : List String → List String
sorted_set xs = insert_all [] xs

-- Each element comes before all that follow it.
abbrev pub IsIncreasing : List String → Type 0
IsIncreasing [] = Unit
IsIncreasing (x ∷ xs) = All (λ y. text_lt x y ≡ true) xs × IsIncreasing xs

abbrev pub contains : String → List String → Bool
contains x ys = any_of (str_eq x) ys

not_before_self : (x : String) → text_lt x x ≡ false
not_before_self x = rw (compare_refl x) refl

after_other : (x y : String) → str_eq x y ≡ false → text_lt x y ≡ false → text_lt y x ≡ true
after_other x y h k = ground (arith, compare-flip x y)

before-All :
    (y x : String) (ys : List String)
    → All (λ z. text_lt y z ≡ true) ys
    → contains x ys ≡ true
    → text_lt y x ≡ true
before-All y x [] h k = cc
before-All y x (z ∷ zs) (first, h) k = elim (Bool-cases (str_eq x z)) [
  | inl same ↦ rw ((eq_iff x z).0 same) first
  | inr other ↦ before-All y x zs h (rw other at k)
]

not_both : (x y : String) → text_lt y x ≡ true → text_lt x y ≡ false
not_both x y h = ground (arith, compare-flip x y)

-- What is there already is not put in again.
pub insert_text-contained :
    (x : String) (ys : List String) → IsIncreasing ys → contains x ys ≡ true → insert_text x ys ≡ ys
insert_text-contained x [] s h = cc
insert_text-contained x (y ∷ ys) (first, s) h = elim (Bool-cases (str_eq x y)) [
  | inl same ↦ rw same refl
  | inr other ↦
      let later : contains x ys ≡ true = rw other at h in
      rw (other, not_both x y (before-All y x ys first later), insert_text-contained x ys s later)
        refl
]

insert_text-before :
    (y x : String) (ys : List String)
    → text_lt y x ≡ true
    → All (λ z. text_lt y z ≡ true) ys
    → All (λ z. text_lt y z ≡ true) (insert_text x ys)
insert_text-before y x [] h k = (h, tt)
insert_text-before y x (z ∷ zs) h (first, k) = elim (Bool-cases (str_eq x z)) [
  | inl same ↦ rw same (first, k)
  | inr other ↦ elim (Bool-cases (text_lt x z)) [
    | inl before ↦ rw (other, before) (h, (first, k))
    | inr after ↦ rw (other, after) (first, insert_text-before y x zs h k)
  ]
]

All-before :
    (x y : String) (ys : List String)
    → text_lt x y ≡ true
    → All (λ z. text_lt y z ≡ true) ys
    → All (λ z. text_lt x z ≡ true) ys
All-before x y [] h k = tt
All-before x y (z ∷ zs) h (first, k) = (text_lt_trans x y z h first, All-before x y zs h k)

pub insert_text-IsIncreasing :
    (x : String) (ys : List String) → IsIncreasing ys → IsIncreasing (insert_text x ys)
insert_text-IsIncreasing x [] s = (tt, tt)
insert_text-IsIncreasing x (y ∷ ys) (first, s) = elim (Bool-cases (str_eq x y)) [
  | inl same ↦ rw same (first, s)
  | inr other ↦ elim (Bool-cases (text_lt x y)) [
    | inl before ↦ rw (other, before) ((before, All-before x y ys before first), (first, s))
    | inr after ↦
        rw (other, after)
          (
            insert_text-before y x ys (after_other x y other after) first,
            insert_text-IsIncreasing x ys s,
          )
  ]
]

pub contains-insert_text :
    (z x : String) (ys : List String)
    → contains z (insert_text x ys) ≡ (str_eq z x || contains z ys)
contains-insert_text z x [] = refl
contains-insert_text z x (y ∷ ys) =
    ground (arith, eq_iff x y, eq_iff z x, eq_iff z y, contains-insert_text z x ys)

insert_all-IsIncreasing :
    (acc xs : List String) → IsIncreasing acc → IsIncreasing (insert_all acc xs)
insert_all-IsIncreasing acc [] s = s
insert_all-IsIncreasing acc (x ∷ xs) s =
    insert_all-IsIncreasing (insert_text x acc) xs (insert_text-IsIncreasing x acc s)

contains-insert_all :
    (z : String) (acc xs : List String)
    → contains z (insert_all acc xs) ≡ (contains z acc || contains z xs)
contains-insert_all z acc [] = ground arith
contains-insert_all z acc (x ∷ xs) =
    ground (arith, contains-insert_all z (insert_text x acc) xs, contains-insert_text z x acc)

-- The set that is listed holds the elements, and no other.
pub contains-sorted_set :
    (z : String) (xs : List String) → contains z (sorted_set xs) ≡ contains z xs
unfolding sorted_set
contains-sorted_set z xs = contains-insert_all z [] xs

pub sorted_set-IsIncreasing : (xs : List String) → IsIncreasing (sorted_set xs)
unfolding sorted_set
sorted_set-IsIncreasing xs = insert_all-IsIncreasing [] xs tt

insert_all-contained :
    (acc xs : List String)
    → IsIncreasing acc
    → All (λ x. contains x acc ≡ true) xs
    → insert_all acc xs ≡ acc
insert_all-contained acc [] s h = refl
insert_all-contained acc (x ∷ xs) s (first, h) =
    rw (insert_text-contained x acc s first) (insert_all-contained acc xs s h)

insert_all-append :
    (acc xs ys : List String) → insert_all acc (xs ++ ys) ≡ insert_all (insert_all acc xs) ys
insert_all-append acc [] ys = refl
insert_all-append acc (x ∷ xs) ys = insert_all-append (insert_text x acc) xs ys

insert_text-last :
    (acc : List String) (x : String) (xs : List String)
    → IsIncreasing (acc ++ x ∷ xs)
    → insert_text x acc ≡ acc ++ x ∷ []
insert_text-last [] x xs s = refl
insert_text-last (y ∷ acc) x xs (first, s) =
    let y_before = before_member y acc x xs first in
    let different : str_eq x y ≡ false =
      ground (arith, eq_iff x y, compare-flip x y, not_before_self y) in
    rw (different, not_both x y y_before, insert_text-last acc x xs s) refl
  where
    before_member :
        (y : String) (acc : List String) (x : String) (xs : List String)
        → All (λ z. text_lt y z ≡ true) (acc ++ x ∷ xs)
        → text_lt y x ≡ true
    before_member y [] x xs (h, k) = h
    before_member y (z ∷ acc) x xs (h, k) = before_member y acc x xs k

insert_all-increasing :
    (acc xs : List String) → IsIncreasing (acc ++ xs) → insert_all acc xs ≡ acc ++ xs
insert_all-increasing acc [] s = sym (append-nil acc)
insert_all-increasing acc (x ∷ xs) s =
    let next : IsIncreasing ((acc ++ x ∷ []) ++ xs) = rw (append_assoc acc (x ∷ []) xs) s in
    rw (insert_text-last acc x xs s)
      (insert_all-increasing (acc ++ x ∷ []) xs next ∙ append_assoc acc (x ∷ []) xs)

-- Elements that a set has already do not change its list.
pub sorted_set-contained :
    (xs ys : List String)
    → All (λ y. contains y xs ≡ true) ys
    → sorted_set (sorted_set xs ++ ys) ≡ sorted_set xs
unfolding sorted_set
sorted_set-contained xs ys h =
    let set = insert_all [] xs in
    let increasing = insert_all-IsIncreasing [] xs tt in
    let there =
      All-map (λ y. contains y xs ≡ true) (λ y. contains y set ≡ true) ys
        (λ y k. contains-insert_all y [] xs ∙ k) h in
    rw (insert_all-append [] set ys, insert_all-increasing [] set increasing)
      (insert_all-contained set ys increasing there)
