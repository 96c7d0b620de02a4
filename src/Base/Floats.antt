-- ===== src/Base/Floats.antt =====
-- Python's floats, as far as the code uses them: an interface of operations, and the laws that
-- IEEE 754 arithmetic has away from NaN. Every law is one that rounding keeps: division and
-- subtraction are correctly rounded, so they are monotone and exact at the values that are named.
use Prim.Native.Nat.{ℕ, ◌+◌, ◌*◌, ◌/◌, ◌≤◌, ◌<◌}
use mathlib.Core.Path.{◌≡◌}
use mathlib.Core.Bool.{Bool, true, not}
use mathlib.Core.List.{List, [], ◌∷◌}
use zero_shield.Base.Lists.{All}
use zero_shield.Base.Int.{ℤ, pos, negsuc, pos_part, neg_part, ◌+ℤ◌, ◌-ℤ◌, leb_ℤ, ltb_ℤ, eq_ℤ}

pub record Float (F : Type 0) : Type 0 where
  -- `a <= b`, `a < b` and `a == n` for an integer `n`
  pub le : F → F → Bool
  pub lt : F → F → Bool
  pub eq : F → F → Bool
  pub eq_int : F → ℤ → Bool
  -- `a + b` and `a - b`
  pub add : F → F → F
  pub sub : F → F → F
  -- `sum(xs)`, whose additions Python 3.12 compensates
  pub sum : List F → F
  -- `a * b`, and `round(a, 1)`
  pub mul : F → F → F
  pub round : F → F
  -- `n / d` of two integers, and `a / d` of a float by an integer
  pub ratio : ℕ → ℕ → F
  pub over : F → ℕ → F
  -- A literal that is a whole number of ten-thousandths: `0.05` is `literal 500`.
  pub literal : ℕ → F

-- 0.0, 1.0 and -1.0
module _ {F : Type 0} ⦃f : Float F⦄ where
  abbrev pub zero_float : F
  zero_float = f.literal 0

  abbrev pub one_float : F
  one_float = f.literal 10000

  abbrev pub minus_one_float : F
  minus_one_float = f.sub zero_float one_float

  -- `0.0 <= x <= 1.0`, the constraint of `Rate`.
  abbrev pub IsRate : F → Type 0
  IsRate x = (f.le zero_float x ≡ true) × (f.le x one_float ≡ true)

pub record IsOrderedFloat (F : Type 0) ⦃f : Float F⦄ : Type 0 where
  pub le_refl : (a : F) → f.le a a ≡ true
  pub le_trans : (a b c : F) → f.le a b ≡ true → f.le b c ≡ true → f.le a c ≡ true
  pub lt-eq-not-le : (a b : F) → f.lt a b ≡ not (f.le b a)
  pub sub_self : (a : F) → f.sub a a ≡ f.literal 0
  pub sub_mono :
      (a b c d : F) → f.le a b ≡ true → f.le d c ≡ true → f.le (f.sub a c) (f.sub b d) ≡ true
  pub sub_zero : (a : F) → f.sub a (f.literal 0) ≡ a
  pub add_nonneg :
      (a b : F)
      → f.le (f.literal 0) a ≡ true
      → f.le (f.literal 0) b ≡ true
      → f.le (f.literal 0) (f.add a b) ≡ true
  pub sum_nonneg :
      (xs : List F)
      → All (λ x. f.le (f.literal 0) x ≡ true) xs
      → f.le (f.literal 0) (f.sum xs) ≡ true
  pub ratio_nonneg : (n d : ℕ) → 0 < d → f.le (f.literal 0) (f.ratio n d) ≡ true
  pub ratio_le_one : (n d : ℕ) → 0 < d → n ≤ d → f.le (f.ratio n d) (f.literal 10000) ≡ true
  pub over_nonneg :
      (a : F) (d : ℕ) → 0 < d → f.le (f.literal 0) a ≡ true → f.le (f.literal 0) (f.over a d) ≡ true
  pub literal_mono : (m n : ℕ) → m ≤ n → f.le (f.literal m) (f.literal n) ≡ true

-- The laws of a score: sums, products and quotients of numbers that are at least 0 are monotone,
-- and whole numbers that a float holds exactly are added and rounded exactly.
pub record IsScoreFloat (F : Type 0) ⦃f : Float F⦄ : Type 0 where
  pub eq_self : (a : F) → f.eq a a ≡ true
  pub add_zero : (a : F) → f.add a (f.literal 0) ≡ a
  pub add_mono :
      (a b c d : F) → f.le a b ≡ true → f.le c d ≡ true → f.le (f.add a c) (f.add b d) ≡ true
  pub add_whole :
      (m n : ℕ)
      → m + n ≤ 9007199254740992
      → f.add (f.literal (m * 10000)) (f.literal (n * 10000)) ≡ f.literal ((m + n) * 10000)
  pub mul_nonneg :
      (a b : F)
      → f.le (f.literal 0) a ≡ true
      → f.le (f.literal 0) b ≡ true
      → f.le (f.literal 0) (f.mul a b) ≡ true
  pub mul_mono :
      (a b c : F)
      → f.le (f.literal 0) c ≡ true
      → f.le a b ≡ true
      → f.le (f.mul a c) (f.mul b c) ≡ true
  pub mul_half_le : (a : F) → f.le (f.literal 0) a ≡ true → f.le (f.mul a (f.literal 5000)) a ≡ true
  pub over_mono :
      (a b : F) (d : ℕ) → 0 < d → f.le a b ≡ true → f.le (f.over a d) (f.over b d) ≡ true
  pub over_le : (a : F) (d : ℕ) → 0 < d → f.le (f.literal 0) a ≡ true → f.le (f.over a d) a ≡ true
  pub round_mono : (a b : F) → f.le a b ≡ true → f.le (f.round a) (f.round b) ≡ true
  pub round_whole :
      (n : ℕ) → n ≤ 9007199254740992 → f.round (f.literal (n * 10000)) ≡ f.literal (n * 10000)

-- Fixed-point numbers with four places, rounded towards zero: an instance that runs.
abbrev pub Fixed : Type 0
Fixed = ℤ

abbrev pub fixed_over : ℤ → ℕ → ℤ
fixed_over (pos n) d = pos (n / d)
fixed_over (negsuc n) d = pos 0 -ℤ pos ((n + 1) / d)

abbrev pub fixed_mul : ℤ → ℤ → ℤ
fixed_mul (pos m) (pos n) = pos (m * n / 10000)
fixed_mul (pos m) (negsuc n) = pos 0 -ℤ pos (m * (n + 1) / 10000)
fixed_mul (negsuc m) (pos n) = pos 0 -ℤ pos ((m + 1) * n / 10000)
fixed_mul (negsuc m) (negsuc n) = pos ((m + 1) * (n + 1) / 10000)

abbrev pub fixed_round : ℤ → ℤ
fixed_round (pos n) = pos ((n + 500) / 1000 * 1000)
fixed_round (negsuc n) = pos 0 -ℤ pos ((n + 501) / 1000 * 1000)

abbrev pub fixed_sum : List ℤ → ℤ
fixed_sum [] = pos 0
fixed_sum (x ∷ xs) = x +ℤ fixed_sum xs

instance abbrev pub fixed_float : Float Fixed
fixed_float = record {
  le = leb_ℤ;
  sum = fixed_sum;
  lt = ltb_ℤ;
  eq = eq_ℤ;
  eq_int = λ a n. eq_ℤ a (pos (pos_part n * 10000) -ℤ pos (neg_part n * 10000));
  add = ◌+ℤ◌;
  sub = ◌-ℤ◌;
  mul = fixed_mul;
  round = fixed_round;
  ratio = λ n d. pos (n * 10000 / d);
  over = fixed_over;
  literal = pos;
}
