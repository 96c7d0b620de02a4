-- ===== src/Base/Fixed.antt =====
-- The laws of the float interface can be met: the fixed-point numbers meet them.
use mathlib.Core.List.{List, [], ◌∷◌}
use zero_shield.Base.Lists.{All}
use zero_shield.Base.Int.{ℤ, ◌+ℤ◌, pos, negsuc, leb_ℤ}
use mathlib.Core.Path.{◌≡◌, refl}
use mathlib.Core.Bool.{true}
use Prim.Native.Nat.{ℕ, ◌+◌, ◌*◌, ◌/◌, ◌≤◌, ◌<◌}
use native.Mathlib.Omega.{arith}
use zero_shield.Base.Floats.{
  IsOrderedFloat, IsScoreFloat, Fixed, fixed_mul, fixed_over, fixed_sum, fixed_float,
}

scaled_ratio-le : (n d : ℕ) → 0 < d → n ≤ d → n * 10000 / d ≤ 10000
scaled_ratio-le n d p h = grind arith

add_nonneg :
    (a b : ℤ) → leb_ℤ (pos 0) a ≡ true → leb_ℤ (pos 0) b ≡ true → leb_ℤ (pos 0) (a +ℤ b) ≡ true
add_nonneg a b h k = ground arith

fixed_sum-nonneg :
    (xs : List ℤ) → All (λ x. leb_ℤ (pos 0) x ≡ true) xs → leb_ℤ (pos 0) (fixed_sum xs) ≡ true
fixed_sum-nonneg [] h = refl
fixed_sum-nonneg (x ∷ xs) (l, h) = add_nonneg x (fixed_sum xs) l (fixed_sum-nonneg xs h)

instance pub Fixed-IsOrderedFloat : IsOrderedFloat Fixed
Fixed-IsOrderedFloat = record {
  le_refl = λ a. ground arith;
  le_trans = λ a b c h k. ground arith;
  lt-eq-not-le = λ a b. ground arith;
  sub_self = λ a. ground arith;
  sub_mono = λ a b c d h k. ground arith;
  sub_zero = λ a. ground arith;
  add_nonneg = λ a b h k. ground arith;
  sum_nonneg = fixed_sum-nonneg;
  ratio_nonneg = λ n d p. ground arith;
  ratio_le_one = λ n d p h. ground (arith, scaled_ratio-le n d p h);
  over_nonneg = λ a d p h. ground arith;
  literal_mono = λ m n h. ground arith;
}

scaled_product_mono : (m n k : ℕ) → m ≤ n → m * k / 10000 ≤ n * k / 10000
scaled_product_mono m n k h = grind arith

quotient_mono : (m n d : ℕ) → 0 < d → m ≤ n → m / d ≤ n / d
quotient_mono m n d p h = grind arith

quotient_le : (n d : ℕ) → 0 < d → n / d ≤ n
quotient_le n d p = grind arith

fixed_over_mono :
    (a b : ℤ) (d : ℕ) → 0 < d → leb_ℤ a b ≡ true → leb_ℤ (fixed_over a d) (fixed_over b d) ≡ true
fixed_over_mono (pos m) (pos n) d p h = ground (arith, quotient_mono m n d p)
fixed_over_mono (negsuc m) (pos n) d p h = ground arith
fixed_over_mono (pos m) (negsuc n) d p h = ground arith
fixed_over_mono (negsuc m) (negsuc n) d p h = ground (arith, quotient_mono (n + 1) (m + 1) d p)

fixed_over_le : (a : ℤ) (d : ℕ) → 0 < d → leb_ℤ (pos 0) a ≡ true → leb_ℤ (fixed_over a d) a ≡ true
fixed_over_le (pos n) d p h = ground (arith, quotient_le n d p)
fixed_over_le (negsuc n) d p h = ground arith

fixed_mul_mono :
    (a b c : ℤ)
    → leb_ℤ (pos 0) c ≡ true
    → leb_ℤ a b ≡ true
    → leb_ℤ (fixed_mul a c) (fixed_mul b c) ≡ true
fixed_mul_mono (pos m) (pos n) (pos k) p h = ground (arith, scaled_product_mono m n k)
fixed_mul_mono (negsuc m) (pos n) (pos k) p h = ground arith
fixed_mul_mono (pos m) (negsuc n) (pos k) p h = ground arith
fixed_mul_mono (negsuc m) (negsuc n) (pos k) p h =
    ground (arith, scaled_product_mono (n + 1) (m + 1) k)
fixed_mul_mono a b (negsuc k) p h = ground arith

instance pub Fixed-IsScoreFloat : IsScoreFloat Fixed
Fixed-IsScoreFloat = record {
  eq_self = λ a. ground arith;
  add_zero = λ a. ground arith;
  add_mono = λ a b c d h k. ground arith;
  add_whole = λ m n h. ground arith;
  mul_nonneg = λ a b h k. ground arith;
  mul_mono = fixed_mul_mono;
  mul_half_le = λ a h. ground arith;
  over_mono = fixed_over_mono;
  over_le = fixed_over_le;
  round_mono = λ a b h. ground arith;
  round_whole = λ n h. ground arith;
}
