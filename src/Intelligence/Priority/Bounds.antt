-- ===== src/Intelligence/Priority/Bounds.antt =====
-- With the default weights a priority is a number from 0 to 100.
use zero_shield.Base.{◌≡◌, sym, ap, ◌∙◌, subst, Bool, true, false, not, Option, none, some, arith}
use zero_shield.Base.Floats.{Float, IsOrderedFloat, IsScoreFloat, zero_float}
use zero_shield.Models.Enums.{ZeroClickRelevance}
use zero_shield.Intelligence.Models.{
  SupportStatus, Vulnerability, cvss_ok, epss_ok, vulnerability_validates,
}
use zero_shield.Intelligence.Priority.{
  PriorityWeights, total_max, default_weights, relevance_points, domain_points, cvss_points,
  epss_points, plus, when, sum_points, capped, score,
}
use zero_shield.Intelligence.Priority.Order.{IsWeighting}

module _ {F : Type 0} ⦃f : Float F⦄ ⦃o : IsOrderedFloat F⦄ ⦃s : IsScoreFloat F⦄ where
  pub default_weights-IsWeighting : IsWeighting {F = F} default_weights
  default_weights-IsWeighting = record {
    cvss_max = o.literal_mono 0 300000 (omega arith);
    epss_max = o.literal_mono 0 250000 (omega arith);
    kev_flat = o.literal_mono 0 200000 (omega arith);
    domain_max = o.literal_mono 0 150000 (omega arith);
    no_coverage_flat = o.literal_mono 0 100000 (omega arith);
  }

  -- The default weights add up to 100.
  total_max-default : total_max default_weights ≡ f.literal 1000000
  unfolding total_max
  total_max-default =
      ap (λ x. f.add (f.add (f.add x (f.literal 200000)) (f.literal 150000)) (f.literal 100000))
        (s.add_whole 30 25 (omega arith))
      ∙ ap (λ x. f.add (f.add x (f.literal 150000)) (f.literal 100000))
          (s.add_whole 55 20 (omega arith))
      ∙ ap (λ x. f.add x (f.literal 100000)) (s.add_whole 75 15 (omega arith))
      ∙ s.add_whole 90 10 (omega arith)

  abbrev IsPoints : Option F → Type 0
  IsPoints none = Unit
  IsPoints (some x) = f.le zero_float x ≡ true

  plus_nonneg :
      (a : F) (x : Option F)
      → f.le zero_float a ≡ true
      → IsPoints x
      → f.le zero_float (plus a x) ≡ true
  plus_nonneg a none h k = h
  plus_nonneg a (some x) h k = o.add_nonneg a x h k

  cvss_points-IsPoints :
      (x : Option F) (w : PriorityWeights F)
      → IsWeighting w
      → cvss_ok x ≡ true
      → IsPoints (cvss_points x w)
  cvss_points-IsPoints none w p h = tt
  cvss_points-IsPoints (some x) w p h =
      s.mul_nonneg (f.over x 10) w.cvss_max (o.over_nonneg x 10 (omega arith) (ground arith))
        p.cvss_max

  epss_points-IsPoints :
      (x : Option F) (w : PriorityWeights F)
      → IsWeighting w
      → epss_ok x ≡ true
      → IsPoints (epss_points x w)
  epss_points-IsPoints none w p h = tt
  epss_points-IsPoints (some x) w p h = s.mul_nonneg x w.epss_max (ground arith) p.epss_max

  when-IsPoints : (b : Bool) (x : F) → f.le zero_float x ≡ true → IsPoints (when b x)
  when-IsPoints true x h = h
  when-IsPoints false x h = tt

  relevance_points_nonneg :
      (z : Option ZeroClickRelevance) (base : F)
      → f.le zero_float base ≡ true
      → f.le zero_float (relevance_points z base) ≡ true
  relevance_points_nonneg (some ZeroClickRelevance.high) base h = h
  relevance_points_nonneg (some ZeroClickRelevance.medium) base h =
      s.mul_nonneg base _ h (o.literal_mono 0 5000 (omega arith))
  relevance_points_nonneg (some ZeroClickRelevance.low) base h = o.le_refl zero_float
  relevance_points_nonneg none base h = s.mul_nonneg base _ h (o.literal_mono 0 5000 (omega arith))

  domain_points_nonneg :
      (status : SupportStatus) (z : Option ZeroClickRelevance) (w : PriorityWeights F)
      → IsWeighting w
      → f.le zero_float (domain_points status z w).0 ≡ true
  unfolding domain_points
  domain_points_nonneg SupportStatus.unsupported z w p = o.le_refl zero_float
  domain_points_nonneg SupportStatus.supported z w p =
      relevance_points_nonneg z w.domain_max p.domain_max
  domain_points_nonneg SupportStatus.partially_supported z w p =
      relevance_points_nonneg z (f.over w.domain_max 2)
        (o.over_nonneg w.domain_max 2 (omega arith) p.domain_max)

  sum_points_nonneg :
      (v : Vulnerability F) (status : SupportStatus) (covered : Bool) (w : PriorityWeights F)
      → IsWeighting w
      → vulnerability_validates v ≡ true
      → f.le zero_float (sum_points v status covered w) ≡ true
  unfolding sum_points vulnerability_validates
  sum_points_nonneg v status covered w p h =
      plus_nonneg _ (when (not covered) w.no_coverage_flat)
        (o.add_nonneg _ _
          (plus_nonneg _ (when v.kev_listed w.kev_flat)
            (plus_nonneg _ (epss_points v.epss_score w)
              (plus_nonneg zero_float (cvss_points v.cvss_score w) (o.le_refl zero_float)
                (cvss_points-IsPoints v.cvss_score w p (ground arith)))
              (epss_points-IsPoints v.epss_score w p (ground arith)))
            (when-IsPoints v.kev_listed w.kev_flat p.kev_flat))
          (domain_points_nonneg status v.zero_click_relevance w p))
        (when-IsPoints (not covered) w.no_coverage_flat p.no_coverage_flat)

  capped_le : (x limit : F) → f.le (capped x limit) limit ≡ true
  unfolding capped
  capped_le x limit = ground (arith, o.lt-eq-not-le limit x, o.le_refl limit)

  capped_nonneg :
      (x limit : F)
      → f.le zero_float x ≡ true
      → f.le zero_float limit ≡ true
      → f.le zero_float (capped x limit) ≡ true
  unfolding capped
  capped_nonneg x limit h k = ground arith

  -- With the default weights, the priority of a vulnerability whose scores are in their ranges is
  -- at least 0 and at most 100.
  pub score_range :
      (v : Vulnerability F) (status : SupportStatus) (covered : Bool)
      → vulnerability_validates v ≡ true
      → let points = (score v status covered default_weights).score in
        (f.le zero_float points ≡ true) × (f.le points (f.literal 1000000) ≡ true)
  unfolding score
  score_range v status covered h =
      let sum = sum_points v status covered default_weights in
      let limit = total_max default_weights in
      let limit_nonneg : f.le zero_float limit ≡ true =
        subst (λ x. f.le zero_float x ≡ true) (sym total_max-default)
          (o.literal_mono 0 1000000 (omega arith)) in
      let some_points =
        capped_nonneg sum limit
          (sum_points_nonneg v status covered default_weights default_weights-IsWeighting h)
          limit_nonneg in
      let at_most : f.le (capped sum limit) (f.literal 1000000) ≡ true =
        subst (λ x. f.le (capped sum limit) x ≡ true) total_max-default (capped_le sum limit) in
      (
        subst (λ x. f.le x (f.round (capped sum limit)) ≡ true) (s.round_whole 0 (omega arith))
            (s.round_mono zero_float _ some_points),
        subst (λ x. f.le (f.round (capped sum limit)) x ≡ true) (s.round_whole 100 (omega arith))
            (s.round_mono _ _ at_most),
      )
