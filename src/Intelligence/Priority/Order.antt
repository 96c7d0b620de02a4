-- ===== src/Intelligence/Priority/Order.antt =====
-- The priority never falls when what is known of a CVE gets worse.
use zero_shield.Base.{
  ℕ, ◌≤◌, ◌≡◌, refl, subst, Bool, true, false, not, ◌||◌, Option, none, some, arith,
}
use zero_shield.Base.Floats.{Float, IsOrderedFloat, IsScoreFloat, zero_float}
use zero_shield.Models.Enums.{ZeroClickRelevance}
use zero_shield.Intelligence.Models.{SupportStatus, PriorityLabel, Vulnerability}
use zero_shield.Intelligence.Priority.{
  PriorityWeights, total_max, label_for_score, relevance_points, domain_points, cvss_points,
  epss_points, plus, when, sum_points, capped, score,
}

-- LOW is 0 and CRITICAL 3.
abbrev pub rank : PriorityLabel → ℕ
rank PriorityLabel.low = 0
rank PriorityLabel.medium = 1
rank PriorityLabel.high = 2
rank PriorityLabel.critical = 3

-- How near to zero-click, where LOW counts as nothing and an unknown relevance as MEDIUM
abbrev pub relevance_rank : Option ZeroClickRelevance → ℕ
relevance_rank (some ZeroClickRelevance.low) = 0
relevance_rank (some ZeroClickRelevance.medium) = 1
relevance_rank none = 1
relevance_rank (some ZeroClickRelevance.high) = 2

abbrev pub support_rank : SupportStatus → ℕ
support_rank SupportStatus.unsupported = 0
support_rank SupportStatus.partially_supported = 1
support_rank SupportStatus.supported = 2

module _ {F : Type 0} ⦃f : Float F⦄ where
  -- A score that is at least another; no score counts as 0.
  abbrev pub AtMost : Option F → Option F → Type 0
  AtMost none none = Unit
  AtMost none (some y) = f.le zero_float y ≡ true
  AtMost (some x) none = ⊥
  AtMost (some x) (some y) = (f.le zero_float x ≡ true) × (f.le x y ≡ true)

  pub record IsWorse (v w : Vulnerability F) : Type 0 where
    pub cvss : AtMost v.cvss_score w.cvss_score
    pub epss : AtMost v.epss_score w.epss_score
    pub kev : (v.kev_listed || w.kev_listed) ≡ w.kev_listed
    pub relevance : relevance_rank v.zero_click_relevance ≤ relevance_rank w.zero_click_relevance

  -- No weight is negative.
  pub record IsWeighting (w : PriorityWeights F) : Type 0 where
    pub cvss_max : f.le zero_float w.cvss_max ≡ true
    pub epss_max : f.le zero_float w.epss_max ≡ true
    pub kev_flat : f.le zero_float w.kev_flat ≡ true
    pub domain_max : f.le zero_float w.domain_max ≡ true
    pub no_coverage_flat : f.le zero_float w.no_coverage_flat ≡ true

or_self : (b : Bool) → (b || b) ≡ b
or_self true = refl
or_self false = refl

module _ {F : Type 0} ⦃f : Float F⦄ ⦃o : IsOrderedFloat F⦄ ⦃s : IsScoreFloat F⦄ where
  -- The points that are added are none where there were none, or more than there were.
  abbrev Grows : Option F → Option F → Type 0
  Grows none none = Unit
  Grows none (some y) = f.le zero_float y ≡ true
  Grows (some x) none = ⊥
  Grows (some x) (some y) = f.le x y ≡ true

  plus_mono :
      (a b : F) (x y : Option F) → f.le a b ≡ true → Grows x y → f.le (plus a x) (plus b y) ≡ true
  plus_mono a b none none h g = h
  plus_mono a b none (some y) h g =
      subst (λ x. f.le x (f.add b y) ≡ true) (s.add_zero a) (s.add_mono a b zero_float y h g)
  plus_mono a b (some x) none h g = elim g [ ]
  plus_mono a b (some x) (some y) h g = s.add_mono a b x y h g

  cvss-Grows :
      (w : PriorityWeights F)
      → IsWeighting w
      → (x y : Option F) → AtMost x y
      → Grows (cvss_points x w) (cvss_points y w)
  cvss-Grows w p none none h = tt
  cvss-Grows w p none (some y) h =
      s.mul_nonneg (f.over y 10) w.cvss_max (o.over_nonneg y 10 (omega arith) h) p.cvss_max
  cvss-Grows w p (some x) none h = elim h [ ]
  cvss-Grows w p (some x) (some y) h =
      s.mul_mono (f.over x 10) (f.over y 10) w.cvss_max p.cvss_max
        (s.over_mono x y 10 (omega arith) h.1)

  epss-Grows :
      (w : PriorityWeights F)
      → IsWeighting w
      → (x y : Option F) → AtMost x y
      → Grows (epss_points x w) (epss_points y w)
  epss-Grows w p none none h = tt
  epss-Grows w p none (some y) h = s.mul_nonneg y w.epss_max h p.epss_max
  epss-Grows w p (some x) none h = elim h [ ]
  epss-Grows w p (some x) (some y) h = s.mul_mono x y w.epss_max p.epss_max h.1

  flat-Grows :
      (a b : Bool) (x : F) → f.le zero_float x ≡ true → (a || b) ≡ b → Grows (when a x) (when b x)
  flat-Grows false false x p h = tt
  flat-Grows false true x p h = p
  flat-Grows true false x p h = cc
  flat-Grows true true x p h = o.le_refl x

  points_mono :
      (y z : Option ZeroClickRelevance) (base : F)
      → f.le zero_float base ≡ true
      → relevance_rank y ≤ relevance_rank z
      → f.le (relevance_points y base) (relevance_points z base) ≡ true
  points_mono (some ZeroClickRelevance.low) (some ZeroClickRelevance.low) base p h = o.le_refl _
  points_mono (some ZeroClickRelevance.low) (some ZeroClickRelevance.medium) base p h =
      s.mul_nonneg base _ p (o.literal_mono 0 5000 (omega arith))
  points_mono (some ZeroClickRelevance.low) (some ZeroClickRelevance.high) base p h = p
  points_mono (some ZeroClickRelevance.low) none base p h =
      s.mul_nonneg base _ p (o.literal_mono 0 5000 (omega arith))
  points_mono (some ZeroClickRelevance.medium) (some ZeroClickRelevance.low) base p h =
      absurd (omega arith)
  points_mono (some ZeroClickRelevance.medium) (some ZeroClickRelevance.medium) base p h =
      o.le_refl _
  points_mono (some ZeroClickRelevance.medium) (some ZeroClickRelevance.high) base p h =
      s.mul_half_le base p
  points_mono (some ZeroClickRelevance.medium) none base p h = o.le_refl _
  points_mono (some ZeroClickRelevance.high) (some ZeroClickRelevance.low) base p h =
      absurd (omega arith)
  points_mono (some ZeroClickRelevance.high) (some ZeroClickRelevance.medium) base p h =
      absurd (omega arith)
  points_mono (some ZeroClickRelevance.high) (some ZeroClickRelevance.high) base p h = o.le_refl _
  points_mono (some ZeroClickRelevance.high) none base p h = absurd (omega arith)
  points_mono none (some ZeroClickRelevance.low) base p h = absurd (omega arith)
  points_mono none (some ZeroClickRelevance.medium) base p h = o.le_refl _
  points_mono none (some ZeroClickRelevance.high) base p h = s.mul_half_le base p
  points_mono none none base p h = o.le_refl _

  domain_mono :
      (status : SupportStatus) (w : PriorityWeights F)
      → IsWeighting w
      → (y z : Option ZeroClickRelevance) → relevance_rank y ≤ relevance_rank z
      → f.le (domain_points status y w).0 (domain_points status z w).0 ≡ true
  unfolding domain_points
  domain_mono SupportStatus.unsupported w p y z h = o.le_refl zero_float
  domain_mono SupportStatus.supported w p y z h = points_mono y z w.domain_max p.domain_max h
  domain_mono SupportStatus.partially_supported w p y z h =
      points_mono y z (f.over w.domain_max 2)
        (o.over_nonneg w.domain_max 2 (omega arith) p.domain_max) h

  capped_mono : (x y limit : F) → f.le x y ≡ true → f.le (capped x limit) (capped y limit) ≡ true
  unfolding capped
  capped_mono x y limit h =
      ground (
        arith,
        o.lt-eq-not-le limit x,
        o.lt-eq-not-le limit y,
        o.le_trans x y limit,
        o.le_refl limit,
      )

  label_mono : (x y : F) → f.le x y ≡ true → rank (label_for_score x) ≤ rank (label_for_score y)
  unfolding label_for_score
  label_mono x y h = ground (
    arith,
    o.le_trans (f.literal 850000) x y,
    o.le_trans (f.literal 650000) x y,
    o.le_trans (f.literal 400000) x y,
  )

  sum_points_mono :
      (v w : Vulnerability F) (status : SupportStatus) (covered : Bool)
      (weights : PriorityWeights F)
      → IsWeighting weights
      → IsWorse v w
      → f.le (sum_points v status covered weights) (sum_points w status covered weights) ≡ true
  unfolding sum_points
  sum_points_mono v w status covered weights p h =
      plus_mono _ _ (when (not covered) weights.no_coverage_flat)
        (when (not covered) weights.no_coverage_flat)
        (s.add_mono _ _ _ _
          (plus_mono _ _ _ _
            (plus_mono _ _ _ _
              (plus_mono zero_float zero_float _ _ (o.le_refl zero_float)
                (cvss-Grows weights p v.cvss_score w.cvss_score h.cvss))
              (epss-Grows weights p v.epss_score w.epss_score h.epss))
            (flat-Grows v.kev_listed w.kev_listed weights.kev_flat p.kev_flat h.kev))
          (domain_mono status weights p v.zero_click_relevance w.zero_click_relevance h.relevance))
        (flat-Grows (not covered) (not covered) weights.no_coverage_flat p.no_coverage_flat
          (or_self (not covered)))

  -- With weights that are not negative, a CVE that is at least as bad as another (its CVSS and EPSS
  -- scores at least as high, listed in KEV if that one is, its relevance at least as near to
  -- zero-click) has a priority at least as high, and its label is no lower.
  pub score_mono :
      (v w : Vulnerability F) (status : SupportStatus) (covered : Bool)
      (weights : PriorityWeights F)
      → IsWeighting weights
      → IsWorse v w
      → let a = score v status covered weights in
        let b = score w status covered weights in
        (f.le a.score b.score ≡ true) × (rank a.label ≤ rank b.label)
  unfolding score
  score_mono v w status covered weights p h =
      let more =
        capped_mono _ _ (total_max weights) (sum_points_mono v w status covered weights p h) in
      (s.round_mono _ _ more, label_mono _ _ more)
