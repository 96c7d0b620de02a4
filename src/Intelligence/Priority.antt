-- ===== src/Intelligence/Priority.antt =====
-- src/zeroshield/intelligence/priority.py. A line of the explanation is a constructor with the
-- values that the code formats.
pub mod Bounds
pub mod Order
use zero_shield.Base.{ℕ, Bool, true, false, not, Option, none, some, List, [], ◌∷◌, if◌then◌else◌}
use zero_shield.Base.Floats.{Float, zero_float}
use zero_shield.Models.Enums.{ZeroClickRelevance}
use zero_shield.Intelligence.Models.{SupportStatus, PriorityLabel, Vulnerability}

pub record PriorityWeights (F : Type 0) : Type 0 where
  pub cvss_max : F
  pub epss_max : F
  pub kev_flat : F
  pub domain_max : F
  pub no_coverage_flat : F

pub data ExplanationLine (F : Type 0) : Type 0 where
  cvss_contributes : F → F → F → ExplanationLine F
  no_cvss : F → ExplanationLine F
  epss_contributes : F → F → F → ExplanationLine F
  no_epss : F → ExplanationLine F
  listed_in_kev : F → ExplanationLine F
  not_in_kev : ExplanationLine F
  domain_unsupported : ExplanationLine F
  domain_relevance : SupportStatus → Option ZeroClickRelevance → F → F → ExplanationLine F
  no_coverage : F → ExplanationLine F
  covered : ExplanationLine F
  total : F → F → PriorityLabel → ExplanationLine F

pub record PriorityResult (F : Type 0) : Type 0 where
  pub score : F
  pub label : PriorityLabel
  pub explanation : List (ExplanationLine F)

module _ {F : Type 0} ⦃f : Float F⦄ where
  unfoldable pub total_max : PriorityWeights F → F
  total_max w =
      f.add (f.add (f.add (f.add w.cvss_max w.epss_max) w.kev_flat) w.domain_max) w.no_coverage_flat

  -- `DEFAULT_WEIGHTS`
  abbrev pub default_weights : PriorityWeights F
  default_weights = record {
    cvss_max = f.literal 300000;
    epss_max = f.literal 250000;
    kev_flat = f.literal 200000;
    domain_max = f.literal 150000;
    no_coverage_flat = f.literal 100000;
  }

  unfoldable pub label_for_score : F → PriorityLabel
  label_for_score x =
      if f.le (f.literal 850000) x
      then PriorityLabel.critical
      else if f.le (f.literal 650000) x
      then PriorityLabel.high
      else if f.le (f.literal 400000) x
      then PriorityLabel.medium
      else PriorityLabel.low

  -- What a domain that can be validated is worth
  abbrev pub domain_base : SupportStatus → PriorityWeights F → F
  domain_base SupportStatus.supported w = w.domain_max
  domain_base _ w = f.over w.domain_max 2

  abbrev pub relevance_points : Option ZeroClickRelevance → F → F
  relevance_points (some ZeroClickRelevance.high) base = base
  relevance_points (some ZeroClickRelevance.medium) base = f.mul base (f.literal 5000)
  relevance_points (some ZeroClickRelevance.low) base = zero_float
  relevance_points none base = f.mul base (f.literal 5000)

  -- `_domain_points`
  unfoldable pub domain_points :
      SupportStatus → Option ZeroClickRelevance → PriorityWeights F → F × ExplanationLine F
  domain_points SupportStatus.unsupported zero_click w = (zero_float, domain_unsupported)
  domain_points status zero_click w =
      let points = relevance_points zero_click (domain_base status w) in
      (points, domain_relevance status zero_click points w.domain_max)

  abbrev pub cvss_points : Option F → PriorityWeights F → Option F
  cvss_points none w = none
  cvss_points (some x) w = some (f.mul (f.over x 10) w.cvss_max)

  abbrev pub epss_points : Option F → PriorityWeights F → Option F
  epss_points none w = none
  epss_points (some x) w = some (f.mul x w.epss_max)

  -- `total += points`, where there are points
  abbrev pub plus : F → Option F → F
  plus sum none = sum
  plus sum (some x) = f.add sum x

  abbrev pub when : Bool → F → Option F
  when true x = some x
  when false x = none

  -- `total` before it is capped
  unfoldable pub sum_points : Vulnerability F → SupportStatus → Bool → PriorityWeights F → F
  sum_points v status has_coverage w =
      plus
        (f.add
          (plus (plus (plus zero_float (cvss_points v.cvss_score w)) (epss_points v.epss_score w))
            (when v.kev_listed w.kev_flat))
          (domain_points status v.zero_click_relevance w).0)
        (when (not has_coverage) w.no_coverage_flat)

  -- `min(total, weights.total_max())`
  unfoldable pub capped : F → F → F
  capped x limit = if f.lt limit x then limit else x

  abbrev pub cvss_line : Option F → PriorityWeights F → ExplanationLine F
  cvss_line none w = no_cvss w.cvss_max
  cvss_line (some x) w = cvss_contributes x (f.mul (f.over x 10) w.cvss_max) w.cvss_max

  abbrev pub epss_line : Option F → PriorityWeights F → ExplanationLine F
  epss_line none w = no_epss w.epss_max
  epss_line (some x) w = epss_contributes x (f.mul x w.epss_max) w.epss_max

  unfoldable pub score :
      Vulnerability F → SupportStatus → Bool → PriorityWeights F → PriorityResult F
  score v status has_coverage w =
      let total_points = capped (sum_points v status has_coverage w) (total_max w) in
      let label = label_for_score total_points in
      record {
        score = f.round total_points;
        label = label;
        explanation =
            cvss_line v.cvss_score w
            ∷ epss_line v.epss_score w
            ∷ (if v.kev_listed then listed_in_kev w.kev_flat else not_in_kev)
            ∷ (domain_points status v.zero_click_relevance w).1
            ∷ (if has_coverage then covered else no_coverage w.no_coverage_flat)
            ∷ total total_points (total_max w) label
            ∷ [];
      }
