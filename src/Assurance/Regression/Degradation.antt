-- ===== src/Assurance/Regression/Degradation.antt =====
-- When a validation is a regression of the one before it.
use zero_shield.Base.{
  ℕ, ◌≡◌, ◌≤◌, ◌<◌, ◌↔◌, ◌⊎◌, inl, inr, refl, subst, Bool, true, false, ◌||◌, List, [], ◌∷◌, ◌++◌,
  length, ltb, ltb_iff, arith, Bool-cases, String, suc, ◌+◌, str_eq, sym, ◌∙◌, if◌then◌else◌,
}
use zero_shield.Base.Floats.{Float, IsOrderedFloat, zero_float}
use zero_shield.Assurance.{ControlValidation}
use zero_shield.Assurance.Regression.{
  RegressionThresholds, detect_regressions, regression_reasons, verdict_severity, verdict_worse,
  improvement_worse, alarms_worse, misses_worse, acceptance_worse, reach_worse, note_if,
}

note_if-length :
    {A : Type 0} (xs : List A) (b : Bool) (a : A)
    → ltb 0 (length (xs ++ note_if b a)) ≡ (ltb 0 (length xs) || b)
note_if-length [] true a = refl
note_if-length [] false a = refl
note_if-length (x ∷ xs) b a = ground arith

first_note : {A : Type 0} (b : Bool) (a : A) → ltb 0 (length (note_if b a)) ≡ b
first_note true a = refl
first_note false a = refl

or_cases : {a b : Bool} → (a || b) ≡ true → (a ≡ true) ⊎ (b ≡ true)
or_cases {a} h = elim (Bool-cases a) [ inl e ↦ inl e | inr e ↦ inr (rw e at h) ]

six_false :
    (p q r s t u : Bool)
    → (p || q || r || s || t || u) ≡ false
    → (p ≡ false) × (q ≡ false) × (r ≡ false) × (s ≡ false) × (t ≡ false) × (u ≡ false)
six_false p q r s t u h = ground arith

not_below : (m n : ℕ) → n ≤ m → ltb m n ≡ false
not_below m n h = ground arith

-- The verdict labels from the best to the worst. A text that is none of them counts as the third.
abbrev labels : List String
labels = "effective" ∷ "partially_effective" ∷ "inconclusive" ∷ "ineffective" ∷ "regression" ∷ []

abbrev position : List String → ℕ → String → ℕ
position [] n label = 2
position (x ∷ xs) n label =
    let below = position xs (suc n) label in if str_eq label x then n else below

abbrev pub rank : String → ℕ
rank label = position labels 0 label

rank_lem : (label : String) → verdict_severity label + rank label ≡ 4
rank_lem label = elim (Bool-cases (str_eq label "effective")) [
  | inl e ↦ rw e refl
  | inr e ↦ elim (Bool-cases (str_eq label "partially_effective")) [
    | inl e2 ↦ rw (e, e2) refl
    | inr e2 ↦ elim (Bool-cases (str_eq label "inconclusive")) [
      | inl e3 ↦ rw (e, e2, e3) refl
      | inr e3 ↦ elim (Bool-cases (str_eq label "ineffective")) [
        | inl e4 ↦ rw (e, e2, e3, e4) refl
        | inr e4 ↦ elim (Bool-cases (str_eq label "regression")) [
          | inl e5 ↦ rw (e, e2, e3, e4, e5) refl
          | inr e5 ↦ rw (e, e2, e3, e4, e5) refl
        ]
      ]
    ]
  ]
]

ltb-flip : (a b c d : ℕ) → a + b ≡ 4 → c + d ≡ 4 → ltb a c ≡ ltb d b
ltb-flip a b c d h k = ground arith

rank-lt :
    (was is : String) → ltb (verdict_severity is) (verdict_severity was) ≡ ltb (rank was) (rank is)
rank-lt was is =
    ltb-flip (verdict_severity is) (rank is) (verdict_severity was) (rank was) (rank_lem is)
      (rank_lem was)

module _ {F : Type 0} ⦃f : Float F⦄ (previous latest : ControlValidation F)
    (t : RegressionThresholds F) where
  -- One of the six rules trips: the label stands further down the list of labels, the improvement
  -- or the acceptance rate has fallen, or an error rate or the reach of the parser has grown, by
  -- more than the threshold.
  pub data IsDegraded : Type 0 where
    by_verdict : rank previous.verdict_label < rank latest.verdict_label → IsDegraded
    by_improvement :
        f.lt t.max_block_rate_improvement_drop
            (f.sub previous.block_rate_improvement latest.block_rate_improvement)
          ≡ true
        → IsDegraded
    by_alarms :
        f.lt t.max_false_positive_rate_increase
            (f.sub latest.false_positive_rate previous.false_positive_rate)
          ≡ true
        → IsDegraded
    by_misses :
        f.lt t.max_false_negative_rate_increase
            (f.sub latest.false_negative_rate previous.false_negative_rate)
          ≡ true
        → IsDegraded
    by_acceptance :
        f.lt t.max_valid_acceptance_rate_drop
            (f.sub previous.valid_acceptance_rate latest.valid_acceptance_rate)
          ≡ true
        → IsDegraded
    by_reach :
        f.lt t.max_parser_reach_rate_increase
            (f.sub latest.parser_reach_rate previous.parser_reach_rate)
          ≡ true
        → IsDegraded

  is_regression_lem : (detect_regressions previous latest t).is_regression ≡ (
      verdict_worse previous latest t
      || improvement_worse previous latest t
      || alarms_worse previous latest t
      || misses_worse previous latest t
      || acceptance_worse previous latest t
      || reach_worse previous latest t)
  unfolding detect_regressions regression_reasons
  is_regression_lem =
      rw
        (
          note_if-length _ (reach_worse previous latest t),
          note_if-length _ (acceptance_worse previous latest t),
          note_if-length _ (misses_worse previous latest t),
          note_if-length _ (alarms_worse previous latest t),
          note_if-length _ (improvement_worse previous latest t),
          first_note (verdict_worse previous latest t),
        )
        refl

  degraded_cases :
      (verdict_worse previous latest t
          || improvement_worse previous latest t
          || alarms_worse previous latest t
          || misses_worse previous latest t
          || acceptance_worse previous latest t
          || reach_worse previous latest t)
        ≡ true
      → IsDegraded
  degraded_cases h = elim (or_cases h) [
    | inr e ↦ IsDegraded.by_reach e
    | inl h ↦ elim (or_cases h) [
      | inr e ↦ IsDegraded.by_acceptance e
      | inl h ↦ elim (or_cases h) [
        | inr e ↦ IsDegraded.by_misses e
        | inl h ↦ elim (or_cases h) [
          | inr e ↦ IsDegraded.by_alarms e
          | inl h ↦ elim (or_cases h) [
            | inr e ↦ IsDegraded.by_improvement e
            | inl e ↦ IsDegraded.by_verdict (
                (ltb_iff (rank previous.verdict_label) (rank latest.verdict_label)).0
                  (sym (rank-lt previous.verdict_label latest.verdict_label) ∙ e))
          ]
        ]
      ]
    ]
  ]

  not_degraded :
      (verdict_worse previous latest t
          || improvement_worse previous latest t
          || alarms_worse previous latest t
          || misses_worse previous latest t
          || acceptance_worse previous latest t
          || reach_worse previous latest t)
        ≡ false
      → IsDegraded
      → true ≡ false
  not_degraded h d =
      let (v, i, a, m, c, r) =
        six_false (verdict_worse previous latest t) (improvement_worse previous latest t)
          (alarms_worse previous latest t) (misses_worse previous latest t)
          (acceptance_worse previous latest t) (reach_worse previous latest t) h in
      elim d [
        | IsDegraded.by_verdict e ↦ cc (
          v,
          rank-lt previous.verdict_label latest.verdict_label,
          (ltb_iff (rank previous.verdict_label) (rank latest.verdict_label)).1 e,
        )
        | IsDegraded.by_improvement e ↦ cc (i, e)
        | IsDegraded.by_alarms e ↦ cc (a, e)
        | IsDegraded.by_misses e ↦ cc (m, e)
        | IsDegraded.by_acceptance e ↦ cc (c, e)
        | IsDegraded.by_reach e ↦ cc (r, e)
      ]

  degraded_lem : IsDegraded → (detect_regressions previous latest t).is_regression ≡ true
  degraded_lem d = elim (Bool-cases (detect_regressions previous latest t).is_regression) [
    | inl e ↦ e
    | inr e ↦ absurd (cc (not_degraded (rw is_regression_lem at e) d))
  ]

  -- A validation is a regression of the previous one exactly when its verdict label is
  -- further down the list from effective to regression, or its improvement or acceptance rate has
  -- fallen, or an error rate or the reach of the parser has grown, by more than the threshold.
  pub is_regression_iff : ((detect_regressions previous latest t).is_regression ≡ true) ↔ IsDegraded
  is_regression_iff = (λ h. degraded_cases (rw is_regression_lem at h), degraded_lem)

module _ {F : Type 0} ⦃f : Float F⦄ where
  -- No threshold is negative.
  pub record IsTolerant (t : RegressionThresholds F) : Type 0 where
    pub improvement : f.le zero_float t.max_block_rate_improvement_drop ≡ true
    pub alarms : f.le zero_float t.max_false_positive_rate_increase ≡ true
    pub misses : f.le zero_float t.max_false_negative_rate_increase ≡ true
    pub acceptance : f.le zero_float t.max_valid_acceptance_rate_drop ≡ true
    pub reach : f.le zero_float t.max_parser_reach_rate_increase ≡ true

  -- The later validation is at least as good.
  pub record IsNoWorse (previous latest : ControlValidation F) : Type 0 where
    pub verdict : verdict_severity previous.verdict_label ≤ verdict_severity latest.verdict_label
    pub improvement : f.le previous.block_rate_improvement latest.block_rate_improvement ≡ true
    pub alarms : f.le latest.false_positive_rate previous.false_positive_rate ≡ true
    pub misses : f.le latest.false_negative_rate previous.false_negative_rate ≡ true
    pub acceptance : f.le previous.valid_acceptance_rate latest.valid_acceptance_rate ≡ true
    pub reach : f.le latest.parser_reach_rate previous.parser_reach_rate ≡ true

module _ {F : Type 0} ⦃f : Float F⦄ ⦃o : IsOrderedFloat F⦄ where
  -- What shrinks does not exceed a threshold of at least zero.
  shrinks :
      (threshold a b : F)
      → f.le zero_float threshold ≡ true
      → f.le a b ≡ true
      → f.lt threshold (f.sub a b) ≡ false
  shrinks threshold a b h k =
      let below : f.le (f.sub a b) (f.sub b b) ≡ true = o.sub_mono a b b b k (o.le_refl b) in
      let below_zero = subst (λ x. f.le (f.sub a b) x ≡ true) (o.sub_self b) below in
      rw
        (
          o.lt-eq-not-le threshold (f.sub a b),
          o.le_trans (f.sub a b) zero_float threshold below_zero h,
        )
        refl

  -- With ordered floats and thresholds of at least zero, a validation that is at least as good as
  -- the previous one in its verdict and its five measures is no regression.
  pub detect_regressions-no_worse :
      (previous latest : ControlValidation F) (t : RegressionThresholds F)
      → IsTolerant t
      → IsNoWorse previous latest
      → (detect_regressions previous latest t).reasons ≡ []
  unfolding detect_regressions regression_reasons
  detect_regressions-no_worse previous latest t h n =
      rw
        (
          not_below (verdict_severity latest.verdict_label)
              (verdict_severity previous.verdict_label) n.verdict,
          shrinks t.max_block_rate_improvement_drop previous.block_rate_improvement
              latest.block_rate_improvement h.improvement n.improvement,
          shrinks t.max_false_positive_rate_increase latest.false_positive_rate
              previous.false_positive_rate h.alarms n.alarms,
          shrinks t.max_false_negative_rate_increase latest.false_negative_rate
              previous.false_negative_rate h.misses n.misses,
          shrinks t.max_valid_acceptance_rate_drop previous.valid_acceptance_rate
              latest.valid_acceptance_rate h.acceptance n.acceptance,
          shrinks t.max_parser_reach_rate_increase latest.parser_reach_rate
              previous.parser_reach_rate h.reach n.reach,
        )
        refl
