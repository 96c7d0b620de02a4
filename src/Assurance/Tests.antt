-- ===== src/Assurance/Tests.antt =====
-- Validations and candidates on which the theorems on assurance are applied.
use zero_shield.Base.{
  ℕ, String, ◌≡◌, ◌↔◌, refl, List, [], ◌∷◌, true, false, Option, none, some, arith, Bool-cases, inl,
  inr,
}
use zero_shield.Base.Effects.{ok, err, succeeded}
use zero_shield.Base.Int.{pos}
use zero_shield.Base.Floats.{Fixed, fixed_float}
use zero_shield.Base.Fixed.{Fixed-IsOrderedFloat}
use zero_shield.Samples.{bob}
use zero_shield.Assurance.{ControlValidation, RevalidationCandidate, AssuranceStore, AssuranceError}
use zero_shield.Assurance.Regression.{detect_regressions, default_thresholds, regression_reasons}
use zero_shield.Assurance.Regression.Degradation.{
  IsDegraded, is_regression_iff, detect_regressions-no_worse,
}
use zero_shield.Assurance.Effectiveness.{summarise_effectiveness}
use zero_shield.Assurance.Effectiveness.Comparable.{
  aggregates, summarise_effectiveness-other_version,
}
use zero_shield.Assurance.Candidates.{
  is_pending_for, new_candidate, create_candidate_if_new, find_candidate,
  create_revalidation_candidate, CandidateDecision, decide_candidate, decided,
}
use zero_shield.Assurance.Candidates.Pending.{IsDeduplicated}
use zero_shield.Assurance.Candidates.Deduplication.{
  CandidateCall, after_candidate_calls, after_candidate_calls-IsDeduplicated,
  create_revalidation_candidate-duplicate,
}

abbrev validation : String → String → ℕ → ControlValidation Fixed
validation version label improvement = record {
  validation_id = "VAL-1";
  control_id = "VPN:strict";
  version_id = version;
  experiment_id = "ZC-VPN-EXP-001";
  baseline_run_id = "RUN-001";
  mitigation_run_id = "RUN-002";
  total_cases = 10;
  block_rate_improvement = pos improvement;
  false_positive_rate = pos 0;
  false_negative_rate = pos 0;
  valid_acceptance_rate = pos 10000;
  parser_reach_rate = pos 0;
  latency_overhead_ms = pos 0;
  verdict_label = label;
  validated_at = 7;
}

-- A drop of the improvement by 0.1 is tolerated, a drop by 0.2 is not.
small_drop :
    (detect_regressions
      (validation "CV-1" "effective" 8000)
      (validation "CV-1" "effective" 7000)
      default_thresholds).is_regression
    ≡ false
unfolding detect_regressions regression_reasons
small_drop = refl

large_drop :
    (detect_regressions
      (validation "CV-1" "effective" 8000)
      (validation "CV-1" "effective" 6000)
      default_thresholds).is_regression
    ≡ true
unfolding detect_regressions regression_reasons
large_drop = refl

is_regression_iff_example :
    ((detect_regressions
        (validation "CV-1" "effective" 8000)
        (validation "CV-1" "ineffective" 6000)
        default_thresholds).is_regression
      ≡ true)
    ↔ IsDegraded
        (validation "CV-1" "effective" 8000)
        (validation "CV-1" "ineffective" 6000)
        default_thresholds
is_regression_iff_example =
    is_regression_iff (validation "CV-1" "effective" 8000) (validation "CV-1" "ineffective" 6000)
      default_thresholds

detect_regressions-no_worse_example :
    (detect_regressions
      (validation "CV-1" "ineffective" 6000)
      (validation "CV-1" "effective" 8000)
      default_thresholds).reasons
    ≡ []
detect_regressions-no_worse_example =
    detect_regressions-no_worse (validation "CV-1" "ineffective" 6000)
      (validation "CV-1" "effective" 8000) default_thresholds
      (record { improvement = refl; alarms = refl; misses = refl; acceptance = refl; reach = refl })
      (record {
        verdict = omega arith;
        improvement = refl;
        alarms = refl;
        misses = refl;
        acceptance = refl;
        reach = refl;
      })

summarise_effectiveness-other_version_example :
    aggregates (
      summarise_effectiveness
        (λ x. x)
        "VPN:strict"
        (validation "CV-2" "effective" 8000
          ∷ validation "CV-1" "ineffective" 0
          ∷ validation "CV-2" "effective" 6000
          ∷ []))
    ≡ aggregates (
        summarise_effectiveness
          (λ x. x)
          "VPN:strict"
          (validation "CV-2" "effective" 8000 ∷ validation "CV-2" "effective" 6000 ∷ []))
summarise_effectiveness-other_version_example =
    summarise_effectiveness-other_version (λ x. x) "VPN:strict" (validation "CV-2" "effective" 8000)
      [] (validation "CV-1" "ineffective" 0) (validation "CV-2" "effective" 6000) [] refl

abbrev stale : RevalidationCandidate
stale = new_candidate "REVAL-1" "VPN:strict" (some "ZC-VPN-EXP-001") "scheduled" "91 days ago" 40

abbrev store : AssuranceStore
store = record { controls = "VPN:strict" ∷ []; candidates = stale ∷ []; audit = [] }

store-IsDeduplicated : IsDeduplicated store.candidates
store-IsDeduplicated k t = elim (Bool-cases (is_pending_for k t stale)) [
  | inl e ↦ rw e (omega arith)
  | inr e ↦ rw e (omega arith)
]

abbrev calls : List CandidateCall
calls =
    CandidateCall.decide "REVAL-1" CandidateDecision.dismiss bob none 42
    ∷ CandidateCall.create_if_new "REVAL-2" "VPN:strict" none "scheduled" "92 days ago" 43
    ∷ []

after_candidate_calls-IsDeduplicated_example :
    IsDeduplicated (after_candidate_calls calls store).candidates
after_candidate_calls-IsDeduplicated_example =
    after_candidate_calls-IsDeduplicated calls store store-IsDeduplicated

first_decision :
    (decide_candidate "REVAL-1" CandidateDecision.dismiss bob none 42 store).0
    ≡ ok (decided "dismissed" bob.username none 42 stale)
unfolding decide_candidate find_candidate
first_decision = refl

-- A second candidate by hand, and the next scan raises.
create_revalidation_candidate-duplicate_example :
    let (outcome, after) =
      create_revalidation_candidate "REVAL-3" "VPN:strict" none "scheduled" "by hand" 44 store in
    (succeeded outcome ≡ true)
    × ((new_id : String) (e : Option String) (new_detail : String) (later : ℕ)
        → create_candidate_if_new new_id "VPN:strict" e "scheduled" new_detail later after
          ≡ (err AssuranceError.multiple_results_found, after))
create_revalidation_candidate-duplicate_example =
    create_revalidation_candidate-duplicate "REVAL-3" "VPN:strict" "scheduled" "by hand" none 44
      store refl (omega arith)
