-- ===== src/Policies/Tests.antt =====
-- Runs of the safety policy on the bundled experiment.
use zero_shield.Base.{◌≡◌, refl, ◌↔◌, true, [], ◌∷◌}
use zero_shield.Models.Enums.{ExecutionContext}
use zero_shield.Models.Experiment.{
  validates, check_editable_texts, check_rest, cve_reference_validates,
}
use zero_shield.Models.Paths.{is_unsafe_relative_path}
use zero_shield.Models.Experiment.{experiment_id_domain, is_strategy_id}
use zero_shield.Policies.{evaluate}
use zero_shield.Policies.Evaluate.{IsSafe, evaluate-allowed_iff}
use zero_shield.Samples.{vpn_experiment, approved_experiment}

bundled_validates : validates approved_experiment ≡ true
unfolding validates check_editable_texts check_rest is_unsafe_relative_path experiment_id_domain
    is_strategy_id cve_reference_validates
bundled_validates = refl

draft_refused :
    (evaluate vpn_experiment ExecutionContext.experiment_run 5).reasons
    ≡ "SAFE-004: experiment must be approved before execution outside local unit tests (current status: 'draft')."
      ∷ []
unfolding evaluate
draft_refused = refl

evaluate-allowed_iff_example :
    ((evaluate vpn_experiment ExecutionContext.local_unit_test 5).allowed ≡ true)
    ↔ IsSafe vpn_experiment ExecutionContext.local_unit_test
evaluate-allowed_iff_example =
    evaluate-allowed_iff vpn_experiment ExecutionContext.local_unit_test 5
