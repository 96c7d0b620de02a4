-- ===== src/Strategies/Telecom.antt =====
-- src/zeroshield/strategies/telecom: the weak baseline and the strict mitigation.
pub mod Strict
use zero_shield.Base.{
  ℕ, String, Bool, true, false, not, ◌&&◌, ◌||◌, Option, none, some, List, [], ◌∷◌, str_eq, all_of,
  any_of, if◌then◌else◌,
}
use zero_shield.Base.Effects.{Result, ok, err}
use zero_shield.Base.Floats.{Float}
use zero_shield.Models.Values.{
  Value, Fields, str, list, nil, cons, get, as_int, hashable, eq_value, eq_number,
}
use zero_shield.Models.Runs.{StrategyOutcome}
use zero_shield.Strategies.Checks.{
  as_list, keys_of, over_long, or_then, unhashable, has_duplicates, blocked_outcome,
  accepted_outcome, outcome_of,
}
use zero_shield.Strategies.Vpn.{bad_length}

abbrev pub max_sdp_attr_value_length : ℕ
max_sdp_attr_value_length = 256

abbrev pub max_body_length : ℕ
max_body_length = 4096

abbrev pub mandatory_headers : List String
mandatory_headers = "Call-ID" ∷ "From" ∷ "To" ∷ []

-- Pairs of a session state and a method
abbrev pub legal_transitions : List (String × String)
legal_transitions = ("INIT", "INVITE") ∷ ("RINGING", "ACK") ∷ ("ESTABLISHED", "BYE") ∷ []

abbrev pub known_methods : List String
known_methods = "INVITE" ∷ "ACK" ∷ "BYE" ∷ []

abbrev pub known_states : List String
known_states = "INIT" ∷ "RINGING" ∷ "ESTABLISHED" ∷ "TERMINATED" ∷ []

module _ {F : Type 0} where
  -- `isinstance(v, str) and v in texts`
  abbrev pub is_known : List String → Value F → Bool
  is_known texts (str s) = any_of (str_eq s) texts
  is_known texts _ = false

  -- `isinstance(v, list) and v`
  abbrev pub is_nonempty_list : Value F → Bool
  is_nonempty_list (list (cons _ _)) = true
  is_nonempty_list _ = false

  -- `WeakMandatoryFieldStateBaseline.process`
  unfoldable pub weak_process : Fields F → Result String StrategyOutcome
  weak_process d =
      if not (is_known known_methods (get "method" d))
      then ok (blocked_outcome false)
      else if not (is_nonempty_list (get "headers" d))
      then ok (blocked_outcome false)
      else if not (is_known known_states (get "session_state" d))
      then ok (blocked_outcome false)
      else ok accepted_outcome

module _ {F : Type 0} ⦃f : Float F⦄ where
  -- `name in keys`
  abbrev pub has_key : List (Value F) → String → Bool
  has_key keys name = any_of (eq_value (str name)) keys

  unfoldable pub fails_mandatory_field_check : Fields F → Result String Bool
  fails_mandatory_field_check d =
      let keys = keys_of (as_list (get "headers" d)) in
      if all_of hashable keys
      then ok (not (all_of (has_key keys) mandatory_headers))
      else err unhashable

  unfoldable pub fails_duplicate_header_check : Fields F → Result String Bool
  fails_duplicate_header_check d = has_duplicates (keys_of (as_list (get "headers" d)))

  unfoldable pub fails_sequence_validation : Fields F → Bool
  fails_sequence_validation d =
      not (eq_value (get "sequence_number" d) (get "expected_sequence_number" d))

  -- `(session_state, method) == (a, b)`
  abbrev pub is_transition : Value F → Value F → String × String → Bool
  is_transition state method (a, b) = eq_value state (str a) && eq_value method (str b)

  unfoldable pub fails_state_machine_check : Fields F → Result String Bool
  fails_state_machine_check d =
      if hashable (get "session_state" d) && hashable (get "method" d)
      then ok
          (not (any_of (is_transition (get "session_state" d) (get "method" d)) legal_transitions))
      else err unhashable

module _ {F : Type 0} ⦃f : Float F⦄ (str_of : Value F → List ℕ) where
  unfoldable pub fails_size_limit_checks : Fields F → Bool
  fails_size_limit_checks d =
      if bad_length max_body_length (as_int (get "declared_body_length" d))
      then true
      else if not (eq_number (as_int (get "declared_body_length" d)) (get "actual_body_length" d))
      then true
      else any_of (over_long str_of max_sdp_attr_value_length) (as_list (get "sdp_attributes" d))

  -- `_is_malformed`: the checks in order, up to the first that fails or raises
  unfoldable pub is_malformed : Fields F → Result String Bool
  is_malformed d = or_then (fails_mandatory_field_check d) (
      or_then (fails_duplicate_header_check d) (
        or_then (ok (fails_size_limit_checks d))
          (or_then (ok (fails_sequence_validation d)) (fails_state_machine_check d))))

  -- `StrictGrammarStateMachineMitigation.process`
  unfoldable pub strict_process : Fields F → Result String StrategyOutcome
  unfolding is_malformed
  strict_process d = outcome_of (is_malformed d)
