-- ===== src/Strategies/Telecom/Strict.antt =====
-- What the strict telecom mitigation lets through.
use zero_shield.Base.{
  ℕ, String, ◌≡◌, ◌≤◌, refl, ◌↔◌, inl, inr, Bool, true, false, not, ◌&&◌, ◌||◌, some, List, arith,
  all_of, any_of, eq_iff, if◌then◌else◌, Bool-cases,
}
use zero_shield.Base.Effects.{ok, err}
use zero_shield.Base.Int.{pos}
use zero_shield.Base.Floats.{Float}
use zero_shield.Models.Experiment.{all_distinct}
use zero_shield.Models.Values.{
  Value, Fields, str, list, nil, cons, get, as_int, hashable, eq_value, eq_number,
}
use zero_shield.Strategies.Checks.{as_list, keys_of, over_long, unhashable, accepted_outcome}
use zero_shield.Strategies.Vpn.{bad_length}
use zero_shield.Strategies.Vpn.Strict.{length_cases, bad_length_lem}
use zero_shield.Strategies.Telecom.{
  weak_process, strict_process, fails_mandatory_field_check, fails_duplicate_header_check,
  fails_size_limit_checks, fails_sequence_validation, fails_state_machine_check, has_key,
  is_transition, mandatory_headers, legal_transitions, known_methods, known_states, is_known,
  is_nonempty_list, max_body_length, max_sdp_attr_value_length,
}

eq_value-str :
    {F : Type 0} ⦃f : Float F⦄ (v : Value F) (s : String) → eq_value v (str s) ≡ true → v ≡ str s
unfolding eq_value
eq_value-str (str t) s h = rw ((eq_iff t s).0 h) refl
eq_value-str Value.null s h = cc
eq_value-str (Value.bool _) s h = cc
eq_value-str (Value.int _) s h = cc
eq_value-str (Value.float _) s h = cc
eq_value-str (Value.list _) s h = cc
eq_value-str (Value.dict _) s h = cc

-- The state and the method of a legal transition
pub data IsLegal {F : Type 0} (state method : Value F) : Type 0 where
  invites : state ≡ str "INIT" → method ≡ str "INVITE" → IsLegal state method
  acknowledges : state ≡ str "RINGING" → method ≡ str "ACK" → IsLegal state method
  ends : state ≡ str "ESTABLISHED" → method ≡ str "BYE" → IsLegal state method

-- What a message has to be, said of its fields.
pub record IsStrictMessage {F : Type 0} ⦃f : Float F⦄ (str_of : Value F → List ℕ) (d : Fields F)
    : Type 0 where
  pub keys_hashable : all_of hashable (keys_of (as_list (get "headers" d))) ≡ true
  pub mandatory_given :
      all_of (has_key (keys_of (as_list (get "headers" d)))) mandatory_headers ≡ true
  pub keys_distinct : all_distinct eq_value (keys_of (as_list (get "headers" d))) ≡ true
  pub body : ℕ
  pub body_given : as_int (get "declared_body_length" d) ≡ some (pos body)
  pub body_short : body ≤ max_body_length
  pub body_actual : eq_number (some (pos body)) (get "actual_body_length" d) ≡ true
  pub attributes_short :
      any_of (over_long str_of max_sdp_attr_value_length) (as_list (get "sdp_attributes" d)) ≡ false
  pub in_sequence : eq_value (get "sequence_number" d) (get "expected_sequence_number" d) ≡ true
  pub legal : IsLegal (get "session_state" d) (get "method" d)

is_transition_cases :
    {F : Type 0} ⦃f : Float F⦄ (state method : Value F) (a b : String)
    → is_transition state method (a, b) ≡ true
    → (state ≡ str a) × (method ≡ str b)
is_transition_cases state method a b h = elim (Bool-cases (eq_value state (str a))) [
  | inl e ↦ (eq_value-str state a e, eq_value-str method b (rw e at h))
  | inr e ↦ absurd (cc (rw e at h))
]

third_of_three :
    {a b c : Bool} → a ≡ false → b ≡ false → (a || (b || (c || false))) ≡ true → c ≡ true
third_of_three not_a not_b h = ground arith

guarded_cases :
    (guard test : Bool)
    → (if guard then ok (not test) else err unhashable) ≡ ok false
    → (guard ≡ true) × (test ≡ true)
guarded_cases guard test h = ground arith

IsLegal-cases :
    {F : Type 0} ⦃f : Float F⦄ (state method : Value F)
    → any_of (is_transition state method) legal_transitions ≡ true
    → IsLegal state method
IsLegal-cases state method h = elim (Bool-cases (is_transition state method ("INIT", "INVITE"))) [
  | inl e ↦ let (a, b) = is_transition_cases state method "INIT" "INVITE" e in IsLegal.invites a b
  | inr e ↦ elim (Bool-cases (is_transition state method ("RINGING", "ACK"))) [
    | inl e2 ↦
        let (a, b) = is_transition_cases state method "RINGING" "ACK" e2 in IsLegal.acknowledges a b
    | inr e2 ↦
        let (a, b) = is_transition_cases state method "ESTABLISHED" "BYE" (third_of_three e e2 h) in
        IsLegal.ends a b
  ]
]

legal_lem :
    {F : Type 0} ⦃f : Float F⦄ (state method : Value F)
    → IsLegal state method
    → (any_of (is_transition state method) legal_transitions ≡ true)
      × ((hashable state && hashable method) ≡ true)
      × (is_known known_states state ≡ true)
      × (is_known known_methods method ≡ true)
unfolding eq_value
legal_lem state method (IsLegal.invites a b) = rw (a, b) (refl, refl, refl, refl)
legal_lem state method (IsLegal.acknowledges a b) = rw (a, b) (refl, refl, refl, refl)
legal_lem state method (IsLegal.ends a b) = rw (a, b) (refl, refl, refl, refl)

module _ {F : Type 0} ⦃f : Float F⦄ (str_of : Value F → List ℕ) (d : Fields F) where
  -- All five checks pass, and none of them raises.
  record PassesChecks : Type 0 where
    mandatory : fails_mandatory_field_check d ≡ ok false
    duplicates : fails_duplicate_header_check d ≡ ok false
    sizes : fails_size_limit_checks str_of d ≡ false
    sequence : fails_sequence_validation d ≡ false
    state_machine : fails_state_machine_check d ≡ ok false

  accepted→PassesChecks : strict_process str_of d ≡ ok accepted_outcome → PassesChecks
  unfolding strict_process
  accepted→PassesChecks h = ground arith

  PassesChecks→accepted : PassesChecks → strict_process str_of d ≡ ok accepted_outcome
  unfolding strict_process
  PassesChecks→accepted h = ground arith

  mandatory_cases :
      fails_mandatory_field_check d ≡ ok false
      → (all_of hashable (keys_of (as_list (get "headers" d))) ≡ true)
        × (all_of (has_key (keys_of (as_list (get "headers" d)))) mandatory_headers ≡ true)
  unfolding fails_mandatory_field_check
  mandatory_cases h =
      guarded_cases (all_of hashable (keys_of (as_list (get "headers" d))))
        (all_of (has_key (keys_of (as_list (get "headers" d)))) mandatory_headers) h

  duplicates_cases :
      fails_duplicate_header_check d ≡ ok false
      → all_distinct eq_value (keys_of (as_list (get "headers" d))) ≡ true
  unfolding fails_duplicate_header_check
  duplicates_cases h = ground arith

  size_cases :
      fails_size_limit_checks str_of d ≡ false
      → (bad_length max_body_length (as_int (get "declared_body_length" d)) ≡ false)
        × (eq_number (as_int (get "declared_body_length" d)) (get "actual_body_length" d) ≡ true)
        × (any_of (over_long str_of max_sdp_attr_value_length) (as_list (get "sdp_attributes" d))
            ≡ false)
  unfolding fails_size_limit_checks
  size_cases h = ground arith

  state_cases :
      fails_state_machine_check d ≡ ok false
      → any_of (is_transition (get "session_state" d) (get "method" d)) legal_transitions ≡ true
  unfolding fails_state_machine_check
  state_cases h =
      (guarded_cases (hashable (get "session_state" d) && hashable (get "method" d))
        (any_of (is_transition (get "session_state" d) (get "method" d)) legal_transitions) h).1

  sequence_cases :
      fails_sequence_validation d ≡ false
      → eq_value (get "sequence_number" d) (get "expected_sequence_number" d) ≡ true
  unfolding fails_sequence_validation
  sequence_cases h = ground arith

  PassesChecks→IsStrictMessage : PassesChecks → IsStrictMessage str_of d
  PassesChecks→IsStrictMessage c =
      let (hashes, given) = mandatory_cases c.mandatory in
      let (declared, actual, attributes) = size_cases c.sizes in
      let (n, is_n, le) =
        length_cases max_body_length (as_int (get "declared_body_length" d)) declared in
      record {
        keys_hashable = hashes;
        mandatory_given = given;
        keys_distinct = duplicates_cases c.duplicates;
        body = n;
        body_given = is_n;
        body_short = le;
        body_actual = rw is_n at actual;
        attributes_short = attributes;
        in_sequence = sequence_cases c.sequence;
        legal =
            IsLegal-cases (get "session_state" d) (get "method" d) (state_cases c.state_machine);
      }

  IsStrictMessage→PassesChecks : IsStrictMessage str_of d → PassesChecks
  unfolding fails_mandatory_field_check fails_duplicate_header_check fails_size_limit_checks
      fails_sequence_validation fails_state_machine_check
  IsStrictMessage→PassesChecks r =
      let (legal, hashes, _, _) = legal_lem (get "session_state" d) (get "method" d) r.legal in
      record {
        mandatory = rw (r.keys_hashable, r.mandatory_given) refl;
        duplicates = rw (r.keys_hashable, r.keys_distinct) refl;
        sizes =
            rw
              (
                bad_length_lem max_body_length r.body (as_int (get "declared_body_length" d))
                    r.body_given r.body_short,
                r.body_given,
                r.body_actual,
                r.attributes_short,
              )
              refl;
        sequence = rw r.in_sequence refl;
        state_machine = rw (hashes, legal) refl;
      }

  -- The strict telecom mitigation accepts a message exactly when it is a strict message:
  -- hashable and distinct header names that hold Call-ID, From and To, a declared body length
  -- between 0 and 4096 that is the actual one, no attribute over 256 characters, the expected
  -- sequence number, and a state and method that are one of the three legal transitions.
  pub strict_telecom-accepts_iff :
      (strict_process str_of d ≡ ok accepted_outcome) ↔ IsStrictMessage str_of d
  strict_telecom-accepts_iff = (
    λ h. PassesChecks→IsStrictMessage (accepted→PassesChecks h),
    λ r. PassesChecks→accepted (IsStrictMessage→PassesChecks r),
  )

has_key-nonempty :
    {F : Type 0} ⦃f : Float F⦄ (v : Value F)
    → all_of (has_key (keys_of (as_list v))) mandatory_headers ≡ true
    → is_nonempty_list v ≡ true
has_key-nonempty (list (cons _ _)) h = refl
has_key-nonempty (list nil) h = cc
has_key-nonempty Value.null h = cc
has_key-nonempty (Value.bool _) h = cc
has_key-nonempty (Value.int _) h = cc
has_key-nonempty (Value.float _) h = cc
has_key-nonempty (Value.str _) h = cc
has_key-nonempty (Value.dict _) h = cc

module _ {F : Type 0} ⦃f : Float F⦄ (str_of : Value F → List ℕ) (d : Fields F) where
  -- The telecom mitigation is a strengthening of the baseline: it accepts nothing that the
  -- baseline does not accept.
  pub strict_process-weak_telecom :
      strict_process str_of d ≡ ok accepted_outcome → weak_process d ≡ ok accepted_outcome
  unfolding weak_process
  strict_process-weak_telecom h =
      let r = (strict_telecom-accepts_iff str_of d).0 h in
      let (_, _, state, method) = legal_lem (get "session_state" d) (get "method" d) r.legal in
      rw (method, has_key-nonempty (get "headers" d) r.mandatory_given, state) refl
