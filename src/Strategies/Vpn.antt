-- ===== src/Strategies/Vpn.antt =====
-- src/zeroshield/strategies/vpn: the weak baseline and the strict mitigation.
pub mod Strict
use zero_shield.Base.{
  ℕ, ◌+◌, is_some, String, Bool, true, false, not, ◌&&◌, ◌||◌, Option, none, some, List, [], ◌∷◌,
  length, leb, ltb, ◌==◌, map, str_eq, all_of, any_of, if◌then◌else◌,
}
use zero_shield.Base.Effects.{Result, ok, err}
use zero_shield.Base.Int.{ℤ, pos, ltb_ℤ}
use zero_shield.Base.Floats.{Float}
use zero_shield.Models.Experiment.{codes, after}
use zero_shield.Models.Values.{
  Value, Fields, str, dict, get, find_field, values_of, as_int, hashable, eq_value, eq_number,
}
use zero_shield.Models.Runs.{StrategyOutcome}
use zero_shield.Strategies.Checks.{
  is_nonempty_str, as_list, keys_of, text_of, over_long, or_then, unhashable, has_duplicates,
  in_texts, blocked_outcome, accepted_outcome, outcome_of,
}

abbrev pub max_path_length : ℕ
max_path_length = 256

abbrev pub max_body_length : ℕ
max_body_length = 8192

abbrev pub max_header_value_length : ℕ
max_header_value_length = 512

abbrev pub max_query_param_value_length : ℕ
max_query_param_value_length = 512

abbrev pub allowed_encodings : List String
allowed_encodings = "utf-8" ∷ "ascii" ∷ []

abbrev pub path_traversal_markers : List (List ℕ)
path_traversal_markers = codes ".." ∷ codes "%2e%2e" ∷ codes "%00" ∷ []

-- `str.lower` on ASCII. No other character has a lower case that contains a character of a marker.
abbrev pub lower : ℕ → ℕ
lower c = if leb b'A' c && leb c b'Z' then c + 32 else c

-- `marker in text`
abbrev pub contains : List ℕ → List ℕ → Bool
contains marker [] = is_some (after marker [])
contains marker (c ∷ cs) = is_some (after marker (c ∷ cs)) || contains marker cs

-- `not isinstance(declared, int) or declared < 0 or declared > MAX_BODY_LENGTH`
abbrev pub bad_length : ℕ → Option ℤ → Bool
bad_length limit none = true
bad_length limit (some n) = ltb_ℤ n (pos 0) || ltb_ℤ (pos limit) n

module _ {F : Type 0} where
  -- `WeakSchemaLengthBaseline.process`
  unfoldable pub weak_process : Fields F → Result String StrategyOutcome
  weak_process d =
      if not (is_nonempty_str (get "method" d))
      then ok (blocked_outcome false)
      else if not (is_nonempty_str (get "path" d))
      then ok (blocked_outcome false)
      else ok accepted_outcome

  unfoldable pub fails_schema_check : Fields F → Bool
  fails_schema_check d =
      if not (is_nonempty_str (get "method" d)) then true else not (is_nonempty_str (get "path" d))

  abbrev pub path_too_long : Value F → Bool
  path_too_long (str s) = ltb max_path_length (length (codes s))
  path_too_long _ = false

  -- `input_data.get("query_params", {})` has a value that is too long, if it is a dict.
  abbrev pub query_too_long : (Value F → List ℕ) → Value F → Bool
  query_too_long str_of (dict q) =
      any_of (λ v. ltb max_query_param_value_length (length (text_of str_of v))) (values_of q)
  query_too_long str_of _ = false

  -- `input_data.get("path", "")`
  abbrev pub path_or_empty : Fields F → Value F
  path_or_empty d = elim (find_field "path" d) [ none ↦ str "" | some v ↦ v ]

module _ {F : Type 0} ⦃f : Float F⦄ where
  unfoldable pub fails_duplicate_field_check : Fields F → Result String Bool
  fails_duplicate_field_check d = has_duplicates (keys_of (as_list (get "headers" d)))

  unfoldable pub fails_type_check : Fields F → Result String Bool
  fails_type_check d =
      if hashable (get "encoding" d)
      then ok (not (in_texts allowed_encodings (get "encoding" d)))
      else err unhashable

module _ {F : Type 0} ⦃f : Float F⦄ (str_of : Value F → List ℕ) where
  unfoldable pub fails_length_checks : Fields F → Bool
  fails_length_checks d =
      if path_too_long (get "path" d)
      then true
      else if bad_length max_body_length (as_int (get "declared_content_length" d))
      then true
      else if not
          (eq_number (as_int (get "declared_content_length" d)) (get "actual_body_length" d))
      then true
      else any_of (over_long str_of max_header_value_length) (as_list (get "headers" d))
        || query_too_long str_of (get "query_params" d)

  unfoldable pub fails_path_canonicalisation_check : Fields F → Bool
  fails_path_canonicalisation_check d =
      let lowered = map lower (text_of str_of (path_or_empty d)) in
      any_of (λ marker. contains marker lowered) path_traversal_markers

  -- `_is_malformed`: the checks in order, up to the first that fails or raises
  unfoldable pub is_malformed : Fields F → Result String Bool
  is_malformed d = or_then (ok (fails_schema_check d)) (
      or_then (ok (fails_length_checks d)) (
        or_then (fails_duplicate_field_check d)
          (or_then (fails_type_check d) (ok (fails_path_canonicalisation_check d)))))

  -- `StrictSchemaCanonicalisationMitigation.process`
  unfoldable pub strict_process : Fields F → Result String StrategyOutcome
  unfolding is_malformed
  strict_process d = outcome_of (is_malformed d)
