-- ===== src/Strategies/Checks.antt =====
-- What the strategies share. `str_of` is Python's `str` of a value that is no text.
use zero_shield.Base.{
  ℕ, String, Bool, true, false, not, Option, none, some, List, [], ◌∷◌, length, ltb, all_of, any_of,
  if◌then◌else◌,
}
use zero_shield.Base.Effects.{Result, ok, err}
use zero_shield.Base.Floats.{Float}
use zero_shield.Models.Enums.{Decision}
use zero_shield.Models.Experiment.{codes, nonempty, all_distinct}
use zero_shield.Models.Values.{Value, str, list, nil, cons, items_of, hashable, eq_value}
use zero_shield.Models.Runs.{StrategyOutcome}

module _ {F : Type 0} where
  -- `isinstance(v, str) and v`
  abbrev pub is_nonempty_str : Value F → Bool
  is_nonempty_str (str s) = nonempty s
  is_nonempty_str _ = false

  -- `_as_list`
  abbrev pub as_list : Value F → List (Value F)
  as_list (list xs) = items_of xs
  as_list _ = []

  -- `isinstance(pair, list | tuple) and len(pair) == 2`
  abbrev pub as_pair : Value F → Option (Value F × Value F)
  as_pair (list (cons a (cons b nil))) = some (a, b)
  as_pair _ = none

  -- `[pair[0] for pair in headers if …]`
  abbrev pub keys_of : List (Value F) → List (Value F)
  keys_of [] = []
  keys_of (p ∷ ps) =
      let rest = keys_of ps in elim (as_pair p) [ none ↦ rest | some (k, _) ↦ k ∷ rest ]

  -- `str(v)`
  abbrev pub text_of : (Value F → List ℕ) → Value F → List ℕ
  text_of str_of (str s) = codes s
  text_of str_of v = str_of v

  -- A pair with `len(str(pair[1])) > limit`
  abbrev pub over_long : (Value F → List ℕ) → ℕ → Value F → Bool
  over_long str_of limit p = elim (as_pair p) [
    | none ↦ false
    | some (_, v) ↦ ltb limit (length (text_of str_of v))
  ]

-- What hashing a list or a dict raises.
abbrev pub unhashable : String
unhashable = "unhashable type"

-- `a or b`, where each side may raise
abbrev pub or_then : Result String Bool → Result String Bool → Result String Bool
or_then (ok true) next = ok true
or_then (ok false) next = next
or_then (err e) next = err e

-- `len(set(keys)) != len(keys)`
abbrev pub has_duplicates : {F : Type 0} ⦃f : Float F⦄ → List (Value F) → Result String Bool
has_duplicates keys =
    if all_of hashable keys then ok (not (all_distinct eq_value keys)) else err unhashable

-- `v in texts`, for a set of texts
abbrev pub in_texts : {F : Type 0} ⦃f : Float F⦄ → List String → Value F → Bool
in_texts texts v = any_of (λ t. eq_value v (str t)) texts

abbrev pub blocked_outcome : Bool → StrategyOutcome
blocked_outcome logged = record {
  decision = Decision.blocked;
  parser_reached = false;
  logged = logged;
  errored = false;
  error_message = none;
}

abbrev pub accepted_outcome : StrategyOutcome
accepted_outcome = record {
  decision = Decision.accepted;
  parser_reached = true;
  logged = false;
  errored = false;
  error_message = none;
}

-- `process` of a mitigation, from what `_is_malformed` returned or raised
abbrev pub outcome_of : Result String Bool → Result String StrategyOutcome
outcome_of (ok true) = ok (blocked_outcome true)
outcome_of (ok false) = ok accepted_outcome
outcome_of (err e) = err e
