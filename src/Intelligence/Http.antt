-- ===== src/Intelligence/Http.antt =====
-- src/zeroshield/intelligence/connectors/http.py: `fetch_json`. What `client.get` does at the n-th
-- attempt is an argument. The result comes with the sleeps in between, in multiples of
-- `backoff_seconds`.
pub mod Bounded
pub mod Tests
use zero_shield.Base.{
  ℕ, zero, suc, ◌*◌, String, Bool, true, false, Option, none, some, List, [], ◌∷◌, ltb, ◌==◌,
  any_of, if◌then◌else◌,
}
use zero_shield.Base.Effects.{Result, ok, err}
use zero_shield.Models.Values.{Value}

-- `_MAX_RESPONSE_BYTES`
abbrev pub max_response_bytes : ℕ
max_response_bytes = 26214400

-- `_RETRYABLE_STATUS_CODES`
abbrev pub retryable_status_codes : List ℕ
retryable_status_codes = 429 ∷ 500 ∷ 502 ∷ 503 ∷ 504 ∷ []

-- A TransportError with its text, or a response: its status, the length of its content, and what
-- `response.json()` returns, if it does not raise
pub data Reply (F : Type 0) : Type 0 where
  transport_error : String → Reply F
  response : ℕ → ℕ → Option (Value F) → Reply F

-- `last_error`
pub data Transient : Type 0 where
  no_transport : String → Transient
  retryable_status : ℕ → Transient

-- ConnectorFetchError, by its message
pub data FetchFailure : Type 0 where
  too_large : ℕ → FetchFailure
  not_json : FetchFailure
  non_retryable_status : ℕ → FetchFailure
  exhausted : ℕ → Option Transient → FetchFailure

-- What an attempt leads to: the end, or another attempt
pub data Step (F : Type 0) : Type 0 where
  ends : Result FetchFailure (Value F) → Step F
  again : Transient → Step F

abbrev pub two_to : ℕ → ℕ
two_to zero = 1
two_to (suc n) = 2 * two_to n

-- There is a sleep unless it was the last attempt.
abbrev pub slept : ℕ → ℕ → List ℕ → List ℕ
slept attempt zero sleeps = sleeps
slept attempt (suc left) sleeps = two_to attempt ∷ sleeps

module _ {F : Type 0} where
  abbrev pub decoded : Option (Value F) → Result FetchFailure (Value F)
  decoded none = err not_json
  decoded (some v) = ok v

  -- The body of the loop, up to the sleep
  unfoldable pub attempt_step : Reply F → Step F
  attempt_step (transport_error text) = again (no_transport text)
  attempt_step (response status size json) =
      if ltb status 300
      then if ltb max_response_bytes size then ends (err (too_large size)) else ends (decoded json)
      else if any_of (λ code. code == status) retryable_status_codes
      then again (retryable_status status)
      else ends (err (non_retryable_status status))

  module _ (get : ℕ → Reply F) (max_retries : ℕ) where
    -- What follows an attempt, given what the attempts that are left lead to
    abbrev pub go_on :
        ℕ
        → ℕ
        → (Option Transient → Result FetchFailure (Value F) × List ℕ)
        → Step F
        → Result FetchFailure (Value F) × List ℕ
    go_on attempt left next (ends r) = (r, [])
    go_on attempt left next (again e) =
        let (r, sleeps) = next (some e) in (r, slept attempt left sleeps)

    -- The attempts from one number on; so many are left.
    unfoldable pub attempts : ℕ → ℕ → Option Transient → Result FetchFailure (Value F) × List ℕ
    attempts attempt zero last_error = (err (exhausted (suc max_retries) last_error), [])
    attempts attempt (suc left) last_error =
        go_on attempt left (attempts (suc attempt) left) (attempt_step (get attempt))

    unfoldable pub fetch_json : Result FetchFailure (Value F) × List ℕ
    fetch_json = attempts 0 (suc max_retries) none
