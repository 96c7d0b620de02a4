-- ===== src/Intelligence/Http/Tests.antt =====
-- A server that is busy once.
use zero_shield.Base.{ℕ, zero, suc, ◌≡◌, refl, some, none, [], ◌∷◌}
use zero_shield.Base.Floats.{Fixed}
use zero_shield.Base.Effects.{ok, err}
use zero_shield.Models.Values.{null}
use zero_shield.Intelligence.Http.{
  Reply, transport_error, response, exhausted, no_transport, non_retryable_status, attempt_step,
  attempts, fetch_json,
}
use zero_shield.Intelligence.Http.Bounded.{Fetches, fetch_json-Fetches}

abbrev busy_once : ℕ → Reply Fixed
busy_once zero = response 503 10 none
busy_once (suc n) = response 200 4 (some null)

fetch_json-Fetches_example : Fetches busy_once 3 0 4 (ok null, 1 ∷ [])
unfolding fetch_json attempts attempt_step
fetch_json-Fetches_example = fetch_json-Fetches busy_once 3

forbidden :
    fetch_json {F = Fixed} (λ n. response 403 10 none) 3 ≡ (err (non_retryable_status 403), [])
unfolding fetch_json attempts attempt_step
forbidden = refl

unreachable :
    fetch_json {F = Fixed} (λ n. transport_error "timeout") 2
    ≡ (err (exhausted 3 (some (no_transport "timeout"))), 1 ∷ 2 ∷ [])
unfolding fetch_json attempts attempt_step
unreachable = refl
