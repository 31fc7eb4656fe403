-- ===== src/Resilience/Breaker.antt =====
-- The circuit breaker of utility/resilience/resilience.go. Each method holds the mutex throughout,
-- so it is one step on the record. A point in time is a number of nanoseconds, an argument of the
-- methods that read the clock. `gauge` is the value last handed to `metrics.SetCircuitBreakerState`.
use ops_captain.Base.{ℕ, ◌+◌, String, Bool, true, false, none, some, ltb, leb, if◌then◌else◌}
use ops_captain.Base.Dict.{Dict, lookup, insert}

pub data CircuitState : Type 0 where
  state_closed state_open state_half_open : CircuitState

pub record CircuitBreaker : Type 0 where
  pub name : String
  pub state : CircuitState
  pub failures : ℕ
  pub successes : ℕ
  pub threshold : ℕ
  pub half_open_max : ℕ
  pub reset_timeout : ℕ
  pub last_failure_time : ℕ
  pub gauge : ℕ

abbrev pub breaker_metric_value : CircuitState → ℕ
breaker_metric_value state_open = 1
breaker_metric_value state_half_open = 2
breaker_metric_value state_closed = 0

unfoldable pub new_circuit_breaker : ℕ → ℕ → CircuitBreaker
new_circuit_breaker threshold reset_timeout = record {
  name = "";
  state = state_closed;
  failures = 0;
  successes = 0;
  threshold = threshold;
  half_open_max = 2;
  reset_timeout = reset_timeout;
  last_failure_time = 0;
  gauge = 0;
}

unfoldable pub observe_state : CircuitBreaker → CircuitBreaker
observe_state cb = record cb { gauge = breaker_metric_value cb.state }

-- `time.Since(last) > resetTimeout`
abbrev pub reset_elapsed : CircuitBreaker → ℕ → Bool
reset_elapsed cb now = ltb (cb.last_failure_time + cb.reset_timeout) now

allow_in : CircuitState → CircuitBreaker → ℕ → CircuitBreaker × Bool
unfolding observe_state
allow_in state_closed cb now = (cb, true)
allow_in state_open cb now =
    if reset_elapsed cb now
    then (observe_state (record cb { state = state_half_open; successes = 0 }), true)
    else (cb, false)
allow_in state_half_open cb now = (cb, true)

unfoldable pub allow : CircuitBreaker → ℕ → CircuitBreaker × Bool
unfolding allow_in
allow cb now = allow_in cb.state cb now

success_in : CircuitState → CircuitBreaker → CircuitBreaker
unfolding observe_state
success_in state_half_open cb =
    let counted = record cb { successes = cb.successes + 1 } in
    if leb cb.half_open_max counted.successes
    then observe_state (record counted { state = state_closed; failures = 0 })
    else counted
success_in state_closed cb = observe_state (record cb { failures = 0 })
success_in state_open cb = cb

unfoldable pub record_success : CircuitBreaker → CircuitBreaker
unfolding success_in
record_success cb = success_in cb.state cb

failure_in : CircuitState → CircuitBreaker → CircuitBreaker
unfolding observe_state
failure_in state_closed cb =
    if leb cb.threshold cb.failures then observe_state (record cb { state = state_open }) else cb
failure_in state_half_open cb = observe_state (record cb { state = state_open })
failure_in state_open cb = cb

unfoldable pub record_failure : CircuitBreaker → ℕ → CircuitBreaker
unfolding failure_in
record_failure cb now =
    failure_in cb.state (record cb { failures = cb.failures + 1; last_failure_time = now })

-- The registry of breakers by name; a new one trips at 5 failures and rests for 30 seconds.
unfoldable pub get_breaker : Dict CircuitBreaker → String → Dict CircuitBreaker × CircuitBreaker
unfolding new_circuit_breaker observe_state
get_breaker breakers name = elim (lookup name breakers) [
  | some cb ↦ (breakers, cb)
  | none ↦
      let fresh = observe_state (record (new_circuit_breaker 5 30000000000) { name = name }) in
      (insert name fresh breakers, fresh)
]

-- The calls that the rest of the program makes on a breaker.
pub data BreakerCall : Type 0 where
  allows : ℕ → BreakerCall
  succeeds : BreakerCall
  fails : ℕ → BreakerCall

unfoldable pub step : CircuitBreaker → BreakerCall → CircuitBreaker
unfolding allow record_success record_failure
step cb (allows now) = (allow cb now).0
step cb succeeds = record_success cb
step cb (fails now) = record_failure cb now
