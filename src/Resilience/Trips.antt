-- ===== src/Resilience/Trips.antt =====
-- When the breaker of utility/resilience/resilience.go trips, denies and recovers.
use ops_captain.Base.{
  ℕ, zero, suc, ◌+◌, ◌≤◌, ◌<◌, ◌≡◌, ◌↔◌, true, false, String, List, [], ◌∷◌, none, arith, All,
}
use ops_captain.Base.Dict.{Dict, lookup}
use ops_captain.Resilience.Breaker.{
  state_closed, state_open, state_half_open, CircuitBreaker, breaker_metric_value, allow,
  record_success, record_failure, get_breaker, BreakerCall, allows, succeeds, fails, step,
}

unfoldable pub run : CircuitBreaker → List BreakerCall → CircuitBreaker
run cb [] = cb
run cb (c ∷ cs) = run (step cb c) cs

pub record IsWell (cb : CircuitBreaker) : Type 0 where
  pub mirrors : cb.gauge ≡ breaker_metric_value cb.state
  pub below : cb.state ≡ state_closed → cb.failures < cb.threshold
  pub probing : cb.state ≡ state_half_open → cb.successes < cb.half_open_max
  pub trips : 0 < cb.threshold
  pub probes : 0 < cb.half_open_max

step-IsWell : (cb : CircuitBreaker) (c : BreakerCall) → IsWell cb → IsWell (step cb c)
unfolding step
step-IsWell cb (allows now) w = ground arith
step-IsWell cb succeeds w = ground arith
step-IsWell cb (fails now) w = ground arith

-- After any calls on a well-formed breaker: the gauge shows the state, a closed breaker has seen
-- fewer failures in a row than the threshold, and a half-open one fewer successes than it needs.
pub run-IsWell : (cb : CircuitBreaker) (cs : List BreakerCall) → IsWell cb → IsWell (run cb cs)
unfolding run
run-IsWell cb [] w = w
run-IsWell cb (c ∷ cs) w = run-IsWell (step cb c) cs (step-IsWell cb c w)

-- A breaker that the registry makes on a missing name is well formed.
pub get_breaker-IsWell :
    (breakers : Dict CircuitBreaker) (name : String)
    → lookup name breakers ≡ none
    → IsWell (get_breaker breakers name).1
unfolding get_breaker
get_breaker-IsWell breakers name h = ground arith

-- A call is denied exactly if the breaker is open and its rest has not elapsed, and exactly then the
-- breaker is left as it is and the answer is no.
pub allow-denies :
    (cb : CircuitBreaker) (now : ℕ)
    → (((allow cb now).1 ≡ false)
        ↔ ((cb.state ≡ state_open) × (now ≤ cb.last_failure_time + cb.reset_timeout)))
      × ((allow cb now ≡ (cb, false))
          ↔ ((cb.state ≡ state_open) × (now ≤ cb.last_failure_time + cb.reset_timeout)))
unfolding allow
allow-denies cb now = ground arith

-- A denied call changes nothing.
pub allow-unchanged :
    (cb : CircuitBreaker) (now : ℕ) → (allow cb now).1 ≡ false → (allow cb now).0 ≡ cb
unfolding allow
allow-unchanged cb now h = ground arith

-- `n` failed calls, all recorded at one time.
abbrev pub failures_at : ℕ → ℕ → List BreakerCall
failures_at zero now = []
failures_at (suc n) now = fails now ∷ failures_at n now

step_below :
    (cb : CircuitBreaker) (now : ℕ)
    → cb.state ≡ state_closed
    → suc cb.failures < cb.threshold
    → step cb (fails now) ≡ record cb { failures = cb.failures + 1; last_failure_time = now }
unfolding step
step_below cb now c h = ground arith

step_at :
    (cb : CircuitBreaker) (now : ℕ)
    → cb.state ≡ state_closed
    → suc cb.failures ≡ cb.threshold
    → (step cb (fails now)).state ≡ state_open
unfolding step
step_at cb now c h = ground arith

-- A closed breaker that is `n + 1` failures short of its threshold is open after `n + 1` failures in a
-- row, all recorded at one time.
pub failures-trip :
    (n : ℕ) (cb : CircuitBreaker) (now : ℕ)
    → cb.state ≡ state_closed
    → cb.failures + suc n ≡ cb.threshold
    → (run cb (failures_at (suc n) now)).state ≡ state_open
unfolding run
failures-trip zero cb now c h = step_at cb now c (omega arith)
failures-trip (suc n) cb now c h =
    rw (step_below cb now c (omega arith), run) (failures-trip n _ now c (omega arith))

-- A closed breaker that stays below its threshold after `n` more failures in a row, all recorded at one
-- time, is still closed after them.
pub failures-hold :
    (n : ℕ) (cb : CircuitBreaker) (now : ℕ)
    → cb.state ≡ state_closed
    → cb.failures + n < cb.threshold
    → (run cb (failures_at n now)).state ≡ state_closed
unfolding run
failures-hold zero cb now c h = c
failures-hold (suc n) cb now c h =
    rw (step_below cb now c (omega arith), run) (failures-hold n _ now c (omega arith))

-- Calls up to the time `d`: the clock is read no later than `d`, and a failure that other callers
-- still report does not bring the end of the rest before `d`.
abbrev pub Within : ℕ → ℕ → BreakerCall → Type 0
Within d reset (allows now) = now ≤ d
Within d reset succeeds = Unit
Within d reset (fails now) = d ≤ now + reset

abbrev pub Rests : ℕ → ℕ → CircuitBreaker → Type 0
Rests d reset cb =
    (cb.state ≡ state_open)
    × (d ≤ cb.last_failure_time + cb.reset_timeout)
    × (cb.reset_timeout ≡ reset)

step-Rests :
    (d reset : ℕ) (cb : CircuitBreaker) (c : BreakerCall)
    → Within d reset c
    → Rests d reset cb
    → Rests d reset (step cb c)
unfolding step
step-Rests d reset cb (allows now) w r = ground arith
step-Rests d reset cb succeeds w r = ground arith
step-Rests d reset cb (fails now) w r = ground arith

-- An open breaker whose rest lasts until `d` stays open through any calls up to `d`, and still
-- denies a call at any time up to `d`.
pub run-Rests :
    (d reset : ℕ) (cb : CircuitBreaker) (cs : List BreakerCall) (now : ℕ)
    → All (Within d reset) cs
    → Rests d reset cb
    → now ≤ d
    → ((run cb cs).state ≡ state_open) × ((allow (run cb cs) now).1 ≡ false)
unfolding run
run-Rests d reset cb [] now w r h = (r.0, (allow-denies cb now).0.1 (r.0, omega arith))
run-Rests d reset cb (c ∷ cs) now w r h =
    run-Rests d reset (step cb c) cs now w.1 (step-Rests d reset cb c w.0 r) h

-- After its rest an open breaker lets a call through; two successes then close it with no failure
-- counted, if it needs two, and a failure instead opens it again from that time on.
pub allow-recovers :
    (cb : CircuitBreaker) (now later : ℕ)
    → cb.state ≡ state_open
    → cb.last_failure_time + cb.reset_timeout < now
    → cb.half_open_max ≡ 2
    → let probe = (allow cb now).0 in
      ((allow cb now).1 ≡ true)
      × ((record_success probe).state ≡ state_half_open)
      × ((record_success (record_success probe)).state ≡ state_closed)
      × ((record_success (record_success probe)).failures ≡ 0)
      × ((record_failure probe later).state ≡ state_open)
      × ((record_failure probe later).last_failure_time ≡ later)
unfolding allow record_success record_failure
allow-recovers cb now later o h m = ground arith
