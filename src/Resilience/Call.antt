-- ===== src/Resilience/Call.antt =====
-- `Execute` of utility/resilience/resilience.go: the guarded call with retries. The called
-- function, the context and the clock are arguments: what they answer at each attempt.
use ops_captain.Base.{
  ℕ, zero, suc, ◌-◌, ◌*◌, ◌%◌, ◌^◌, ltb, String, Bool, true, Option, none, some, str_eq, ◌==◌,
  if◌then◌else◌,
}
use ops_captain.Base.Int.{ℤ, pos, negsuc, ltb_ℤ, leb_ℤ}
use ops_captain.Base.Dict.{Dict, insert}
use ops_captain.Resilience.Breaker.{
  CircuitBreaker, allow, record_success, record_failure, get_breaker,
}

-- Durations are nanoseconds.
pub record CallOption : Type 0 where
  pub timeout : ℤ
  pub max_retries : ℤ
  pub retry_delay : ℤ
  pub name : String

abbrev pub default_call_option : CallOption
default_call_option = record {
  timeout = pos 30000000000;
  max_retries = pos 2;
  retry_delay = pos 1000000000;
  name = "unknown";
}

unfoldable pub normalize_call_option : CallOption → CallOption
normalize_call_option opt = record {
  timeout = if leb_ℤ opt.timeout (pos 0) then default_call_option.timeout else opt.timeout;
  max_retries =
      if ltb_ℤ opt.max_retries (pos 0) then default_call_option.max_retries else opt.max_retries;
  retry_delay =
      if leb_ℤ opt.retry_delay (pos 0) then default_call_option.retry_delay else opt.retry_delay;
  name = if str_eq opt.name "" then default_call_option.name else opt.name;
}

-- An int64 from its 64 bits.
unfoldable pub of_bits : ℕ → ℤ
of_bits n = if ltb n (2 ^ 63) then pos n else negsuc (2 ^ 64 - 1 - n)

-- `opt.RetryDelay * time.Duration(attempt)`, which wraps around.
unfoldable pub times : ℤ → ℕ → ℤ
unfolding of_bits
times (pos d) n = of_bits (d * n % 2 ^ 64)
times (negsuc d) n = of_bits ((2 ^ 64 - suc d * n % 2 ^ 64) % 2 ^ 64)

-- The rounds of `for attempt := 0; attempt <= n`.
abbrev pub rounds : ℤ → ℕ
rounds (pos n) = suc n
rounds (negsuc n) = 0

pub data Reply (A E : Type 0) : Type 0 where
  replies : A → Reply A E
  errs : E → Reply A E

-- What the world answers at each attempt: the called function under its timeout, `ctx.Err()` before
-- a retry, whether the timer of a given length ends before the context, and `ctx.Err()` if not.
pub record World (A E : Type 0) : Type 0 where
  pub fn : ℕ → ℤ → Reply A E
  pub ctx_err : ℕ → Option E
  pub timer_first : ℕ → ℤ → Bool
  pub ctx_err_after : ℕ → E

module _ {A E : Type 0} where
  -- `sleepWithContext`
  unfoldable pub sleep_with_context : World A E → ℕ → ℤ → Bool
  sleep_with_context w attempt delay =
      if leb_ℤ delay (pos 0) then true else w.timer_first attempt delay

  -- The checks that precede a retry.
  unfoldable pub before_attempt : World A E → CallOption → ℕ → Option E
  unfolding sleep_with_context times
  before_attempt w opt attempt = if attempt == 0 then none else elim (w.ctx_err attempt) [
    | some e ↦ some e
    | none ↦
        if sleep_with_context w attempt (times opt.retry_delay attempt)
        then none
        else some (w.ctx_err_after attempt)
  ]

-- How the loop of attempts ends, and how many times it has called the function.
pub data Attempted (A E : Type 0) : Type 0 where
  returned : A → ℕ → Attempted A E
  cancelled : E → ℕ → Attempted A E
  exhausted : Option E → ℕ → Attempted A E

pub data ExecuteError (E : Type 0) : Type 0 where
  circuit_breaker_open : String → ExecuteError E
  context_error : E → ExecuteError E
  all_attempts_failed : String → ℤ → Option E → ExecuteError E

module _ {A E : Type 0} where
  unfoldable pub attempts : World A E → CallOption → ℕ → ℕ → Option E → Attempted A E
  attempts w opt zero attempt last_err = exhausted last_err attempt
  attempts w opt (suc left) attempt last_err = elim (before_attempt w opt attempt) [
    | some e ↦ cancelled e attempt
    | none ↦ elim (w.fn attempt opt.timeout) [
      | replies result ↦ returned result (suc attempt)
      | errs e ↦ attempts w opt left (suc attempt) (some e)
    ]
  ]

  -- The report to the breaker and the result, once the loop has ended.
  unfoldable pub conclude :
      CallOption → CircuitBreaker → ℕ → Attempted A E → CircuitBreaker × Reply A (ExecuteError E)
  conclude opt cb now (returned result n) = (record_success cb, replies result)
  conclude opt cb now (cancelled e n) = (cb, errs (context_error e))
  conclude opt cb now (exhausted last_err n) =
      (record_failure cb now, errs (all_attempts_failed opt.name opt.max_retries last_err))

  -- `Execute`. `others` is what the other callers do to this breaker while the attempts run; `start`
  -- and `end` are the times at which the breaker is asked and told.
  unfoldable pub execute :
      World A E
      → (CircuitBreaker → CircuitBreaker)
      → Dict CircuitBreaker
      → CallOption
      → (start end : ℕ) → Dict CircuitBreaker × Reply A (ExecuteError E)
  unfolding conclude
  execute w others breakers given start end =
      let opt = normalize_call_option given in
      let (known, cb) = get_breaker breakers opt.name in
      let (asked, allowed) = allow cb start in
      let run = attempts w opt (rounds opt.max_retries) 0 none in
      let (told, result) = conclude opt (others asked) end run in
      if allowed
      then (insert opt.name told known, result)
      else (insert opt.name asked known, errs (circuit_breaker_open opt.name))
