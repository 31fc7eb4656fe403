-- ===== src/Resilience/Retry.antt =====
-- What the guarded call `Execute` of utility/resilience/resilience.go returns and reports.
use native.Mathlib.Decide.{ℕ_discrete}
use ops_captain.Base.{
  ℕ, zero, suc, ◌+◌, ◌≤◌, ◌<◌, ◌≡◌, refl, ◌≢◌, subst, ◌⊎◌, inl, inr, true, false, Option, none,
  some, arith, Option-cases, eq_iff,
}
use ops_captain.Base.Int.{pos, ltb_ℤ}
use ops_captain.Base.Dict.{Dict, lookup, insert, lookup-insert_self}
use ops_captain.Resilience.Breaker.{
  CircuitBreaker, allow, record_success, record_failure, get_breaker,
}
use ops_captain.Resilience.Trips.{allow-unchanged}
use ops_captain.Resilience.Call.{
  CallOption, normalize_call_option, rounds, World, Reply, replies, errs, before_attempt, Attempted,
  returned, cancelled, exhausted, attempts, conclude, execute, ExecuteError, circuit_breaker_open,
  context_error, all_attempts_failed,
}

-- The options that a call runs with: positive timeout and delay, no negative number of retries, and
-- a name.
pub normalize_bounds :
    (opt : CallOption)
    → let o = normalize_call_option opt in
      (ltb_ℤ (pos 0) o.timeout ≡ true)
      × (ltb_ℤ o.max_retries (pos 0) ≡ false)
      × (ltb_ℤ (pos 0) o.retry_delay ≡ true)
      × (o.name ≢ "")
unfolding normalize_call_option
normalize_bounds opt = (
  ground arith,
  ground arith,
  ground arith,
  ground (arith, eq_iff opt.name "", eq_iff "unknown" ""),
)

module _ {A E : Type 0} where
  -- The function failed at attempt `j`.
  abbrev pub FailsAt : World A E → CallOption → ℕ → Type 0
  FailsAt w opt j = (e : E) × (w.fn j opt.timeout ≡ errs e)

  -- What the end of the loop says, for attempts from `from` up to `to`.
  abbrev pub Explains : World A E → CallOption → (from to : ℕ) → Attempted A E → Type 0
  Explains w opt from to (returned a n) =
      (k : ℕ) × (n ≡ suc k)
      × (k < to)
      × (w.fn k opt.timeout ≡ replies a)
      × ((j : ℕ) → from ≤ j → j < k → FailsAt w opt j)
  Explains w opt from to (cancelled e n) =
      (0 < n) × (n < to) × ((j : ℕ) → from ≤ j → j < n → FailsAt w opt j)
  Explains w opt from to (exhausted e n) =
      (n ≡ to) × ((j : ℕ) → from ≤ j → j < to → FailsAt w opt j)

  FailsAt-or_later :
      (w : World A E) (opt : CallOption) (from to : ℕ)
      → FailsAt w opt from
      → ((j : ℕ) → suc from ≤ j → j < to → FailsAt w opt j)
      → (j : ℕ) → from ≤ j
      → j < to
      → FailsAt w opt j
  FailsAt-or_later w opt from to here later j h k = elim (ℕ_discrete from j) [
    | yes same ↦ subst (FailsAt w opt) same here
    | no other ↦ later j (omega arith) k
  ]

  extend_back :
      (w : World A E) (opt : CallOption) (from to : ℕ) (r : Attempted A E)
      → from < to
      → FailsAt w opt from
      → Explains w opt (suc from) to r
      → Explains w opt from to r
  extend_back w opt from to (returned a n) lt here (k, e, b, c, d) =
      (k, e, b, c, FailsAt-or_later w opt from k here d)
  extend_back w opt from to (cancelled x n) lt here (p, b, d) =
      (p, b, FailsAt-or_later w opt from n here d)
  extend_back w opt from to (exhausted x n) lt here (e, d) =
      (e, FailsAt-or_later w opt from to here d)

  first-before_attempt :
      (w : World A E) (opt : CallOption) (n : ℕ) (e : E) → before_attempt w opt n ≡ some e → 0 < n
  unfolding before_attempt
  first-before_attempt w opt zero e h = absurd (cc)
  first-before_attempt w opt (suc n) e h = omega arith

  Reply-cases : (r : Reply A E) → ((a : A) × (r ≡ replies a)) ⊎ ((e : E) × (r ≡ errs e))
  Reply-cases (replies a) = inl (a, refl)
  Reply-cases (errs e) = inr (e, refl)

  attempts-Explains :
      (w : World A E) (opt : CallOption) (left from to : ℕ) (last : Option E)
      → from + left ≡ to
      → Explains w opt from to (attempts w opt left from last)
  unfolding attempts
  attempts-Explains w opt zero from to last s = (omega arith, λ j h k. absurd (omega arith))
  attempts-Explains w opt (suc left) from to last s =
      elim (Option-cases (before_attempt w opt from)) [
        | inr (e, stop) ↦
            rw (stop, attempts)
              (first-before_attempt w opt from e stop, omega arith, λ j h k. absurd (omega arith))
        | inl go ↦ elim (Reply-cases (w.fn from opt.timeout)) [
          | inl (a, won) ↦
              rw (go, attempts)
                (rw won (from, refl, omega arith, won, λ j h k. absurd (omega arith)))
          | inr (e, lost) ↦
              rw (go, attempts)
                (rw lost (
                  extend_back w opt from to _ (omega arith) (e, lost)
                    (attempts-Explains w opt left (suc from) to (some e) (omega arith))))
        ]
      ]

  -- What a result of a call that the breaker let through says of the attempts below `to`, and of the
  -- breaker before (`b`) and after (`b'`) the report at the time `end`.
  abbrev pub Verdict :
      World A E
      → CallOption
      → (to end : ℕ) → (b b' : CircuitBreaker) → Reply A (ExecuteError E)
      → Type 0
  Verdict w opt to end b b' (replies a) =
      (b' ≡ record_success b)
      × (k : ℕ) × (k < to)
      × (w.fn k opt.timeout ≡ replies a)
      × ((j : ℕ) → 0 ≤ j → j < k → FailsAt w opt j)
  Verdict w opt to end b b' (errs (circuit_breaker_open name)) = ⊥
  Verdict w opt to end b b' (errs (context_error e)) =
      (b' ≡ b) × (n : ℕ) × (0 < n) × (n < to) × ((j : ℕ) → 0 ≤ j → j < n → FailsAt w opt j)
  Verdict w opt to end b b' (errs (all_attempts_failed name retries last)) =
      (b' ≡ record_failure b end) × ((j : ℕ) → 0 ≤ j → j < to → FailsAt w opt j)

  conclude-Verdict :
      (w : World A E) (opt : CallOption) (to end : ℕ) (b : CircuitBreaker) (r : Attempted A E)
      → Explains w opt 0 to r
      → Verdict w opt to end b (conclude opt b end r).0 (conclude opt b end r).1
  unfolding conclude
  conclude-Verdict w opt to end b (returned a n) (k, e, h, won, lost) = (refl, k, h, won, lost)
  conclude-Verdict w opt to end b (cancelled e n) (h, k, lost) = (refl, n, h, k, lost)
  conclude-Verdict w opt to end b (exhausted e n) (h, lost) = (refl, lost)

  module _ (w : World A E) (others : CircuitBreaker → CircuitBreaker)
      (breakers : Dict CircuitBreaker) (given : CallOption) (start end : ℕ) (cb : CircuitBreaker)
      (known : lookup (normalize_call_option given).name breakers ≡ some cb) where
    found : get_breaker breakers (normalize_call_option given).name ≡ (breakers, cb)
    unfolding get_breaker
    found = rw (known, get_breaker)

    -- With a known breaker that denies the call, the function is not called: whatever it and the
    -- world would answer, the result is the open-breaker error, and the breaker is as it was.
    pub execute-denied :
        (allow cb start).1 ≡ false
        → let name = (normalize_call_option given).name in
          execute w others breakers given start end
          ≡ (insert name cb breakers, errs (circuit_breaker_open name))
    unfolding execute
    execute-denied h = rw found (rw h (rw (allow-unchanged cb start h)))

    -- With a known breaker that lets the call through: a value is the function's at the first attempt
    -- that did not fail, among at most retries + 1, and one success is reported; cancelling a retry
    -- reports nothing; the error is returned if all attempts failed, and one failure is reported.
    pub execute-Verdict :
        (allow cb start).1 ≡ true
        → let opt = normalize_call_option given in
          let (after, result) = execute w others breakers given start end in
          (b' : CircuitBreaker) × (lookup opt.name after ≡ some b')
          × Verdict w opt (rounds opt.max_retries) end (others (allow cb start).0) b' result
    unfolding execute
    execute-Verdict h =
        let opt = normalize_call_option given in
        let run = attempts w opt (rounds opt.max_retries) 0 none in
        let b = others (allow cb start).0 in
        rw found (
          rw h (
            (conclude opt b end run).0,
            lookup-insert_self opt.name _ breakers,
            conclude-Verdict w opt (rounds opt.max_retries) end b run
                (attempts-Explains w opt (rounds opt.max_retries) 0 _ none (omega arith)),
          ))
