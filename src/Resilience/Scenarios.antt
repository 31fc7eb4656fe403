-- ===== src/Resilience/Scenarios.antt =====
-- Runs of the breaker, of the guarded call and of the slots of utility/resilience.
use ops_captain.Base.{
  ℕ, ◌+◌, ◌≤◌, ◌<◌, ◌≡◌, refl, String, true, false, none, some, List, [], ◌∷◌, arith, zero, suc,
}
use ops_captain.Base.Int.{pos, negsuc}
use ops_captain.Base.Dict.{lookup}
use ops_captain.Resilience.Breaker.{
  CircuitBreaker, state_closed, state_open, state_half_open, new_circuit_breaker, observe_state,
  allow, record_success, record_failure, get_breaker, BreakerCall, allows, succeeds, fails,
}
use ops_captain.Resilience.Breaker
use ops_captain.Resilience.Trips.{
  IsWell, run, run-IsWell, get_breaker-IsWell, run-Rests, allow-recovers,
}
use ops_captain.Resilience.Call.{
  CallOption, normalize_call_option, rounds, Reply, replies, errs, World, execute, attempts,
  before_attempt, conclude,
}
use ops_captain.Resilience.Retry.{Verdict, execute-Verdict}
use ops_captain.Resilience.Slots.{
  Wait, sends, SlotOp, acquires, releases, held_on, initial, acquire_llm_slot, release_slot,
  get_or_create_semaphore,
}
use ops_captain.Resilience.Slots
use ops_captain.Resilience.SlotBounds.{run-bounded}

abbrev three : CircuitBreaker
three = record {
  name = "llm";
  state = state_closed;
  failures = 0;
  successes = 0;
  threshold = 3;
  half_open_max = 2;
  reset_timeout = 30;
  last_failure_time = 0;
  gauge = 0;
}

abbrev tripped : CircuitBreaker
tripped = record {
  name = "llm";
  state = state_open;
  failures = 3;
  successes = 0;
  threshold = 3;
  half_open_max = 2;
  reset_timeout = 30;
  last_failure_time = 100;
  gauge = 1;
}

abbrev mixed : List BreakerCall
mixed = fails 1 ∷ succeeds ∷ fails 2 ∷ fails 3 ∷ fails 4 ∷ allows 50 ∷ []

three-IsWell : IsWell three
three-IsWell = ground arith

run-IsWell_example : IsWell (run three mixed)
run-IsWell_example = run-IsWell three mixed three-IsWell

probing_test : (run three mixed).state ≡ state_half_open
unfolding run Breaker.step
probing_test = refl

get_breaker-IsWell_example : IsWell (get_breaker (("db", three) ∷ []) "llm").1
unfolding lookup
get_breaker-IsWell_example = get_breaker-IsWell (("db", three) ∷ []) "llm" refl

run-Rests_example :
    ((run tripped (allows 110 ∷ fails 115 ∷ succeeds ∷ [])).state ≡ state_open)
    × ((allow (run tripped (allows 110 ∷ fails 115 ∷ succeeds ∷ [])) 125).1 ≡ false)
run-Rests_example =
    run-Rests 130 30 tripped (allows 110 ∷ fails 115 ∷ succeeds ∷ []) 125 (ground arith)
      (ground arith) (omega arith)

allow-recovers_example :
    let probe = (allow tripped 140).0 in
    ((allow tripped 140).1 ≡ true)
    × ((record_success probe).state ≡ state_half_open)
    × ((record_success (record_success probe)).state ≡ state_closed)
    × ((record_success (record_success probe)).failures ≡ 0)
    × ((record_failure probe 150).state ≡ state_open)
    × ((record_failure probe 150).last_failure_time ≡ 150)
allow-recovers_example = allow-recovers tripped 140 150 refl (omega arith) refl

abbrev odd_options : CallOption
odd_options = record { timeout = pos 0; max_retries = negsuc 0; retry_delay = pos 5; name = "" }

abbrev llm : CallOption
llm = record { timeout = pos 9; max_retries = pos 2; retry_delay = pos 5; name = "llm" }

-- The function fails twice and then answers 42.
abbrev answer : ℕ → Reply ℕ String
answer zero = errs "timeout"
answer (suc zero) = errs "reset"
answer (suc (suc n)) = replies 42

abbrev world : World ℕ String
world = record {
  fn = λ n t. answer n;
  ctx_err = λ n. none;
  timer_first = λ n d. true;
  ctx_err_after = λ n. "cancelled";
}

abbrev others : CircuitBreaker → CircuitBreaker
others cb = cb

llm_known : lookup (normalize_call_option llm).name (("llm", tripped) ∷ []) ≡ some tripped
unfolding normalize_call_option lookup
llm_known = refl

tripped_allows :
    (n : ℕ) → (tripped.last_failure_time + tripped.reset_timeout < n) → (allow tripped n).1 ≡ true
unfolding allow
tripped_allows n h = ground arith

tripped_denies : (allow tripped 120).1 ≡ false
unfolding allow
tripped_denies = refl

execute-Verdict_example :
    let (after, result) = execute world others (("llm", tripped) ∷ []) llm 140 150 in
    (b' : CircuitBreaker) × (lookup "llm" after ≡ some b')
    × Verdict world llm (rounds (pos 2)) 150 (others (allow tripped 140).0) b' result
unfolding normalize_call_option
execute-Verdict_example =
    execute-Verdict world others (("llm", tripped) ∷ []) llm 140 150 tripped llm_known
      (tripped_allows 140 (omega arith))

execute_test : (execute world others (("llm", tripped) ∷ []) llm 140 150).1 ≡ replies 42
unfolding execute allow get_breaker lookup normalize_call_option attempts before_attempt conclude
execute_test = refl

abbrev ops : List SlotOp
ops = acquires (pos 2) sends ∷ acquires (pos 2) sends ∷ releases 0 ∷ acquires (pos 3) sends ∷ []

second_current : (Slots.run initial ops).sem.current ≡ some 1
unfolding Slots.run Slots.step acquire_llm_slot release_slot get_or_create_semaphore
second_current = refl

run-bounded_example :
    let s = Slots.run initial ops in
    (held_on 1 s.held ≤ s.sem.size) × ((d : ℕ) → held_on d s.held ≤ s.sem.cap d)
run-bounded_example = run-bounded ops 1 second_current
