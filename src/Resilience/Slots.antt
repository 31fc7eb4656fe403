-- ===== src/Resilience/Slots.antt =====
-- The slots for model calls of utility/resilience/semaphore.go: buffered channels as counters on a
-- heap, since a change of the configured size makes a new channel and leaves the old one to the
-- calls that still hold its slots.
use ops_captain.Base.{
  ℕ, zero, suc, ◌+◌, ◌-◌, Option, none, some, List, [], ◌∷◌, ltb, ◌==◌, if◌then◌else◌, get_elem?,
}
use ops_captain.Base.Int.{ℤ, pos, leb_ℤ, pos_part}

-- Channel number `i` has room for `cap i` and holds `used i`; `made` channels were made.
pub record Semaphore : Type 0 where
  pub made : ℕ
  pub cap : ℕ → ℕ
  pub used : ℕ → ℕ
  pub current : Option ℕ
  pub size : ℕ

abbrev pub update : (ℕ → ℕ) → ℕ → ℕ → ℕ → ℕ
update f i v j = if j == i then v else f j

abbrev pub default_llm_max_concurrent_calls : ℤ
default_llm_max_concurrent_calls = pos 10

-- The configured number of calls; `none` if it cannot be read.
unfoldable pub configured_max_concurrent_calls : Option ℤ → ℤ
configured_max_concurrent_calls none = default_llm_max_concurrent_calls
configured_max_concurrent_calls (some v) =
    if leb_ℤ v (pos 0) then default_llm_max_concurrent_calls else v

new_semaphore : Semaphore → ℕ → Semaphore × ℕ
new_semaphore s n = (
  record s {
    made = suc s.made;
    cap = update s.cap s.made n;
    used = update s.used s.made 0;
    current = some s.made;
    size = n;
  },
  s.made,
)

unfoldable pub get_or_create_semaphore : Semaphore → ℕ → Semaphore × ℕ
unfolding new_semaphore
get_or_create_semaphore s n = elim s.current [
  | some c ↦ if s.size == n then (s, c) else new_semaphore s n
  | none ↦ new_semaphore s n
]

-- Which branch of the `select` is taken: the send, if the channel has room, or the end of the wait.
pub data Wait : Type 0 where
  sends deadline_exceeded cancelled : Wait

pub data Slot : Type 0 where
  unlimited : Slot
  slot : ℕ → Slot
  blocked concurrency_limited context_cancelled : Slot

abbrev select_slot : Wait → Semaphore → ℕ → Semaphore × Slot
select_slot sends s c =
    if ltb (s.used c) (s.cap c)
    then (record s { used = update s.used c (s.used c + 1) }, slot c)
    else (s, blocked)
select_slot deadline_exceeded s c = (s, concurrency_limited)
select_slot cancelled s c = (s, context_cancelled)

-- `AcquireLLMSlot`; a call that is `blocked` waits on.
unfoldable pub acquire_llm_slot : Semaphore → ℤ → Wait → Semaphore × Slot
unfolding get_or_create_semaphore
acquire_llm_slot s max_calls wait =
    if leb_ℤ max_calls (pos 0)
    then (s, unlimited)
    else let (t, c) = get_or_create_semaphore s (pos_part max_calls) in select_slot wait t c

-- The function that `AcquireLLMSlot` returns with a slot of channel `c`.
unfoldable pub release_slot : Semaphore → ℕ → Semaphore
release_slot s c =
    if ltb 0 (s.used c) then record s { used = update s.used c (s.used c - 1) } else s

-- The program with its outstanding release functions, by channel.
pub record Calls : Type 0 where
  pub sem : Semaphore
  pub held : List ℕ

pub data SlotOp : Type 0 where
  acquires : ℤ → Wait → SlotOp
  releases : ℕ → SlotOp

abbrev pub remove_at : List ℕ → ℕ → List ℕ
remove_at [] i = []
remove_at (x ∷ xs) zero = xs
remove_at (x ∷ xs) (suc i) = x ∷ remove_at xs i

abbrev hold : Slot → List ℕ → List ℕ
hold (slot c) held = c ∷ held
hold _ held = held

-- Each release function is called once: it is no longer outstanding.
unfoldable pub step : Calls → SlotOp → Calls
unfolding acquire_llm_slot release_slot
step s (acquires max_calls wait) =
    let (t, got) = acquire_llm_slot s.sem max_calls wait in
    record { sem = t; held = hold got s.held }
step s (releases i) = elim (get_elem? s.held i) [
  | none ↦ s
  | some c ↦ record { sem = release_slot s.sem c; held = remove_at s.held i }
]

unfoldable pub run : Calls → List SlotOp → Calls
run s [] = s
run s (o ∷ os) = run (step s o) os

-- How many outstanding slots belong to channel `c`.
unfoldable pub held_on : ℕ → List ℕ → ℕ
held_on c [] = 0
held_on c (x ∷ xs) = if x == c then suc (held_on c xs) else held_on c xs

abbrev pub initial : Calls
initial = record {
  sem = record { made = 0; cap = λ i. 0; used = λ i. 0; current = none; size = 0 };
  held = [];
}
