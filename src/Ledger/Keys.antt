-- ===== src/Ledger/Keys.antt =====
-- The keys of internal/ai/runtime/redis_ledger.go: no two kinds of key share a text.
use Prim.Native.String.{◌++◌ as join, count}
use text.Mathlib.TextLemmas.{append_assoc}
use ops_captain.Base.{
  ◌≡◌, refl, sym, ◌∙◌, String, false, arith, str_eq, Bool-cases, inl, inr, eq_iff, prefixed,
  heads_apart,
}
use ops_captain.Ledger.Remote.{
  RedisLedger, task_key, trace_index_key, result_key, children_key, events_key, task_index_key,
  result_index_key,
}

-- Keys whose kinds begin differently differ.
kinds_apart :
    (prefix c d x y a b : String)
    → count c ≡ count d
    → str_eq c d ≡ false
    → str_eq (join prefix (join (join c x) a)) (join prefix (join (join d y) b)) ≡ false
kinds_apart prefix c d x y a b n h =
    elim (Bool-cases (str_eq (join (join c x) a) (join (join d y) b))) [
      | inr e ↦ prefixed prefix (join (join c x) a) (join (join d y) b) ∙ e
      | inl e ↦ absurd (
          heads_apart c d (join x a) (join y b) n h
            (sym (append_assoc c x a) ∙ (eq_iff _ _).0 e ∙ append_assoc d y b))
    ]

-- The test of two keys does not depend on their order.
pub swapped : (a b : String) → str_eq a b ≡ false → str_eq b a ≡ false
swapped a b h = ground (arith, eq_iff a b, eq_iff b a, h)

module _ (l : RedisLedger) where
  pub task-trace : (a b : String) → str_eq (task_key l a) (trace_index_key l b) ≡ false
  unfolding task_key trace_index_key
  task-trace a b = kinds_apart l.prefix "ta" "tr" "sk:" "ace:" a b refl refl

  pub task-result : (a b : String) → str_eq (task_key l a) (result_key l b) ≡ false
  unfolding task_key result_key
  task-result a b = kinds_apart l.prefix "t" "r" "ask:" "esult:" a b refl refl

  pub task-children : (a b : String) → str_eq (task_key l a) (children_key l b) ≡ false
  unfolding task_key children_key
  task-children a b = kinds_apart l.prefix "t" "c" "ask:" "hildren:" a b refl refl

  pub task-events : (a b : String) → str_eq (task_key l a) (events_key l b) ≡ false
  unfolding task_key events_key
  task-events a b = kinds_apart l.prefix "t" "e" "ask:" "vents:" a b refl refl

  pub task-tasks : (a : String) → str_eq (task_key l a) (task_index_key l) ≡ false
  unfolding task_key task_index_key
  task-tasks a = kinds_apart l.prefix "task:" "tasks" "" "" a ":index" refl refl

  pub task-results : (a : String) → str_eq (task_key l a) (result_index_key l) ≡ false
  unfolding task_key result_index_key
  task-results a = kinds_apart l.prefix "t" "r" "ask:" "" a "esults:index" refl refl

  pub trace-task : (a b : String) → str_eq (trace_index_key l a) (task_key l b) ≡ false
  unfolding trace_index_key task_key
  trace-task a b = kinds_apart l.prefix "tr" "ta" "ace:" "sk:" a b refl refl

  pub trace-result : (a b : String) → str_eq (trace_index_key l a) (result_key l b) ≡ false
  unfolding trace_index_key result_key
  trace-result a b = kinds_apart l.prefix "t" "r" "race:" "esult:" a b refl refl

  pub trace-children : (a b : String) → str_eq (trace_index_key l a) (children_key l b) ≡ false
  unfolding trace_index_key children_key
  trace-children a b = kinds_apart l.prefix "t" "c" "race:" "hildren:" a b refl refl

  pub trace-events : (a b : String) → str_eq (trace_index_key l a) (events_key l b) ≡ false
  unfolding trace_index_key events_key
  trace-events a b = kinds_apart l.prefix "t" "e" "race:" "vents:" a b refl refl

  pub trace-tasks : (a : String) → str_eq (trace_index_key l a) (task_index_key l) ≡ false
  unfolding trace_index_key task_index_key
  trace-tasks a = kinds_apart l.prefix "tr" "ta" "ace:" "" a "sks:index" refl refl

  pub trace-results : (a : String) → str_eq (trace_index_key l a) (result_index_key l) ≡ false
  unfolding trace_index_key result_index_key
  trace-results a = kinds_apart l.prefix "t" "r" "race:" "" a "esults:index" refl refl

  pub result-task : (a b : String) → str_eq (result_key l a) (task_key l b) ≡ false
  unfolding result_key task_key
  result-task a b = kinds_apart l.prefix "r" "t" "esult:" "ask:" a b refl refl

  pub result-trace : (a b : String) → str_eq (result_key l a) (trace_index_key l b) ≡ false
  unfolding result_key trace_index_key
  result-trace a b = kinds_apart l.prefix "r" "t" "esult:" "race:" a b refl refl

  pub result-children : (a b : String) → str_eq (result_key l a) (children_key l b) ≡ false
  unfolding result_key children_key
  result-children a b = kinds_apart l.prefix "r" "c" "esult:" "hildren:" a b refl refl

  pub result-events : (a b : String) → str_eq (result_key l a) (events_key l b) ≡ false
  unfolding result_key events_key
  result-events a b = kinds_apart l.prefix "r" "e" "esult:" "vents:" a b refl refl

  pub result-tasks : (a : String) → str_eq (result_key l a) (task_index_key l) ≡ false
  unfolding result_key task_index_key
  result-tasks a = kinds_apart l.prefix "r" "t" "esult:" "" a "asks:index" refl refl

  pub result-results : (a : String) → str_eq (result_key l a) (result_index_key l) ≡ false
  unfolding result_key result_index_key
  result-results a = kinds_apart l.prefix "result:" "results" "" "" a ":index" refl refl

  pub children-task : (a b : String) → str_eq (children_key l a) (task_key l b) ≡ false
  unfolding children_key task_key
  children-task a b = kinds_apart l.prefix "c" "t" "hildren:" "ask:" a b refl refl

  pub children-trace : (a b : String) → str_eq (children_key l a) (trace_index_key l b) ≡ false
  unfolding children_key trace_index_key
  children-trace a b = kinds_apart l.prefix "c" "t" "hildren:" "race:" a b refl refl

  pub children-result : (a b : String) → str_eq (children_key l a) (result_key l b) ≡ false
  unfolding children_key result_key
  children-result a b = kinds_apart l.prefix "c" "r" "hildren:" "esult:" a b refl refl

  pub children-events : (a b : String) → str_eq (children_key l a) (events_key l b) ≡ false
  unfolding children_key events_key
  children-events a b = kinds_apart l.prefix "c" "e" "hildren:" "vents:" a b refl refl

  pub children-tasks : (a : String) → str_eq (children_key l a) (task_index_key l) ≡ false
  unfolding children_key task_index_key
  children-tasks a = kinds_apart l.prefix "c" "t" "hildren:" "" a "asks:index" refl refl

  pub children-results : (a : String) → str_eq (children_key l a) (result_index_key l) ≡ false
  unfolding children_key result_index_key
  children-results a = kinds_apart l.prefix "c" "r" "hildren:" "" a "esults:index" refl refl

  pub task-task : (a b : String) → str_eq (task_key l a) (task_key l b) ≡ str_eq a b
  unfolding task_key
  task-task a b = prefixed l.prefix (join "task:" a) (join "task:" b) ∙ prefixed "task:" a b

  pub trace-trace : (a b : String) → str_eq (trace_index_key l a) (trace_index_key l b) ≡ str_eq a b
  unfolding trace_index_key
  trace-trace a b = prefixed l.prefix (join "trace:" a) (join "trace:" b) ∙ prefixed "trace:" a b

  pub result-result : (a b : String) → str_eq (result_key l a) (result_key l b) ≡ str_eq a b
  unfolding result_key
  result-result a b =
      prefixed l.prefix (join "result:" a) (join "result:" b) ∙ prefixed "result:" a b

  pub children-children : (a b : String) → str_eq (children_key l a) (children_key l b) ≡ str_eq a b
  unfolding children_key
  children-children a b =
      prefixed l.prefix (join "children:" a) (join "children:" b) ∙ prefixed "children:" a b

  pub events-tasks : (a : String) → str_eq (events_key l a) (task_index_key l) ≡ false
  unfolding events_key task_index_key
  events-tasks a = kinds_apart l.prefix "e" "t" "vents:" "" a "asks:index" refl refl

  pub events-results : (a : String) → str_eq (events_key l a) (result_index_key l) ≡ false
  unfolding events_key result_index_key
  events-results a = kinds_apart l.prefix "e" "r" "vents:" "" a "esults:index" refl refl

  pub events-events : (a b : String) → str_eq (events_key l a) (events_key l b) ≡ str_eq a b
  unfolding events_key
  events-events a b =
      prefixed l.prefix (join "events:" a) (join "events:" b) ∙ prefixed "events:" a b
