-- ===== src/Ledger/Store.antt =====
-- The in-memory ledger of internal/ai/runtime/ledger.go. Each method holds the mutex throughout. A
-- stored value is a copy of the caller's.
use ops_captain.Base.{
  ℕ, suc, ◌-◌, String, Option, none, some, List, [], ◌∷◌, ◌++◌, ltb, leb, str_eq, if◌then◌else◌,
  length, drop, keep,
}
use ops_captain.Base.Int.{ℤ, pos, leb_ℤ, pos_part}
use ops_captain.Base.Dict.{Dict, lookup, insert, erase, has, values}
use ops_captain.Base.Sort.{sort}
use ops_captain.Protocol.{TaskEnvelope, TaskResult, TaskEvent, TaskStatus}

-- The entries that the ledger holds of one kind, and their keys in order of first entry.
pub record Kept {ℓ} (V : Type ℓ) : Type ℓ where
  pub items : Dict V
  pub order : List String

module _ {ℓ} {V : Type ℓ} where
  -- The loop `for len(order) > max`: the oldest key goes, and its entry.
  unfoldable pub prune : ℕ → List String → Dict V → Kept V
  prune limit [] items = record { items = items; order = [] }
  prune limit (oldest ∷ rest) items =
      let pruned = prune limit rest (erase oldest items) in
      if ltb limit (suc (length rest))
      then pruned
      else record { items = items; order = oldest ∷ rest }

  -- An entry: the key joins the order if it is new, and the oldest entries over the limit go.
  unfoldable pub enter : ℕ → String → V → Kept V → Kept V
  unfolding prune
  enter limit key v s =
      let order = if has key s.items then s.order else s.order ++ key ∷ [] in
      prune limit order (insert key v s.items)

  -- `pruneEventsLocked`: only the newest `limit` events stay.
  unfoldable pub prune_events : ℕ → List V → List V
  prune_events limit events =
      if leb (length events) limit then events else drop (length events - limit) events

module _ (Any F : Type 0) where
  pub record InMemoryLedger : Type 0 where
    pub tasks : Kept (TaskEnvelope Any F)
    pub results : Kept (TaskResult Any F)
    pub events : List (TaskEvent Any)
    pub max_tasks : ℕ
    pub max_results : ℕ
    pub max_events : ℕ

-- A limit that is not positive is replaced by a default.
abbrev limit_or : ℕ → ℤ → ℕ
limit_or default given = if leb_ℤ given (pos 0) then default else pos_part given

module _ {Any F : Type 0} where
  unfoldable pub new_in_memory_ledger_with_limits :
      (max_tasks max_results max_events : ℤ) → InMemoryLedger Any F
  new_in_memory_ledger_with_limits max_tasks max_results max_events = record {
    tasks = record { items = []; order = [] };
    results = record { items = []; order = [] };
    events = [];
    max_tasks = limit_or 20000 max_tasks;
    max_results = limit_or 20000 max_results;
    max_events = limit_or 50000 max_events;
  }

  unfoldable pub create_task : InMemoryLedger Any F → TaskEnvelope Any F → InMemoryLedger Any F
  unfolding enter
  create_task l task = record l { tasks = enter l.max_tasks task.task_id task l.tasks }

  unfoldable pub update_task_status :
      InMemoryLedger Any F → String → TaskStatus → ℕ → InMemoryLedger Any F
  update_task_status l task_id status now = elim (lookup task_id l.tasks.items) [
    | none ↦ l
    | some task ↦ record l {
      tasks = record {
        items = insert task_id (record task { status = status; updated_at = now }) l.tasks.items;
        order = l.tasks.order;
      };
    }
  ]

  unfoldable pub append_result :
      InMemoryLedger Any F → String → TaskResult Any F → InMemoryLedger Any F
  unfolding enter
  append_result l task_id result = record l {
    results = enter l.max_results task_id result l.results;
  }

  unfoldable pub append_event : InMemoryLedger Any F → TaskEvent Any → InMemoryLedger Any F
  unfolding prune_events
  append_event l event = record l { events = prune_events l.max_events (l.events ++ event ∷ []) }

  unfoldable pub events_by_trace : InMemoryLedger Any F → String → List (TaskEvent Any)
  events_by_trace l trace_id =
      sort (λ a b. ltb a.created_at b.created_at) (keep (λ e. str_eq e.trace_id trace_id) l.events)

  unfoldable pub list_children : InMemoryLedger Any F → String → List (TaskEnvelope Any F)
  list_children l parent_task_id =
      sort (λ a b. ltb a.created_at b.created_at)
        (keep (λ t. str_eq t.parent_task_id parent_task_id) (values l.tasks.items))

  unfoldable pub result_by_task_id : InMemoryLedger Any F → String → Option (TaskResult Any F)
  result_by_task_id l task_id = lookup task_id l.results.items

  first_of_trace : String → List (TaskEnvelope Any F) → Option (TaskEnvelope Any F)
  first_of_trace trace_id [] = none
  first_of_trace trace_id (t ∷ ts) =
      if str_eq t.trace_id trace_id then some t else first_of_trace trace_id ts

  -- The task of a trace that the map's order shows first.
  unfoldable pub task_by_trace_id : InMemoryLedger Any F → String → Option (TaskEnvelope Any F)
  unfolding first_of_trace
  task_by_trace_id l trace_id = first_of_trace trace_id (values l.tasks.items)
