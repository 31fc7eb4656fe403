-- ===== src/Ledger/Answers.antt =====
-- What the ledger of internal/ai/runtime/ledger.go answers about a trace and about a task's children.
use mathlib.Core.List.{Perm}
use ops_captain.Base.{ℕ, String, List, arith, ltb, str_eq, keep}
use ops_captain.Base.Dict.{values}
use ops_captain.Base.Sort.{sort, IsSorted, sort-perm, sort-IsSorted}
use ops_captain.Protocol.{TaskEnvelope, TaskEvent}
use ops_captain.Ledger.Store.{InMemoryLedger, events_by_trace, list_children}

-- Sorting by a number gives a sorted list of the same elements.
by_number {ℓ} :
    {A : Type ℓ} (f : A → ℕ) (xs : List A)
    → Perm (sort (λ a b. ltb (f a) (f b)) xs) xs
      × IsSorted (λ a b. ltb (f a) (f b)) (sort (λ a b. ltb (f a) (f b)) xs)
by_number f xs = (
  sort-perm (λ a b. ltb (f a) (f b)) xs,
  sort-IsSorted (λ a b. ltb (f a) (f b)) (λ a b h. ground (arith, h))
      (λ a b c h k. ground (arith, h, k)) xs,
)

module _ {Any F : Type 0} where
  -- The events of a trace are those that the ledger holds of it, each as often as it is held, in the
  -- order of their creation; and the children of a task are those that it holds, in that order.
  pub events_by_trace-IsSorted :
      (l : InMemoryLedger Any F) (id : String)
      → Perm (events_by_trace l id) (keep (λ e. str_eq e.trace_id id) l.events)
        × IsSorted (λ (a b : TaskEvent Any). ltb a.created_at b.created_at) (events_by_trace l id)
        × Perm (list_children l id) (keep (λ t. str_eq t.parent_task_id id) (values l.tasks.items))
        × IsSorted
            (λ (a b : TaskEnvelope Any F). ltb a.created_at b.created_at)
            (list_children l id)
  unfolding events_by_trace list_children
  events_by_trace-IsSorted l id =
      let (p, s) =
        by_number (λ (e : TaskEvent Any). e.created_at)
          (keep (λ e. str_eq e.trace_id id) l.events) in
      let (q, t) =
        by_number (λ (e : TaskEnvelope Any F). e.created_at)
          (keep (λ t. str_eq t.parent_task_id id) (values l.tasks.items)) in
      (p, s, q, t)
