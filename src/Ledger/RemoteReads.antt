-- ===== src/Ledger/RemoteReads.antt =====
-- What the ledger of internal/ai/runtime/redis_ledger.go reads.
use ops_captain.Base.{◌⊎◌, inl, inr, String, Option, none, some, List, [], ◌∷◌, ltb, if◌then◌else◌}
use ops_captain.Base.Sort.{sort}
use ops_captain.Protocol.{TaskEnvelope, TaskResult, TaskEvent}
use ops_captain.Ledger.Remote.{
  Reply, failed_reply, nil_reply, text_reply, Json, Remote, RedisLedger, LedgerError,
  not_configured, undecodable, unread, task_key, trace_index_key, result_key, children_key,
  events_key, is_blank,
}

-- A reply decoded: none for nil.
unfoldable pub decode_reply : {A : Type 0} → Json A → Reply → LedgerError ⊎ Option A
decode_reply j failed_reply = inl unread
decode_reply j nil_reply = inr none
decode_reply j (text_reply text) = elim (j.unmarshal text) [
  | none ↦ inl undecodable
  | some a ↦ inr (some a)
]

-- The texts that decode, in order.
unfoldable pub decoded : {A : Type 0} → Json A → List String → List A
decoded j [] = []
decoded j (raw ∷ raws) = elim (j.unmarshal raw) [
  | none ↦ decoded j raws
  | some a ↦ a ∷ decoded j raws
]

module _ {S Any F : Type 0} (o : Remote S Any F) (l : RedisLedger) where
  unfoldable pub get_task : S → String → LedgerError ⊎ Option (TaskEnvelope Any F)
  unfolding decode_reply
  get_task s task_id = decode_reply o.tasks (o.redis.get s (task_key l task_id))

  unfoldable pub events_by_trace : S → String → LedgerError ⊎ List (TaskEvent Any)
  unfolding decoded
  events_by_trace s trace_id =
      if l.configured
      then if is_blank o trace_id then inr [] else elim (o.redis.zrange s (events_key l trace_id)) [
        | none ↦ inl unread
        | some raws ↦ inr (sort (λ a b. ltb a.created_at b.created_at) (decoded o.events raws))
      ]
      else inl not_configured

  -- The children whose tasks are read.
  unfoldable pub found_tasks : S → List String → List (TaskEnvelope Any F)
  unfolding get_task
  found_tasks s [] = []
  found_tasks s (id ∷ ids) = elim (get_task s id) [
    | inl e ↦ found_tasks s ids
    | inr none ↦ found_tasks s ids
    | inr (some task) ↦ task ∷ found_tasks s ids
  ]

  unfoldable pub list_children : S → String → LedgerError ⊎ List (TaskEnvelope Any F)
  unfolding found_tasks
  list_children s parent_task_id =
      if l.configured
      then if is_blank o parent_task_id
        then inr []
        else elim (o.redis.lrange s (children_key l parent_task_id)) [
          | none ↦ inl unread
          | some ids ↦ inr (sort (λ a b. ltb a.created_at b.created_at) (found_tasks s ids))
        ]
      else inl not_configured

  unfoldable pub result_by_task_id : S → String → LedgerError ⊎ Option (TaskResult Any F)
  unfolding decode_reply
  result_by_task_id s task_id =
      if l.configured
      then if is_blank o task_id
        then inr none
        else decode_reply o.results (o.redis.get s (result_key l task_id))
      else inl not_configured

  unfoldable pub task_by_trace_id : S → String → LedgerError ⊎ Option (TaskEnvelope Any F)
  unfolding get_task
  task_by_trace_id s trace_id =
      if is_blank o trace_id
      then inr none
      else if l.configured
      then elim (o.redis.get s (trace_index_key l trace_id)) [
        | failed_reply ↦ inl unread
        | nil_reply ↦ inr none
        | text_reply id ↦ get_task s id
      ]
      else inl not_configured
