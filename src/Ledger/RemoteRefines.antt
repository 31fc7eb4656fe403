-- ===== src/Ledger/RemoteRefines.antt =====
-- The ledger of internal/ai/runtime/redis_ledger.go on a server that answers keeps the plain records.
use ops_captain.Base.{
  ℕ, ◌≡◌, ◌∙◌, ◌↔◌, ◌⊎◌, In, inl, inr, String, true, false, Option, none, some, List, [], ◌∷◌, ◌++◌,
  arith, str_eq, if◌then◌else◌, Bool-cases, eq_iff,
}
use ops_captain.Protocol.{TaskEnvelope}
use ops_captain.Ledger.Remote.{
  Reply, nil_reply, text_reply, Remote, RedisCommands, RedisLedger, is_blank, task_key,
  trace_index_key, result_key, children_key, events_key, task_index_key, index_trace, index_parent,
  index_task, create_task,
}
use ops_captain.Ledger.Records.{Records, creates, IsCoded, EventsIn, record_call}
use ops_captain.Ledger.RemoteReads.{decode_reply, get_task}
use ops_captain.Ledger.Keys as Keys

-- What Redis documents, for a server that answers and keys that have not expired: a write has its
-- effect on its own key only, and EXPIRE on no value.
pub record IsServer {S : Type 0} (c : RedisCommands S) : Type 0 where
  pub set_ok : (s : S) (k v : String) (n : ℕ) → (c.set s k v n).1 ≡ true
  pub set_get :
      (s : S) (k v j : String) (n : ℕ)
      → c.get (c.set s k v n).0 j ≡ (if str_eq k j then text_reply v else c.get s j)
  pub set_lists :
      (s : S) (k v j : String) (n : ℕ)
      → str_eq k j ≡ false
      → c.lrange (c.set s k v n).0 j ≡ c.lrange s j
  pub zadd_get :
      (s : S) (k v j : String) (n : ℕ) → str_eq k j ≡ false → c.get (c.zadd s k n v).0 j ≡ c.get s j
  pub zadd_lists :
      (s : S) (k v j : String) (n : ℕ)
      → str_eq k j ≡ false
      → c.lrange (c.zadd s k n v).0 j ≡ c.lrange s j
  pub trim_get :
      (s : S) (k j : String) (n : ℕ) → str_eq k j ≡ false → c.get (c.trim s k n).0 j ≡ c.get s j
  pub trim_lists :
      (s : S) (k j : String) (n : ℕ)
      → str_eq k j ≡ false
      → c.lrange (c.trim s k n).0 j ≡ c.lrange s j
  pub rpush_get :
      (s : S) (k v j : String) → str_eq k j ≡ false → c.get (c.rpush s k v).0 j ≡ c.get s j
  pub rpush_lists :
      (s : S) (k v j : String)
      → c.lrange (c.rpush s k v).0 j ≡ elim (c.lrange s j) [
        | none ↦ none
        | some ids ↦ some (if str_eq k j then ids ++ v ∷ [] else ids)
      ]
  pub set_members :
      (s : S) (k v j : String) (n : ℕ)
      → str_eq k j ≡ false
      → c.zrange (c.set s k v n).0 j ≡ c.zrange s j
  pub zadd_members :
      (s : S) (k v j : String) (n : ℕ)
      → str_eq k j ≡ false
      → c.zrange (c.zadd s k n v).0 j ≡ c.zrange s j
  pub zadd_adds :
      (s : S) (k v : String) (n : ℕ) (texts : List String)
      → c.zrange s k ≡ some texts
      → (after : List String) × (c.zrange (c.zadd s k n v).0 k ≡ some after)
        × ((x : String) → In x after ↔ ((v ≡ x) ⊎ In x texts))
  pub trim_members :
      (s : S) (k j : String) (n : ℕ)
      → str_eq k j ≡ false
      → c.zrange (c.trim s k n).0 j ≡ c.zrange s j
  pub rpush_members :
      (s : S) (k v j : String) → str_eq k j ≡ false → c.zrange (c.rpush s k v).0 j ≡ c.zrange s j
  pub expire_members : (s : S) (k j : String) (n : ℕ) → c.zrange (c.expire s k n).0 j ≡ c.zrange s j
  pub expire_get : (s : S) (k j : String) (n : ℕ) → c.get (c.expire s k n).0 j ≡ c.get s j
  pub expire_lists : (s : S) (k j : String) (n : ℕ) → c.lrange (c.expire s k n).0 j ≡ c.lrange s j

abbrev pub reply_of : Option String → Reply
reply_of none = nil_reply
reply_of (some text) = text_reply text

module _ {S Any F : Type 0} (o : Remote S Any F) (l : RedisLedger) where
  -- The server holds these records.
  pub record IsHeld (s : S) (a : Records Any F) : Type 0 where
    pub tasks_held : (id : String) → get_task o l s id ≡ inr (a.tasks id)
    pub results_held :
        (id : String)
        → decode_reply o.results (o.redis.get s (result_key l id)) ≡ inr (a.results id)
    pub traces_held :
        (id : String) → o.redis.get s (trace_index_key l id) ≡ reply_of (a.of_trace id)
    pub children_held : (id : String) → o.redis.lrange s (children_key l id) ≡ some (a.children id)
    pub events_held :
        (id : String) → EventsIn o.events (o.redis.zrange s (events_key l id)) (a.events id)

  index_trace-get :
      (s : S) (task : TaskEnvelope Any F) (j : String)
      → IsServer o.redis
      → o.redis.get (index_trace o l s task) j ≡ (
          if is_blank o task.trace_id
          then o.redis.get s j
          else if str_eq (trace_index_key l task.trace_id) j
          then text_reply task.task_id
          else o.redis.get s j)
  unfolding index_trace
  index_trace-get s task j c =
      ground (arith, c.set_get s (trace_index_key l task.trace_id) task.task_id j l.retention)

  index_task-get :
      (s : S) (task : TaskEnvelope Any F) (j : String)
      → IsServer o.redis
      → str_eq (task_index_key l) j ≡ false
      → str_eq (children_key l task.parent_task_id) j ≡ false
      → o.redis.get (index_task o l s task) j ≡ o.redis.get (index_trace o l s task) j
  unfolding index_task index_parent
  index_task-get s task j c index parent =
      let traced = index_trace o l s task in
      let scored = (o.redis.zadd traced (task_index_key l) task.created_at task.task_id).0 in
      let key = children_key l task.parent_task_id in
      ground (
        arith,
        index,
        parent,
        c.trim_get (index_parent o l scored task) (task_index_key l) j l.max_tasks index,
        c.expire_get (o.redis.rpush scored key task.task_id).0 key j l.retention,
        c.rpush_get scored key task.task_id j parent,
        c.zadd_get traced (task_index_key l) task.task_id j task.created_at index,
      )

  index_task-lists :
      (s : S) (task : TaskEnvelope Any F) (id : String) (ids : List String)
      → IsServer o.redis
      → o.redis.lrange s (children_key l id) ≡ some ids
      → o.redis.lrange (index_task o l s task) (children_key l id)
        ≡ some (
            if is_blank o task.parent_task_id
            then ids
            else if str_eq task.parent_task_id id
            then ids ++ task.task_id ∷ []
            else ids)
  unfolding index_task index_parent index_trace
  index_task-lists s task id ids c h =
      let traced = index_trace o l s task in
      let scored = (o.redis.zadd traced (task_index_key l) task.created_at task.task_id).0 in
      let key = children_key l task.parent_task_id in
      let j = children_key l id in
      ground (
        arith,
        h,
        c.trim_lists (index_parent o l scored task) (task_index_key l) j l.max_tasks
            (Keys.swapped _ _ (Keys.children-tasks l id)),
        c.expire_lists (o.redis.rpush scored key task.task_id).0 key j l.retention,
        c.rpush_lists scored key task.task_id j,
        Keys.children-children l task.parent_task_id id,
        c.zadd_lists traced (task_index_key l) task.task_id j task.created_at
            (Keys.swapped _ _ (Keys.children-tasks l id)),
        c.set_lists s (trace_index_key l task.trace_id) task.task_id j l.retention
            (Keys.trace-children l task.trace_id id),
      )

  index_task-zrange :
      (s : S) (task : TaskEnvelope Any F) (id : String)
      → IsServer o.redis
      → o.redis.zrange (index_task o l s task) (events_key l id)
        ≡ o.redis.zrange s (events_key l id)
  unfolding index_task index_parent index_trace
  index_task-zrange s task id c =
      let traced = index_trace o l s task in
      let scored = (o.redis.zadd traced (task_index_key l) task.created_at task.task_id).0 in
      let key = children_key l task.parent_task_id in
      let j = events_key l id in
      let index = Keys.swapped _ _ (Keys.events-tasks l id) in
      ground (
        arith,
        c.trim_members (index_parent o l scored task) (task_index_key l) j l.max_tasks index,
        c.expire_members (o.redis.rpush scored key task.task_id).0 key j l.retention,
        c.rpush_members scored key task.task_id j (Keys.children-events l task.parent_task_id id),
        c.zadd_members traced (task_index_key l) task.task_id j task.created_at index,
        c.set_members s (trace_index_key l task.trace_id) task.task_id j l.retention
            (Keys.trace-events l task.trace_id id),
      )

  create-blank :
      (s : S) (task : TaskEnvelope Any F)
      → is_blank o task.task_id ≡ true
      → (create_task o l s task).0 ≡ s
  unfolding create_task
  create-blank s task e = ground (arith, Bool-cases l.configured)

  create-writes :
      (s : S) (task : TaskEnvelope Any F) (text : String)
      → IsServer o.redis
      → l.configured ≡ true
      → is_blank o task.task_id ≡ false
      → o.tasks.marshal task ≡ some text
      → (create_task o l s task).0
        ≡ index_task o l (o.redis.set s (task_key l task.task_id) text l.retention).0 task
  unfolding create_task
  create-writes s task text c up e h =
      ground (arith, c.set_ok s (task_key l task.task_id) text l.retention)

  pub create-IsHeld :
      (s : S) (task : TaskEnvelope Any F) (a : Records Any F)
      → IsServer o.redis
      → l.configured ≡ true
      → IsHeld s a
      → IsCoded o.tasks task
      → IsHeld (create_task o l s task).0 (record_call o a (creates task))
  unfolding create_task record_call get_task decode_reply
  create-IsHeld s task a c up held (text, marshalled, back) =
      elim (Bool-cases (is_blank o task.task_id)) [
        | inl e ↦ rw (create-blank s task e) (rw (e, record_call) held)
        | inr e ↦
            let t = (o.redis.set s (task_key l task.task_id) text l.retention).0 in
            rw (create-writes s task text c up e marshalled) (
              rw (e, record_call)
                (record {
                  tasks_held = λ id. ground (
                    arith,
                    back,
                    held.tasks_held id,
                    c.set_get s (task_key l task.task_id) text (task_key l id) l.retention,
                    Keys.task-task l task.task_id id,
                    index_trace-get t task (task_key l id) c,
                    Keys.swapped _ _ (Keys.task-trace l id task.trace_id),
                    index_task-get t task (task_key l id) c
                        (Keys.swapped _ _ (Keys.task-tasks l id))
                        (Keys.swapped _ _ (Keys.task-children l id task.parent_task_id)),
                  );
                  results_held = λ id. ground (
                    arith,
                    held.results_held id,
                    c.set_get s (task_key l task.task_id) text (result_key l id) l.retention,
                    Keys.task-result l task.task_id id,
                    index_trace-get t task (result_key l id) c,
                    Keys.trace-result l task.trace_id id,
                    index_task-get t task (result_key l id) c
                        (Keys.swapped _ _ (Keys.result-tasks l id))
                        (Keys.swapped _ _ (Keys.result-children l id task.parent_task_id)),
                  );
                  traces_held = λ id. ground (
                    arith,
                    held.traces_held id,
                    c.set_get s (task_key l task.task_id) text (trace_index_key l id) l.retention,
                    Keys.task-trace l task.task_id id,
                    index_trace-get t task (trace_index_key l id) c,
                    Keys.trace-trace l task.trace_id id,
                    index_task-get t task (trace_index_key l id) c
                        (Keys.swapped _ _ (Keys.trace-tasks l id))
                        (Keys.swapped _ _ (Keys.trace-children l id task.parent_task_id)),
                  );
                  children_held = λ id. ground (
                    arith,
                    held.children_held id,
                    held.children_held task.parent_task_id,
                    eq_iff task.parent_task_id id,
                    index_task-lists t task id (a.children id) c (
                        ground (
                          arith,
                          held.children_held id,
                          c.set_lists s (task_key l task.task_id) text (children_key l id)
                              l.retention (Keys.task-children l task.task_id id),
                        )),
                  );
                  events_held = λ id.
                      rw
                        (index_task-zrange t task id c
                          ∙ c.set_members s (task_key l task.task_id) text (events_key l id)
                              l.retention (Keys.task-events l task.task_id id))
                        (held.events_held id);
                }))
      ]
