-- ===== src/Ledger/Remote.antt =====
-- The ledger of internal/ai/runtime/redis_ledger.go. Redis and JSON are parameters; the state `S` is
-- Redis's. Every command that writes answers whether it succeeded; where the code ignores the answer, so
-- does the model.
use Prim.Native.String.{◌++◌ as join}
use ops_captain.Base.{ℕ, String, Bool, Option, none, some, List, ◌==◌, str_eq, if◌then◌else◌}
use ops_captain.Base.Int.{ℤ, pos, leb_ℤ, pos_part}
use ops_captain.Protocol.{TaskEnvelope, TaskResult, TaskEvent, TaskStatus}

pub data Reply : Type 0 where
  failed_reply nil_reply : Reply
  text_reply : String → Reply

pub data LedgerError : Type 0 where
  not_configured empty_task_id unencodable undecodable unsaved unread : LedgerError

-- The commands of Redis. The number of SET and EXPIRE is the time to live in seconds, that of ZADD the
-- score, and `trim` keeps the entries of the highest rank, that many (ZREMRANGEBYRANK k 0 -(n+1)).
pub record RedisCommands (S : Type 0) : Type 0 where
  pub get : S → String → Reply
  pub set : S → String → String → ℕ → S × Bool
  pub zadd : S → String → ℕ → String → S × Bool
  pub rpush : S → String → String → S × Bool
  pub expire : S → String → ℕ → S × Bool
  pub trim : S → String → ℕ → S × Bool
  pub lrange : S → String → Option (List String)
  pub zrange : S → String → Option (List String)

-- `encoding/json` on one type.
pub record Json (A : Type 0) : Type 0 where
  pub marshal : A → Option String
  pub unmarshal : String → Option A

pub record Remote (S Any F : Type 0) : Type 0 where
  pub redis : RedisCommands S
  pub tasks : Json (TaskEnvelope Any F)
  pub results : Json (TaskResult Any F)
  pub events : Json (TaskEvent Any)
  pub trim_space : String → String
  pub has_colon_at_end : String → Bool

-- The retention is in seconds.
pub record RedisLedger : Type 0 where
  pub configured : Bool
  pub prefix : String
  pub retention : ℕ
  pub max_tasks : ℕ
  pub max_results : ℕ

abbrev positive_or : ℕ → ℤ → ℕ
positive_or default given = if leb_ℤ given (pos 0) then default else pos_part given

unfoldable pub task_key : RedisLedger → String → String
task_key l id = join l.prefix (join "task:" id)

unfoldable pub trace_index_key : RedisLedger → String → String
trace_index_key l id = join l.prefix (join "trace:" id)

unfoldable pub result_key : RedisLedger → String → String
result_key l id = join l.prefix (join "result:" id)

unfoldable pub children_key : RedisLedger → String → String
children_key l id = join l.prefix (join "children:" id)

unfoldable pub events_key : RedisLedger → String → String
events_key l trace_id = join l.prefix (join "events:" trace_id)

unfoldable pub task_index_key : RedisLedger → String
task_index_key l = join l.prefix "tasks:index"

unfoldable pub result_index_key : RedisLedger → String
result_index_key l = join l.prefix "results:index"

module _ {S Any F : Type 0} (o : Remote S Any F) where
  unfoldable pub new_redis_ledger :
      Bool → String → (retention max_tasks max_results : ℤ) → RedisLedger
  new_redis_ledger configured prefix retention max_tasks max_results =
      let named : String = if str_eq prefix "" then "opscaption:ai:" else prefix in
      record {
        configured = configured;
        prefix = if o.has_colon_at_end named then named else join named ":";
        retention = positive_or 86400 retention;
        max_tasks = positive_or 20000 max_tasks;
        max_results = positive_or 20000 max_results;
      }

  abbrev pub is_blank : String → Bool
  is_blank text = str_eq (o.trim_space text) ""

module _ {S Any F : Type 0} (o : Remote S Any F) (l : RedisLedger) where
  -- The index of the trace, the index of all tasks, the parent's list and the limit, in this order.
  unfoldable pub index_trace : S → TaskEnvelope Any F → S
  index_trace s task =
      if is_blank o task.trace_id
      then s
      else (o.redis.set s (trace_index_key l task.trace_id) task.task_id l.retention).0

  unfoldable pub index_parent : S → TaskEnvelope Any F → S
  index_parent s task =
      let child_key = children_key l task.parent_task_id in
      if is_blank o task.parent_task_id
      then s
      else (o.redis.expire (o.redis.rpush s child_key task.task_id).0 child_key l.retention).0

  unfoldable pub index_task : S → TaskEnvelope Any F → S
  unfolding index_trace index_parent
  index_task s task =
      let traced = index_trace s task in
      let scored = (o.redis.zadd traced (task_index_key l) task.created_at task.task_id).0 in
      (o.redis.trim (index_parent scored task) (task_index_key l) l.max_tasks).0

  unfoldable pub create_task : S → TaskEnvelope Any F → S × Option LedgerError
  unfolding index_task
  create_task s task =
      if l.configured
      then if is_blank o task.task_id
        then (s, some empty_task_id)
        else elim (o.tasks.marshal task) [
          | none ↦ (s, some unencodable)
          | some text ↦
              let set = o.redis.set s (task_key l task.task_id) text l.retention in
              if set.1 then (index_task set.0 task, none) else (set.0, some unsaved)
        ]
      else (s, some not_configured)

  unfoldable pub write_task : S → String → TaskEnvelope Any F → S × Option LedgerError
  write_task s task_id task = elim (o.tasks.marshal task) [
    | none ↦ (s, some unencodable)
    | some text ↦
        let set = o.redis.set s (task_key l task_id) text l.retention in
        (set.0, if set.1 then none else some unsaved)
  ]

  unfoldable pub update_task_status : S → String → TaskStatus → ℕ → S × Option LedgerError
  unfolding write_task
  update_task_status s task_id status now =
      if is_blank o task_id
      then (s, none)
      else if l.configured
      then elim (o.redis.get s (task_key l task_id)) [
        | failed_reply ↦ (s, none)
        | nil_reply ↦ (s, none)
        | text_reply text ↦ elim (o.tasks.unmarshal text) [
          | none ↦ (s, some undecodable)
          | some task ↦ write_task s task_id (record task { status = status; updated_at = now })
        ]
      ]
      else (s, some not_configured)

  unfoldable pub append_result : S → String → TaskResult Any F → ℕ → S × Option LedgerError
  append_result s task_id result now =
      if l.configured
      then if is_blank o task_id then (s, none) else elim (o.results.marshal result) [
        | none ↦ (s, some unencodable)
        | some text ↦
            let set = o.redis.set s (result_key l task_id) text l.retention in
            let scored = (o.redis.zadd set.0 (result_index_key l) now task_id).0 in
            if set.1
            then ((o.redis.trim scored (result_index_key l) l.max_results).0, none)
            else (set.0, some unsaved)
      ]
      else (s, some not_configured)

  unfoldable pub append_event : S → TaskEvent Any → ℕ → S × Option LedgerError
  append_event s event now =
      if l.configured
      then if is_blank o event.trace_id then (s, none) else elim (o.events.marshal event) [
        | none ↦ (s, some unencodable)
        | some text ↦
            let key = events_key l event.trace_id in
            let score = if event.created_at == 0 then now else event.created_at in
            let added = o.redis.zadd s key score text in
            if added.1
            then ((o.redis.expire added.0 key l.retention).0, none)
            else (added.0, some unsaved)
      ]
      else (s, some not_configured)
