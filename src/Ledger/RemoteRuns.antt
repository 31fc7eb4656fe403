-- ===== src/Ledger/RemoteRuns.antt =====
-- Every run of calls on the ledger of internal/ai/runtime/redis_ledger.go, and what it answers then.
use ops_captain.Base.{
  ℕ, ◌≡◌, refl, ap, ◌∙◌, inl, inr, String, true, false, none, some, arith, str_eq, Bool-cases,
  Option-cases,
}
use ops_captain.Protocol.{TaskEnvelope, TaskResult, TaskStatus}
use ops_captain.Ledger.Remote.{
  Reply, failed_reply, nil_reply, text_reply, Json, Remote, RedisLedger, is_blank, task_key,
  trace_index_key, result_key, children_key, events_key, result_index_key, update_task_status,
  append_result, write_task,
}
use ops_captain.Ledger.Records.{
  Records, sets_status, appends_result, put_at, IsCoded, AreCoded, with_status, record_call,
}
use ops_captain.Ledger.RemoteReads.{decode_reply, get_task}
use ops_captain.Ledger.RemoteRefines.{IsServer, IsHeld}
use ops_captain.Ledger.Keys as Keys

decode-none :
    {A : Type 0} (j : Json A) (reply : Reply) → decode_reply j reply ≡ inr none → reply ≡ nil_reply
unfolding decode_reply
decode-none j failed_reply h = absurd (cc h)
decode-none j nil_reply h = refl
decode-none j (text_reply text) h = absurd (ground (arith, Option-cases (j.unmarshal text)))

decode-some :
    {A : Type 0} (j : Json A) (reply : Reply) (a : A)
    → decode_reply j reply ≡ inr (some a)
    → (text : String) × (reply ≡ text_reply text) × (j.unmarshal text ≡ some a)
unfolding decode_reply
decode-some j failed_reply a h = absurd (cc h)
decode-some j nil_reply a h = absurd (cc h)
decode-some j (text_reply text) a h = (text, refl, ground (arith, Option-cases (j.unmarshal text)))

module _ {S Any F : Type 0} (o : Remote S Any F) (l : RedisLedger) where
  -- Writing one task changes that task only.
  set_task-IsHeld :
      (s : S) (id text : String) (task : TaskEnvelope Any F) (a : Records Any F)
      → IsServer o.redis
      → IsHeld o l s a
      → o.tasks.unmarshal text ≡ some task
      → IsHeld o l
          (o.redis.set s (task_key l id) text l.retention).0
          (record a { tasks = put_at a.tasks id (some task) })
  unfolding get_task decode_reply
  set_task-IsHeld s id text task a c held back = record {
    tasks_held = λ j. ground (
      arith,
      back,
      held.tasks_held j,
      c.set_get s (task_key l id) text (task_key l j) l.retention,
      Keys.task-task l id j,
    );
    results_held = λ j. ground (
      arith,
      held.results_held j,
      c.set_get s (task_key l id) text (result_key l j) l.retention,
      Keys.task-result l id j,
    );
    traces_held = λ j. ground (
      arith,
      held.traces_held j,
      c.set_get s (task_key l id) text (trace_index_key l j) l.retention,
      Keys.task-trace l id j,
    );
    children_held = λ j. ground (
      arith,
      held.children_held j,
      c.set_lists s (task_key l id) text (children_key l j) l.retention (Keys.task-children l id j),
    );
    events_held = λ j.
        rw
          (c.set_members s (task_key l id) text (events_key l j) l.retention
            (Keys.task-events l id j))
          (held.events_held j);
  }

  status-blank :
      (s : S) (id : String) (status : TaskStatus) (now : ℕ)
      → is_blank o id ≡ true
      → (update_task_status o l s id status now).0 ≡ s
  unfolding update_task_status
  status-blank s id status now e = ground arith

  status-missing :
      (s : S) (id : String) (status : TaskStatus) (now : ℕ)
      → IsServer o.redis
      → get_task o l s id ≡ inr none
      → (update_task_status o l s id status now).0 ≡ s
  unfolding update_task_status get_task decode_reply
  status-missing s id status now c h =
      ground (arith, decode-none o.tasks (o.redis.get s (task_key l id)) h)

  status-writes :
      (s : S) (id : String) (status : TaskStatus) (now : ℕ) (task : TaskEnvelope Any F)
      (text : String)
      → IsServer o.redis
      → l.configured ≡ true
      → is_blank o id ≡ false
      → get_task o l s id ≡ inr (some task)
      → o.tasks.marshal (with_status status now task) ≡ some text
      → (update_task_status o l s id status now).0
        ≡ (o.redis.set s (task_key l id) text l.retention).0
  unfolding update_task_status write_task get_task decode_reply
  status-writes s id status now task text c up e h m =
      let (stored, read, back) = decode-some o.tasks (o.redis.get s (task_key l id)) task h in
      ground (arith, read, back, m, c.set_ok s (task_key l id) text l.retention)

  pub status-IsHeld :
      (s : S) (id : String) (status : TaskStatus) (now : ℕ) (a : Records Any F)
      → IsServer o.redis
      → l.configured ≡ true
      → IsHeld o l s a
      → AreCoded o a (sets_status id status now)
      → IsHeld o l
          (update_task_status o l s id status now).0
          (record_call o a (sets_status id status now))
  unfolding record_call
  status-IsHeld s id status now a c up held coded = elim (Bool-cases (is_blank o id)) [
    | inl e ↦ rw (status-blank s id status now e) (rw (e, record_call) held)
    | inr e ↦ elim (Option-cases (a.tasks id)) [
      | inl f ↦
          rw (status-missing s id status now c (held.tasks_held id ∙ ap inr f))
            (rw (e, f, record_call) held)
      | inr (task, f) ↦
          let (text, marshalled, back) = coded task f in
          rw
            (status-writes s id status now task text c up e (held.tasks_held id ∙ ap inr f)
              marshalled)
            (rw (e, f, record_call)
              (set_task-IsHeld s id text (with_status status now task) a c held back))
    ]
  ]

  result-blank :
      (s : S) (id : String) (result : TaskResult Any F) (now : ℕ)
      → is_blank o id ≡ true
      → (append_result o l s id result now).0 ≡ s
  unfolding append_result
  result-blank s id result now e = ground (arith, Bool-cases l.configured)

  abbrev set_result : S → String → String → S
  set_result s id text = (o.redis.set s (result_key l id) text l.retention).0

  abbrev indexed_result : S → String → ℕ → S
  indexed_result s id now =
      (o.redis.trim (o.redis.zadd s (result_index_key l) now id).0 (result_index_key l)
        l.max_results).0

  result-writes :
      (s : S) (id : String) (result : TaskResult Any F) (now : ℕ) (text : String)
      → IsServer o.redis
      → l.configured ≡ true
      → is_blank o id ≡ false
      → o.results.marshal result ≡ some text
      → (append_result o l s id result now).0 ≡ indexed_result (set_result s id text) id now
  unfolding append_result
  result-writes s id result now text c up e h =
      ground (arith, c.set_ok s (result_key l id) text l.retention)

  -- The index of the results is no key that is read.
  indexed_result-get :
      (s : S) (id j : String) (now : ℕ)
      → IsServer o.redis
      → str_eq j (result_index_key l) ≡ false
      → (o.redis.get (indexed_result s id now) j ≡ o.redis.get s j)
        × (o.redis.lrange (indexed_result s id now) j ≡ o.redis.lrange s j)
  indexed_result-get s id j now c h =
      let index = result_index_key l in
      let apart = Keys.swapped j index h in
      let scored = (o.redis.zadd s index now id).0 in
      (
        c.trim_get scored index j l.max_results apart ∙ c.zadd_get s index id j now apart,
        c.trim_lists scored index j l.max_results apart ∙ c.zadd_lists s index id j now apart,
      )

  indexed_result-zrange :
      (s : S) (id j : String) (now : ℕ)
      → IsServer o.redis
      → str_eq j (result_index_key l) ≡ false
      → o.redis.zrange (indexed_result s id now) j ≡ o.redis.zrange s j
  indexed_result-zrange s id j now c h =
      let index = result_index_key l in
      let apart = Keys.swapped j index h in
      let scored = (o.redis.zadd s index now id).0 in
      c.trim_members scored index j l.max_results apart ∙ c.zadd_members s index id j now apart

  -- Writing one result changes that result only.
  set_result-IsHeld :
      (s : S) (id text : String) (result : TaskResult Any F) (now : ℕ) (a : Records Any F)
      → IsServer o.redis
      → IsHeld o l s a
      → o.results.unmarshal text ≡ some result
      → IsHeld o l
          (indexed_result (set_result s id text) id now)
          (record a { results = put_at a.results id (some result) })
  unfolding get_task decode_reply
  set_result-IsHeld s id text result now a c held back =
      let t = set_result s id text in
      record {
        tasks_held = λ j. ground (
          arith,
          held.tasks_held j,
          (indexed_result-get t id (task_key l j) now c (Keys.task-results l j)).0,
          c.set_get s (result_key l id) text (task_key l j) l.retention,
          Keys.result-task l id j,
        );
        results_held = λ j. ground (
          arith,
          back,
          held.results_held j,
          (indexed_result-get t id (result_key l j) now c (Keys.result-results l j)).0,
          c.set_get s (result_key l id) text (result_key l j) l.retention,
          Keys.result-result l id j,
        );
        traces_held = λ j. ground (
          arith,
          held.traces_held j,
          (indexed_result-get t id (trace_index_key l j) now c (Keys.trace-results l j)).0,
          c.set_get s (result_key l id) text (trace_index_key l j) l.retention,
          Keys.result-trace l id j,
        );
        children_held = λ j. ground (
          arith,
          held.children_held j,
          (indexed_result-get t id (children_key l j) now c (Keys.children-results l j)).1,
          c.set_lists s (result_key l id) text (children_key l j) l.retention
              (Keys.result-children l id j),
        );
        events_held = λ j.
            rw
              (indexed_result-zrange t id (events_key l j) now c (Keys.events-results l j)
                ∙ c.set_members s (result_key l id) text (events_key l j) l.retention
                    (Keys.result-events l id j))
              (held.events_held j);
      }

  pub result-IsHeld :
      (s : S) (id : String) (result : TaskResult Any F) (now : ℕ) (a : Records Any F)
      → IsServer o.redis
      → l.configured ≡ true
      → IsHeld o l s a
      → IsCoded o.results result
      → IsHeld o l
          (append_result o l s id result now).0
          (record_call o a (appends_result id result now))
  unfolding record_call
  result-IsHeld s id result now a c up held coded = elim (Bool-cases (is_blank o id)) [
    | inl e ↦ rw (result-blank s id result now e) (rw (e, record_call) held)
    | inr e ↦
        let (text, marshalled, back) = coded in
        rw (result-writes s id result now text c up e marshalled)
          (rw (e, record_call) (set_result-IsHeld s id text result now a c held back))
  ]
