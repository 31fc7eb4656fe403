-- ===== src/Ledger/RemoteAnswers.antt =====
-- What the ledger of internal/ai/runtime/redis_ledger.go answers after any run of calls.
use mathlib.Core.Option.{some_inj}
use ops_captain.Base.{
  ℕ, ◌≡◌, refl, sym, ap, ◌∙◌, subst, ◌↔◌, ◌⊎◌, inl, inr, String, true, false, Option, none, some,
  List, [], ◌∷◌, ◌++◌, In, arith, ◌==◌, str_eq, ltb, if◌then◌else◌, Bool-cases, Option-cases,
  eq_iff,
}
use ops_captain.Base.Sort.{sort, IsSorted, sort-IsSorted, In-sort}
use ops_captain.Protocol.{TaskEnvelope, TaskEvent}
use ops_captain.Ledger.Remote.{
  Remote, RedisLedger, is_blank, task_key, trace_index_key, result_key, children_key, events_key,
  append_event,
}
use ops_captain.Ledger.Records.{
  Records, IsCoded, EventsIn, put_at, LedgerCall, creates, sets_status, appends_result,
  appends_event, AreCoded, AllCoded, record_call, record_calls, perform, perform_all,
}
use ops_captain.Ledger.RemoteReads.{
  decode_reply, decoded, get_task, events_by_trace, found_tasks, list_children, result_by_task_id,
  task_by_trace_id,
}
use ops_captain.Ledger.RemoteRefines.{IsServer, IsHeld, create-IsHeld}
use ops_captain.Ledger.RemoteRuns.{status-IsHeld, result-IsHeld}
use ops_captain.Ledger.Keys as Keys

-- The tasks of the identifiers that have one, in order.
unfoldable pub tasks_of :
    {Any F : Type 0}
    → (String → Option (TaskEnvelope Any F))
    → List String
    → List (TaskEnvelope Any F)
tasks_of tasks [] = []
tasks_of tasks (id ∷ ids) = elim (tasks id) [
  | none ↦ tasks_of tasks ids
  | some task ↦ task ∷ tasks_of tasks ids
]

abbrev pub no_records : {Any F : Type 0} → Records Any F
no_records = record {
  tasks = λ id. none;
  results = λ id. none;
  of_trace = λ id. none;
  children = λ id. [];
  events = λ id. [];
}

In-snoc : {A : Type 0} (x : A) (xs : List A) (a : A) → In a (xs ++ x ∷ []) ↔ (In a xs ⊎ (x ≡ a))
In-snoc x [] a = (
  λ h. elim h [ inl p ↦ inr p | inr p ↦ absurd p ],
  λ h. elim h [ inl p ↦ absurd p | inr p ↦ inl p ],
)
In-snoc x (y ∷ ys) a =
    let (there, back) = In-snoc x ys a in
    (
      λ h. elim h [
        | inl p ↦ inl (inl p)
        | inr p ↦ elim (there p) [ inl q ↦ inl (inr q) | inr q ↦ inr q ]
      ],
      λ h. elim h [
        | inl p ↦ elim p [ inl q ↦ inl q | inr q ↦ inr (back (inl q)) ]
        | inr p ↦ inr (back (inr p))
      ],
    )

module _ {S Any F : Type 0} (o : Remote S Any F) (l : RedisLedger) where
  append_event-writes :
      (s : S) (event : TaskEvent Any) (now : ℕ) (j : String)
      → IsServer o.redis
      → str_eq (events_key l event.trace_id) j ≡ false
      → (o.redis.get (append_event o l s event now).0 j ≡ o.redis.get s j)
        × (o.redis.lrange (append_event o l s event now).0 j ≡ o.redis.lrange s j)
  unfolding append_event
  append_event-writes s event now j c apart = elim (Option-cases (o.events.marshal event)) [
    | inl e ↦ (ground (arith, e), ground (arith, e))
    | inr (text, e) ↦
        let key = events_key l event.trace_id in
        let score = if event.created_at == 0 then now else event.created_at in
        let added = (o.redis.zadd s key score text).0 in
        (
          ground
              (arith, e, c.zadd_get s key text j score apart, c.expire_get added key j l.retention),
          ground (
            arith,
            e,
            c.zadd_lists s key text j score apart,
            c.expire_lists added key j l.retention,
          ),
        )
  ]

  append_event-blank :
      (s : S) (event : TaskEvent Any) (now : ℕ)
      → is_blank o event.trace_id ≡ true
      → (append_event o l s event now).0 ≡ s
  unfolding append_event
  append_event-blank s event now e = ground (arith, Bool-cases l.configured)

  -- The event is added to the set of its trace.
  append_event-adds :
      (s : S) (event : TaskEvent Any) (now : ℕ) (text : String) (es : List (TaskEvent Any))
      → IsServer o.redis
      → l.configured ≡ true
      → is_blank o event.trace_id ≡ false
      → o.events.marshal event ≡ some text
      → o.events.unmarshal text ≡ some event
      → EventsIn o.events (o.redis.zrange s (events_key l event.trace_id)) es
      → EventsIn o.events
          (o.redis.zrange (append_event o l s event now).0 (events_key l event.trace_id))
          (es ++ event ∷ [])
  unfolding append_event
  append_event-adds s event now text es c up e m back (texts, read, sound, whole) =
      let key = events_key l event.trace_id in
      let score = if event.created_at == 0 then now else event.created_at in
      let added = (o.redis.zadd s key score text).0 in
      let (after, reads, members) = c.zadd_adds s key text score texts read in
      let split = In-snoc event es in
      (
        after,
        ground (arith, up, e, m, reads, c.expire_members added key key l.retention),
        λ x p. elim ((members x).0 p) [
          | inl q ↦ (event, rw (← q) back, (split event).1 (inr refl))
          | inr q ↦ let (a, decodes, held) = sound x q in (a, decodes, (split a).1 (inl held))
        ],
        λ a p. elim ((split a).0 p) [
          | inl q ↦ let (x, held, decodes) = whole a q in (x, (members x).1 (inr held), decodes)
          | inr q ↦ (text, (members text).1 (inl refl), rw (← q) back)
        ],
      )

  -- The events of other traces stay.
  append_event-others :
      (s : S) (event : TaskEvent Any) (now : ℕ) (id : String)
      → IsServer o.redis
      → str_eq event.trace_id id ≡ false
      → o.redis.zrange (append_event o l s event now).0 (events_key l id)
        ≡ o.redis.zrange s (events_key l id)
  unfolding append_event
  append_event-others s event now id c apart = elim (Option-cases (o.events.marshal event)) [
    | inl e ↦ ground (arith, e)
    | inr (text, e) ↦
        let key = events_key l event.trace_id in
        let j = events_key l id in
        let score = if event.created_at == 0 then now else event.created_at in
        let added = (o.redis.zadd s key score text).0 in
        ground (
          arith,
          e,
          c.zadd_members s key text j score (Keys.events-events l event.trace_id id ∙ apart),
          c.expire_members added key j l.retention,
        )
  ]

  -- Whichever trace is looked at.
  events-EventsIn :
      (s : S) (event : TaskEvent Any) (now : ℕ) (a : Records Any F) (id text : String)
      → IsServer o.redis
      → l.configured ≡ true
      → is_blank o event.trace_id ≡ false
      → o.events.marshal event ≡ some text
      → o.events.unmarshal text ≡ some event
      → IsHeld o l s a
      → EventsIn o.events
          (o.redis.zrange (append_event o l s event now).0 (events_key l id))
          (put_at a.events event.trace_id (a.events event.trace_id ++ event ∷ []) id)
  events-EventsIn s event now a id text c up e m back held =
      elim (Bool-cases (str_eq event.trace_id id)) [
        | inr f ↦ rw f (rw (append_event-others s event now id c f) (held.events_held id))
        | inl f ↦
            subst
              (λ k.
                EventsIn o.events (o.redis.zrange (append_event o l s event now).0 (events_key l k))
                  (put_at a.events event.trace_id (a.events event.trace_id ++ event ∷ []) k))
              ((eq_iff event.trace_id id).0 f)
              (rw ((eq_iff event.trace_id event.trace_id).1 refl) (
                append_event-adds s event now text (a.events event.trace_id) c up e m back
                  (held.events_held event.trace_id)))
      ]

  event-IsHeld :
      (s : S) (event : TaskEvent Any) (now : ℕ) (a : Records Any F)
      → IsServer o.redis
      → l.configured ≡ true
      → IsHeld o l s a
      → IsCoded o.events event
      → IsHeld o l (append_event o l s event now).0 (record_call o a (appends_event event now))
  unfolding get_task decode_reply record_call
  event-IsHeld s event now a c up held (text, m, back) =
      let trace = event.trace_id in
      elim (Bool-cases (is_blank o trace)) [
        | inl e ↦ rw (append_event-blank s event now e) (rw (e, record_call) held)
        | inr e ↦
            rw (e, record_call)
              (record {
                tasks_held = λ id. ground (
                  arith,
                  held.tasks_held id,
                  (append_event-writes s event now (task_key l id) c
                      (Keys.swapped _ _ (Keys.task-events l id trace))).0,
                );
                results_held = λ id. ground (
                  arith,
                  held.results_held id,
                  (append_event-writes s event now (result_key l id) c
                      (Keys.swapped _ _ (Keys.result-events l id trace))).0,
                );
                traces_held = λ id. ground (
                  arith,
                  held.traces_held id,
                  (append_event-writes s event now (trace_index_key l id) c
                      (Keys.swapped _ _ (Keys.trace-events l id trace))).0,
                );
                children_held = λ id. ground (
                  arith,
                  held.children_held id,
                  (append_event-writes s event now (children_key l id) c
                      (Keys.swapped _ _ (Keys.children-events l id trace))).1,
                );
                events_held = λ id. events-EventsIn s event now a id text c up e m back held;
              })
      ]

  perform-IsHeld :
      (s : S) (call : LedgerCall Any F) (a : Records Any F)
      → IsServer o.redis
      → l.configured ≡ true
      → IsHeld o l s a
      → AreCoded o a call
      → IsHeld o l (perform o l s call).0 (record_call o a call)
  unfolding perform record_call
  perform-IsHeld s (creates task) a c up held coded = create-IsHeld o l s task a c up held coded
  perform-IsHeld s (sets_status id status now) a c up held coded =
      status-IsHeld o l s id status now a c up held coded
  perform-IsHeld s (appends_result id result now) a c up held coded =
      result-IsHeld o l s id result now a c up held coded
  perform-IsHeld s (appends_event event now) a c up held coded =
      event-IsHeld s event now a c up held coded

  -- On a server that answers and has expired no key, whose values JSON gives back, every run of the
  -- four writing calls from a state that holds some records ends in a state that holds the records
  -- that the same calls write to plain maps: tasks, results, traces and children as they are, and of
  -- each trace the events, in some order.
  pub perform_all-IsHeld :
      (s : S) (calls : List (LedgerCall Any F)) (a : Records Any F)
      → IsServer o.redis
      → l.configured ≡ true
      → IsHeld o l s a
      → AllCoded o a calls
      → IsHeld o l (perform_all o l s calls) (record_calls o a calls)
  unfolding perform_all record_calls
  perform_all-IsHeld s [] a c up held coded = held
  perform_all-IsHeld s (call ∷ calls) a c up held coded =
      perform_all-IsHeld (perform o l s call).0 calls (record_call o a call) c up
        (perform-IsHeld s call a c up held coded.0) coded.1

  -- What the four queries answer from some records.
  pub record Answers (s : S) (a : Records Any F) (task_id trace_id parent_id : String)
      : Type 0 where
    pub result : result_by_task_id o l s task_id ≡ inr (a.results task_id)
    pub task :
        task_by_trace_id o l s trace_id
        ≡ inr (elim (a.of_trace trace_id) [ none ↦ none | some id ↦ a.tasks id ])
    pub children :
        list_children o l s parent_id
        ≡ inr
            (sort (λ x y. ltb x.created_at y.created_at) (tasks_of a.tasks (a.children parent_id)))
    pub events :
        (es : List (TaskEvent Any)) × (events_by_trace o l s trace_id ≡ inr es)
        × IsSorted (λ (x y : TaskEvent Any). ltb x.created_at y.created_at) es
        × ((e : TaskEvent Any) → In e es ↔ In e (a.events trace_id))

  found_tasks-tasks_of :
      (s : S) (a : Records Any F) (ids : List String)
      → IsHeld o l s a
      → found_tasks o l s ids ≡ tasks_of a.tasks ids
  unfolding found_tasks tasks_of
  found_tasks-tasks_of s a [] held = refl
  found_tasks-tasks_of s a (id ∷ ids) held =
      ground
        (arith, held.tasks_held id, found_tasks-tasks_of s a ids held, Option-cases (a.tasks id))

  decoded-In :
      (e : TaskEvent Any) (raws : List String)
      → In e (decoded o.events raws) ↔ ((x : String) × In x raws × (o.events.unmarshal x ≡ some e))
  unfolding decoded
  decoded-In e [] = (λ h. absurd h, λ (x, h, k). absurd h)
  decoded-In e (raw ∷ raws) =
      let (there, back) = decoded-In e raws in
      elim (Option-cases (o.events.unmarshal raw)) [
        | inl f ↦
            rw (f, decoded)
              (
                λ h. let (x, held, decodes) = there h in (x, inr held, decodes),
                λ (x, h, k). elim h [ inl p ↦ absurd (cc) | inr p ↦ back (x, p, k) ],
              )
        | inr (a, f) ↦
            rw (f, decoded)
              (
                λ h. elim h [
                  | inl p ↦ (raw, inl refl, f ∙ ap some p)
                  | inr p ↦ let (x, held, decodes) = there p in (x, inr held, decodes)
                ],
                λ (x, h, k). elim h [
                  | inl p ↦ inl (some_inj.0 (sym f ∙ ap o.events.unmarshal p ∙ k))
                  | inr p ↦ inr (back (x, p, k))
                ],
              )
      ]

  reads-from :
      (s : S) (a : Records Any F) (task_id trace_id parent_id : String)
      → l.configured ≡ true
      → IsHeld o l s a
      → is_blank o task_id ≡ false
      → is_blank o trace_id ≡ false
      → is_blank o parent_id ≡ false
      → Answers s a task_id trace_id parent_id
  unfolding result_by_task_id task_by_trace_id list_children events_by_trace
  reads-from s a task_id trace_id parent_id up held task trace parent =
      let (texts, read, sound, whole) = held.events_held trace_id in
      let sorted = In-sort (λ (x y : TaskEvent Any). ltb x.created_at y.created_at) in
      record {
        result = ground (arith, up, task, held.results_held task_id);
        task = elim (Option-cases (a.of_trace trace_id)) [
          | inl e ↦ ground (arith, up, trace, e, held.traces_held trace_id)
          | inr (id, e) ↦
              ground (arith, up, trace, e, held.traces_held trace_id, held.tasks_held id)
        ];
        children = ground (
          arith,
          up,
          parent,
          held.children_held parent_id,
          found_tasks-tasks_of s a (a.children parent_id) held,
        );
        events = (
          sort (λ x y. ltb x.created_at y.created_at) (decoded o.events texts),
          ground (arith, up, trace, read),
          sort-IsSorted (λ (x y : TaskEvent Any). ltb x.created_at y.created_at)
              (λ x y h. ground (arith, h)) (λ x y z h k. ground (arith, h, k))
              (decoded o.events texts),
          λ e. (
            λ h.
                let (x, listed, decodes) =
                  (decoded-In e texts).0 ((sorted e (decoded o.events texts)).0 h) in
                let (b, same, known) = sound x listed in
                subst (λ b. In b (a.events trace_id)) (some_inj.0 (sym same ∙ decodes)) known,
            λ h. (sorted e (decoded o.events texts)).1 ((decoded-In e texts).1 (whole e h)),
          ),
        );
      }

  -- On a server that answers and has expired no key, and that holds no record at first, after any run of
  -- writing calls on values that JSON gives back, a configured ledger answers, for identifiers that are
  -- not blank, what the same calls write to plain maps: the newest result of a task, the task that a
  -- trace was last created with, the tasks of a parent's children by the time of their creation, and the
  -- events of a trace, all of them and no others, by that time.
  pub reads-IsHeld :
      (s : S) (calls : List (LedgerCall Any F)) (task_id trace_id parent_id : String)
      → IsServer o.redis
      → l.configured ≡ true
      → IsHeld o l s no_records
      → AllCoded o no_records calls
      → is_blank o task_id ≡ false
      → is_blank o trace_id ≡ false
      → is_blank o parent_id ≡ false
      → Answers
          (perform_all o l s calls)
          (record_calls o no_records calls)
          task_id
          trace_id
          parent_id
  reads-IsHeld s calls task_id trace_id parent_id c up held coded task trace parent =
      reads-from (perform_all o l s calls) (record_calls o no_records calls) task_id trace_id
        parent_id up (perform_all-IsHeld s calls no_records c up held coded) task trace parent
