-- ===== src/Ledger/RemoteScenarios.antt =====
-- Runs of the ledger of internal/ai/runtime/redis_ledger.go on a server held as functions.
use mathlib.Core.Option.{some_inj}
use ops_captain.Base.{
  ℕ, ◌≡◌, refl, subst, inr, String, true, none, some, List, [], ◌∷◌, ◌++◌, arith, str_eq,
  if◌then◌else◌, eq_iff,
}
use ops_captain.Base.Sort.{sort}
use ops_captain.Protocol.{
  TaskEnvelope, TaskResult, TaskEvent, TaskStatus, pending, running, result_succeeded,
}
use ops_captain.Ledger.Remote.{
  Reply, nil_reply, text_reply, Remote, RedisCommands, RedisLedger, task_key, trace_index_key,
  result_key, children_key, events_key, task_index_key, result_index_key, create_task,
  update_task_status, append_result, append_event,
}
use ops_captain.Ledger.Records.{
  LedgerCall, creates, sets_status, appends_result, appends_event, put_at, IsCoded, AllCoded,
  with_status, record_call, record_calls, perform_all,
}
use ops_captain.Ledger.RemoteReads.{decode_reply, get_task, events_by_trace}
use ops_captain.Ledger.RemoteRefines.{IsServer, IsHeld}
use ops_captain.Ledger.RemoteAnswers.{no_records, Answers, perform_all-IsHeld, reads-IsHeld}

record Stored : Type 0 where
  texts : String → Reply
  lists : String → List String
  members : String → List String

abbrev server : RedisCommands Stored
server = record {
  get = λ s k. s.texts k;
  set = λ s k v n. (record s { texts = put_at s.texts k (text_reply v) }, true);
  zadd = λ s k n v. (record s { members = put_at s.members k (v ∷ s.members k) }, true);
  rpush = λ s k v. (record s { lists = put_at s.lists k (s.lists k ++ v ∷ []) }, true);
  expire = λ s k n. (s, true);
  trim = λ s k n. (s, true);
  lrange = λ s k. some (s.lists k);
  zrange = λ s k. some (s.members k);
}

server-IsServer : IsServer server
server-IsServer = record {
  set_ok = λ s k v n. refl;
  set_get = λ s k v j n. refl;
  set_lists = λ s k v j n h. refl;
  zadd_get = λ s k v j n h. refl;
  zadd_lists = λ s k v j n h. refl;
  trim_get = λ s k j n h. refl;
  trim_lists = λ s k j n h. refl;
  rpush_get = λ s k v j h. refl;
  rpush_lists = λ s k v j. ground (arith, eq_iff k j);
  set_members = λ s k v j n h. refl;
  zadd_members = λ s k v j n h. rw h;
  zadd_adds = λ s k v n texts h. (v ∷ texts, ground (arith, h, eq_iff k k), λ x. (λ h. h, λ h. h));
  trim_members = λ s k j n h. refl;
  rpush_members = λ s k v j h. refl;
  expire_members = λ s k j n. refl;
  expire_get = λ s k j n. refl;
  expire_lists = λ s k j n. refl;
}

abbrev waiting : TaskEnvelope ℕ ℕ
waiting = record {
  task_id = "t1";
  parent_task_id = "p";
  session_id = "s";
  trace_id = "r";
  goal = "find the cause";
  assignee = "triage";
  creator = "user";
  intent = "";
  priority = "";
  status = pending;
  input = [];
  constraints = [];
  memory_refs = [];
  artifact_refs = [];
  created_at = 1;
  updated_at = 1;
  deadline_at = 0;
}

abbrev started : TaskEnvelope ℕ ℕ
started = record waiting { status = running; updated_at = 9 }

abbrev event_at : String → ℕ → TaskEvent ℕ
event_at kind now = record {
  event_id = kind;
  task_id = "t1";
  trace_id = "r";
  kind = kind;
  agent = "triage";
  message = "";
  payload = [];
  created_at = now;
}

abbrev began : TaskEvent ℕ
began = event_at "began" 2

abbrev ended : TaskEvent ℕ
ended = event_at "ended" 7

abbrev found : TaskResult ℕ ℕ
found = record {
  task_id = "t1";
  agent = "triage";
  status = result_succeeded;
  summary = "a full disk";
  confidence = 90;
  degradation_reason = "";
  evidence = [];
  artifact_refs = [];
  next_actions = [];
  metadata = [];
  error = none;
  started_at = 1;
  finished_at = 12;
}

abbrev status_text : TaskStatus → String
status_text pending = "pending"
status_text _ = "started"

abbrev remote : Remote Stored ℕ ℕ
remote = record {
  redis = server;
  tasks = record {
    marshal = λ t. some (status_text t.status);
    unmarshal = λ text. some (if str_eq text "pending" then waiting else started);
  };
  results = record { marshal = λ r. some "done"; unmarshal = λ text. some found };
  events = record {
    marshal = λ e. some e.kind;
    unmarshal = λ text. some (if str_eq text "began" then began else ended);
  };
  trim_space = λ t. t;
  has_colon_at_end = λ t. true;
}

abbrev ledger : RedisLedger
ledger = record {
  configured = true;
  prefix = "ai:";
  retention = 86400;
  max_tasks = 2;
  max_results = 2;
}

abbrev no_keys : Stored
no_keys = record { texts = λ k. nil_reply; lists = λ k. []; members = λ k. [] }

no_keys-IsHeld : IsHeld remote ledger no_keys no_records
unfolding get_task decode_reply
no_keys-IsHeld = record {
  tasks_held = λ id. refl;
  results_held = λ id. refl;
  traces_held = λ id. refl;
  children_held = λ id. refl;
  events_held = λ id. ([], refl, λ x h. absurd h, λ e h. absurd h);
}

abbrev calls : List (LedgerCall ℕ ℕ)
calls =
    creates waiting
    ∷ sets_status "t1" running 9
    ∷ creates waiting
    ∷ appends_event ended 12
    ∷ appends_result "t1" found 12
    ∷ appends_event began 8
    ∷ []

calls-AllCoded : AllCoded remote no_records calls
unfolding record_call
calls-AllCoded = (
  ("pending", refl, refl),
  (
    λ task h.
        subst (λ t. IsCoded remote.tasks (with_status running 9 t)) (some_inj.0 h)
          ("started", refl, refl),
    (
      ("pending", refl, refl),
      (("ended", refl, refl), (("done", refl, refl), (("began", refl, refl), tt))),
    ),
  ),
)

calls-IsHeld :
    IsHeld remote ledger
      (perform_all remote ledger no_keys calls)
      (record_calls remote no_records calls)
calls-IsHeld =
    perform_all-IsHeld remote ledger no_keys calls no_records server-IsServer refl no_keys-IsHeld
      calls-AllCoded

-- The task that is created twice is listed twice.
perform_all-IsHeld_example :
    IsHeld remote ledger
      (perform_all remote ledger no_keys calls)
      (record_calls remote no_records calls)
perform_all-IsHeld_example =
    perform_all-IsHeld remote ledger no_keys calls no_records server-IsServer refl no_keys-IsHeld
      calls-AllCoded

reads-IsHeld_example :
    Answers remote ledger
      (perform_all remote ledger no_keys calls)
      (record_calls remote no_records calls)
      "t1"
      "r"
      "p"
reads-IsHeld_example =
    reads-IsHeld remote ledger no_keys calls "t1" "r" "p" server-IsServer refl no_keys-IsHeld
      calls-AllCoded refl refl refl

-- The events of the trace are read in the order of their creation.
events_read :
    events_by_trace remote ledger (perform_all remote ledger no_keys calls) "r"
    ≡ inr (began ∷ ended ∷ [])
unfolding events_by_trace perform_all create_task update_task_status append_result append_event
    task_key trace_index_key result_key children_key events_key task_index_key result_index_key sort
events_read = refl

listed_twice : (record_calls remote no_records calls).children "p" ≡ "t1" ∷ "t1" ∷ []
unfolding record_calls record_call
listed_twice = refl
