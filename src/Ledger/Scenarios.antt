-- ===== src/Ledger/Scenarios.antt =====
-- Runs of the ledger of internal/ai/runtime/ledger.go.
use ops_captain.Base.{ℕ, ◌-◌, ◌≡◌, refl, String, some, [], ◌∷◌, arith, length, drop}
use ops_captain.Base.Dict.{lookup}
use ops_captain.Base.Sort.{elem}
use ops_captain.Protocol.{TaskEnvelope, TaskEvent, pending}
use ops_captain.Ledger.Store.{Kept, InMemoryLedger, enter, create_task}
use ops_captain.Ledger.Retention.{IsKept, entered, enter-keeps}

abbrev no_tasks : Kept ℕ
no_tasks = record { items = []; order = [] }

no_tasks-IsKept : IsKept 2 no_tasks
unfolding lookup elem
no_tasks-IsKept = record {
  ordered = record { distinct = tt; covers = λ k. refl };
  bounded = omega arith;
}

abbrev two_tasks : Kept ℕ
two_tasks = enter 2 "b" 2 (enter 2 "a" 1 no_tasks)

two_tasks-IsKept : IsKept 2 two_tasks
two_tasks-IsKept =
    (enter-keeps 2 "b" 2 (enter 2 "a" 1 no_tasks) (omega arith)
      (enter-keeps 2 "a" 1 no_tasks (omega arith) no_tasks-IsKept).0).0

enter-keeps_example :
    IsKept 2 (enter 2 "c" 3 two_tasks)
    × (lookup "c" (enter 2 "c" 3 two_tasks).items ≡ some 3)
    × ((enter 2 "c" 3 two_tasks).order
        ≡ drop (length (entered "c" two_tasks) - 2) (entered "c" two_tasks))
enter-keeps_example = enter-keeps 2 "c" 3 two_tasks (omega arith) two_tasks-IsKept

abbrev small : InMemoryLedger ℕ ℕ
small = record {
  tasks = record { items = []; order = [] };
  results = record { items = []; order = [] };
  events = [];
  max_tasks = 2;
  max_results = 2;
  max_events = 2;
}

abbrev event : String → ℕ → TaskEvent ℕ
event id now = record {
  event_id = id;
  task_id = "t";
  trace_id = "r";
  kind = "log";
  agent = "";
  message = "";
  payload = [];
  created_at = now;
}

abbrev task : TaskEnvelope ℕ ℕ
task = record {
  task_id = "t";
  parent_task_id = "";
  session_id = "s";
  trace_id = "r";
  goal = "find the cause";
  assignee = "triage";
  creator = "user";
  intent = "";
  priority = "";
  status = pending;
  input = [];
  constraints = [];
  memory_refs = [];
  artifact_refs = [];
  created_at = 1;
  updated_at = 1;
  deadline_at = 0;
}

abbrev with_task : InMemoryLedger ℕ ℕ
with_task = create_task small task

abbrev two_events : InMemoryLedger ℕ ℕ
two_events = record small { events = event "2" 2 ∷ event "1" 1 ∷ [] }
