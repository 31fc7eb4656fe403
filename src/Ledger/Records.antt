-- ===== src/Ledger/Records.antt =====
-- What the ledger of internal/ai/runtime/redis_ledger.go promises: plain records without a limit, and
-- the calls that write them.
use ops_captain.Base.{
  ℕ, ◌≡◌, String, Option, none, some, List, [], ◌∷◌, ◌++◌, In, str_eq, if◌then◌else◌,
}
use ops_captain.Protocol.{TaskEnvelope, TaskResult, TaskEvent, TaskStatus}
use ops_captain.Ledger.Remote.{
  Json, Remote, RedisLedger, LedgerError, is_blank, create_task, update_task_status, append_result,
  append_event,
}

module _ (Any F : Type 0) where
  -- The newest task and result under an identifier, the task of a trace that was created last, the
  -- children of a parent in the order of their creation, and the events of a trace.
  pub record Records : Type 0 where
    pub tasks : String → Option (TaskEnvelope Any F)
    pub results : String → Option (TaskResult Any F)
    pub of_trace : String → Option String
    pub children : String → List String
    pub events : String → List (TaskEvent Any)

  -- The calls that write, with the time of each.
  pub data LedgerCall : Type 0 where
    creates : (task : TaskEnvelope Any F) → LedgerCall
    sets_status : (task_id : String) (status : TaskStatus) (now : ℕ) → LedgerCall
    appends_result : (task_id : String) (result : TaskResult Any F) (now : ℕ) → LedgerCall
    appends_event : (event : TaskEvent Any) (now : ℕ) → LedgerCall

abbrev pub put_at {ℓ} : {A : Type ℓ} → (String → A) → String → A → String → A
put_at f key a other = if str_eq key other then a else f other

-- A value that JSON gives back.
abbrev pub IsCoded : {A : Type 0} → Json A → A → Type 0
IsCoded j a = (text : String) × (j.marshal a ≡ some text) × (j.unmarshal text ≡ some a)

-- A sorted set holds the texts of these events, and no others.
abbrev pub EventsIn : {A : Type 0} → Json A → Option (List String) → List A → Type 0
EventsIn {A} j reply events =
    (texts : List String) × (reply ≡ some texts)
    × ((x : String) → In x texts → (a : A) × (j.unmarshal x ≡ some a) × In a events)
    × ((a : A) → In a events → (x : String) × In x texts × (j.unmarshal x ≡ some a))

abbrev pub with_status : {Any F : Type 0} → TaskStatus → ℕ → TaskEnvelope Any F → TaskEnvelope Any F
with_status status now task = record task { status = status; updated_at = now }

module _ {S Any F : Type 0} (o : Remote S Any F) where
  unfoldable pub record_call : Records Any F → LedgerCall Any F → Records Any F
  record_call a (creates task) = if is_blank o task.task_id then a else record {
    tasks = put_at a.tasks task.task_id (some task);
    results = a.results;
    of_trace =
        if is_blank o task.trace_id
        then a.of_trace
        else put_at a.of_trace task.trace_id (some task.task_id);
    children =
        if is_blank o task.parent_task_id
        then a.children
        else put_at a.children task.parent_task_id
            (a.children task.parent_task_id ++ task.task_id ∷ []);
    events = a.events;
  }
  record_call a (sets_status task_id status now) =
      if is_blank o task_id then a else elim (a.tasks task_id) [
        | none ↦ a
        | some task ↦ record a {
          tasks = put_at a.tasks task_id (some (with_status status now task));
        }
      ]
  record_call a (appends_result task_id result now) =
      if is_blank o task_id
      then a
      else record a { results = put_at a.results task_id (some result) }
  record_call a (appends_event event now) = if is_blank o event.trace_id then a else record a {
    events = put_at a.events event.trace_id (a.events event.trace_id ++ event ∷ []);
  }

  unfoldable pub record_calls : Records Any F → List (LedgerCall Any F) → Records Any F
  unfolding record_call
  record_calls a [] = a
  record_calls a (call ∷ calls) = record_calls (record_call a call) calls

  -- What the calls write is given back by JSON.
  abbrev pub AreCoded : Records Any F → LedgerCall Any F → Type 0
  AreCoded a (creates task) = IsCoded o.tasks task
  AreCoded a (sets_status task_id status now) =
      (task : TaskEnvelope Any F)
      → a.tasks task_id ≡ some task
      → IsCoded o.tasks (with_status status now task)
  AreCoded a (appends_result task_id result now) = IsCoded o.results result
  AreCoded a (appends_event event now) = IsCoded o.events event

  abbrev pub AllCoded : Records Any F → List (LedgerCall Any F) → Type 0
  AllCoded a [] = Unit
  AllCoded a (call ∷ calls) = AreCoded a call × AllCoded (record_call a call) calls

  module _ (l : RedisLedger) where
    unfoldable pub perform : S → LedgerCall Any F → S × Option LedgerError
    unfolding create_task update_task_status append_result append_event
    perform s (creates task) = create_task o l s task
    perform s (sets_status task_id status now) = update_task_status o l s task_id status now
    perform s (appends_result task_id result now) = append_result o l s task_id result now
    perform s (appends_event event now) = append_event o l s event now

    unfoldable pub perform_all : S → List (LedgerCall Any F) → S
    unfolding perform
    perform_all s [] = s
    perform_all s (call ∷ calls) = perform_all (perform s call).0 calls
