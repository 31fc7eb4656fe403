-- ===== src/Lib.antt =====
-- Models and theorems of OpsCaptain, an assistant for operations: agents that talk to language models
-- investigate an incident, and the parts below keep the calls, the beliefs and the records in order.
--
-- The parts, and the file that models each (paths from the repository's root):
--
-- * utility/resilience/resilience.go, the guarded call. Resilience/Breaker: `CircuitBreaker` as a record,
--   `Allow`, `RecordSuccess`, `RecordFailure` as functions on it, `GetBreaker` on a map. A method holds
--   the mutex throughout, so it is one step; the time is an argument, in nanoseconds. Resilience/Call:
--   `Execute`, whose loop recurses on the number of rounds left, so no fuel can run out; the called
--   function, the context and the timers are the record `World`, what other callers do to the breaker
--   in between is a function. Resilience/Trips and Resilience/Retry hold the theorems.
-- * utility/resilience/semaphore.go, the limit on calls of the language model. Resilience/Slots: channels
--   by number with their capacity and use; a change of the configured size makes a new channel and leaves
--   the old one to its holders. The branch that `select` takes is an argument. Resilience/SlotBounds.
-- * internal/ai/incidentlifecycle/lifecycle.go. Incident/Lifecycle: `Transition`, `InferSeverity`,
--   `FormatDuration` (on numbers that are not negative); Incident/Graph: its arrows and runs.
-- * internal/ai/protocol. Protocol: the messages of types.go, with `map[string]any` values and
--   floating-point numbers as parameters; Protocol/Validate: `ValidateTaskResult` of validate.go, with
--   the theorem in Protocol/Valid.
-- * internal/ai/runtime, the record of tasks, results and events of Protocol that agents write.
--   Ledger/Store: `InMemoryLedger` of ledger.go; Ledger/Retention, Ledger/Events and Ledger/Answers hold
--   the theorems. Ledger/Remote and Ledger/RemoteReads: `RedisLedger` of redis_ledger.go, over commands
--   of Redis and a JSON that are parameters; Ledger/Records: the plain maps that it stands for,
--   with the events of a trace without their order;
--   Ledger/Keys: that its keys do not meet; Ledger/RemoteRefines, Ledger/RemoteRuns and
--   Ledger/RemoteAnswers relate the two, for a server that answers and has expired no key.
-- * internal/ai/service/approval_queue.go and approval_gate.go, the approval of risky actions.
--   Approval/Queue: `ApprovalQueue` over a Redis that is a parameter; Approval/Gate: the gate, its search
--   for keywords on fuel (one round more than the text has bytes, and each takes one away), and what it
--   queues; Approval/Moves, Approval/Reviews, Approval/Keywords and Approval/Decisions hold the theorems.
-- * internal/ai/actionexecutor/executor.go. Actions/Registry: `Registry` and `Execute`, where an executor
--   is a function, and a panic is the answer none; Actions/Prepared.
-- * internal/ai/alertcorrelation. Correlation/Engine: groups, services and first alerts; Correlation/Chains:
--   propagation chains, root causes and `Analyze`, with a panic as the answer none. Times are in
--   nanoseconds, confidences in hundredths, scores in tenths. Correlation/Windows, Correlation/Services,
--   Correlation/Causes and Correlation/Roots hold the theorems.
-- * internal/ai/cmdb/topology.go. Topology/Merge: `merge`; Topology/Serve: `filter` and the cache;
--   Topology/Edges, Topology/Nodes, Topology/Closed and Topology/Served hold the theorems.
-- * internal/ai/memory, the long-term memory. Memory/Store: the entries, the index by session and
--   eviction, whose loops run on as much fuel as there are candidates, one of which goes in each round;
--   Memory/Writes: `StoreWithOptions`, `Delete`, `Disable`, `Promote`. Memory/Indexed, Memory/Evicted,
--   Memory/Stored, Memory/Kept and Memory/Capacity hold the theorems.
-- * internal/ai/belief. Belief/Types, Belief/Graph (history and limits), Belief/Mutations (the methods
--   that change the graph), Belief/Update (`UpdateCopyOnWrite`), Belief/Queries, and Belief/Fsm, the machine
--   that drills into the graph's levels. What the code takes from elsewhere, such as the comparison
--   of floats, `%d` and the hashes, is the record `Outside`. Belief/Calls names the calls that a
--   sequence consists of, Belief/Rule reduces a property of all of them to elementary changes, and
--   Belief/Histories adds the updates on copies, interleaved. The order in which `topHypos` and the
--   frontier's loops visit the nodes is an argument. Belief/Invariant, Belief/Atomic, Belief/Effects,
--   Belief/Levels, Belief/Histories, Belief/Ranks and Belief/Drill hold the theorems.
-- * internal/infra/rabbitmq, handling a message once. Dedup/TtlSet: the set of ttl_set.go with its use in
--   deduper.go; Dedup/Shared: `RedisDeduper` over a server that is a parameter, `CompositeDeduper` over
--   the interface `Deduper`. Dedup/Claims, Dedup/Capacity and Dedup/Release hold the theorems.
-- * internal/ai/contextengine, what a prompt has room for. Context/Items: profiles and items;
--   Context/Memories: `selectMemories`, with Context/Budget; Context/History: `selectHistory`, whose map
--   of selected positions is a list of flags, with Context/Window. Estimates of tokens are parameters.
--
-- Base holds what they share: tests and lists over the native numbers, integers, maps as association
-- lists whose order stands for the iteration order, and a stable sort, where sort.Slice leaves the order
-- of equal elements open. The files named Scenarios and UpdateScenarios run the models on concrete data.
--
-- Numbers of the code that cannot be negative, and machine integers that only count up from 0 far below
-- their bound, are natural numbers; a number that may be negative is an integer. Not modelled: logging
-- and metrics other than the breaker's gauge, the texts of errors, the agents, tools, retrieval and
-- storage that the parts serve, which call services and models, and the HTTP layer.
mod Base
pub mod Resilience
pub mod Incident
pub mod Protocol
pub mod Ledger
pub mod Belief
pub mod Dedup
pub mod Context
pub mod Approval
pub mod Correlation
pub mod Topology
pub mod Memory
pub mod Actions
