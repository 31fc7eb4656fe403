-- ===== src/Ledger.antt =====
-- internal/ai/runtime/ledger.go: the bounded record of tasks, results and events.
pub mod Store
pub mod Remote
pub mod RemoteReads
pub mod Keys
pub mod Records
pub mod RemoteRefines
pub mod RemoteRuns
pub mod RemoteAnswers
pub mod Retention
pub mod Events
pub mod Answers
mod RemoteScenarios
mod Scenarios
