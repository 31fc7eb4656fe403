-- ===== src/Approval.antt =====
-- internal/ai/service/approval_queue.go and approval_gate.go: the human approval of risky actions.
pub mod Queue
pub mod Moves
pub mod Reviews
pub mod Gate
pub mod Keywords
pub mod Decisions
mod Scenarios
