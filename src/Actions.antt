-- ===== src/Actions.antt =====
-- internal/ai/actionexecutor/executor.go: the actions that can be run, and their parameters.
pub mod Registry
pub mod Prepared
mod Scenarios
