-- ===== src/Memory.antt =====
-- internal/ai/memory: what the assistant remembers across conversations.
pub mod Store
pub mod Writes
pub mod Indexed
pub mod Evicted
pub mod Stored
pub mod Kept
pub mod Capacity
mod Scenarios
