-- ===== src/Context.antt =====
-- internal/ai/contextengine: choosing what a prompt has room for.
pub mod Items
pub mod Memories
pub mod Budget
pub mod History
pub mod Window
mod Scenarios
