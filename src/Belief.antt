-- ===== src/Belief.antt =====
-- internal/ai/belief: the graph of beliefs about an incident, and the machine that drills into it.
pub mod Types
pub mod Graph
pub mod Mutations
pub mod Calls
pub mod Rule
pub mod Invariant
pub mod Update
pub mod Atomic
pub mod Effects
pub mod Queries
pub mod Fsm
pub mod Drill
pub mod Levels
pub mod Histories
pub mod Ranks
mod Scenarios
mod UpdateScenarios
