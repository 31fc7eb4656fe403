-- ===== src/Resilience.antt =====
-- utility/resilience: the circuit breaker, the retrying call and the slots for model calls.
pub mod Breaker
pub mod Trips
pub mod Call
pub mod Retry
pub mod Slots
pub mod SlotBounds
mod Scenarios
