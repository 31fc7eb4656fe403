-- ===== src/Incident.antt =====
-- internal/ai/incidentlifecycle: the life of an incident and its severity.
pub mod Lifecycle
pub mod Graph
mod Scenarios
