-- ===== src/Correlation.antt =====
-- internal/ai/alertcorrelation: which alerts belong together, and what caused them.
pub mod Engine
pub mod Chains
pub mod Windows
pub mod Services
pub mod Causes
pub mod Roots
mod Scenarios
