-- ===== src/Dedup.antt =====
-- internal/infra/rabbitmq: handling each message once.
pub mod TtlSet
pub mod Claims
pub mod Capacity
pub mod Shared
pub mod Release
mod Scenarios
