-- ===== src/Push.antt =====
-- The push engine of internal/server/sync/push.go.
pub mod Effect
pub mod Interfaces
pub mod Checks
pub mod Engine
pub mod Heads
pub mod Delivered
pub mod Fates
pub mod Outcome
pub mod Postgres
