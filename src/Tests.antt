-- ===== src/Tests.antt =====
-- Concrete inputs.
pub mod Fixtures
pub mod Packs
mod SyncRuns
mod EnvelopeRuns
mod DiskRuns
mod GatewayRuns
mod RetentionRuns
mod ReviewRuns
pub mod Repository
mod StoreRuns
mod HistoryRuns
mod PushRuns
