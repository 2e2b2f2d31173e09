-- ===== src/Retention.antt =====
-- internal/server/retention: which native packs a collection keeps and which it deletes.
pub mod Defs
pub mod Safety
pub mod Sets
pub mod Reach
pub mod DryRun
