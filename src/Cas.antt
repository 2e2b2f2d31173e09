-- ===== src/Cas.antt =====
-- internal/server/storage/cas: the content-addressed store.
pub mod Scope
pub mod Segment
pub mod Local
pub mod Files
pub mod Isolation
pub mod Integrity
pub mod Objects
pub mod Packs
