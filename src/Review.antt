-- ===== src/Review.antt =====
-- internal/server/review: the three-way merge preview.
pub mod Defs
pub mod ThreeWay
pub mod Merge
pub mod Snapshots
pub mod Values
pub mod Tokens
pub mod Preview
