-- ===== src/Store.antt =====
-- internal/server/storage/postgres/store.go, over the tables of migrations/0001_baseline.sql.
pub mod Tables
pub mod Commits
pub mod Branches
pub mod Leases
pub mod NativePush
pub mod Ends
pub mod LeaseEnds
pub mod Steps
pub mod Growth
pub mod History
pub mod MergeEffect
pub mod Exclusion
pub mod LeaseStays
pub mod HeadStays
pub mod Retry
pub mod DefaultBranch
pub mod Ancestry
pub mod AncestryEnds
pub mod AncestryReach
pub mod Retained
pub mod CommonAncestor
pub mod CommonSound
pub mod Lowest
