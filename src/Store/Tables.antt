-- ===== src/Store/Tables.antt =====
-- The tables of internal/server/storage/postgres/migrations/0001_baseline.sql that store.go keeps
-- for one repository of one tenant: row-level security and the `repo_id` of every statement leave no
-- other row in sight. A table is the list of its rows under their primary key. The rows of
-- `commit_parents` stand in their commit's row, in the order of their positions. A time is a number
-- of seconds.
use spool_rack.Prelude.{
  ℕ, Bytes, Bool, true, false, ◌&&◌, ◌||◌, Option, none, some, List, [], ◌∷◌, ◌==◌, bytes_eq,
  nat_eq, list_beq, lookup, is_empty, if◌then◌else◌,
}

-- a row of `commits`
pub record CommitRow : Type 0 where
  pub snapshot_root : Bytes
  pub object_format : ℕ
  pub author : Bytes
  pub message : Bytes
  pub commit_time : ℕ
  pub parents : List Bytes

-- a row of `branches`
pub record Branch : Type 0 where
  pub head : Bytes
  pub deleted : Bool

-- a row of `pack_ranges`; an absent base is the empty string
pub record PackRow : Type 0 where
  pub base : Bytes
  pub target : Bytes
  pub format : ℕ

-- a row of `target_branch_merge_leases`
pub record LeaseRow : Type 0 where
  pub subject : Bytes
  pub token : Bytes
  pub source : Bytes
  pub target : Bytes
  pub base : Bytes
  pub expires_at : ℕ

-- a row of `native_push_transactions`
pub record PushRow : Type 0 where
  pub branch : Bytes
  pub base : Bytes
  pub target : Bytes
  pub committed : Bool

-- the repository's row in `repositories`
pub record Repository : Type 0 where
  pub default_branch : Option Bytes

pub record Rows : Type 0 where
  pub repository : Option Repository
  pub commits : List (Bytes × CommitRow)
  pub branches : List (Bytes × Branch)
  pub pack_ranges : List (Bytes × PackRow)
  pub leases : List (Bytes × LeaseRow)
  pub pushes : List (Bytes × PushRow)

-- `EXISTS (SELECT 1 …)`, for a key
abbrev pub is_some {ℓ} : {A : Type ℓ} → Option A → Bool
is_some none = false
is_some (some a) = true

unfoldable pub has_commit : Bytes → Rows → Bool
has_commit id rows = is_some (lookup id rows.commits)

unfoldable pub has_commits : List Bytes → Rows → Bool
has_commits [] rows = true
has_commits (id ∷ ids) rows = has_commit id rows && has_commits ids rows

-- a nullable foreign key
abbrev pub has_base : Bytes → Rows → Bool
has_base id rows = is_empty id || has_commit id rows

-- `validObjectFormat`
abbrev pub valid_object_format : ℕ → Bool
valid_object_format format = format == 0 || format == 1 || format == 2 || format == 3

-- `normalizeObjectFormat`
abbrev pub normalize_object_format : ℕ → ℕ
normalize_object_format format = if format == 0 then 1 else format

-- the check on the column `object_format`
abbrev pub is_stored_format : ℕ → Bool
is_stored_format format = format == 1 || format == 2 || format == 3

abbrev pub same_row : CommitRow → CommitRow → Bool
same_row a b =
    a.snapshot_root == b.snapshot_root
    && a.object_format == b.object_format
    && a.author == b.author
    && a.message == b.message
    && a.commit_time == b.commit_time
    && list_beq a.parents b.parents
