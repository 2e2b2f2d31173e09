-- ===== src/Store/Commits.antt =====
-- Commits and pack ranges of internal/server/storage/postgres/store.go: rows that are written once.
-- A function of a transaction gives the rows after it, or the error that rolls it back.
use spool_rack.Prelude.{
  ℕ, Bytes, Bool, false, ◌&&◌, not, Option, none, some, List, [], ◌∷◌, ◌==◌, bytes_eq, nat_eq,
  lookup, insert, ◌||◌, if◌then◌else◌,
}
use spool_rack.Fault.{
  Result, ok, err, ◌>>=◌, ◌>>◌, guard, from_option, immutable_metadata_mismatch, commit_not_found,
  refused, io_failure,
}
use spool_rack.Store.Tables.{
  CommitRow, PackRow, Rows, has_commit, has_commits, has_base, valid_object_format,
  normalize_object_format, is_stored_format, same_row,
}

-- A commit as its caller passes it; `graphcontract.Commit`.
pub record NewCommit : Type 0 where
  pub parents : List Bytes
  pub snapshot : Bytes
  pub author : Bytes
  pub message : Bytes
  pub time : ℕ

abbrev pub row_of : NewCommit → ℕ → CommitRow
row_of commit format = record {
  snapshot_root = commit.snapshot;
  object_format = format;
  author = commit.author;
  message = commit.message;
  commit_time = commit.time;
  parents = commit.parents;
}

-- The insertion of a commit and of its parents, whose foreign keys may name the commit itself.
unfoldable pub insert_commit : Bytes → CommitRow → Rows → Result Rows
insert_commit id row rows =
    let after = record rows { commits = insert id row rows.commits } in
    if is_stored_format row.object_format && has_commits row.parents after
    then ok after
    else err io_failure

abbrev pub put_row : Bytes → CommitRow → Option CommitRow → Rows → Result Rows
put_row id row none rows = insert_commit id row rows
put_row id row (some existing) rows =
    if same_row existing row then ok rows else err immutable_metadata_mismatch

-- `putCommitTx`; `normalize` is graphcontract's `Commit.Normalize`
unfoldable pub put_commit_tx :
    (NewCommit → Option NewCommit) → Bytes → NewCommit → ℕ → Rows → Result Rows
put_commit_tx normalize id commit format rows = do
  normalized ← from_option refused (normalize commit)
  put_row id (row_of normalized format) (lookup id rows.commits) rows

-- `PutCommitWithFormat`
unfoldable pub put_commit_with_format :
    (NewCommit → Option NewCommit) → Bytes → NewCommit → ℕ → Rows → Result Rows
put_commit_with_format normalize id commit format rows = do
  guard (valid_object_format format) refused
  put_commit_tx normalize id commit (normalize_object_format format) rows

-- another pack has the target
abbrev pub has_target : Bytes → List (Bytes × PackRow) → Bool
has_target target [] = false
has_target target ((hash, pack) ∷ packs) = pack.target == target || has_target target packs

-- The insertion of a range; the target of a pack is unique.
unfoldable pub insert_range : Bytes → PackRow → Rows → Result Rows
insert_range hash pack rows = do
  guard (is_stored_format pack.format) io_failure
  guard (not (has_target pack.target rows.pack_ranges)) io_failure
  guard (has_commit pack.target rows && has_base pack.base rows) io_failure
  ok (record rows { pack_ranges = insert hash pack rows.pack_ranges })

abbrev pub put_pack : Bytes → PackRow → Option PackRow → Rows → Result Rows
put_pack hash pack none rows = insert_range hash pack rows
put_pack hash pack (some existing) rows =
    if existing.base == pack.base
      && existing.target == pack.target
      && existing.format == pack.format
    then ok rows
    else err immutable_metadata_mismatch

-- `putPackRange`
unfoldable pub put_pack_range : Bytes → Bytes → Bytes → ℕ → Rows → Result Rows
put_pack_range hash base target format rows =
    put_pack hash (record { base = base; target = target; format = format })
      (lookup hash rows.pack_ranges) rows

-- `PutPackRangeWithFormat`
unfoldable pub put_pack_range_with_format : Bytes → Bytes → Bytes → ℕ → Rows → Result Rows
put_pack_range_with_format hash base target format rows = do
  guard (valid_object_format format) refused
  put_pack_range hash base target (normalize_object_format format) rows

-- `GetCommitSnapshotRoot`
unfoldable pub get_commit_snapshot_root : Bytes → Rows → Result Bytes
get_commit_snapshot_root id rows = do
  row ← from_option commit_not_found (lookup id rows.commits)
  ok row.snapshot_root

-- `CommitMetadata`
pub record CommitMetadata : Type 0 where
  pub id : Bytes
  pub snapshot_root : Bytes
  pub format : ℕ

-- `GetCommitMetadata`
unfoldable pub get_commit_metadata : Bytes → Rows → Result CommitMetadata
get_commit_metadata id rows = do
  row ← from_option commit_not_found (lookup id rows.commits)
  ok (record { id = id; snapshot_root = row.snapshot_root; format = row.object_format })
