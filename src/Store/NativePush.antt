-- ===== src/Store/NativePush.antt =====
-- `PublishNativePush` of internal/server/storage/postgres/store.go.
use spool_rack.Prelude.{
  ℕ, Bytes, Bool, true, false, ◌&&◌, ◌||◌, not, Option, none, some, List, [], ◌∷◌, ◌==◌, bytes_eq,
  lookup, insert, is_empty,
}
use spool_rack.Fault.{
  Result, ok, ◌>>=◌, ◌>>◌, guard, non_fast_forward_head, idempotency_conflict, invalid_native_push,
  refused,
}
use spool_rack.Store.Tables.{PushRow, Rows}
use spool_rack.Store.Commits.{NewCommit, put_commit_tx}
use spool_rack.Store.Branches.{branch_head_for_update, advance}
use spool_rack.Store.Leases.{any_empty}

-- `NativePushCommit`
pub record NativePushCommit : Type 0 where
  pub id : Bytes
  pub commit : NewCommit
  pub format : ℕ

-- `NativePushPublication`
pub record NativePushPublication : Type 0 where
  pub branch : Bytes
  pub idempotency_key : Bytes
  pub base_commit : Bytes
  pub target_commit : Bytes
  pub commits : List NativePushCommit

-- `NativePushResult`
pub record NativePushResult : Type 0 where
  pub already_applied : Bool
  pub head : Bytes

-- the key was claimed before; a pending row is never committed, so it is not expected
unfoldable pub replay : NativePushPublication → PushRow → Result NativePushResult
replay publication existing = do
  guard
      (existing.branch == publication.branch
        && existing.base == publication.base_commit
        && existing.target == publication.target_commit)
      idempotency_conflict
  guard existing.committed refused
  ok (record { already_applied = true; head = existing.target })

abbrev pub push_row : NativePushPublication → Bool → PushRow
push_row publication committed = record {
  branch = publication.branch;
  base = publication.base_commit;
  target = publication.target_commit;
  committed = committed;
}

abbrev pub set_push : NativePushPublication → Bool → Rows → Rows
set_push publication committed rows = record rows {
  pushes = insert publication.idempotency_key (push_row publication committed) rows.pushes;
}

abbrev pub is_publishable : NativePushPublication → Bool
is_publishable publication = not (
    any_empty (
      publication.branch ∷ publication.idempotency_key ∷ publication.base_commit
      ∷ publication.target_commit ∷ [])
    || is_empty publication.commits)

module _ (normalize : NewCommit → Option NewCommit) where
  unfoldable pub put_commits : List NativePushCommit → Rows → Result Rows
  put_commits [] rows = ok rows
  put_commits (first ∷ others) rows = do
    after ← put_commit_tx normalize first.id first.commit first.format rows
    put_commits others after

  -- the rest of the transaction, once the key is claimed
  unfoldable pub publish_claimed : NativePushPublication → Rows → Result Rows
  publish_claimed publication rows = do
    head ← branch_head_for_update publication.branch rows
    guard (head == publication.base_commit) (non_fast_forward_head head)
    registered ← put_commits publication.commits rows
    advanced ←
        advance (non_fast_forward_head head) publication.branch publication.base_commit
          publication.target_commit registered
    ok (set_push publication true advanced)

  abbrev pub publish_under :
      NativePushPublication → Option PushRow → Rows → Result (NativePushResult × Rows)
  publish_under publication (some existing) rows = do
    result ← replay publication existing
    ok (result, rows)
  publish_under publication none rows = do
    after ← publish_claimed publication (set_push publication false rows)
    ok (record { already_applied = false; head = publication.target_commit }, after)

  -- `PublishNativePush`
  unfoldable pub publish_native_push :
      NativePushPublication → Rows → Result (NativePushResult × Rows)
  publish_native_push publication rows = do
    guard (is_publishable publication) invalid_native_push
    publish_under publication (lookup publication.idempotency_key rows.pushes) rows
