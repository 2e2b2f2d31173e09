-- ===== src/Store/Steps.antt =====
-- The transactions of internal/server/storage/postgres/store.go that write, as steps from the rows
-- before to the rows after. A transaction that returns an error is rolled back and is no step. The
-- rows that a delete has seen may be any; what the others read and write is taken as one moment.
use spool_rack.Prelude.{ℕ, Bytes, Option, ◌≡◌}
use spool_rack.Fault.{ok}
use spool_rack.Store.Tables.{LeaseRow, Rows}
use spool_rack.Store.Commits.{NewCommit, put_commit_tx, put_pack_range}
use spool_rack.Store.Branches.{create_branch, compare_and_swap_branch_ref, delete_branch}
use spool_rack.Store.Leases.{
  MergeLeaseRequest, ApplyMergeRequest, acquire_merge_lease, release_merge_lease, apply_merge,
}
use spool_rack.Store.NativePush.{NativePushPublication, NativePushResult, publish_native_push}

module _ (normalize : NewCommit → Option NewCommit) where
  pub data Step : Rows → Rows → Type 0 where
    puts_commit :
        (id : Bytes) (commit : NewCommit) (format : ℕ) {rows after : Rows}
        → put_commit_tx normalize id commit format rows ≡ ok after
        → Step rows after
    puts_range :
        (hash base target : Bytes) (format : ℕ) {rows after : Rows}
        → put_pack_range hash base target format rows ≡ ok after
        → Step rows after
    creates :
        (name head : Bytes) {rows after : Rows}
        → create_branch name head rows ≡ ok after
        → Step rows after
    swaps :
        (now : ℕ) (name expected target : Bytes) {rows after : Rows}
        → compare_and_swap_branch_ref now name expected target rows ≡ ok after
        → Step rows after
    deletes :
        (name : Bytes) (seen : Rows) {rows after : Rows}
        → delete_branch name seen rows ≡ ok after
        → Step rows after
    acquires :
        (now : ℕ) (drawn : Option Bytes) (request : MergeLeaseRequest) (lease : LeaseRow)
        {rows after : Rows}
        → acquire_merge_lease now drawn request rows ≡ ok (lease, after)
        → Step rows after
    releases :
        (name subject token : Bytes) {rows after : Rows}
        → release_merge_lease name subject token rows ≡ ok after
        → Step rows after
    applies :
        (clock : ℕ) (request : ApplyMergeRequest) {rows after : Rows}
        → apply_merge clock request rows ≡ ok after
        → Step rows after
    publishes :
        (publication : NativePushPublication) (result : NativePushResult) {rows after : Rows}
        → publish_native_push normalize publication rows ≡ ok (result, after)
        → Step rows after

  -- any number of steps
  pub data Steps : Rows → Rows → Type 0 where
    stop : {rows : Rows} → Steps rows rows
    step : {rows middle after : Rows} → Step rows middle → Steps middle after → Steps rows after
