-- ===== src/Tests/StoreRuns.antt =====
-- The properties of the metadata store, at a repository of three commits and two branches.
use spool_rack.Prelude.{
  codes, true, false, none, some, [], ◌∷◌, ◌≡◌, ◌≢◌, refl, ltb, bytes_beq, bytes_eq, lookup, insert,
  delete,
}
use spool_rack.Fault.{ok}
use spool_rack.Store.Tables.{Branch, LeaseRow, Rows, has_commit, has_commits}
use spool_rack.Store.Commits.{insert_commit, insert_range, put_commit_tx}
use spool_rack.Store.Branches.{branch_head_for_update, advance, delete_branch}
use spool_rack.Store.Leases.{ApplyMergeRequest, check_lease, apply_merge, is_owner, names_lease}
use spool_rack.Store.NativePush.{
  NativePushPublication, NativePushResult, put_commits, publish_claimed, publish_native_push,
}
use spool_rack.Store.Steps.{applies, deletes, stop, step}
use spool_rack.Store.Growth.{Grows}
use spool_rack.Store.History.{Steps-Grows}
use spool_rack.Store.Exclusion.{KeepsLease, KeepsHead}
use spool_rack.Store.HeadStays.{lease_protects}
use spool_rack.Store.MergeEffect.{merged, apply_merge_sound, apply_merge_once}
use spool_rack.Store.Retry.{applied, publish_again}
use spool_rack.Tests.Repository.{
  c1, c2, c3, c4, main, dev, a_row, main_branch, a_lease, the_rows, without_dev,
}
use spool_rack.Prelude.{inl}
use spool_rack.Store.DefaultBranch.{IsLiveDefault, Steps-IsLiveDefault}

dev_deleted : delete_branch dev the_rows the_rows ≡ ok without_dev
unfolding delete_branch lookup insert bytes_beq
dev_deleted = refl

abbrev a_merge : ApplyMergeRequest
a_merge = record {
  target_branch = main;
  subject = codes "ann";
  lease_token = codes "key";
  source_commit_id = c3;
  target_commit_id = c2;
  base_commit_id = c1;
  result_commit_id = c4;
  snapshot_root = codes "root";
  author = codes "ann";
  message = codes "merge";
  pack_hash = codes "pack";
  commit_format = 2;
  pack_format = 2;
  commit_time = 2;
}

abbrev after_merge : Rows
after_merge = merged a_merge main_branch the_rows

merge_applied : apply_merge 50 a_merge the_rows ≡ ok after_merge
unfolding apply_merge branch_head_for_update check_lease insert_commit insert_range advance
    has_commit has_commits lookup insert delete bytes_beq
merge_applied = refl

-- the branch is deleted, then the merge is applied
Steps-Grows_example : Grows the_rows without_dev
Steps-Grows_example =
    Steps-Grows some the_rows without_dev (step (deletes dev the_rows dev_deleted) stop)

lease_protects_example :
    KeepsLease {normalize = some} main a_lease (applies 50 a_merge merge_applied)
    × KeepsHead {normalize = some} main a_lease main_branch (applies 50 a_merge merge_applied)
lease_protects_example =
    lease_protects {normalize = some} the_rows after_merge main a_lease main_branch
      (applies 50 a_merge merge_applied) (unfold lookup bytes_beq in refl)
      (unfold lookup bytes_beq in refl)

apply_merge_sound_example :
    (old : Branch) × (lease : LeaseRow) × (lookup main the_rows.branches ≡ some old)
    × (old.head ≡ c2)
    × (lookup main the_rows.leases ≡ some lease)
    × (is_owner lease (codes "ann") (codes "key") ≡ true)
    × (ltb 50 lease.expires_at ≡ true)
    × (names_lease lease a_merge ≡ true)
    × (lookup c4 the_rows.commits ≡ none)
    × (after_merge ≡ merged a_merge old the_rows)
apply_merge_sound_example = apply_merge_sound 50 a_merge the_rows after_merge merge_applied

apply_merge_once_example : apply_merge 60 a_merge after_merge ≢ ok after_merge
apply_merge_once_example =
    apply_merge_once some 50 60 a_merge a_merge the_rows after_merge after_merge after_merge
      merge_applied stop refl

abbrev a_publication : NativePushPublication
a_publication = record {
  branch = dev;
  idempotency_key = codes "pack";
  base_commit = c3;
  target_commit = c4;
  commits =
      record {
        id = c4;
        commit = record {
          parents = c3 ∷ [];
          snapshot = codes "root";
          author = codes "ann";
          message = codes "more";
          time = 2;
        };
        format = 3;
      }
      ∷ [];
}

abbrev after_push : Rows
after_push = record the_rows {
  commits =
      (c1, a_row [])
      ∷ (c2, a_row (c1 ∷ []))
      ∷ (c3, a_row (c1 ∷ []))
      ∷ (
        c4,
        record {
          snapshot_root = codes "root";
          object_format = 3;
          author = codes "ann";
          message = codes "more";
          commit_time = 2;
          parents = c3 ∷ [];
        },
      )
      ∷ [];
  branches = (main, main_branch) ∷ (dev, record { head = c4; deleted = false }) ∷ [];
  pushes = (codes "pack", record { branch = dev; base = c3; target = c4; committed = true }) ∷ [];
}

abbrev first_result : NativePushResult
first_result = record { already_applied = false; head = c4 }

push_published : publish_native_push some a_publication the_rows ≡ ok (first_result, after_push)
unfolding publish_native_push publish_claimed put_commits put_commit_tx insert_commit advance
    branch_head_for_update has_commit has_commits lookup insert bytes_beq
push_published = refl

-- A native push moves a branch that a merge lease owns.
leased_main_pushed :
    (after : Rows) × (publish_native_push some
        (record a_publication { branch = main; base_commit = c2 })
        the_rows
      ≡ ok (first_result, after))
unfolding publish_native_push publish_claimed put_commits put_commit_tx insert_commit advance
    branch_head_for_update has_commit has_commits lookup insert bytes_beq
leased_main_pushed = (_, refl)

publish_again_example :
    publish_native_push some a_publication after_push ≡ ok (applied a_publication, after_push)
publish_again_example =
    publish_again some a_publication first_result the_rows after_push after_push push_published stop

live_main : IsLiveDefault main the_rows.repository the_rows.branches
unfolding lookup bytes_beq
live_main = ((_, refl, refl), (main_branch, refl, refl))

Steps-IsLiveDefault_example : IsLiveDefault main without_dev.repository without_dev.branches
Steps-IsLiveDefault_example =
    Steps-IsLiveDefault some main the_rows without_dev
      (step (deletes dev the_rows dev_deleted) stop) (inl refl, tt) live_main
