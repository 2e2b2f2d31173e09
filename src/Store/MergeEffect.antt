-- ===== src/Store/MergeEffect.antt =====
-- The whole effect of `ApplyMerge` of internal/server/storage/postgres/store.go.
use spool_rack.Prelude.{
  ℕ, true, Option, none, some, [], ◌∷◌, ◌≡◌, ◌≢◌, sym, subst, ap, ◌∙◌, ltb, bytes_eq, lookup,
  insert, delete, lookup-insert, eq_self, arith,
}
use spool_rack.Fault.{ok}
use spool_rack.Store.Tables.{normalize_object_format, Branch, CommitRow, PackRow, LeaseRow, Rows}
use spool_rack.Store.Commits.{NewCommit}
use spool_rack.Store.Leases.{
  ApplyMergeRequest, is_owner, names_lease, merge_row, merge_pack, apply_merge,
}
use spool_rack.Store.Ends.{advance-eq-ok, insert_commit-eq-ok, insert_range-eq-ok}
use spool_rack.Store.LeaseEnds.{check_lease-eq-ok, apply_merge-eq-ok}
use spool_rack.Store.History.{Steps-Grows}
use spool_rack.Store.Steps.{Steps}

-- the rows after a merge, written out
abbrev pub merged : ApplyMergeRequest → Branch → Rows → Rows
merged request old rows =
    let result : CommitRow = record {
      snapshot_root = request.snapshot_root;
      object_format = normalize_object_format request.commit_format;
      author = request.author;
      message = request.message;
      commit_time = request.commit_time;
      parents = request.target_commit_id ∷ request.source_commit_id ∷ [];
    } in
    let pack : PackRow = record {
      base = request.target_commit_id;
      target = request.result_commit_id;
      format = normalize_object_format request.pack_format;
    } in
    record {
      repository = rows.repository;
      commits = insert request.result_commit_id result rows.commits;
      branches =
          insert request.target_branch (record old { head = request.result_commit_id })
            rows.branches;
      pack_ranges = insert request.pack_hash pack rows.pack_ranges;
      leases = delete request.target_branch rows.leases;
      pushes = rows.pushes;
    }

-- If `ApplyMerge` succeeds, then the target branch was at the target commit, its lease belonged to the
-- caller, had not expired on the server's clock and named the request's three commits, and the result
-- was no commit before. It then registers the result with the target and the source as its parents,
-- records the pack between target and result, moves the branch to the result, deletes the lease, and
-- changes nothing else.
pub apply_merge_sound :
    (clock : ℕ) (request : ApplyMergeRequest) (rows after : Rows)
    → apply_merge clock request rows ≡ ok after
    → (old : Branch) × (lease : LeaseRow) × (lookup request.target_branch rows.branches ≡ some old)
      × (old.head ≡ request.target_commit_id)
      × (lookup request.target_branch rows.leases ≡ some lease)
      × (is_owner lease request.subject request.lease_token ≡ true)
      × (ltb clock lease.expires_at ≡ true)
      × (names_lease lease request ≡ true)
      × (lookup request.result_commit_id rows.commits ≡ none)
      × (after ≡ merged request old rows)
apply_merge_sound clock request rows after h =
    let (missed, registered, packed, advanced, checked, new, inserted, _, ranged, moved, is) =
      apply_merge-eq-ok clock request rows after h in
    let (lease, held, owned, valid, names) = check_lease-eq-ok clock request rows checked in
    let (is_registered, _) = insert_commit-eq-ok _ _ rows registered inserted in
    let (_, is_packed) = insert_range-eq-ok _ _ registered packed ranged in
    let (old, found, at_head, _, is_advanced) = advance-eq-ok missed _ _ _ packed advanced moved in
    let pack : Rows → Rows =
      λ r. record r { pack_ranges = insert request.pack_hash (merge_pack request) r.pack_ranges } in
    let new_branch : Branch = record old { head = request.result_commit_id } in
    let move : Rows → Rows =
      λ r. record r { branches = insert request.target_branch new_branch r.branches } in
    let release : Rows → Rows = λ r. record r { leases = delete request.target_branch r.leases } in
    let is_packed' = is_packed ∙ ap pack is_registered in
    let is_advanced' = is_advanced ∙ ap move is_packed' in
    (
      old,
      lease,
      subst (λ r. lookup request.target_branch r.branches ≡ some old) is_packed' found,
      at_head,
      held,
      owned,
      valid,
      names,
      new,
      is ∙ ap release is_advanced',
    )

-- Once a merge was applied, no merge to the same result commit is ever applied again, whatever
-- transactions come between.
pub apply_merge_once :
    (normalize : NewCommit → Option NewCommit) (clock clock' : ℕ)
    (request request' : ApplyMergeRequest) (rows after later final : Rows)
    → apply_merge clock request rows ≡ ok after
    → Steps normalize after later
    → request'.result_commit_id ≡ request.result_commit_id
    → apply_merge clock' request' later ≢ ok final
apply_merge_once normalize clock clock' request request' rows after later final h steps same h' =
    let (old, _, _, _, _, _, _, _, _, is) = apply_merge_sound clock request rows after h in
    let (_, _, _, _, _, _, _, _, new, _) = apply_merge_sound clock' request' later final h' in
    let grows = Steps-Grows normalize after later steps in
    let there : lookup request.result_commit_id after.commits ≡ some (merge_row request) =
      subst (λ r. lookup request.result_commit_id r.commits ≡ some (merge_row request)) (sym is)
        (ground (
          arith,
          lookup-insert request.result_commit_id request.result_commit_id (merge_row request)
              rows.commits,
          eq_self request.result_commit_id,
        )) in
    let still = grows.commits request.result_commit_id (merge_row request) there in
    cc (sym (subst (λ id. lookup id later.commits ≡ none) same new) ∙ still)
