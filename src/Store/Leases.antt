-- ===== src/Store/Leases.antt =====
-- Merge leases of internal/server/storage/postgres/store.go. Two clocks are read: the database's
-- (`now`) and the server's (`clock`).
use spool_rack.Prelude.{
  ℕ, Bytes, Bool, false, ◌&&◌, ◌||◌, not, Option, List, [], ◌∷◌, ◌+◌, ◌==◌, bytes_eq, nat_eq,
  lookup, insert, delete, ltb, is_empty,
}
use spool_rack.Fault.{
  Result, Done, ok, ◌>>=◌, ◌>>◌, guard, from_option, non_fast_forward, merge_lease_held,
  merge_lease_not_found, merge_lease_ownership, merge_lease_expired, merge_lease_mismatch,
  invalid_merge_lease, io_failure,
}
use spool_rack.Store.Tables.{
  CommitRow, LeaseRow, PackRow, Rows, is_some, has_commits, valid_object_format,
  normalize_object_format,
}
use spool_rack.Store.Commits.{insert_commit, insert_range}
use spool_rack.Store.Branches.{branch_head_for_update, advance, lease_held}

-- `MergeLeaseRequest`
pub record MergeLeaseRequest : Type 0 where
  pub target_branch : Bytes
  pub subject : Bytes
  pub source_commit_id : Bytes
  pub target_commit_id : Bytes
  pub base_commit_id : Bytes
  pub duration : ℕ

-- a lease of another branch has the token
abbrev pub token_in_use : Bytes → Bytes → List (Bytes × LeaseRow) → Bool
token_in_use name token [] = false
token_in_use name token ((other, lease) ∷ leases) =
    (not (other == name) && lease.token == token) || token_in_use name token leases

abbrev pub any_empty : List Bytes → Bool
any_empty [] = false
any_empty (id ∷ ids) = is_empty id || any_empty ids

abbrev pub lease_of : MergeLeaseRequest → Bytes → ℕ → LeaseRow
lease_of request token expires_at = record {
  subject = request.subject;
  token = token;
  source = request.source_commit_id;
  target = request.target_commit_id;
  base = request.base_commit_id;
  expires_at = expires_at;
}

-- `AcquireMergeLease`; `token` is what `newOpaqueToken` draws
unfoldable pub acquire_merge_lease :
    ℕ → Option Bytes → MergeLeaseRequest → Rows → Result (LeaseRow × Rows)
acquire_merge_lease now drawn request rows = do
  guard
      (not (
        any_empty (
          request.target_branch ∷ request.subject ∷ request.source_commit_id
          ∷ request.target_commit_id ∷ request.base_commit_id ∷ [])
        || request.duration == 0))
      invalid_merge_lease
  token ← from_option io_failure drawn
  head ← branch_head_for_update request.target_branch rows
  guard (head == request.target_commit_id) non_fast_forward
  guard (not (lease_held now request.target_branch rows)) merge_lease_held
  guard (not (token_in_use request.target_branch token rows.leases)) io_failure
  guard
      (has_commits
        (request.source_commit_id ∷ request.target_commit_id ∷ request.base_commit_id ∷ []) rows)
      io_failure
  let lease = lease_of request token (now + request.duration)
  ok (lease, record rows { leases = insert request.target_branch lease rows.leases })

abbrev pub is_owner : LeaseRow → Bytes → Bytes → Bool
is_owner lease subject token = lease.subject == subject && lease.token == token

-- `ValidateMergeLease`
unfoldable pub validate_merge_lease : ℕ → Bytes → Bytes → Bytes → Rows → Result LeaseRow
validate_merge_lease clock name subject token rows = do
  lease ← from_option merge_lease_not_found (lookup name rows.leases)
  guard (is_owner lease subject token) merge_lease_ownership
  guard (ltb clock lease.expires_at) merge_lease_expired
  ok lease

-- `ReleaseMergeLease`
unfoldable pub release_merge_lease : Bytes → Bytes → Bytes → Rows → Result Rows
release_merge_lease name subject token rows = do
  lease ← from_option merge_lease_not_found (lookup name rows.leases)
  guard (is_owner lease subject token) merge_lease_ownership
  ok (record rows { leases = delete name rows.leases })

-- `ApplyMergeRequest`
pub record ApplyMergeRequest : Type 0 where
  pub target_branch : Bytes
  pub subject : Bytes
  pub lease_token : Bytes
  pub source_commit_id : Bytes
  pub target_commit_id : Bytes
  pub base_commit_id : Bytes
  pub result_commit_id : Bytes
  pub snapshot_root : Bytes
  pub author : Bytes
  pub message : Bytes
  pub pack_hash : Bytes
  pub commit_format : ℕ
  pub pack_format : ℕ
  pub commit_time : ℕ

abbrev pub names_lease : LeaseRow → ApplyMergeRequest → Bool
names_lease lease request =
    lease.source == request.source_commit_id
    && lease.target == request.target_commit_id
    && lease.base == request.base_commit_id

-- the merge commit: its parents are the target and the source, in this order
abbrev pub merge_row : ApplyMergeRequest → CommitRow
merge_row request = record {
  snapshot_root = request.snapshot_root;
  object_format = normalize_object_format request.commit_format;
  author = request.author;
  message = request.message;
  commit_time = request.commit_time;
  parents = request.target_commit_id ∷ request.source_commit_id ∷ [];
}

abbrev pub merge_pack : ApplyMergeRequest → PackRow
merge_pack request = record {
  base = request.target_commit_id;
  target = request.result_commit_id;
  format = normalize_object_format request.pack_format;
}

abbrev pub is_complete : ApplyMergeRequest → Bool
is_complete request =
    not (
      any_empty (
        request.target_branch ∷ request.subject ∷ request.lease_token ∷ request.source_commit_id
        ∷ request.target_commit_id ∷ request.base_commit_id ∷ request.result_commit_id
        ∷ request.snapshot_root ∷ request.author ∷ request.message ∷ request.pack_hash ∷ []))
    && valid_object_format request.commit_format
    && valid_object_format request.pack_format

-- the lease's row as the request names it, checked
unfoldable pub check_lease : ℕ → ApplyMergeRequest → Rows → Done
check_lease clock request rows = do
  lease ← from_option merge_lease_not_found (lookup request.target_branch rows.leases)
  guard (is_owner lease request.subject request.lease_token) merge_lease_ownership
  guard (ltb clock lease.expires_at) merge_lease_expired
  guard (names_lease lease request) merge_lease_mismatch

-- `ApplyMerge`: neither the commit nor the pack may be there
unfoldable pub apply_merge : ℕ → ApplyMergeRequest → Rows → Result Rows
apply_merge clock request rows = do
  guard (is_complete request) invalid_merge_lease
  head ← branch_head_for_update request.target_branch rows
  guard (head == request.target_commit_id) non_fast_forward
  check_lease clock request rows
  guard (not (is_some (lookup request.result_commit_id rows.commits))) io_failure
  registered ← insert_commit request.result_commit_id (merge_row request) rows
  guard (not (is_some (lookup request.pack_hash registered.pack_ranges))) io_failure
  packed ← insert_range request.pack_hash (merge_pack request) registered
  advanced ←
      advance non_fast_forward request.target_branch request.target_commit_id
        request.result_commit_id packed
  ok (record advanced { leases = delete request.target_branch advanced.leases })
