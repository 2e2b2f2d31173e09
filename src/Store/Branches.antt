-- ===== src/Store/Branches.antt =====
-- Branches of internal/server/storage/postgres/store.go.
use spool_rack.Prelude.{
  ℕ, Bytes, Bool, true, false, not, Option, none, some, List, [], ◌∷◌, ◌==◌, bytes_eq, lookup,
  insert, ltb,
}
use spool_rack.Prelude.Sort.{sort_by}
use spool_rack.Fault.{
  Error, Result, ok, ◌>>=◌, ◌>>◌, guard, from_option, branch_not_found, branch_already_exists,
  commit_not_found, repository_not_found, non_fast_forward, merge_lease_held,
  default_branch_protected, default_branch_not_set, io_failure,
}
use spool_rack.Retention.Defs.{BranchRef}
use spool_rack.Store.Tables.{Branch, LeaseRow, Rows, is_some, has_commit}

-- the default branch is set with the first branch, and stays
abbrev pub or_first : Option Bytes → Bytes → Option Bytes
or_first none name = some name
or_first (some default) name = some default

-- `CreateBranch`
unfoldable pub create_branch : Bytes → Bytes → Rows → Result Rows
create_branch name head rows = do
  repository ← from_option repository_not_found rows.repository
  guard (not (is_some (lookup name rows.branches))) branch_already_exists
  guard (has_commit head rows) commit_not_found
  ok (record rows {
    branches = insert name (record { head = head; deleted = false }) rows.branches;
    repository = some (record { default_branch = or_first repository.default_branch name });
  })

-- `branchHeadForUpdate`
unfoldable pub branch_head_for_update : Bytes → Rows → Result Bytes
branch_head_for_update name rows = do
  branch ← from_option branch_not_found (lookup name rows.branches)
  ok branch.head

-- `GetBranchRef`
unfoldable pub get_branch_ref : Bytes → Rows → Result Bytes
get_branch_ref name rows = do
  branch ← from_option branch_not_found (lookup name rows.branches)
  ok branch.head

-- `UPDATE branches SET head_commit_id = … WHERE name = … AND head_commit_id = …`; no row is an error
unfoldable pub advance : Error → Bytes → Bytes → Bytes → Rows → Result Rows
advance missed name expected target rows = do
  branch ← from_option missed (lookup name rows.branches)
  guard (branch.head == expected) missed
  guard (has_commit target rows) io_failure
  ok (record rows { branches = insert name (record branch { head = target }) rows.branches })

abbrev pub is_held : ℕ → Option LeaseRow → Bool
is_held now none = false
is_held now (some lease) = ltb now lease.expires_at

-- an unexpired lease owns the branch
unfoldable pub lease_held : ℕ → Bytes → Rows → Bool
lease_held now name rows = is_held now (lookup name rows.leases)

-- `CompareAndSwapBranchRef`; `now` is the database's clock
unfoldable pub compare_and_swap_branch_ref : ℕ → Bytes → Bytes → Bytes → Rows → Result Rows
compare_and_swap_branch_ref now name expected target rows = do
  head ← branch_head_for_update name rows
  guard (head == expected) non_fast_forward
  guard (not (lease_held now name rows)) merge_lease_held
  advance non_fast_forward name expected target rows

abbrev pub is_default : Option Bytes → Bytes → Bool
is_default none name = false
is_default (some default) name = default == name

-- `DeleteBranch`: the row stays, with its head. The default branch is read without a lock, in a
-- statement before the update, so that `seen` may be older than `rows`.
unfoldable pub delete_branch : Bytes → (seen rows : Rows) → Result Rows
delete_branch name seen rows = do
  repository ← from_option repository_not_found seen.repository
  guard (not (is_default repository.default_branch name)) default_branch_protected
  branch ← from_option branch_not_found (lookup name rows.branches)
  guard (not branch.deleted) branch_not_found
  ok (record rows { branches = insert name (record branch { deleted = true }) rows.branches })

abbrev pub refs_of : List (Bytes × Branch) → List BranchRef
refs_of [] = []
refs_of ((name, branch) ∷ branches) =
    record { name = name; head_commit_id = branch.head; deleted = branch.deleted }
    ∷ refs_of branches

-- `ListBranchRefs`
unfoldable pub list_branch_refs : Rows → List BranchRef
list_branch_refs rows = sort_by (λ ref. ref.name) (refs_of rows.branches)

-- `GetDefaultBranch`
unfoldable pub get_default_branch : Rows → Result BranchRef
get_default_branch rows = do
  repository ← from_option repository_not_found rows.repository
  name ← from_option default_branch_not_set repository.default_branch
  branch ← from_option branch_not_found (lookup name rows.branches)
  ok (record { name = name; head_commit_id = branch.head; deleted = branch.deleted })
