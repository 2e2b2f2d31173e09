-- ===== src/Store/Ends.antt =====
-- What a transaction of the store went through when it was committed.
use spool_rack.Prelude.{
  ℕ, Bytes, true, false, not, Option, none, some, ◌≡◌, refl, ◌⊎◌, inl, inr, bytes_eq, nat_eq,
  eq_of_beq, lookup, insert, arith, subst, sym, not-true,
}
use spool_rack.Fault.{
  Error, ok, bind-eq-ok, then-eq-ok, guard-eq-ok, from_option-eq-ok, non_fast_forward,
}
use spool_rack.Store.Tables.{
  CommitRow, Branch, PackRow, Repository, Rows, is_some, has_commit, has_commits,
}
use spool_rack.Store.Commits.{
  NewCommit, insert_commit, insert_range, put_row, put_commit_tx, row_of, put_pack_range, put_pack,
}
use spool_rack.Store.Branches.{
  create_branch, branch_head_for_update, advance, compare_and_swap_branch_ref, delete_branch,
  lease_held, or_first, is_default,
}

pub is_some-none {ℓ} : {A : Type ℓ} (o : Option A) → not (is_some o) ≡ true → o ≡ none
is_some-none none h = refl
is_some-none (some a) h = cc

-- The branch was at the expected head and the new head is a commit.
pub advance-eq-ok :
    (missed : Error) (name expected target : Bytes) (rows after : Rows)
    → advance missed name expected target rows ≡ ok after
    → (branch : Branch) × (lookup name rows.branches ≡ some branch)
      × (branch.head ≡ expected)
      × (has_commit target rows ≡ true)
      × (after
          ≡ record rows { branches = insert name (record branch { head = target }) rows.branches })
unfolding advance
advance-eq-ok missed name expected target rows after h =
    let (branch, found, k) = bind-eq-ok _ _ h in
    let (at_head, m) = then-eq-ok _ _ k in
    let (there, done) = then-eq-ok _ _ m in
    (
      branch,
      from_option-eq-ok missed (lookup name rows.branches) found,
      eq_of_beq branch.head expected (guard-eq-ok _ _ at_head),
      guard-eq-ok _ _ there,
      cc,
    )

pub branch_head-eq-ok :
    (name head : Bytes) (rows : Rows)
    → branch_head_for_update name rows ≡ ok head
    → (branch : Branch) × (lookup name rows.branches ≡ some branch) × (branch.head ≡ head)
unfolding branch_head_for_update
branch_head-eq-ok name head rows h =
    let (branch, found, k) = bind-eq-ok _ _ h in
    (branch, from_option-eq-ok _ (lookup name rows.branches) found, cc)

pub insert_commit-eq-ok :
    (id : Bytes) (row : CommitRow) (rows after : Rows)
    → insert_commit id row rows ≡ ok after
    → (after ≡ record rows { commits = insert id row rows.commits })
      × (has_commits row.parents after ≡ true)
unfolding insert_commit
insert_commit-eq-ok id row rows after h = ground arith

pub insert_range-eq-ok :
    (hash : Bytes) (pack : PackRow) (rows after : Rows)
    → insert_range hash pack rows ≡ ok after
    → (has_commit pack.target rows ≡ true)
      × (after ≡ record rows { pack_ranges = insert hash pack rows.pack_ranges })
unfolding insert_range
insert_range-eq-ok hash pack rows after h = ground arith

-- A committed `putCommitTx` found the same row, or inserted it where there was none.
pub put_commit_tx-eq-ok :
    (normalize : NewCommit → Option NewCommit) (id : Bytes) (commit : NewCommit) (format : ℕ)
    (rows after : Rows)
    → put_commit_tx normalize id commit format rows ≡ ok after
    → (normal : NewCommit) × (normalize commit ≡ some normal)
      × ((after ≡ rows)
          ⊎ ((lookup id rows.commits ≡ none)
              × (insert_commit id (row_of normal format) rows ≡ ok after)))
unfolding put_commit_tx
put_commit_tx-eq-ok normalize id commit format rows after h =
    let (normal, is_normal, k) = bind-eq-ok _ _ h in
    (
      normal,
      from_option-eq-ok _ (normalize commit) is_normal,
      put_row-cases (row_of normal format) (lookup id rows.commits) k,
    )
  where
    put_row-cases :
        (row : CommitRow) (existing : Option CommitRow)
        → put_row id row existing rows ≡ ok after
        → (after ≡ rows) ⊎ ((existing ≡ none) × (insert_commit id row rows ≡ ok after))
    put_row-cases row none k = inr (refl, k)
    put_row-cases row (some existing) k = inl (ground arith)

pub put_pack_range-eq-ok :
    (hash base target : Bytes) (format : ℕ) (rows after : Rows)
    → put_pack_range hash base target format rows ≡ ok after
    → (after ≡ rows)
      ⊎ ((lookup hash rows.pack_ranges ≡ none)
          × (insert_range hash (record { base = base; target = target; format = format }) rows
              ≡ ok after))
unfolding put_pack_range
put_pack_range-eq-ok hash base target format rows after h =
    put_pack-cases (record { base = base; target = target; format = format })
      (lookup hash rows.pack_ranges) h
  where
    put_pack-cases :
        (pack : PackRow) (existing : Option PackRow)
        → put_pack hash pack existing rows ≡ ok after
        → (after ≡ rows) ⊎ ((existing ≡ none) × (insert_range hash pack rows ≡ ok after))
    put_pack-cases pack none k = inr (refl, k)
    put_pack-cases pack (some existing) k = inl (ground arith)

pub create_branch-eq-ok :
    (name head : Bytes) (rows after : Rows)
    → create_branch name head rows ≡ ok after
    → (repository : Repository) × (rows.repository ≡ some repository)
      × (lookup name rows.branches ≡ none)
      × (has_commit head rows ≡ true)
      × (after ≡ record rows {
        branches = insert name (record { head = head; deleted = false }) rows.branches;
        repository = some (record { default_branch = or_first repository.default_branch name });
      })
unfolding create_branch
create_branch-eq-ok name head rows after h =
    let (repository, found, k) = bind-eq-ok _ _ h in
    let (fresh, m) = then-eq-ok _ _ k in
    let (there, done) = then-eq-ok _ _ m in
    (
      repository,
      from_option-eq-ok _ rows.repository found,
      is_some-none (lookup name rows.branches) (guard-eq-ok _ _ fresh),
      guard-eq-ok _ _ there,
      cc,
    )

pub delete_branch-eq-ok :
    (name : Bytes) (seen rows after : Rows)
    → delete_branch name seen rows ≡ ok after
    → (repository : Repository) × (branch : Branch) × (seen.repository ≡ some repository)
      × (is_default repository.default_branch name ≡ false)
      × (lookup name rows.branches ≡ some branch)
      × (branch.deleted ≡ false)
      × (after
          ≡ record rows { branches = insert name (record branch { deleted = true }) rows.branches })
unfolding delete_branch
delete_branch-eq-ok name seen rows after h =
    let (repository, found, k) = bind-eq-ok _ _ h in
    let (other, m) = then-eq-ok _ _ k in
    let (branch, there, n) = bind-eq-ok _ _ m in
    let (live, done) = then-eq-ok _ _ n in
    (
      repository,
      branch,
      from_option-eq-ok _ seen.repository found,
      not-true (is_default repository.default_branch name) (guard-eq-ok _ _ other),
      from_option-eq-ok _ (lookup name rows.branches) there,
      not-true branch.deleted (guard-eq-ok _ _ live),
      cc,
    )

pub compare_and_swap-eq-ok :
    (now : ℕ) (name expected target : Bytes) (rows after : Rows)
    → compare_and_swap_branch_ref now name expected target rows ≡ ok after
    → (missed : Error) × (lease_held now name rows ≡ false)
      × (advance missed name expected target rows ≡ ok after)
unfolding compare_and_swap_branch_ref
compare_and_swap-eq-ok now name expected target rows after h =
    let (head, found, k) = bind-eq-ok (branch_head_for_update name rows) _ h in
    let (at_head, m) = then-eq-ok _ _ k in
    let (free, done) = then-eq-ok _ _ m in
    (non_fast_forward, not-true (lease_held now name rows) (guard-eq-ok _ _ free), done)

-- Only the table of commits changes.
pub put_commit_tx_only :
    (normalize : NewCommit → Option NewCommit) (id : Bytes) (commit : NewCommit) (format : ℕ)
    (rows after : Rows)
    → put_commit_tx normalize id commit format rows ≡ ok after
    → after ≡ record rows { commits = after.commits }
put_commit_tx_only normalize id commit format rows after h =
    let (normal, _, either) = put_commit_tx-eq-ok normalize id commit format rows after h in
    elim either [
      | inl is ↦ subst (λ x. x ≡ record rows { commits = x.commits }) (sym is) refl
      | inr (_, k) ↦
          subst (λ x. x ≡ record rows { commits = x.commits })
            (sym (insert_commit-eq-ok id (row_of normal format) rows after k).0) refl
    ]

-- Only the table of pack ranges changes.
pub put_pack_range_only :
    (hash base target : Bytes) (format : ℕ) (rows after : Rows)
    → put_pack_range hash base target format rows ≡ ok after
    → after ≡ record rows { pack_ranges = after.pack_ranges }
put_pack_range_only hash base target format rows after h =
    elim (put_pack_range-eq-ok hash base target format rows after h) [
      | inl is ↦ subst (λ x. x ≡ record rows { pack_ranges = x.pack_ranges }) (sym is) refl
      | inr (_, k) ↦
          subst (λ x. x ≡ record rows { pack_ranges = x.pack_ranges })
            (sym (insert_range-eq-ok hash _ rows after k).1) refl
    ]

-- Only the table of branches changes.
pub advance_only :
    (missed : Error) (name expected target : Bytes) (rows after : Rows)
    → advance missed name expected target rows ≡ ok after
    → after ≡ record rows { branches = after.branches }
advance_only missed name expected target rows after h =
    let (_, _, _, _, is) = advance-eq-ok missed name expected target rows after h in
    subst (λ x. x ≡ record rows { branches = x.branches }) (sym is) refl
