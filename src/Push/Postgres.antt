-- ===== src/Push/Postgres.antt =====
-- The PostgreSQL store and the local CAS driver as what the push engine asks for.
use spool_rack.Prelude.{
  ℕ, Bytes, Bool, false, Option, none, some, List, ◌≡◌, ◌≢◌, refl, sym, ap, subst, ◌∙◌, bytes_eq,
  lookup, insert, lookup-insert, arith, bytes_beq_iff, eq_self,
}
use spool_rack.Fault.{
  Error, Result, Done, ok, err, ◌>>=◌, from_option, branch_not_found, bind-eq-ok, then-eq-ok,
  from_option-eq-ok,
}
use spool_rack.Sync.Contract.{Contract}
use spool_rack.Cas.Files.{Disk, Faults, put, get, asset_exists, write_pack}
use spool_rack.Store.Tables.{Branch, Rows}
use spool_rack.Store.Commits.{
  NewCommit, put_commit_with_format, put_pack_range_with_format, get_commit_metadata,
}
use spool_rack.Store.Branches.{get_branch_ref, create_branch, compare_and_swap_branch_ref}
use spool_rack.Store.Ends.{
  put_commit_tx_only, put_pack_range_only, create_branch-eq-ok, compare_and_swap-eq-ok,
  advance-eq-ok,
}
use spool_rack.Push.Interfaces.{Driver, BranchStore, IsBranchStore, Moves}

-- `LocalDriver` as `cas.Driver`
abbrev pub local_driver : (Bytes → Bytes) → (Bytes → Bytes) → Faults → Driver Disk
local_driver blake3 compress faults = record {
  put = put blake3 faults;
  get = get blake3 faults;
  asset_exists = asset_exists blake3 faults;
  write_pack = λ scope hash content. write_pack blake3 compress faults scope hash (ok content);
}

-- `withTenantTx`: an error rolls the transaction back
abbrev pub settle : Rows → Result Rows → Done × Rows
settle rows (ok after) = (ok tt, after)
settle rows (err reason) = (err reason, rows)

abbrev pub transact : (Rows → Result Rows) → Rows → Done × Rows
transact tx rows = settle rows (tx rows)

abbrev pub format_of : Bytes → Rows → Result ℕ
format_of id rows = do metadata ← get_commit_metadata id rows; ok metadata.format

-- `PGStore` as `BranchStore`. What `SetTenantContext` answers and the recursive query of `IsAncestor`
-- are arguments.
abbrev pub pg_store :
    (g : Contract)
    → (fields : g.Commit → NewCommit) → (normalize : NewCommit → Option NewCommit)
    → (tenant : Bytes → Done) → (is_ancestor : Bytes → Bytes → Rows → Result Bool) → (now : ℕ)
    → BranchStore g Rows
pg_store g fields normalize tenant is_ancestor now = record {
  set_tenant_context = λ id rows. tenant id;
  put_commit_with_format =
      λ id commit format. transact (put_commit_with_format normalize id (fields commit) format);
  put_pack_range_with_format =
      λ hash base target format. transact (put_pack_range_with_format hash base target format);
  get_commit_format = format_of;
  get_branch_ref = get_branch_ref;
  create_branch = λ name head. transact (create_branch name head);
  is_ancestor = is_ancestor;
  compare_and_swap_branch_ref =
      λ name expected target. transact (compare_and_swap_branch_ref now name expected target);
}

abbrev head_of : Option Branch → Option Bytes
head_of none = none
head_of (some branch) = some branch.head

-- the head of a branch, deleted or not
abbrev pub heads_of : Rows → Bytes → Option Bytes
heads_of rows name = head_of (lookup name rows.branches)

same_heads : (rows after : Rows) → after.branches ≡ rows.branches → heads_of after ≡ heads_of rows
same_heads rows after h = ap (λ branches. λ name. head_of (lookup name branches)) h

-- A settled transaction that kept the heads where it succeeded keeps them.
settled_heads :
    (rows : Rows) (ended : Result Rows)
    → ((after : Rows) → ended ≡ ok after → after.branches ≡ rows.branches)
    → heads_of (settle rows ended).1 ≡ heads_of rows
settled_heads rows (ok after) h = same_heads rows after (h after refl)
settled_heads rows (err reason) h = refl

failed_heads :
    (rows : Rows) (ended : Result Rows) (e : Error)
    → (settle rows ended).0 ≡ err e
    → heads_of (settle rows ended).1 ≡ heads_of rows
failed_heads rows (ok after) e h = cc h
failed_heads rows (err reason) e h = refl

succeeded :
    (rows : Rows) (ended : Result Rows)
    → (settle rows ended).0 ≡ ok tt
    → (after : Rows) × (ended ≡ ok after) × ((settle rows ended).1 ≡ after)
succeeded rows (ok after) h = (after, refl, refl)
succeeded rows (err reason) h = cc h

lookup-insert_same :
    (name : Bytes) (new : Branch) (branches : List (Bytes × Branch))
    → lookup name (insert name new branches) ≡ some new
lookup-insert_same name new branches =
    ground (arith, lookup-insert name name new branches, eq_self name)

lookup-insert_other :
    (name other : Bytes) (new : Branch) (branches : List (Bytes × Branch))
    → other ≢ name
    → lookup other (insert name new branches) ≡ lookup other branches
lookup-insert_other name other new branches differs =
    ground (arith, lookup-insert name other new branches, bytes_beq_iff name other)

Moves-insert :
    (name : Bytes) (new : Branch) (rows after : Rows)
    → after.branches ≡ insert name new rows.branches
    → Moves name new.head (heads_of rows) (heads_of after)
Moves-insert name new rows after h = (
  subst (λ x. head_of (lookup name x) ≡ some new.head) (sym h)
      (ap head_of (lookup-insert_same name new rows.branches)),
  λ other differs.
      subst (λ x. head_of (lookup other x) ≡ head_of (lookup other rows.branches)) (sym h)
        (ap head_of (lookup-insert_other name other new rows.branches differs)),
)

put_commit_branches :
    (normalize : NewCommit → Option NewCommit) (id : Bytes) (commit : NewCommit) (format : ℕ)
    (rows after : Rows)
    → put_commit_with_format normalize id commit format rows ≡ ok after
    → after.branches ≡ rows.branches
unfolding put_commit_with_format
put_commit_branches normalize id commit format rows after h =
    let (_, k) = then-eq-ok _ _ h in
    ap (λ x. x.branches) (put_commit_tx_only normalize id commit _ rows after k)

put_range_branches :
    (hash base target : Bytes) (format : ℕ) (rows after : Rows)
    → put_pack_range_with_format hash base target format rows ≡ ok after
    → after.branches ≡ rows.branches
unfolding put_pack_range_with_format
put_range_branches hash base target format rows after h =
    let (_, k) = then-eq-ok _ _ h in
    ap (λ x. x.branches) (put_pack_range_only hash base target _ rows after k)

found_head :
    (name head : Bytes) (rows : Rows)
    → get_branch_ref name rows ≡ ok head
    → heads_of rows name ≡ some head
unfolding get_branch_ref
found_head name head rows h =
    let (branch, found, k) = bind-eq-ok _ _ h in
    ap head_of (from_option-eq-ok _ (lookup name rows.branches) found) ∙ cc k

absent_head :
    (name : Bytes) (rows : Rows)
    → get_branch_ref name rows ≡ err branch_not_found
    → heads_of rows name ≡ none
unfolding get_branch_ref
absent_head name rows h = by_row (lookup name rows.branches) h
  where
    by_row :
        (row : Option Branch)
        → (from_option branch_not_found row >>= λ branch. ok branch.head) ≡ err branch_not_found
        → head_of row ≡ none
    by_row none h = refl
    by_row (some branch) h = cc h

created :
    (name head : Bytes) (rows : Rows)
    → (transact (create_branch name head) rows).0 ≡ ok tt
    → Moves name head (heads_of rows) (heads_of (transact (create_branch name head) rows).1)
created name head rows h =
    let (after, ended, is) = succeeded rows (create_branch name head rows) h in
    let (_, _, _, _, change) = create_branch-eq-ok name head rows after ended in
    subst (λ x. Moves name head (heads_of rows) (heads_of x)) (sym is)
      (Moves-insert name (record { head = head; deleted = false }) rows after
        (ap (λ x. x.branches) change))

swapped :
    (now : ℕ) (name expected target : Bytes) (rows : Rows)
    → (transact (compare_and_swap_branch_ref now name expected target) rows).0 ≡ ok tt
    → (heads_of rows name ≡ some expected)
      × Moves name target
          (heads_of rows)
          (heads_of (transact (compare_and_swap_branch_ref now name expected target) rows).1)
swapped now name expected target rows h =
    let (after, ended, is) =
      succeeded rows (compare_and_swap_branch_ref now name expected target rows) h in
    let (missed, _, moved) = compare_and_swap-eq-ok now name expected target rows after ended in
    let (old, found, at_head, _, change) =
      advance-eq-ok missed name expected target rows after moved in
    (
      ap head_of found ∙ ap some at_head,
      subst (λ x. Moves name target (heads_of rows) (heads_of x)) (sym is)
          (Moves-insert name (record old { head = target }) rows after
            (ap (λ x. x.branches) change)),
    )

-- The PostgreSQL store keeps the laws that the push engine relies on: a call that fails changes no
-- head, a created branch has its head, a compare-and-swap moves one branch from the expected head,
-- and the registration of commits and packs moves none.
pub pg_store-IsBranchStore :
    (g : Contract) (fields : g.Commit → NewCommit) (normalize : NewCommit → Option NewCommit)
    (tenant : Bytes → Done) (is_ancestor : Bytes → Bytes → Rows → Result Bool) (now : ℕ)
    → IsBranchStore heads_of (pg_store g fields normalize tenant is_ancestor now)
pg_store-IsBranchStore g fields normalize tenant is_ancestor now = record {
  get_ok = found_head;
  get_absent = absent_head;
  put_commit_keeps = λ id commit format rows.
      settled_heads rows _ (put_commit_branches normalize id (fields commit) format rows);
  put_range_keeps = λ hash base target format rows.
      settled_heads rows _ (put_range_branches hash base target format rows);
  create_ok = created;
  create_fails = λ name head rows e. failed_heads rows (create_branch name head rows) e;
  swap_ok = swapped now;
  swap_fails = λ name expected target rows e.
      failed_heads rows (compare_and_swap_branch_ref now name expected target rows) e;
}
