-- ===== src/Store/Growth.antt =====
-- What no sequence of transactions undoes: commits, pack ranges and outcomes of native pushes are
-- written once, and a branch never disappears.
use spool_rack.Prelude.{
  Bytes, true, Option, none, some, List, ◌≡◌, inl, inr, bytes_eq, lookup, insert, lookup-insert,
  arith, Bool-cases, bytes_beq, bytes_beq_iff,
}
use spool_rack.Store.Tables.{Branch, LeaseRow, Repository, Rows}

-- every row of the first table stands unchanged in the second
abbrev pub Kept {ℓ} : {V : Type ℓ} → List (Bytes × V) → List (Bytes × V) → Type ℓ
Kept {V} before after =
    (key : Bytes) (row : V) → lookup key before ≡ some row → lookup key after ≡ some row

pub Kept-insert {ℓ} :
    {V : Type ℓ} (key : Bytes) (row : V) (rows : List (Bytes × V))
    → lookup key rows ≡ none
    → Kept rows (insert key row rows)
Kept-insert key row rows fresh other held h =
    ground (arith, lookup-insert key other row rows, bytes_beq_iff key other)

-- every branch is still there, and is deleted if it was
abbrev pub Persists : List (Bytes × Branch) → List (Bytes × Branch) → Type 0
Persists before after =
    (name : Bytes) (branch : Branch)
    → lookup name before ≡ some branch
    → (later : Branch) × (lookup name after ≡ some later)
      × (branch.deleted ≡ true → later.deleted ≡ true)

pub Persists-refl : (branches : List (Bytes × Branch)) → Persists branches branches
Persists-refl branches name branch h = (branch, h, λ d. d)

pub Persists-insert_new :
    (name : Bytes) (new : Branch) (branches : List (Bytes × Branch))
    → lookup name branches ≡ none
    → Persists branches (insert name new branches)
Persists-insert_new name new branches fresh other branch h =
    (branch, Kept-insert name new branches fresh other branch h, λ d. d)

pub Persists-insert :
    (name : Bytes) (old new : Branch) (branches : List (Bytes × Branch))
    → lookup name branches ≡ some old
    → (old.deleted ≡ true → new.deleted ≡ true)
    → Persists branches (insert name new branches)
Persists-insert name old new branches found stays other branch h =
    elim (Bool-cases (bytes_beq name other)) [
      | inl same ↦ (
        new,
        ground (arith, lookup-insert name other new branches),
        λ d. stays (ground (arith, d, bytes_beq_iff name other)),
      )
      | inr differs ↦ (branch, ground (arith, lookup-insert name other new branches), λ d. d)
    ]

pub Persists-trans : (a b c : List (Bytes × Branch)) → Persists a b → Persists b c → Persists a c
Persists-trans a b c p q name branch h =
    let (middle, found, stays) = p name branch h in
    let (later, there, keeps) = q name middle found in (later, there, λ d. keeps (stays d))

-- What holds of the rows before and after, whatever happened between.
pub record Grows (before after : Rows) : Type 0 where
  pub commits : Kept before.commits after.commits
  pub pack_ranges : Kept before.pack_ranges after.pack_ranges
  pub pushes : Kept before.pushes after.pushes
  pub branches : Persists before.branches after.branches

pub Grows-refl : (rows : Rows) → Grows rows rows
Grows-refl rows = record {
  commits = λ _ _ h. h;
  pack_ranges = λ _ _ h. h;
  pushes = λ _ _ h. h;
  branches = Persists-refl rows.branches;
}

pub Grows-trans : (a b c : Rows) → Grows a b → Grows b c → Grows a c
Grows-trans a b c p q = record {
  commits = λ k v h. q.commits k v (p.commits k v h);
  pack_ranges = λ k v h. q.pack_ranges k v (p.pack_ranges k v h);
  pushes = λ k v h. q.pushes k v (p.pushes k v h);
  branches = Persists-trans a.branches b.branches c.branches p.branches q.branches;
}

pub every_row {ℓ} : {V : Type ℓ} (rows : List (Bytes × V)) → Kept rows rows
every_row rows key row h = h

-- a change of the branches alone, and of the default branch
pub branches_grow :
    (rows : Rows) (repository : Option Repository) (branches : List (Bytes × Branch))
    → Persists rows.branches branches
    → Grows rows (record rows { repository = repository; branches = branches })
branches_grow rows repository branches h = record {
  commits = every_row rows.commits;
  pack_ranges = every_row rows.pack_ranges;
  pushes = every_row rows.pushes;
  branches = h;
}

-- a change of the leases alone
pub leases_grow :
    (rows : Rows) (leases : List (Bytes × LeaseRow)) → Grows rows (record rows { leases = leases })
leases_grow rows leases = record {
  commits = every_row rows.commits;
  pack_ranges = every_row rows.pack_ranges;
  pushes = every_row rows.pushes;
  branches = Persists-refl rows.branches;
}
