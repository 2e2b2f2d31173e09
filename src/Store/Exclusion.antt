-- ===== src/Store/Exclusion.antt =====
-- What a merge lease keeps other transactions from doing to its branch.
use spool_rack.Prelude.{
  ℕ, Bytes, true, false, Option, some, List, ◌≡◌, ◌≤◌, ◌<◌, refl, sym, subst, ap, ◌∙◌, ◌⊎◌, inl,
  inr, bytes_eq, lookup, insert, delete, Bool-cases, lookup-insert, lookup-delete, arith, bytes_beq,
  bytes_beq_iff,
}
use spool_rack.Fault.{Error, ok}
use spool_rack.Store.Tables.{Branch, LeaseRow, Rows}
use spool_rack.Store.Commits.{NewCommit}
use spool_rack.Store.Branches.{advance, lease_held}
use spool_rack.Store.Leases.{is_owner}
use spool_rack.Store.NativePush.{
  NativePushPublication, NativePushResult, publish_native_push, set_push,
}
use spool_rack.Store.Ends.{advance-eq-ok, advance_only}
use spool_rack.Store.LeaseEnds.{publish_claimed-eq-ok, publish-eq-ok}
use spool_rack.Store.History.{put_commits-Grows}
use spool_rack.Store.Steps.{Step, swaps, acquires, releases, applies, publishes}

module _ {normalize : NewCommit → Option NewCommit} {rows after : Rows} where
  -- the steps that may take the lease from the branch
  abbrev pub MayTake : Bytes → LeaseRow → Step normalize rows after → Type 0
  MayTake name lease (acquires now _ request _ _) =
      (request.target_branch ≡ name) × (lease.expires_at ≤ now)
  MayTake name lease (releases other subject token _) =
      (other ≡ name) × (is_owner lease subject token ≡ true)
  MayTake name lease (applies clock request _) =
      (request.target_branch ≡ name)
      × (is_owner lease request.subject request.lease_token ≡ true)
      × (clock < lease.expires_at)
  MayTake name lease _ = ⊥

  -- the steps that may move the head of the leased branch
  abbrev pub MayMove : Bytes → LeaseRow → Bytes → Step normalize rows after → Type 0
  MayMove name lease head (swaps now other _ _ _) = (other ≡ name) × (lease.expires_at ≤ now)
  MayMove name lease head (applies clock request _) =
      (request.target_branch ≡ name)
      × (is_owner lease request.subject request.lease_token ≡ true)
      × (clock < lease.expires_at)
      × (request.target_commit_id ≡ head)
  MayMove name lease head (publishes publication _ _) =
      (publication.branch ≡ name) × (publication.base_commit ≡ head)
  MayMove name lease head _ = ⊥

pub free_after :
    (now : ℕ) (name : Bytes) (lease : LeaseRow) (rows : Rows)
    → lookup name rows.leases ≡ some lease
    → lease_held now name rows ≡ false
    → lease.expires_at ≤ now
unfolding lease_held
free_after now name lease rows h k = ground arith

-- Where a branch stands after the row of some branch was replaced.
pub insert_elsewhere :
    (name other : Bytes) (old new branch : Branch) (branches : List (Bytes × Branch))
    → lookup name branches ≡ some old
    → lookup other branches ≡ some branch
    → (later : Branch) × (lookup other (insert name new branches) ≡ some later)
      × ((later ≡ branch) ⊎ ((name ≡ other) × (later ≡ new) × (old ≡ branch)))
insert_elsewhere name other old new branch branches held found =
    elim (Bool-cases (bytes_beq name other)) [
      | inl same ↦
          let is : name ≡ other = (bytes_beq_iff name other).0 same in
          (
            new,
            ground (arith, lookup-insert name other new branches),
            inr (
              is,
              refl,
              some-injective
                  (sym held ∙ subst (λ x. lookup x branches ≡ some branch) (sym is) found),
            ),
          )
      | inr differs ↦ (branch, ground (arith, lookup-insert name other new branches), inl refl)
    ]
  where
    some-injective : {a b : Branch} → some a ≡ some b → a ≡ b
    some-injective h = cc

-- An advance moves one branch, from the expected head.
pub advance_elsewhere :
    (missed : Error) (name expected target : Bytes) (rows after : Rows) (other : Bytes)
    (branch : Branch)
    → advance missed name expected target rows ≡ ok after
    → lookup other rows.branches ≡ some branch
    → (later : Branch) × (lookup other after.branches ≡ some later)
      × ((later.head ≡ branch.head) ⊎ ((name ≡ other) × (expected ≡ branch.head)))
advance_elsewhere missed name expected target rows after other branch h found =
    let (old, held, at_head, _, is) = advance-eq-ok missed name expected target rows after h in
    let new : Branch = record old { head = target } in
    let (later, there, either) =
      insert_elsewhere name other old new branch rows.branches held found in
    (
      later,
      subst (λ x. lookup other x.branches ≡ some later) (sym is) there,
      (elim either [
        | inl same ↦ inl (ap (λ x. x.head) same)
        | inr (this, _, was) ↦ inr (this, sym at_head ∙ ap (λ x. x.head) was)
      ]),
    )

pub same_lease :
    (other name : Bytes) (mine lease : LeaseRow) (rows : Rows)
    → other ≡ name
    → lookup other rows.leases ≡ some mine
    → lookup name rows.leases ≡ some lease
    → mine ≡ lease
same_lease other name mine lease rows this there held =
    cc (sym there ∙ subst (λ x. lookup x rows.leases ≡ some lease) (sym this) held)

-- a lease after the lease of some branch was deleted or replaced
pub delete_elsewhere :
    (name other : Bytes) (lease : LeaseRow) (leases : List (Bytes × LeaseRow))
    → lookup other leases ≡ some lease
    → (lookup other (delete name leases) ≡ some lease) ⊎ (name ≡ other)
delete_elsewhere name other lease leases h =
    ground (arith, lookup-delete name other leases, bytes_beq_iff name other)

pub replace_elsewhere :
    (name other : Bytes) (new lease : LeaseRow) (leases : List (Bytes × LeaseRow))
    → lookup other leases ≡ some lease
    → (lookup other (insert name new leases) ≡ some lease) ⊎ (name ≡ other)
replace_elsewhere name other new lease leases h =
    ground (arith, lookup-insert name other new leases, bytes_beq_iff name other)

module _ {normalize : NewCommit → Option NewCommit} {rows after : Rows} where
  -- The lease stands after the step, or the step was one that may take it.
  abbrev pub KeepsLease : Bytes → LeaseRow → Step normalize rows after → Type 0
  KeepsLease name lease s = (lookup name after.leases ≡ some lease) ⊎ MayTake name lease s

  -- The branch has its head after the step, or the step was one that may move it.
  abbrev pub KeepsHead : Bytes → LeaseRow → Branch → Step normalize rows after → Type 0
  KeepsHead name lease branch s =
      (later : Branch) × (lookup name after.branches ≡ some later)
      × ((later.head ≡ branch.head) ⊎ MayMove name lease branch.head s)

-- What a publication does to the branches and the leases.
pub publish_tables :
    (normalize : NewCommit → Option NewCommit) (publication : NativePushPublication)
    (result : NativePushResult) (rows after : Rows) (name : Bytes) (branch : Branch)
    → publish_native_push normalize publication rows ≡ ok (result, after)
    → lookup name rows.branches ≡ some branch
    → (after.leases ≡ rows.leases)
      × ((later : Branch) × (lookup name after.branches ≡ some later)
          × ((later.head ≡ branch.head)
              ⊎ ((publication.branch ≡ name) × (publication.base_commit ≡ branch.head))))
publish_tables normalize publication result rows after name branch h found =
    elim (publish-eq-ok normalize publication result rows after h) [
      | inl (_, _, _, is) ↦ (
        ap (λ x. x.leases) is,
        (branch, subst (λ x. lookup name x.branches ≡ some branch) (sym is) found, inl refl),
      )
      | inr (_, claimed, _) ↦
          let pending = set_push publication false rows in
          let (missed, registered, advanced, put, moved, is) =
            publish_claimed-eq-ok normalize publication pending after claimed in
          let (_, only) = put_commits-Grows normalize publication.commits pending registered put in
          let found' = subst (λ x. lookup name x.branches ≡ some branch) (sym only) found in
          let (later, there, either) =
            advance_elsewhere missed _ _ _ registered advanced name branch moved found' in
          (
            ap (λ x. x.leases) is
                ∙ (ap (λ x. x.leases) (advance_only missed _ _ _ registered advanced moved)
                    ∙ ap (λ x. x.leases) only),
            (later, subst (λ x. lookup name x.branches ≡ some later) (sym is) there, either),
          )
    ]
