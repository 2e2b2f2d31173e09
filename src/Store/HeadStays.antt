-- ===== src/Store/HeadStays.antt =====
-- What the head of a leased branch withstands.
use spool_rack.Prelude.{
  Bytes, true, false, Option, none, some, List, ◌≡◌, ◌<◌, refl, sym, subst, ap, ◌∙◌, ◌⊎◌, inl, inr,
  ltb→lt, bytes_eq, lookup, insert, lookup-insert, arith, bytes_beq_iff,
}
use spool_rack.Store.Tables.{Branch, LeaseRow, Rows}
use spool_rack.Store.Commits.{NewCommit}
use spool_rack.Store.Branches.{lease_held}
use spool_rack.Store.Leases.{is_owner}
use spool_rack.Store.Ends.{
  put_commit_tx_only, put_pack_range_only, create_branch-eq-ok, delete_branch-eq-ok,
  compare_and_swap-eq-ok,
}
use spool_rack.Store.LeaseEnds.{acquire-eq-ok, release-eq-ok}
use spool_rack.Store.MergeEffect.{apply_merge_sound}
use spool_rack.Store.Steps.{
  Step, puts_commit, puts_range, creates, swaps, deletes, acquires, releases, applies, publishes,
}
use spool_rack.Store.Exclusion.{
  KeepsLease, KeepsHead, free_after, insert_elsewhere, advance_elsewhere, same_lease,
  publish_tables,
}
use spool_rack.Store.LeaseStays.{keeps_lease}

-- the row of the branch stands as it was
same_branch :
    (name : Bytes) (branch : Branch) (rows after : Rows) {Moved : Branch → Type 0}
    → lookup name rows.branches ≡ some branch
    → after.branches ≡ rows.branches
    → (later : Branch) × (lookup name after.branches ≡ some later)
      × ((later.head ≡ branch.head) ⊎ Moved later)
same_branch name branch rows after found same =
    (branch, subst (λ x. lookup name x ≡ some branch) (sym same) found, inl refl)

new_branch_elsewhere :
    (name other : Bytes) (new branch : Branch) (branches : List (Bytes × Branch))
    → lookup other branches ≡ none
    → lookup name branches ≡ some branch
    → lookup name (insert other new branches) ≡ some branch
new_branch_elsewhere name other new branch branches fresh found =
    ground (arith, lookup-insert other name new branches, bytes_beq_iff other name)

module _ {normalize : NewCommit → Option NewCommit} where
  keeps_head :
      (rows after : Rows) (name : Bytes) (lease : LeaseRow) (branch : Branch)
      (s : Step normalize rows after)
      → lookup name rows.leases ≡ some lease
      → lookup name rows.branches ≡ some branch
      → KeepsHead name lease branch s
  keeps_head rows after name lease branch (puts_commit id commit format h) held found =
      same_branch name branch rows after found
        (ap (λ x. x.branches) (put_commit_tx_only normalize id commit format rows after h))
  keeps_head rows after name lease branch (puts_range hash base target format h) held found =
      same_branch name branch rows after found
        (ap (λ x. x.branches) (put_pack_range_only hash base target format rows after h))
  keeps_head rows after name lease branch (creates other head h) held found =
      let (_, _, fresh, _, is) = create_branch-eq-ok other head rows after h in
      (
        branch,
        subst (λ x. lookup name x.branches ≡ some branch) (sym is)
            (new_branch_elsewhere name other _ branch rows.branches fresh found),
        inl refl,
      )
  keeps_head rows after name lease branch (swaps now other expected target h) held found =
      let (missed, free, moved) = compare_and_swap-eq-ok now other expected target rows after h in
      let (later, there, either) =
        advance_elsewhere missed other expected target rows after name branch moved found in
      (
        later,
        there,
        elim either [
          | inl same ↦ inl same
          | inr (this, _) ↦ inr (
            this,
            free_after now name lease rows held
                (subst (λ x. lease_held now x rows ≡ false) this free),
          )
        ],
      )
  keeps_head rows after name lease branch (deletes other seen h) held found =
      let (_, old, _, _, there, _, is) = delete_branch-eq-ok other seen rows after h in
      let new : Branch = record old { deleted = true } in
      let (later, after_there, either) =
        insert_elsewhere other name old new branch rows.branches there found in
      (
        later,
        subst (λ x. lookup name x.branches ≡ some later) (sym is) after_there,
        inl (elim either [
          | inl same ↦ ap (λ x. x.head) same
          | inr (_, is_new, was) ↦ ap (λ x. x.head) is_new ∙ ap (λ x. x.head) was
        ]),
      )
  keeps_head rows after name lease branch (acquires now drawn request new h) held found =
      let (_, _, _, _, _, is) = acquire-eq-ok now drawn request new rows after h in
      same_branch name branch rows after found (ap (λ x. x.branches) is)
  keeps_head rows after name lease branch (releases other subject token h) held found =
      let (_, _, _, is) = release-eq-ok other subject token rows after h in
      same_branch name branch rows after found (ap (λ x. x.branches) is)
  keeps_head rows after name lease branch (applies clock request h) held found =
      let (old, mine, old_found, at_head, there, owned, valid, _, _, is) =
        apply_merge_sound clock request rows after h in
      let new : Branch = record old { head = request.result_commit_id } in
      let (later, after_there, either) =
        insert_elsewhere request.target_branch name old new branch rows.branches old_found found in
      (
        later,
        subst (λ x. lookup name x.branches ≡ some later) (sym is) after_there,
        elim either [
          | inl same ↦ inl (ap (λ x. x.head) same)
          | inr (this, _, was) ↦
              let same = same_lease request.target_branch name mine lease rows this there held in
              inr (
                this,
                subst (λ x. is_owner x request.subject request.lease_token ≡ true) same owned,
                subst (λ x. clock < x.expires_at) same (ltb→lt clock mine.expires_at valid),
                sym at_head ∙ ap (λ x. x.head) was,
              )
        ],
      )
  keeps_head rows after name lease branch (publishes publication result h) held found =
      (publish_tables normalize publication result rows after name branch h found).1

  -- A step on a repository where a lease owns a branch leaves the lease in place, unless it is an
  -- acquisition at a time when the lease has expired, or a release or a merge by the lease's owner. It
  -- leaves the branch's head in place, unless it is a compare-and-swap at a time when the lease has
  -- expired, a merge by the owner before that from the head, or a native push from the head.
  pub lease_protects :
      (rows after : Rows) (name : Bytes) (lease : LeaseRow) (branch : Branch)
      (s : Step normalize rows after)
      → lookup name rows.leases ≡ some lease
      → lookup name rows.branches ≡ some branch
      → KeepsLease name lease s × KeepsHead name lease branch s
  lease_protects rows after name lease branch s held found = (
    keeps_lease rows after name lease branch s held found,
    keeps_head rows after name lease branch s held found,
  )
