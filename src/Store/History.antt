-- ===== src/Store/History.antt =====
-- Each transaction of internal/server/storage/postgres/store.go that writes keeps what was written once.
use spool_rack.Prelude.{
  ℕ, Bytes, true, false, Option, none, List, ◌∷◌, [], ◌≡◌, refl, sym, subst, ap, ◌∙◌, inl, inr,
  bytes_eq, lookup, insert, lookup-insert, arith, bytes_beq_iff,
}
use spool_rack.Fault.{Error, ok, bind-eq-ok}
use spool_rack.Store.Tables.{CommitRow, Branch, PackRow, Rows}
use spool_rack.Store.Commits.{
  NewCommit, insert_commit, insert_range, put_commit_tx, put_pack_range, row_of,
}
use spool_rack.Store.Branches.{advance, create_branch, delete_branch}
use spool_rack.Store.Leases.{ApplyMergeRequest, apply_merge}
use spool_rack.Store.NativePush.{
  NativePushCommit, NativePushPublication, NativePushResult, put_commits, push_row, set_push,
  publish_native_push,
}
use spool_rack.Store.Ends.{
  advance-eq-ok, insert_commit-eq-ok, insert_range-eq-ok, put_commit_tx-eq-ok, put_pack_range-eq-ok,
  create_branch-eq-ok, delete_branch-eq-ok, compare_and_swap-eq-ok, put_commit_tx_only,
}
use spool_rack.Store.LeaseEnds.{
  acquire-eq-ok, release-eq-ok, apply_merge-eq-ok, publish_claimed-eq-ok, publish-eq-ok,
}
use spool_rack.Store.Steps.{
  Step, puts_commit, puts_range, creates, swaps, deletes, acquires, releases, applies, publishes,
  Steps, stop, step,
}
use spool_rack.Store.Growth.{
  Kept, Kept-insert, Persists-refl, Persists-insert_new, Persists-insert, Grows, Grows-refl,
  Grows-trans, every_row, branches_grow, leases_grow,
}

advance-Grows :
    (missed : Error) (name expected target : Bytes) (rows after : Rows)
    → advance missed name expected target rows ≡ ok after
    → Grows rows after
advance-Grows missed name expected target rows after h =
    let (branch, found, _, _, is) = advance-eq-ok missed name expected target rows after h in
    let new : Branch = record branch { head = target } in
    subst (Grows rows) (sym is) (
      branches_grow rows rows.repository _
        (Persists-insert name branch new rows.branches found (λ d. d)))

insert_commit-Grows :
    (id : Bytes) (row : CommitRow) (rows after : Rows)
    → lookup id rows.commits ≡ none
    → insert_commit id row rows ≡ ok after
    → Grows rows after
insert_commit-Grows id row rows after fresh h =
    let (is, _) = insert_commit-eq-ok id row rows after h in
    subst (Grows rows) (sym is) (record {
      commits = Kept-insert id row rows.commits fresh;
      pack_ranges = every_row rows.pack_ranges;
      pushes = every_row rows.pushes;
      branches = Persists-refl rows.branches;
    })

insert_range-Grows :
    (hash : Bytes) (pack : PackRow) (rows after : Rows)
    → lookup hash rows.pack_ranges ≡ none
    → insert_range hash pack rows ≡ ok after
    → Grows rows after
insert_range-Grows hash pack rows after fresh h =
    let (_, is) = insert_range-eq-ok hash pack rows after h in
    subst (Grows rows) (sym is) (record {
      commits = every_row rows.commits;
      pack_ranges = Kept-insert hash pack rows.pack_ranges fresh;
      pushes = every_row rows.pushes;
      branches = Persists-refl rows.branches;
    })

put_commit_tx-Grows :
    (normalize : NewCommit → Option NewCommit) (id : Bytes) (commit : NewCommit) (format : ℕ)
    (rows after : Rows)
    → put_commit_tx normalize id commit format rows ≡ ok after
    → Grows rows after
put_commit_tx-Grows normalize id commit format rows after h =
    let (normal, _, either) = put_commit_tx-eq-ok normalize id commit format rows after h in
    elim either [
      | inl is ↦ subst (Grows rows) (sym is) (Grows-refl rows)
      | inr (fresh, k) ↦ insert_commit-Grows id (row_of normal format) rows after fresh k
    ]

put_pack_range-Grows :
    (hash base target : Bytes) (format : ℕ) (rows after : Rows)
    → put_pack_range hash base target format rows ≡ ok after
    → Grows rows after
put_pack_range-Grows hash base target format rows after h =
    elim (put_pack_range-eq-ok hash base target format rows after h) [
      | inl is ↦ subst (Grows rows) (sym is) (Grows-refl rows)
      | inr (fresh, k) ↦ insert_range-Grows hash _ rows after fresh k
    ]

create_branch-Grows :
    (name head : Bytes) (rows after : Rows)
    → create_branch name head rows ≡ ok after
    → Grows rows after
create_branch-Grows name head rows after h =
    let (_, _, fresh, _, is) = create_branch-eq-ok name head rows after h in
    let new : Branch = record { head = head; deleted = false } in
    subst (Grows rows) (sym is)
      (branches_grow rows _ _ (Persists-insert_new name new rows.branches fresh))

delete_branch-Grows :
    (name : Bytes) (seen rows after : Rows)
    → delete_branch name seen rows ≡ ok after
    → Grows rows after
delete_branch-Grows name seen rows after h =
    let (_, branch, _, _, found, _, is) = delete_branch-eq-ok name seen rows after h in
    let new : Branch = record branch { deleted = true } in
    subst (Grows rows) (sym is) (
      branches_grow rows rows.repository _
        (Persists-insert name branch new rows.branches found (λ _. refl)))

apply_merge-Grows :
    (clock : ℕ) (request : ApplyMergeRequest) (rows after : Rows)
    → apply_merge clock request rows ≡ ok after
    → Grows rows after
apply_merge-Grows clock request rows after h =
    let (missed, registered, packed, advanced, _, new, inserted, new_pack, ranged, moved, is) =
      apply_merge-eq-ok clock request rows after h in
    Grows-trans rows registered after (insert_commit-Grows _ _ rows registered new inserted) (
      Grows-trans registered packed after (insert_range-Grows _ _ registered packed new_pack ranged)
        (Grows-trans packed advanced after (advance-Grows missed _ _ _ packed advanced moved)
          (subst (Grows advanced) (sym is) (leases_grow advanced _))))

pub put_commits-Grows :
    (normalize : NewCommit → Option NewCommit) (commits : List NativePushCommit) (rows after : Rows)
    → put_commits normalize commits rows ≡ ok after
    → Grows rows after × (after ≡ record rows { commits = after.commits })
unfolding put_commits
put_commits-Grows normalize [] rows after h =
    subst (λ x. Grows rows x × (x ≡ record rows { commits = x.commits })) (cc h)
      (Grows-refl rows, refl)
put_commits-Grows normalize (first ∷ others) rows after h =
    let (middle, put, k) = bind-eq-ok _ _ h in
    let (grows, only) = put_commits-Grows normalize others middle after k in
    let first_only =
      put_commit_tx_only normalize first.id first.commit first.format rows middle put in
    (
      Grows-trans rows middle after
          (put_commit_tx-Grows normalize first.id first.commit first.format rows middle put) grows,
      subst (λ x. after ≡ record x { commits = after.commits }) first_only only,
    )

-- A new key stays with the row that its transaction leaves.
Kept-insert_twice {ℓ} :
    {V : Type ℓ} (key : Bytes) (row row' : V) (rows : List (Bytes × V))
    → lookup key rows ≡ none
    → Kept rows (insert key row' (insert key row rows))
Kept-insert_twice key row row' rows fresh other held h = ground (
  arith,
  lookup-insert key other row rows,
  lookup-insert key other row' (insert key row rows),
  bytes_beq_iff key other,
)

publish-Grows :
    (normalize : NewCommit → Option NewCommit) (publication : NativePushPublication)
    (result : NativePushResult) (rows after : Rows)
    → publish_native_push normalize publication rows ≡ ok (result, after)
    → Grows rows after
publish-Grows normalize publication result rows after h =
    elim (publish-eq-ok normalize publication result rows after h) [
      | inl (_, _, _, is) ↦ subst (Grows rows) (sym is) (Grows-refl rows)
      | inr (fresh, claimed, _) ↦
          let pending = set_push publication false rows in
          let (missed, registered, advanced, put, moved, is) =
            publish_claimed-eq-ok normalize publication pending after claimed in
          let (grows, only) =
            put_commits-Grows normalize publication.commits pending registered put in
          let moved_grows = advance-Grows missed _ _ _ registered advanced moved in
          let (_, _, _, _, change) = advance-eq-ok missed _ _ _ registered advanced moved in
          let pushes : advanced.pushes ≡ pending.pushes =
            ap (λ x. x.pushes) change ∙ ap (λ x. x.pushes) only in
          let both = Grows-trans pending registered advanced grows moved_grows in
          subst (Grows rows) (sym is) (record {
            commits = both.commits;
            pack_ranges = both.pack_ranges;
            pushes =
                subst
                  (λ x.
                    Kept rows.pushes
                      (insert publication.idempotency_key (push_row publication true) x))
                  (sym pushes)
                  (Kept-insert_twice publication.idempotency_key (push_row publication false)
                    (push_row publication true) rows.pushes fresh);
            branches = both.branches;
          })
    ]

module _ (normalize : NewCommit → Option NewCommit) where
  Step-Grows : (rows after : Rows) → Step normalize rows after → Grows rows after
  Step-Grows rows after (puts_commit id commit format h) =
      put_commit_tx-Grows normalize id commit format rows after h
  Step-Grows rows after (puts_range hash base target format h) =
      put_pack_range-Grows hash base target format rows after h
  Step-Grows rows after (creates name head h) = create_branch-Grows name head rows after h
  Step-Grows rows after (swaps now name expected target h) =
      let (missed, _, moved) = compare_and_swap-eq-ok now name expected target rows after h in
      advance-Grows missed name expected target rows after moved
  Step-Grows rows after (deletes name seen h) = delete_branch-Grows name seen rows after h
  Step-Grows rows after (acquires now drawn request lease h) =
      let (_, _, _, _, _, is) = acquire-eq-ok now drawn request lease rows after h in
      subst (Grows rows) (sym is) (leases_grow rows _)
  Step-Grows rows after (releases name subject token h) =
      let (_, _, _, is) = release-eq-ok name subject token rows after h in
      subst (Grows rows) (sym is) (leases_grow rows _)
  Step-Grows rows after (applies clock request h) = apply_merge-Grows clock request rows after h
  Step-Grows rows after (publishes publication result h) =
      publish-Grows normalize publication result rows after h

  -- Along any sequence of committed transactions, no commit, no pack range and no outcome of a native
  -- push changes or disappears, no branch disappears, and a deleted branch stays deleted.
  pub Steps-Grows : (rows after : Rows) → Steps normalize rows after → Grows rows after
  Steps-Grows rows after stop = Grows-refl rows
  Steps-Grows rows after (step {middle} first others) =
      Grows-trans rows middle after (Step-Grows rows middle first) (Steps-Grows middle after others)
