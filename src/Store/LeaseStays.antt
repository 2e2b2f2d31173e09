-- ===== src/Store/LeaseStays.antt =====
-- What a lease withstands, step by step.
use spool_rack.Prelude.{
  Bytes, true, false, Option, some, ◌≡◌, ◌<◌, sym, subst, ap, inl, inr, ltb→lt, bytes_eq, lookup,
}
use spool_rack.Store.Tables.{Branch, LeaseRow, Rows}
use spool_rack.Store.Commits.{NewCommit}
use spool_rack.Store.Branches.{lease_held}
use spool_rack.Store.Leases.{is_owner}
use spool_rack.Store.Ends.{
  put_commit_tx_only, put_pack_range_only, advance_only, create_branch-eq-ok, delete_branch-eq-ok,
  compare_and_swap-eq-ok,
}
use spool_rack.Store.LeaseEnds.{acquire-eq-ok, release-eq-ok}
use spool_rack.Store.MergeEffect.{apply_merge_sound}
use spool_rack.Store.Steps.{
  Step, puts_commit, puts_range, creates, swaps, deletes, acquires, releases, applies, publishes,
}
use spool_rack.Store.Exclusion.{
  KeepsLease, free_after, same_lease, delete_elsewhere, replace_elsewhere, publish_tables,
}

leases_kept :
    (name : Bytes) (lease : LeaseRow) (rows after : Rows)
    → lookup name rows.leases ≡ some lease
    → after.leases ≡ rows.leases
    → lookup name after.leases ≡ some lease
leases_kept name lease rows after held same =
    subst (λ x. lookup name x ≡ some lease) (sym same) held

module _ {normalize : NewCommit → Option NewCommit} where
  pub keeps_lease :
      (rows after : Rows) (name : Bytes) (lease : LeaseRow) (branch : Branch)
      (s : Step normalize rows after)
      → lookup name rows.leases ≡ some lease
      → lookup name rows.branches ≡ some branch
      → KeepsLease name lease s
  keeps_lease rows after name lease branch (puts_commit id commit format h) held found = inl (
      leases_kept name lease rows after held
        (ap (λ x. x.leases) (put_commit_tx_only normalize id commit format rows after h)))
  keeps_lease rows after name lease branch (puts_range hash base target format h) held found = inl (
      leases_kept name lease rows after held
        (ap (λ x. x.leases) (put_pack_range_only hash base target format rows after h)))
  keeps_lease rows after name lease branch (creates other head h) held found =
      let (_, _, _, _, is) = create_branch-eq-ok other head rows after h in
      inl (leases_kept name lease rows after held (ap (λ x. x.leases) is))
  keeps_lease rows after name lease branch (swaps now other expected target h) held found =
      let (missed, _, moved) = compare_and_swap-eq-ok now other expected target rows after h in
      inl (
        leases_kept name lease rows after held
          (ap (λ x. x.leases) (advance_only missed other expected target rows after moved)))
  keeps_lease rows after name lease branch (deletes other seen h) held found =
      let (_, _, _, _, _, _, is) = delete_branch-eq-ok other seen rows after h in
      inl (leases_kept name lease rows after held (ap (λ x. x.leases) is))
  keeps_lease rows after name lease branch (acquires now drawn request new h) held found =
      let (_, _, _, free, _, is) = acquire-eq-ok now drawn request new rows after h in
      elim (replace_elsewhere request.target_branch name new lease rows.leases held) [
        | inl stays ↦ inl (subst (λ x. lookup name x.leases ≡ some lease) (sym is) stays)
        | inr this ↦ inr (
          this,
          free_after now name lease rows held
              (subst (λ x. lease_held now x rows ≡ false) this free),
        )
      ]
  keeps_lease rows after name lease branch (releases other subject token h) held found =
      let (mine, there, owned, is) = release-eq-ok other subject token rows after h in
      elim (delete_elsewhere other name lease rows.leases held) [
        | inl stays ↦ inl (subst (λ x. lookup name x.leases ≡ some lease) (sym is) stays)
        | inr this ↦ inr (
          this,
          subst (λ x. is_owner x subject token ≡ true)
              (same_lease other name mine lease rows this there held) owned,
        )
      ]
  keeps_lease rows after name lease branch (applies clock request h) held found =
      let (old, mine, _, _, there, owned, valid, _, _, is) =
        apply_merge_sound clock request rows after h in
      elim (delete_elsewhere request.target_branch name lease rows.leases held) [
        | inl stays ↦ inl (subst (λ x. lookup name x.leases ≡ some lease) (sym is) stays)
        | inr this ↦
            let same = same_lease request.target_branch name mine lease rows this there held in
            inr (
              this,
              subst (λ x. is_owner x request.subject request.lease_token ≡ true) same owned,
              subst (λ x. clock < x.expires_at) same (ltb→lt clock mine.expires_at valid),
            )
      ]
  keeps_lease rows after name lease branch (publishes publication result h) held found = inl (
      leases_kept name lease rows after held
        (publish_tables normalize publication result rows after name branch h found).0)
