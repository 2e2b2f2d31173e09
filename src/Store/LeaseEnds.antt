-- ===== src/Store/LeaseEnds.antt =====
-- What the transactions on merge leases and native pushes went through when they were committed.
use spool_rack.Prelude.{
  ℕ, Bytes, true, false, Option, none, some, ◌==◌, ◌≡◌, refl, ltb, ◌+◌, ◌⊎◌, inl, inr, bytes_eq,
  eq_of_beq, lookup, insert, delete, not-true, ◌∙◌, ap, sym,
}
use spool_rack.Fault.{
  Error, Result, ok, guard, bind-eq-ok, then-eq-ok, guard-eq-ok, from_option-eq-ok,
  non_fast_forward, non_fast_forward_head, invalid_merge_lease,
}
use spool_rack.Store.Tables.{LeaseRow, PushRow, Rows}
use spool_rack.Store.Commits.{NewCommit, insert_commit, insert_range}
use spool_rack.Store.Branches.{branch_head_for_update, advance, lease_held}
use spool_rack.Store.Leases.{
  MergeLeaseRequest, ApplyMergeRequest, lease_of, acquire_merge_lease, release_merge_lease,
  is_owner, names_lease, check_lease, is_complete, merge_row, merge_pack, apply_merge,
}
use spool_rack.Store.NativePush.{
  NativePushPublication, NativePushResult, replay, set_push, put_commits, publish_claimed,
  publish_under, publish_native_push,
}
use spool_rack.Store.Ends.{is_some-none}

pair-eq-ok :
    {A B : Type 0} (a : A) (b : B) (c : A) (d : B)
    → ◌≡◌ {A = Result (A × B)} (ok (a, b)) (ok (c, d))
    → (a ≡ c) × (b ≡ d)
pair-eq-ok a b c d h = (cc, cc)

pub acquire-eq-ok :
    (now : ℕ) (drawn : Option Bytes) (request : MergeLeaseRequest) (lease : LeaseRow)
    (rows after : Rows)
    → acquire_merge_lease now drawn request rows ≡ ok (lease, after)
    → (token : Bytes) × (drawn ≡ some token)
      × (lease ≡ lease_of request token (now + request.duration))
      × (lease_held now request.target_branch rows ≡ false)
      × (branch_head_for_update request.target_branch rows ≡ ok request.target_commit_id)
      × (after ≡ record rows { leases = insert request.target_branch lease rows.leases })
unfolding acquire_merge_lease
acquire-eq-ok now drawn request lease rows after h =
    let (_, h₁) = then-eq-ok _ _ h in
    let (token, is_drawn, h₂) = bind-eq-ok _ _ h₁ in
    let (head, found, h₃) = bind-eq-ok (branch_head_for_update request.target_branch rows) _ h₂ in
    let (at_head, h₄) = then-eq-ok _ _ h₃ in
    let (free, h₅) = then-eq-ok _ _ h₄ in
    let (_, h₆) = then-eq-ok _ _ h₅ in
    let (_, done) = then-eq-ok _ _ h₆ in
    let made = lease_of request token (now + request.duration) in
    let held : LeaseRow → Rows =
      λ l. record rows { leases = insert request.target_branch l rows.leases } in
    let same = pair-eq-ok made (held made) lease after done in
    let at_target = eq_of_beq head request.target_commit_id (guard-eq-ok _ _ at_head) in
    (
      token,
      from_option-eq-ok _ drawn is_drawn,
      sym same.0,
      not-true (lease_held now request.target_branch rows) (guard-eq-ok _ _ free),
      found ∙ ap ok at_target,
      sym same.1 ∙ ap held same.0,
    )

pub release-eq-ok :
    (name subject token : Bytes) (rows after : Rows)
    → release_merge_lease name subject token rows ≡ ok after
    → (lease : LeaseRow) × (lookup name rows.leases ≡ some lease)
      × (is_owner lease subject token ≡ true)
      × (after ≡ record rows { leases = delete name rows.leases })
unfolding release_merge_lease
release-eq-ok name subject token rows after h =
    let (lease, found, k) = bind-eq-ok _ _ h in
    let (owned, done) = then-eq-ok _ _ k in
    (lease, from_option-eq-ok _ (lookup name rows.leases) found, guard-eq-ok _ _ owned, cc)

pub check_lease-eq-ok :
    (clock : ℕ) (request : ApplyMergeRequest) (rows : Rows)
    → check_lease clock request rows ≡ ok tt
    → (lease : LeaseRow) × (lookup request.target_branch rows.leases ≡ some lease)
      × (is_owner lease request.subject request.lease_token ≡ true)
      × (ltb clock lease.expires_at ≡ true)
      × (names_lease lease request ≡ true)
unfolding check_lease
check_lease-eq-ok clock request rows h =
    let (lease, found, k) = bind-eq-ok _ _ h in
    let (owned, m) = then-eq-ok _ _ k in
    let (valid, n) = then-eq-ok _ _ m in
    (
      lease,
      from_option-eq-ok _ (lookup request.target_branch rows.leases) found,
      guard-eq-ok _ _ owned,
      guard-eq-ok _ _ valid,
      guard-eq-ok _ _ n,
    )

pub apply_merge-eq-ok :
    (clock : ℕ) (request : ApplyMergeRequest) (rows after : Rows)
    → apply_merge clock request rows ≡ ok after
    → (missed : Error) × (registered packed advanced : Rows) × (check_lease clock request rows
        ≡ ok tt)
      × (lookup request.result_commit_id rows.commits ≡ none)
      × (insert_commit request.result_commit_id (merge_row request) rows ≡ ok registered)
      × (lookup request.pack_hash registered.pack_ranges ≡ none)
      × (insert_range request.pack_hash (merge_pack request) registered ≡ ok packed)
      × (advance missed request.target_branch request.target_commit_id request.result_commit_id
            packed
          ≡ ok advanced)
      × (after ≡ record advanced { leases = delete request.target_branch advanced.leases })
unfolding apply_merge
apply_merge-eq-ok clock request rows after h =
    let (_, h₁) = then-eq-ok (guard (is_complete request) invalid_merge_lease) _ h in
    let (head, _, h₂) = bind-eq-ok (branch_head_for_update request.target_branch rows) _ h₁ in
    let (_, h₃) = then-eq-ok (guard (head == request.target_commit_id) non_fast_forward) _ h₂ in
    let (checked, h₄) = then-eq-ok (check_lease clock request rows) _ h₃ in
    let (new, h₅) = then-eq-ok _ _ h₄ in
    let (registered, inserted, h₆) = bind-eq-ok _ _ h₅ in
    let (new_pack, h₇) = then-eq-ok _ _ h₆ in
    let (packed, ranged, h₈) = bind-eq-ok _ _ h₇ in
    let (advanced, moved, done) = bind-eq-ok _ _ h₈ in
    (
      non_fast_forward,
      registered,
      packed,
      advanced,
      checked,
      is_some-none (lookup request.result_commit_id rows.commits) (guard-eq-ok _ _ new),
      inserted,
      is_some-none (lookup request.pack_hash registered.pack_ranges) (guard-eq-ok _ _ new_pack),
      ranged,
      moved,
      cc,
    )

module _ (normalize : NewCommit → Option NewCommit) where
  pub publish_claimed-eq-ok :
      (publication : NativePushPublication) (rows after : Rows)
      → publish_claimed normalize publication rows ≡ ok after
      → (missed : Error) × (registered advanced : Rows) × (put_commits normalize publication.commits
            rows
          ≡ ok registered)
        × (advance missed publication.branch publication.base_commit publication.target_commit
              registered
            ≡ ok advanced)
        × (after ≡ set_push publication true advanced)
  unfolding publish_claimed
  publish_claimed-eq-ok publication rows after h =
      let (head, _, h₁) = bind-eq-ok (branch_head_for_update publication.branch rows) _ h in
      let (_, h₂) =
        then-eq-ok (guard (head == publication.base_commit) (non_fast_forward_head head)) _ h₁ in
      let (registered, put, h₃) = bind-eq-ok _ _ h₂ in
      let (advanced, moved, done) = bind-eq-ok _ _ h₃ in
      (non_fast_forward_head head, registered, advanced, put, moved, cc)

  -- A committed publication replayed the row of its key, or claimed the key and went through.
  pub publish-eq-ok :
      (publication : NativePushPublication) (result : NativePushResult) (rows after : Rows)
      → publish_native_push normalize publication rows ≡ ok (result, after)
      → ((existing : PushRow) × (lookup publication.idempotency_key rows.pushes ≡ some existing)
          × (replay publication existing ≡ ok result)
          × (after ≡ rows))
        ⊎ ((lookup publication.idempotency_key rows.pushes ≡ none)
            × (publish_claimed normalize publication (set_push publication false rows) ≡ ok after)
            × (result ≡ record { already_applied = false; head = publication.target_commit }))
  unfolding publish_native_push
  publish-eq-ok publication result rows after h =
      let (_, k) = then-eq-ok _ _ h in
      publish-cases (lookup publication.idempotency_key rows.pushes) k
    where
      fresh : NativePushResult
      fresh = record { already_applied = false; head = publication.target_commit }

      finish :
          (final : Rows)
          → publish_claimed normalize publication (set_push publication false rows) ≡ ok final
          → ◌≡◌ {A = Result (NativePushResult × Rows)} (ok (fresh, final)) (ok (result, after))
          → (publish_claimed normalize publication (set_push publication false rows) ≡ ok after)
            × (result ≡ fresh)
      finish final claimed done =
          let same = pair-eq-ok fresh final result after done in
          (claimed ∙ ap ok same.1, sym same.0)

      publish-cases :
          (found : Option PushRow)
          → publish_under normalize publication found rows ≡ ok (result, after)
          → ((existing : PushRow) × (found ≡ some existing)
              × (replay publication existing ≡ ok result)
              × (after ≡ rows))
            ⊎ ((found ≡ none)
                × (publish_claimed normalize publication (set_push publication false rows)
                    ≡ ok after)
                × (result ≡ record { already_applied = false; head = publication.target_commit }))
      publish-cases (some existing) k =
          let (replayed, is_result, done) = bind-eq-ok _ _ k in
          let same = pair-eq-ok replayed rows result after done in
          inl (existing, refl, is_result ∙ ap ok same.0, sym same.1)
      publish-cases none k =
          let (final, claimed, done) = bind-eq-ok _ _ k in
          let (claims, is_fresh) = finish final claimed done in inr (refl, claims, is_fresh)
