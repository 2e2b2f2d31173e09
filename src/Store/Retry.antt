-- ===== src/Store/Retry.antt =====
-- A native push that is retried, `PublishNativePush` of internal/server/storage/postgres/store.go.
use spool_rack.Prelude.{
  true, false, Option, some, ◌≡◌, refl, sym, subst, inl, inr, bytes_eq, eq_self, lookup,
  lookup-insert, arith, bytes_beq_iff,
}
use spool_rack.Fault.{ok, guard, then-eq-ok, invalid_native_push}
use spool_rack.Store.Tables.{PushRow, Rows}
use spool_rack.Store.Commits.{NewCommit}
use spool_rack.Store.NativePush.{
  NativePushPublication, NativePushResult, is_publishable, replay, push_row, set_push,
  publish_native_push,
}
use spool_rack.Store.LeaseEnds.{publish_claimed-eq-ok, publish-eq-ok}
use spool_rack.Store.History.{Steps-Grows}
use spool_rack.Store.Steps.{Steps}

abbrev pub applied : NativePushPublication → NativePushResult
applied publication = record { already_applied = true; head = publication.target_commit }

replay-push_row :
    (publication : NativePushPublication)
    → replay publication (push_row publication true) ≡ ok (applied publication)
unfolding replay
replay-push_row publication = ground (
  arith,
  eq_self publication.branch,
  eq_self publication.base_commit,
  eq_self publication.target_commit,
)

-- A replay that succeeds found the row of the same push.
replay-eq-ok :
    (publication : NativePushPublication) (existing : PushRow) (result : NativePushResult)
    → replay publication existing ≡ ok result
    → replay publication existing ≡ ok (applied publication)
unfolding replay
replay-eq-ok publication existing result h =
    ground (arith, bytes_beq_iff existing.target publication.target_commit)

module _ (normalize : NewCommit → Option NewCommit) where
  recorded :
      (publication : NativePushPublication) (result : NativePushResult) (rows after : Rows)
      → publish_native_push normalize publication rows ≡ ok (result, after)
      → (existing : PushRow) × (lookup publication.idempotency_key after.pushes ≡ some existing)
        × (replay publication existing ≡ ok (applied publication))
  recorded publication result rows after h =
      elim (publish-eq-ok normalize publication result rows after h) [
        | inl (existing, found, replayed, is) ↦ (
          existing,
          subst (λ x. lookup publication.idempotency_key x.pushes ≡ some existing) (sym is) found,
          replay-eq-ok publication existing result replayed,
        )
        | inr (_, claimed, _) ↦
            let (_, _, advanced, _, _, is) =
              publish_claimed-eq-ok normalize publication (set_push publication false rows) after
                claimed in
            (
              push_row publication true,
              subst
                  (λ x.
                    lookup publication.idempotency_key x.pushes ≡ some (push_row publication true))
                  (sym is)
                  (ground (
                    arith,
                    lookup-insert publication.idempotency_key publication.idempotency_key
                        (push_row publication true) advanced.pushes,
                    eq_self publication.idempotency_key,
                  )),
              replay-push_row publication,
            )
      ]

  -- After a native push was published, the same publication succeeds again whatever transactions come
  -- between, reports that it was already applied with its target as the head, and writes nothing.
  pub publish_again :
      (publication : NativePushPublication) (result : NativePushResult) (rows after later : Rows)
      → publish_native_push normalize publication rows ≡ ok (result, after)
      → Steps normalize after later
      → publish_native_push normalize publication later ≡ ok (applied publication, later)
  unfolding publish_native_push
  publish_again publication result rows after later h steps =
      let (existing, found, replayed) = recorded publication result rows after h in
      let (complete, _) = then-eq-ok (guard (is_publishable publication) invalid_native_push) _ h in
      let there =
        (Steps-Grows normalize after later steps).pushes publication.idempotency_key existing
          found in
      rw (complete, there, replayed) refl
