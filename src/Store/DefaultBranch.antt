-- ===== src/Store/DefaultBranch.antt =====
-- The default branch of internal/server/storage/postgres/store.go.
use spool_rack.Prelude.{
  Bytes, true, false, Option, none, some, List, [], ◌∷◌, All, Any, ◌≡◌, refl, sym, subst, ap, ◌∙◌,
  inl, inr, Bool-cases, bytes_beq, bytes_eq, lookup, insert, lookup-insert, arith, bytes_beq_iff,
  eq_self,
}
use spool_rack.Fault.{Error, ok}
use spool_rack.Store.Tables.{Branch, Repository, Rows}
use spool_rack.Store.Commits.{NewCommit}
use spool_rack.Store.Branches.{advance, create_branch, delete_branch, or_first, is_default}
use spool_rack.Store.NativePush.{
  NativePushPublication, NativePushResult, set_push, publish_native_push,
}
use spool_rack.Store.Ends.{
  advance-eq-ok, put_commit_tx_only, put_pack_range_only, create_branch-eq-ok, delete_branch-eq-ok,
  compare_and_swap-eq-ok,
}
use spool_rack.Store.LeaseEnds.{acquire-eq-ok, release-eq-ok, publish_claimed-eq-ok, publish-eq-ok}
use spool_rack.Store.History.{put_commits-Grows}
use spool_rack.Store.MergeEffect.{apply_merge_sound}
use spool_rack.Store.Steps.{
  Step, puts_commit, puts_range, creates, swaps, deletes, acquires, releases, applies, publishes,
  Steps, stop, step,
}

abbrev pub IsDefault : Bytes → Option Repository → Type 0
IsDefault name repository =
    (row : Repository) × (repository ≡ some row) × (row.default_branch ≡ some name)

abbrev pub IsLive : Bytes → List (Bytes × Branch) → Type 0
IsLive name branches =
    (branch : Branch) × (lookup name branches ≡ some branch) × (branch.deleted ≡ false)

-- This branch is the default one, and is not deleted.
abbrev pub IsLiveDefault : Bytes → Option Repository → List (Bytes × Branch) → Type 0
IsLiveDefault name repository branches = IsDefault name repository × IsLive name branches

IsLive-insert :
    (name other : Bytes) (old new : Branch) (branches : List (Bytes × Branch))
    → lookup other branches ≡ some old
    → new.deleted ≡ old.deleted
    → IsLive name branches
    → IsLive name (insert other new branches)
IsLive-insert name other old new branches found same (branch, there, live) =
    elim (Bool-cases (bytes_beq other name)) [
      | inl is ↦ (
        new,
        ground (arith, lookup-insert other name new branches),
        ground (arith, bytes_beq_iff other name, same, live),
      )
      | inr differs ↦ (branch, ground (arith, lookup-insert other name new branches), live)
    ]

IsLive-insert_other :
    (name other : Bytes) (new : Branch) (branches : List (Bytes × Branch))
    → bytes_beq other name ≡ false
    → IsLive name branches
    → IsLive name (insert other new branches)
IsLive-insert_other name other new branches differs (branch, there, live) =
    (branch, ground (arith, lookup-insert other name new branches), live)

IsLive-insert_new :
    (name other : Bytes) (new : Branch) (branches : List (Bytes × Branch))
    → lookup other branches ≡ none
    → IsLive name branches
    → IsLive name (insert other new branches)
IsLive-insert_new name other new branches fresh (branch, there, live) =
    (branch, ground (arith, lookup-insert other name new branches, bytes_beq_iff other name), live)

IsLive-insert_this :
    (name : Bytes) (new : Branch) (branches : List (Bytes × Branch))
    → new.deleted ≡ false
    → IsLive name (insert name new branches)
IsLive-insert_this name new branches live =
    (new, ground (arith, lookup-insert name name new branches, eq_self name), live)

not_default :
    (set : Option Bytes) (name default : Bytes)
    → is_default set name ≡ false
    → set ≡ some default
    → bytes_beq name default ≡ false
not_default none name default h named = cc
not_default (some first) name default h named =
    ground (arith, bytes_beq_iff first name, bytes_beq_iff name default)

advance-IsLiveDefault :
    (default : Bytes) (missed : Error) (name expected target : Bytes) (rows after : Rows)
    → advance missed name expected target rows ≡ ok after
    → IsLiveDefault default rows.repository rows.branches
    → IsLiveDefault default after.repository after.branches
advance-IsLiveDefault default missed name expected target rows after h (set, live) =
    let (old, found, _, _, is) = advance-eq-ok missed name expected target rows after h in
    let new : Branch = record old { head = target } in
    subst (λ x. IsLiveDefault default x.repository x.branches) (sym is)
      (set, IsLive-insert default name old new rows.branches found refl live)

create-IsLiveDefault :
    (default name head : Bytes) (rows after : Rows)
    → create_branch name head rows ≡ ok after
    → IsLiveDefault default rows.repository rows.branches
    → IsLiveDefault default after.repository after.branches
create-IsLiveDefault default name head rows after h ((row, this, named), live) =
    let (held, found, fresh, _, is) = create_branch-eq-ok name head rows after h in
    let new : Branch = record { head = head; deleted = false } in
    let same : held ≡ row = cc in
    subst (λ x. IsLiveDefault default x.repository x.branches) (sym is)
      (
        (_, refl, ap (λ r. or_first r.default_branch name) same ∙ ap (λ d. or_first d name) named),
        IsLive-insert_new default name new rows.branches fresh live,
      )

delete-IsLiveDefault :
    (default name : Bytes) (seen rows after : Rows)
    → IsDefault default seen.repository
    → delete_branch name seen rows ≡ ok after
    → IsLiveDefault default rows.repository rows.branches
    → IsLiveDefault default after.repository after.branches
delete-IsLiveDefault default name seen rows after (row, this, named) h (set, live) =
    let (held, old, found, other, there, _, is) = delete_branch-eq-ok name seen rows after h in
    let new : Branch = record old { deleted = true } in
    let same : held ≡ row = cc in
    subst (λ x. IsLiveDefault default x.repository x.branches) (sym is)
      (
        set,
        IsLive-insert_other default name new rows.branches
            (not_default held.default_branch name default other
              (ap (λ r. r.default_branch) same ∙ named))
            live,
      )

module _ (normalize : NewCommit → Option NewCommit) where
  same-IsLiveDefault :
      (default : Bytes) (rows after : Rows)
      → after.repository ≡ rows.repository
      → after.branches ≡ rows.branches
      → IsLiveDefault default rows.repository rows.branches
      → IsLiveDefault default after.repository after.branches
  same-IsLiveDefault default rows after repository branches live =
      subst (λ x. IsLiveDefault default x after.branches) (sym repository)
        (subst (λ x. IsLiveDefault default rows.repository x) (sym branches) live)

  publish-IsLiveDefault :
      (default : Bytes) (publication : NativePushPublication) (result : NativePushResult)
      (rows after : Rows)
      → publish_native_push normalize publication rows ≡ ok (result, after)
      → IsLiveDefault default rows.repository rows.branches
      → IsLiveDefault default after.repository after.branches
  publish-IsLiveDefault default publication result rows after h live =
      elim (publish-eq-ok normalize publication result rows after h) [
        | inl (_, _, _, is) ↦
            same-IsLiveDefault default rows after (ap (λ x. x.repository) is)
              (ap (λ x. x.branches) is) live
        | inr (_, claimed, _) ↦
            let pending = set_push publication false rows in
            let (missed, registered, advanced, put, moved, is) =
              publish_claimed-eq-ok normalize publication pending after claimed in
            let (_, only) =
              put_commits-Grows normalize publication.commits pending registered put in
            same-IsLiveDefault default advanced after (ap (λ x. x.repository) is)
              (ap (λ x. x.branches) is)
              (advance-IsLiveDefault default missed _ _ _ registered advanced moved (
                same-IsLiveDefault default pending registered (ap (λ x. x.repository) only)
                  (ap (λ x. x.branches) only) live))
      ]

  -- a delete has read one of the rows that were visited
  abbrev pub ReadIn : {rows after : Rows} → List Rows → Step normalize rows after → Type 0
  ReadIn visited (deletes name seen h) = Any (λ before. before ≡ seen) visited
  ReadIn visited _ = Unit

  -- every delete has read the rows visited earlier, or those of this sequence before it
  abbrev pub Reads : {rows after : Rows} → List Rows → Steps normalize rows after → Type 0
  Reads visited stop = Unit
  Reads visited (step {middle} first others) =
      ReadIn visited first × Reads (middle ∷ visited) others

  seen-IsDefault :
      (default : Bytes) (visited : List Rows) (seen : Rows)
      → All (λ before. IsDefault default before.repository) visited
      → Any (λ before. before ≡ seen) visited
      → IsDefault default seen.repository
  seen-IsDefault default [] seen were read = elim read [ ]
  seen-IsDefault default (before ∷ visited) seen (set, were) (inl is) =
      subst (λ x. IsDefault default x.repository) is set
  seen-IsDefault default (before ∷ visited) seen (set, were) (inr later) =
      seen-IsDefault default visited seen were later

  Step-IsLiveDefault :
      (default : Bytes) (visited : List Rows) (rows after : Rows) (this : Step normalize rows after)
      → All (λ seen. IsDefault default seen.repository) visited
      → ReadIn visited this
      → IsLiveDefault default rows.repository rows.branches
      → IsLiveDefault default after.repository after.branches
  Step-IsLiveDefault default visited rows after (puts_commit id commit format h) were reads =
      let only = put_commit_tx_only normalize id commit format rows after h in
      same-IsLiveDefault default rows after (ap (λ x. x.repository) only)
        (ap (λ x. x.branches) only)
  Step-IsLiveDefault default visited rows after (puts_range hash base target format h) were reads =
      let only = put_pack_range_only hash base target format rows after h in
      same-IsLiveDefault default rows after (ap (λ x. x.repository) only)
        (ap (λ x. x.branches) only)
  Step-IsLiveDefault default visited rows after (creates name head h) were reads =
      create-IsLiveDefault default name head rows after h
  Step-IsLiveDefault default visited rows after (swaps now name expected target h) were reads =
      let (missed, _, moved) = compare_and_swap-eq-ok now name expected target rows after h in
      advance-IsLiveDefault default missed name expected target rows after moved
  Step-IsLiveDefault default visited rows after (deletes name seen h) were reads =
      delete-IsLiveDefault default name seen rows after
        (seen-IsDefault default visited seen were reads) h
  Step-IsLiveDefault default visited rows after (acquires now drawn request lease h) were reads =
      let (_, _, _, _, _, is) = acquire-eq-ok now drawn request lease rows after h in
      same-IsLiveDefault default rows after (ap (λ x. x.repository) is) (ap (λ x. x.branches) is)
  Step-IsLiveDefault default visited rows after (releases name subject token h) were reads =
      let (_, _, _, is) = release-eq-ok name subject token rows after h in
      same-IsLiveDefault default rows after (ap (λ x. x.repository) is) (ap (λ x. x.branches) is)
  Step-IsLiveDefault default visited rows after (applies clock request h) were reads =
      λ (set, live).
        let (old, _, found, _, _, _, _, _, _, is) = apply_merge_sound clock request rows after h in
        let new : Branch = record old { head = request.result_commit_id } in
        subst (λ x. IsLiveDefault default x.repository x.branches) (sym is)
          (set, IsLive-insert default request.target_branch old new rows.branches found refl live)
  Step-IsLiveDefault default visited rows after (publishes publication result h) were reads =
      publish-IsLiveDefault default publication result rows after h

  from_visited :
      (default : Bytes) (visited : List Rows) (rows after : Rows)
      (steps : Steps normalize rows after)
      → All (λ seen. IsDefault default seen.repository) visited
      → Reads visited steps
      → IsLiveDefault default rows.repository rows.branches
      → IsLiveDefault default after.repository after.branches
  from_visited default visited rows after stop were reads live = live
  from_visited default visited rows after (step {middle} first others) were (read, reads) live =
      let now = Step-IsLiveDefault default visited rows middle first were read live in
      from_visited default (middle ∷ visited) middle after others (now.0, were) reads now

  -- If the default branch of a repository is set and not deleted, it stays the default branch and is
  -- not deleted by any sequence of committed transactions in which no delete has read the repository
  -- before the sequence began.
  pub Steps-IsLiveDefault :
      (default : Bytes) (rows after : Rows) (steps : Steps normalize rows after)
      → Reads (rows ∷ []) steps
      → IsLiveDefault default rows.repository rows.branches
      → IsLiveDefault default after.repository after.branches
  Steps-IsLiveDefault default rows after steps reads live =
      from_visited default (rows ∷ []) rows after steps (live.0, tt) reads live
