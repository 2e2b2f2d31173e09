-- ===== src/Push/Outcome.antt =====
-- How a push ends: `HandlePush` of internal/server/sync/push.go.
use spool_rack.Prelude.{
  ℕ, Bytes, is_empty, is_empty_nil, Bool, true, false, Option, none, some, List, [], ◌==◌, ◌≡◌,
  refl, subst, ◌∙◌, inl, inr, bytes_eq, eq_of_beq, if◌then◌else◌,
}
use spool_rack.Fault.{Error, Result, Done, ok, err, branch_not_found}
use spool_rack.Sync.Contract.{Contract}
use spool_rack.Push.Effect.{World, ◌>>◌, after, pure, in_store}
use spool_rack.Push.Interfaces.{Driver, BranchStore, IsBranchStore, Moves}
use spool_rack.Push.Checks.{Node, PushRequest}
use spool_rack.Push.Engine.{
  diagnose_non_fast_forward, swap, onto_ancestor, advance_empty_base, advance_from, advance_branch,
  advance_ref, prepare, handle_push,
}
use spool_rack.Push.Heads.{prepare-Keeps}
use spool_rack.Push.Delivered.{Delivered}
use spool_rack.Push.Fates.{Accepted, Swapped, Fate, pure-Fate, wider, swap-Fate, diagnose-Fate}

module _ (g : Contract) {σ δ : Type 0} (driver : Driver δ) (store : BranchStore g σ)
    (validate_snapshot : Option (Bytes → Bool)) (scan : Bytes → Option (List Node)) where
  module _ (heads : σ → Bytes → Option Bytes) (law : IsBranchStore heads store) where
    advance_from-Fate :
        (request : PushRequest g) (head : Bytes) (w : World σ δ)
        → heads w.store request.branch ≡ some head
        → Fate heads
            (Accepted g store request)
            w
            (advance_from g driver store validate_snapshot scan request head w)
    unfolding advance_from
    advance_from-Fate request head w there =
        by_base (head == request.base_commit) (is_empty request.base_commit) refl refl
      where
        moved :
            (later : Bytes → Option Bytes)
            → head ≡ request.base_commit
            → (heads w.store request.branch ≡ some request.base_commit)
              × Moves request.branch request.target_commit (heads w.store) later
            → Accepted g store request (heads w.store) later
        moved later is (_, m) = inr (head, there, inl (is, m))

        onto :
            (later : Bytes → Option Bytes) (x : σ)
            → request.base_commit ≡ []
            → store.is_ancestor head request.target_commit x ≡ ok true
            → (heads w.store request.branch ≡ some head)
              × Moves request.branch request.target_commit (heads w.store) later
            → Accepted g store request (heads w.store) later
        onto later x rootless is (_, m) = inr (head, there, inr (rootless, inr ((x, is), m)))

        by_answer :
            (answer : Result Bool)
            → store.is_ancestor head request.target_commit w.store ≡ answer
            → request.base_commit ≡ []
            → Fate heads
                (Accepted g store request)
                w
                (onto_ancestor g driver store validate_snapshot scan request head answer w)
        by_answer (ok true) is rootless =
            wider heads (Swapped g request head) (Accepted g store request) w
              (swap g driver store validate_snapshot scan request head head w)
              (λ later. onto later w.store rootless is)
              (swap-Fate g driver store validate_snapshot scan heads law request head head w)
        by_answer (ok false) is rootless =
            diagnose-Fate g driver store validate_snapshot scan heads law (Accepted g store request)
              request head w
        by_answer (err e) is rootless =
            diagnose-Fate g driver store validate_snapshot scan heads law (Accepted g store request)
              request head w

        by_target :
            (at_target : Bool)
            → (head == request.target_commit) ≡ at_target
            → request.base_commit ≡ []
            → Fate heads (Accepted g store request) w (
                if at_target
                then (ok tt, w)
                else onto_ancestor g driver store validate_snapshot scan request head
                    (store.is_ancestor head request.target_commit w.store)
                    w)
        by_target true is rootless = (
          (λ e k. refl),
          λ _.
              inr
                (head, there, inr (rootless, inl (eq_of_beq head request.target_commit is, refl))),
        )
        by_target false is rootless =
            by_answer (store.is_ancestor head request.target_commit w.store) refl rootless

        by_base :
            (at_base no_base : Bool)
            → (head == request.base_commit) ≡ at_base
            → is_empty request.base_commit ≡ no_base
            → Fate heads (Accepted g store request) w (
                (if at_base
                    then swap g driver store validate_snapshot scan request head request.base_commit
                    else if no_base
                    then advance_empty_base g driver store validate_snapshot scan request head
                    else diagnose_non_fast_forward g driver store validate_snapshot scan request
                        head)
                  w)
        by_base true no_base is e =
            wider heads (Swapped g request request.base_commit) (Accepted g store request) w
              (swap g driver store validate_snapshot scan request head request.base_commit w)
              (λ later. moved later (eq_of_beq head request.base_commit is))
              (swap-Fate g driver store validate_snapshot scan heads law request head
                request.base_commit w)
        by_base false true is e =
            by_target (head == request.target_commit) refl (is_empty_nil request.base_commit e)
        by_base false false is e =
            diagnose-Fate g driver store validate_snapshot scan heads law (Accepted g store request)
              request head w

    create-Fate :
        (request : PushRequest g) (w : World σ δ)
        → heads w.store request.branch ≡ none
        → request.base_commit ≡ []
        → Fate heads
            (Accepted g store request)
            w
            (in_store (store.create_branch request.branch request.target_commit) w)
    unfolding in_store
    create-Fate request w absent rootless =
        by_end (store.create_branch request.branch request.target_commit w.store)
          (law.create_fails request.branch request.target_commit w.store)
          (law.create_ok request.branch request.target_commit w.store)
      where
        by_end :
            (ended : Done × σ)
            → ((e : Error) → ended.0 ≡ err e → heads ended.1 ≡ heads w.store)
            → (ended.0 ≡ ok tt
                → Moves request.branch request.target_commit (heads w.store) (heads ended.1))
            → let (r, s) = ended in
              Fate heads (Accepted g store request) w (r, record w { store = s })
        by_end (ok tt, s) fails succeeds =
            ((λ e k. cc k), λ k. inl ((absent, rootless), succeeds refl))
        by_end (err reason, s) fails succeeds = ((λ e k. fails reason refl), λ k. cc k)

    advance_ref-Fate :
        (request : PushRequest g) (w : World σ δ)
        → Fate heads
            (Accepted g store request)
            w
            (advance_ref g driver store validate_snapshot scan request w)
    advance_ref-Fate request w = by_ref (store.get_branch_ref request.branch w.store) refl
      where
        by_base :
            (no_base : Bool)
            → is_empty request.base_commit ≡ no_base
            → heads w.store request.branch ≡ none
            → Fate heads (Accepted g store request) w (
                (if no_base
                    then in_store (store.create_branch request.branch request.target_commit)
                    else pure (err branch_not_found))
                  w)
        by_base true e absent = create-Fate request w absent (is_empty_nil request.base_commit e)
        by_base false e absent =
            unfold pure in pure-Fate heads (Accepted g store request) w branch_not_found

        by_ref :
            (ref : Result Bytes)
            → store.get_branch_ref request.branch w.store ≡ ref
            → Fate heads
                (Accepted g store request)
                w
                (advance_branch g driver store validate_snapshot scan request ref w)
        by_ref (ok head) e =
            advance_from-Fate request head w (law.get_ok request.branch head w.store e)
        by_ref (err branch_not_found) e =
            by_base (is_empty request.base_commit) refl (law.get_absent request.branch w.store e)
        by_ref (err reason) e = unfold pure in pure-Fate heads (Accepted g store request) w reason

    handle_push-Fate :
        (min : ℕ) (request : PushRequest g) (w : World σ δ)
        → Fate heads
            (Accepted g store request)
            w
            (handle_push g driver store validate_snapshot scan min request w)
    unfolding handle_push ◌>>◌
    handle_push-Fate min request w =
        from (prepare g driver store validate_snapshot scan min request w)
          ((prepare-Keeps g driver store validate_snapshot scan heads law min request).kept w)
      where
        from :
            (prepared : Done × World σ δ)
            → heads prepared.1.store ≡ heads w.store
            → Fate heads
                (Accepted g store request)
                w
                (after prepared λ _. advance_ref g driver store validate_snapshot scan request)
        from (ok done, v) same =
            let fate = advance_ref-Fate request v in
            (
              (λ e k. fate.0 e k ∙ same),
              λ k.
                  subst
                    (λ before.
                      Accepted g store request before (
                        heads
                          (advance_ref g driver store validate_snapshot scan request v).1.store))
                    same (fate.1 k),
            )
        from (err reason, v) same = ((λ e k. same), λ k. cc k)

    -- Over any store that keeps these laws, a push that returns an error has moved no branch, whatever
    -- CAS, the validator and the calls of the store did before it failed.
    pub rejected_push :
        (min : ℕ) (request : PushRequest g) (w : World σ δ) (e : Error)
        → (handle_push g driver store validate_snapshot scan min request w).0 ≡ err e
        → heads (handle_push g driver store validate_snapshot scan min request w).1.store
          ≡ heads w.store
    rejected_push min request w e h = (handle_push-Fate min request w).0 e h
