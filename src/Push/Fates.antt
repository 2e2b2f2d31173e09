-- ===== src/Push/Fates.antt =====
-- The ways in which the steps of `HandlePush` of internal/server/sync/push.go may end.
use spool_rack.Prelude.{Bytes, Bool, true, Option, none, some, List, [], ◌≡◌, refl, ◌⊎◌, bytes_eq}
use spool_rack.Fault.{Error, Result, Done, ok, err, non_fast_forward, non_fast_forward_head}
use spool_rack.Sync.Contract.{Contract}
use spool_rack.Push.Effect.{World, ◌>>=◌, after, pure, reads, in_store}
use spool_rack.Push.Interfaces.{Driver, BranchStore, IsBranchStore, Moves}
use spool_rack.Push.Checks.{Node, PushRequest}
use spool_rack.Push.Engine.{diagnose_non_fast_forward, swap_error, swap}

module _ (g : Contract) where
  abbrev pub Swapped :
      PushRequest g → Bytes → (Bytes → Option Bytes) → (Bytes → Option Bytes) → Type 0
  Swapped request expected before later =
      (before request.branch ≡ some expected)
      × Moves request.branch request.target_commit before later

module _ (g : Contract) {σ : Type 0} (store : BranchStore g σ) where
  -- What an accepted push did: it created the branch, or moved it from the base, or, where it names no
  -- base, from an ancestor of the target, or found it at the target.
  abbrev pub Accepted : PushRequest g → (Bytes → Option Bytes) → (Bytes → Option Bytes) → Type 0
  Accepted request before later =
      (((before request.branch ≡ none) × (request.base_commit ≡ []))
        × Moves request.branch request.target_commit before later)
      ⊎ ((head : Bytes) × (before request.branch ≡ some head)
          × (((head ≡ request.base_commit)
                × Moves request.branch request.target_commit before later)
              ⊎ ((request.base_commit ≡ [])
                  × (((head ≡ request.target_commit) × (later ≡ before))
                      ⊎ (((x : σ) × (store.is_ancestor head request.target_commit x ≡ ok true))
                          × Moves request.branch request.target_commit before later)))))

module _ {σ δ : Type 0} (heads : σ → Bytes → Option Bytes) where
  -- A failure leaves the heads as they were, and a success is of this kind.
  abbrev pub Fate :
      ((Bytes → Option Bytes) → (Bytes → Option Bytes) → Type 0)
      → World σ δ
      → Done × World σ δ
      → Type 0
  Fate Kind w (r, v) =
      ((e : Error) → r ≡ err e → heads v.store ≡ heads w.store)
      × (r ≡ ok tt → Kind (heads w.store) (heads v.store))

  -- a failure that touches nothing
  pub pure-Fate :
      (Kind : (Bytes → Option Bytes) → (Bytes → Option Bytes) → Type 0) (w : World σ δ) (e : Error)
      → Fate Kind w (err e, w)
  pure-Fate Kind w e = ((λ e' k. refl), λ k. cc k)

  pub wider :
      (Kind Kind' : (Bytes → Option Bytes) → (Bytes → Option Bytes) → Type 0) (w : World σ δ)
      (ended : Done × World σ δ)
      → ((later : Bytes → Option Bytes) → Kind (heads w.store) later → Kind' (heads w.store) later)
      → Fate Kind w ended
      → Fate Kind' w ended
  wider Kind Kind' w ended f h = (h.0, λ k. f (heads ended.1.store) (h.1 k))

module _ (g : Contract) {σ δ : Type 0} (driver : Driver δ) (store : BranchStore g σ)
    (validate_snapshot : Option (Bytes → Bool)) (scan : Bytes → Option (List Node)) where
  module _ (heads : σ → Bytes → Option Bytes) (law : IsBranchStore heads store) where
    pub swap-Fate :
        (request : PushRequest g) (head expected : Bytes) (w : World σ δ)
        → Fate heads
            (Swapped g request expected)
            w
            (swap g driver store validate_snapshot scan request head expected w)
    unfolding in_store
    swap-Fate request head expected w =
        by_end
          (store.compare_and_swap_branch_ref request.branch expected request.target_commit w.store)
          (law.swap_fails request.branch expected request.target_commit w.store)
          (law.swap_ok request.branch expected request.target_commit w.store)
      where
        by_end :
            (ended : Done × σ)
            → ((e : Error) → ended.0 ≡ err e → heads ended.1 ≡ heads w.store)
            → (ended.0 ≡ ok tt
                → (heads w.store request.branch ≡ some expected)
                  × Moves request.branch request.target_commit (heads w.store) (heads ended.1))
            → let (r, s) = swap_error g driver store validate_snapshot scan head ended in
              Fate heads (Swapped g request expected) w (r, record w { store = s })
        by_end (ok tt, s) fails succeeds = ((λ e k. cc k), λ k. succeeds refl)
        by_end (err non_fast_forward, s) fails succeeds =
            ((λ e k. fails non_fast_forward refl), λ k. cc k)
        by_end (err reason, s) fails succeeds = ((λ e k. fails reason refl), λ k. cc k)

    pub diagnose-Fate :
        (Kind : (Bytes → Option Bytes) → (Bytes → Option Bytes) → Type 0) (request : PushRequest g)
        (head : Bytes) (w : World σ δ)
        → Fate heads Kind w
            (diagnose_non_fast_forward g driver store validate_snapshot scan request head w)
    unfolding diagnose_non_fast_forward ◌>>=◌ reads pure
    diagnose-Fate Kind request head w =
        by_answer (store.is_ancestor request.base_commit head w.store)
      where
        by_answer :
            (answer : Result Bool)
            → Fate heads Kind w (
                after {A = Bool} {B = Unit {0}}
                  (answer, w)
                  λ _. pure (err (non_fast_forward_head head)))
        by_answer (ok b) = pure-Fate heads Kind w (non_fast_forward_head head)
        by_answer (err e) = pure-Fate heads Kind w e
