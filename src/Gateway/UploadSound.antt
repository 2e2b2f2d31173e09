-- ===== src/Gateway/UploadSound.antt =====
-- What an answer of `handlePush` of internal/server/gateway/gateway.go says of the branches.
use spool_rack.Prelude.{ℕ, Bytes, codes, Bool, true, Option, List, [], ◌∷◌, bytes_eq, ◌≡◌, ◌⊎◌}
use spool_rack.Fault.{Error, Result, Done, ok, err}
use spool_rack.Sync.Contract.{Contract}
use spool_rack.Push.Effect.{World}
use spool_rack.Push.Interfaces.{Driver, BranchStore, IsBranchStore}
use spool_rack.Push.Checks.{Node, PushRequest}
use spool_rack.Push.Engine.{handle_push}
use spool_rack.Push.Fates.{Accepted}
use spool_rack.Gateway.Upload.{Response, pushed, json_error, Event, PushMetadata, is_pack_hash}
use spool_rack.Gateway.Told.{Recorded, InScope, Told}

module _ (g : Contract) {σ δ : Type 0} (driver : Driver δ) (store : BranchStore g σ)
    (validate_snapshot : Option (Bytes → Bool)) (scan : Bytes → Option (List Node))
    (heads : σ → Bytes → Option Bytes) (law : IsBranchStore heads store) (min : ℕ)
    (tenant_id repo_id : Bytes)
    (decode : Result Bytes → PushMetadata g → Option (PushMetadata g)) where
  -- What an answer and its events say of the run from `w` to `v`.
  abbrev pub Answered : (Response × List Event) × World σ δ → World σ δ → Type 0
  Answered ((pushed branch head, events), v) w =
      (request : PushRequest g) × (event : Event) × (request.branch ≡ branch)
      × (request.target_commit ≡ head)
      × InScope g tenant_id repo_id request
      × (handle_push g driver store validate_snapshot scan min request w ≡ (ok tt, v))
      × Accepted g store request (heads w.store) (heads v.store)
      × (events ≡ event ∷ [])
      × Recorded g tenant_id repo_id (codes "verified") request head [] event
  Answered ((json_error status code message head, events), v) w =
      ((events ≡ []) × (v ≡ w))
      ⊎ ((request : PushRequest g) × (reason : Error) × (event : Event) × InScope g tenant_id
            repo_id request
          × (handle_push g driver store validate_snapshot scan min request w ≡ (err reason, v))
          × (heads v.store ≡ heads w.store)
          × (events ≡ event ∷ [])
          × Told g tenant_id repo_id request reason status code message head event)

  abbrev engine : PushRequest g → World σ δ → Done × World σ δ
  engine request = handle_push g driver store validate_snapshot scan min request

  -- a run of the rest of the handler, once the metadata are checked
  abbrev Serves : (Bool → PushMetadata g → World σ δ → (Response × List Event) × World σ δ) → Type 0
  Serves rest =
      (saw : Bool) (meta : PushMetadata g) (w : World σ δ)
      → (saw ≡ true → is_pack_hash meta.pack_hash ≡ true)
      → Answered (rest saw meta w) w
