-- ===== src/Gateway/Told.antt =====
-- What `handlePush` of internal/server/gateway/gateway.go answers and records where the push engine
-- returns an error.
use spool_rack.Prelude.{ℕ, Bytes, codes, true, List, [], ◌∷◌, bytes_eq, ◌≡◌, refl, ◌≢◌}
use spool_rack.Fault.{
  Error, Result, non_fast_forward_head, unsupported_contract_version, invalid_frame,
  invalid_canonical_frame,
}
use spool_rack.Sync.Contract.{Contract}
use spool_rack.Push.Checks.{PushRequest}
use spool_rack.Gateway.Upload.{
  guidance_of, error_text, Message, Response, pushed, json_error, Event, PushMetadata, push_request,
  push_failed, is_pack_hash,
}

module _ (g : Contract) (tenant_id repo_id : Bytes) where
  -- The event names the repository of the context and what the client sent. Its previous ref is the base
  -- that the client named, which need not be the head that was there.
  abbrev pub Recorded : Bytes → PushRequest g → (new_ref detail : Bytes) → Event → Type 0
  Recorded outcome request new_ref detail event =
      (event.tenant_id ≡ tenant_id)
      × (event.repo_id ≡ repo_id)
      × (event.branch ≡ request.branch)
      × (event.action ≡ codes "push")
      × (event.outcome ≡ outcome)
      × (event.previous_ref ≡ request.base_commit)
      × (event.new_ref ≡ new_ref)
      × (event.contract_version ≡ request.pack_format)
      × (event.detail ≡ detail)

  -- the request is for the repository of the context, under a well-formed pack hash
  abbrev pub InScope : PushRequest g → Type 0
  InScope request =
      (request.tenant_id ≡ tenant_id)
      × (request.repo_id ≡ repo_id)
      × (is_pack_hash request.pack_hash ≡ true)

  -- A lost race or a diverged base is a conflict, which shows the head; any other error is a bad
  -- request, which shows none.
  abbrev pub Told :
      PushRequest g
      → Error
      → (status : ℕ) (code : Bytes) (message : Message) (head : Bytes) → Event
      → Type 0
  Told request reason status code message head event =
      ((actual : Bytes)
        → reason ≡ non_fast_forward_head actual
        → (status ≡ 409)
          × (code ≡ codes "conflict")
          × (message ≡ guidance_of reason)
          × (head ≡ actual)
          × Recorded (codes "rejected") request actual (codes "non-fast-forward push") event)
      × (((actual : Bytes) → reason ≢ non_fast_forward_head actual)
          → (status ≡ 400)
            × (head ≡ [])
            × (reason ≡ unsupported_contract_version
                → (code ≡ codes "unsupported_contract_version")
                  × (message ≡ error_text reason)
                  × Recorded (codes "rejected") request request.target_commit
                      (codes "unsupported contract version") event)
            × (reason ≢ unsupported_contract_version
                → (code ≡ codes "bad_request")
                  × Recorded (codes "rejected") request request.target_commit
                      (codes "invalid push pack or metadata") event))

  abbrev pub request_of : PushMetadata g → Result Bytes → PushRequest g
  request_of = push_request g tenant_id repo_id

  -- the answer to an error of the push engine
  abbrev pub FailedAs : PushMetadata g → PushRequest g → Error → Response × List Event → Type 0
  FailedAs meta request reason (pushed branch head, events) = ⊥
  FailedAs meta request reason (json_error status code message head, events) =
      (event : Event) × (events ≡ event ∷ []) × Told request reason status code message head event

  pub failed-Told :
      (meta : PushMetadata g) (content : Result Bytes) (reason : Error)
      → FailedAs meta (request_of meta content) reason (push_failed g tenant_id repo_id meta reason)
  unfolding push_failed
  failed-Told meta content (non_fast_forward_head head) = (
    _,
    refl,
    (
      (λ actual is.
          let same : head ≡ actual = cc is in
          (refl, refl, refl, same, (refl, refl, refl, refl, refl, refl, same, refl, refl))),
      λ other. absurd (other head refl),
    ),
  )
  failed-Told meta content unsupported_contract_version = (
    _,
    refl,
    (
      (λ actual is. cc is),
      λ other. (
        refl,
        refl,
        (λ _. (refl, refl, (refl, refl, refl, refl, refl, refl, refl, refl, refl))),
        λ no. absurd (no refl),
      ),
    ),
  )
  failed-Told meta content invalid_frame = (
    _,
    refl,
    (
      (λ actual is. cc is),
      λ other. (
        refl,
        refl,
        (λ is. cc is),
        λ _. (refl, (refl, refl, refl, refl, refl, refl, refl, refl, refl)),
      ),
    ),
  )
  failed-Told meta content invalid_canonical_frame = (
    _,
    refl,
    (
      (λ actual is. cc is),
      λ other. (
        refl,
        refl,
        (λ is. cc is),
        λ _. (refl, (refl, refl, refl, refl, refl, refl, refl, refl, refl)),
      ),
    ),
  )
  failed-Told meta content reason = (
    _,
    refl,
    (
      (λ actual is. cc is),
      λ other. (
        refl,
        refl,
        (λ is. cc is),
        λ _. (refl, (refl, refl, refl, refl, refl, refl, refl, refl, refl)),
      ),
    ),
  )
