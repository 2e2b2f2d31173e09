-- ===== src/Push/Engine.antt =====
-- `PushEngine` of internal/server/sync/push.go, over any metadata store and any CAS.
use spool_rack.Prelude.{
  ℕ, Bytes, is_empty, Bool, true, false, ◌&&◌, Option, none, some, List, [], ◌∷◌, ◌==◌, bytes_eq,
  nat_eq, contains, length, leb, if◌then◌else◌,
}
use spool_rack.Fault.{
  Result, Done, ok, err, guard, from_option, required, refused, invalid_frame, missing_asset,
  branch_not_found, commit_not_found, non_fast_forward, non_fast_forward_head,
}
use spool_rack.Cas.Scope.{Scope, new_scope}
use spool_rack.Sync.Contract.{CommitIdentity, CommitFrame, PackObject, PackFrame, Contract}
use spool_rack.Sync.ContentId.{content_id}
use spool_rack.Sync.Frame.{
  max_v2_pack_bytes, commit_format_v2, pack_format_v3, unmarshal_v2, unmarshal_v3,
}
use spool_rack.Push.Effect.{World, Effect, ◌>>=◌, ◌>>◌, pure, reads, reads_cas, in_store, in_cas}
use spool_rack.Push.Interfaces.{Driver, BranchStore}
use spool_rack.Push.Checks.{
  Node, Property, CommitRecord, PushRequest, normalize_pack_format, asset_hash,
  validate_commit_record, validate_push_request, validate_v2_commit_metadata,
}

module _ (g : Contract) {σ δ : Type 0} (driver : Driver δ) (store : BranchStore g σ) where
  abbrev pub Run : Type 0 → Type 0
  Run = Effect (World σ δ)

  -- the loop of `verifySnapshotAssets`; Go visits the nodes in an order that is not fixed
  unfoldable pub verify_assets : Scope → List Bytes → Run (Unit {0})
  verify_assets scope [] = pure (ok tt)
  verify_assets scope (hash ∷ hashes) = do
    exists ← reads_cas (driver.asset_exists scope hash)
    pure (guard exists missing_asset)
    verify_assets scope hashes

  -- empty where the node is skipped
  abbrev pub node_hash : Option Property → Bytes
  node_hash none = []
  node_hash (some uri) = if uri.is_string then asset_hash uri.text else []

  unfoldable pub hashes_of : List Node → List Bytes
  hashes_of [] = []
  hashes_of (node ∷ nodes) =
      let rest = hashes_of nodes in
      let hash = node_hash node.asset_uri in if is_empty hash then rest else hash ∷ rest

  -- `verifySnapshotAssets`; `scan` is the CBOR decoder, and what it refuses is let through
  abbrev pub scanned : Scope → Option (List Node) → Run (Unit {0})
  scanned scope none = pure (ok tt)
  scanned scope (some nodes) = verify_assets scope (hashes_of nodes)

  unfoldable pub write_objects : Scope → List PackObject → Run (Unit {0})
  write_objects scope [] = pure (ok tt)
  write_objects scope (object ∷ objects) = do
    in_cas (driver.put scope object.id object.content)
    write_objects scope objects

  module _ (validate_snapshot : Option (Bytes → Bool)) (scan : Bytes → Option (List Node)) where
    -- the loop of `writePack` over the commits of the frame
    unfoldable pub check_snapshots : Scope → (Bytes → Bool) → List CommitFrame → Run (Unit {0})
    check_snapshots scope validate [] = pure (ok tt)
    check_snapshots scope validate (commit ∷ commits) = do
      snapshot ← reads_cas (driver.get scope commit.snapshot_root)
      pure (guard (content_id g snapshot == commit.snapshot_root) invalid_frame)
      pure (guard (validate snapshot) invalid_frame)
      scanned scope (scan snapshot)
      check_snapshots scope validate commits

    -- the stream, read to its end or past the limit
    unfoldable pub read_pack : Result Bytes → Result Bytes
    read_pack (err reason) = err reason
    read_pack (ok content) =
        if leb (length content) max_v2_pack_bytes then ok content else err refused

    abbrev pub unmarshal_frame : ℕ → Bytes → Result PackFrame
    unmarshal_frame format content =
        if normalize_pack_format format == pack_format_v3
        then unmarshal_v3 g content
        else unmarshal_v2 g content

    -- `writePack`
    unfoldable pub write_pack : Scope → PushRequest g → Run CommitIdentity
    write_pack scope request = do
      stream ← pure (from_option required request.pack_stream)
      validate ← pure (from_option invalid_frame validate_snapshot)
      content ← pure (read_pack stream)
      pure (guard (content_id g content == request.pack_hash) refused)
      frame ← pure (unmarshal_frame request.pack_format content)
      pure (
          guard (frame.base.id == request.base_commit && frame.target.id == request.target_commit)
            invalid_frame)
      pure (validate_v2_commit_metadata g request.commits frame.commits)
      write_objects scope frame.objects
      check_snapshots scope validate frame.commits
      in_cas (driver.write_pack scope request.pack_hash content)
      pure (ok frame.base)

    -- `validateV2BaseFormat`
    unfoldable pub validate_v2_base_format : CommitIdentity → Run (Unit {0})
    validate_v2_base_format base = do
      pure (guard (base.format == commit_format_v2) invalid_frame)
      format ← reads (store.get_commit_format base.id)
      pure (guard (format == commit_format_v2) invalid_frame)

    abbrev pub resolve_base : PushRequest g → CommitIdentity → Run (Unit {0})
    resolve_base request base =
        if is_empty request.base_commit then pure (ok tt) else validate_v2_base_format base

    -- an unknown parent is a fault of the frame
    abbrev pub parent_known : Result ℕ → Done
    parent_known (ok format) = ok tt
    parent_known (err commit_not_found) = err invalid_frame
    parent_known (err reason) = err reason

    unfoldable pub resolve_parents : List Bytes → List Bytes → Run (List Bytes)
    resolve_parents known [] = pure (ok known)
    resolve_parents known (parent ∷ parents) =
        if contains known parent then resolve_parents known parents else do
          reads (λ s. parent_known (store.get_commit_format parent s))
          resolve_parents (parent ∷ known) parents

    -- the loop over the commits of a version 3 push
    unfoldable pub resolve_commits : List Bytes → List (CommitRecord g) → Run (Unit {0})
    resolve_commits known [] = pure (ok tt)
    resolve_commits known (first ∷ others) = do
      known' ← resolve_parents known (g.parent_ids first.commit)
      resolve_commits (first.id ∷ known') others

    abbrev pub resolve : PushRequest g → Run (Unit {0})
    resolve request =
        if normalize_pack_format request.pack_format == pack_format_v3
        then resolve_commits (if is_empty request.base_commit then [] else request.base_commit ∷ [])
            request.commits
        else pure (ok tt)

    unfoldable pub register_commits : List (CommitRecord g) → Run (Unit {0})
    register_commits [] = pure (ok tt)
    register_commits (first ∷ others) = do
      pure (validate_commit_record g first)
      in_store (store.put_commit_with_format first.id first.commit commit_format_v2)
      register_commits others

    -- `diagnoseNonFastForward`: always an error
    unfoldable pub diagnose_non_fast_forward : PushRequest g → Bytes → Run (Unit {0})
    diagnose_non_fast_forward request actual_head = do
      _ ← reads (store.is_ancestor request.base_commit actual_head)
      pure (err (non_fast_forward_head actual_head))

    -- a lost race is reported with the head that was read
    abbrev pub swap_error : Bytes → Done × σ → Done × σ
    swap_error head (err non_fast_forward, s) = (err (non_fast_forward_head head), s)
    swap_error head (ends, s) = (ends, s)

    abbrev pub swap : PushRequest g → Bytes → Bytes → Run (Unit {0})
    swap request head expected = in_store (λ s.
        swap_error head
          (store.compare_and_swap_branch_ref request.branch expected request.target_commit s))

    -- the push names no base, and the branch has another head than the target
    abbrev pub onto_ancestor : PushRequest g → Bytes → Result Bool → Run (Unit {0})
    onto_ancestor request head (ok true) = swap request head head
    onto_ancestor request head (ok false) = diagnose_non_fast_forward request head
    onto_ancestor request head (err reason) = diagnose_non_fast_forward request head

    abbrev pub advance_empty_base : PushRequest g → Bytes → Run (Unit {0})
    advance_empty_base request head w =
        if head == request.target_commit
        then (ok tt, w)
        else onto_ancestor request head (store.is_ancestor head request.target_commit w.store) w

    -- what follows the reading of the branch
    unfoldable pub advance_from : PushRequest g → Bytes → Run (Unit {0})
    advance_from request head =
        if head == request.base_commit
        then swap request head request.base_commit
        else if is_empty request.base_commit
        then advance_empty_base request head
        else diagnose_non_fast_forward request head

    abbrev pub advance_branch : PushRequest g → Result Bytes → Run (Unit {0})
    advance_branch request (ok head) = advance_from request head
    advance_branch request (err branch_not_found) =
        if is_empty request.base_commit
        then in_store (store.create_branch request.branch request.target_commit)
        else pure (err branch_not_found)
    advance_branch request (err reason) = pure (err reason)

    -- `GetBranchRef`, and what the engine makes of its answer
    abbrev pub advance_ref : PushRequest g → Run (Unit {0})
    advance_ref request w = advance_branch request (store.get_branch_ref request.branch w.store) w

    -- what precedes the reading of the branch
    unfoldable pub prepare : ℕ → PushRequest g → Run (Unit {0})
    prepare min_pack_format_version request = do
      pure (validate_push_request g request min_pack_format_version)
      reads (store.set_tenant_context request.tenant_id)
      scope ← pure (new_scope request.tenant_id request.repo_id)
      base ← write_pack scope request
      resolve_base request base
      resolve request
      register_commits request.commits
      in_store (
          store.put_pack_range_with_format request.pack_hash request.base_commit
            request.target_commit (normalize_pack_format request.pack_format))

    -- `HandlePush`
    unfoldable pub handle_push : ℕ → PushRequest g → Run (Unit {0})
    handle_push min_pack_format_version request = do
      prepare min_pack_format_version request
      advance_ref request
