-- ===== src/Sync/Frame.antt =====
-- internal/server/sync/framing.go: commit identities, commit frames and pack frames. The library
-- code that the file calls is the parameter `g`.
use spool_rack.Prelude.{
  ℕ, ◌*◌, ◌^◌, Bytes, is_empty, Bool, true, false, ◌&&◌, ◌||◌, not, List, [], ◌∷◌, length, ◌==◌,
  bytes_eq, nat_eq, nat_beq, leb, contains, if◌then◌else◌,
}
use spool_rack.Fault.{
  Result, Done, ok, err, ◌>>=◌, ◌>>◌, rewrap, from_option, guard, invalid_frame,
  invalid_canonical_frame, refused,
}
use spool_rack.Sync.Contract.{
  CommitIdentity, identity_eq, CommitFrame, PackObject, PackFrame, Contract,
}
use spool_rack.Sync.ContentId.{content_id, valid_content_id}

abbrev pub max_v2_pack_bytes : ℕ
max_v2_pack_bytes = 64 * 2 ^ 20

abbrev pub commit_format_legacy : ℕ
commit_format_legacy = 1

abbrev pub commit_format_v2 : ℕ
commit_format_v2 = 2

abbrev pub pack_format_v2 : ℕ
pack_format_v2 = 2

abbrev pub pack_format_v3 : ℕ
pack_format_v3 = 3

abbrev pub v2_commit_identity : Bytes → CommitIdentity
v2_commit_identity id = record { format = commit_format_v2; id = id }

-- the zero value of Go
abbrev pub no_identity : CommitIdentity
no_identity = record { format = 0; id = [] }

-- `CommitIdentity.Validate`
unfoldable pub validate_identity : CommitIdentity → Done
validate_identity identity =
    if is_empty identity.id
    then err invalid_frame
    else if not (identity.format == commit_format_legacy)
        && not (identity.format == commit_format_v2)
    then err invalid_frame
    else if identity.format == commit_format_v2 && not (valid_content_id identity.id)
    then err invalid_frame
    else ok tt

-- the loop of `CommitFrameV2.Commit`
unfoldable pub parent_object_ids : List CommitIdentity → Result (List Bytes)
parent_object_ids [] = ok []
parent_object_ids (parent ∷ parents) = do
  rewrap invalid_frame (validate_identity parent)
  ids ← parent_object_ids parents
  ok (parent.id ∷ ids)

-- `base` is left out only as the zero value
unfoldable pub validate_ends : CommitIdentity → CommitIdentity → Done
validate_ends base target = do
  if not (is_empty base.id) || not (nat_beq base.format 0)
      then rewrap invalid_frame (validate_identity base)
      else ok tt
  rewrap invalid_frame (validate_identity target)

module _ (g : Contract) where
  -- `CommitFrameV2.Commit`
  unfoldable pub frame_commit : CommitFrame → Result g.Commit
  frame_commit f = do
    parents ← parent_object_ids f.parents
    from_option refused (g.new_commit f.snapshot_root parents f.author f.message f.time)

  -- `CommitObjectID`
  unfoldable pub commit_object_id : g.Commit → Result Bytes
  commit_object_id commit = do
    encoded ← from_option refused (g.marshal_commit commit)
    ok (content_id g encoded)

  -- `CommitFrameV2.Identity`
  unfoldable pub frame_identity : CommitFrame → Result CommitIdentity
  frame_identity f = do
    commit ← frame_commit f
    id ← commit_object_id commit
    ok (v2_commit_identity id)

  -- the tests of one commit of `PackFrameV2.validate`; `first` says that it is commit 0
  unfoldable pub link :
      Bool → CommitIdentity → CommitFrame → List CommitIdentity → Result CommitIdentity
  link first previous commit [] =
      if first && is_empty previous.id && nat_beq previous.format 0
      then frame_identity commit
      else err invalid_frame
  link first previous commit (parent ∷ parents) =
      if not (parent == previous) then err invalid_frame else frame_identity commit

  -- the loop over the commits of `PackFrameV2.validate`, which returns the last `previous`
  unfoldable pub follow : Bool → CommitIdentity → List CommitFrame → Result CommitIdentity
  follow first previous [] = ok previous
  follow first previous (commit ∷ commits) = do
    _ ← rewrap invalid_frame (frame_commit commit)
    identity ← link first previous commit commit.parents
    follow false identity commits

  -- the loop over the objects, from the IDs seen so far
  unfoldable pub check_objects : List Bytes → List PackObject → Result (List Bytes)
  check_objects seen [] = ok seen
  check_objects seen (object ∷ objects) = do
    guard (valid_content_id object.id) invalid_frame
    guard (content_id g object.content == object.id) invalid_frame
    guard (not (contains seen object.id)) invalid_frame
    check_objects (object.id ∷ seen) objects

  -- the last loop: every snapshot is among the objects
  unfoldable pub check_snapshots : List Bytes → List CommitFrame → Done
  check_snapshots seen [] = ok tt
  check_snapshots seen (commit ∷ commits) = do
    if contains seen commit.snapshot_root
        then ok tt
        else (do _ ← frame_identity commit; err invalid_frame)
    check_snapshots seen commits

  -- `PackFrameV2.validate`
  unfoldable pub validate_v2 : PackFrame → Done
  validate_v2 f = do
    guard (f.version == pack_format_v2) invalid_frame
    validate_ends f.base f.target
    guard (not (is_empty f.commits)) invalid_frame
    previous ← follow true f.base f.commits
    guard (previous == f.target) invalid_frame
    seen ← check_objects [] f.objects
    check_snapshots seen f.commits

  unfoldable pub check_parents : List CommitIdentity → Done
  check_parents [] = ok tt
  check_parents (parent ∷ parents) = do
    rewrap invalid_frame (validate_identity parent)
    check_parents parents

  -- the loop over the commits of `PackFrameV3.validate`, from the commit IDs seen so far
  unfoldable pub collect : Bytes → List Bytes → List CommitFrame → Done
  collect base seen [] = ok tt
  collect base seen (commit ∷ commits) = do
    _ ← rewrap invalid_frame (frame_commit commit)
    identity ← frame_identity commit
    guard (not (contains seen identity.id)) invalid_frame
    guard (not (is_empty commit.parents && not (is_empty base))) invalid_frame
    check_parents commit.parents
    collect base (identity.id ∷ seen) commits

  -- `f.Commits[len(f.Commits)-1].Identity()`; the list is not empty where it is called
  unfoldable pub last_identity : List CommitFrame → Result CommitIdentity
  last_identity [] = err invalid_frame
  last_identity (commit ∷ []) = frame_identity commit
  last_identity (commit ∷ next ∷ commits) = last_identity (next ∷ commits)

  -- `PackFrameV3.validate`
  unfoldable pub validate_v3 : PackFrame → Done
  validate_v3 f = do
    guard (f.version == pack_format_v3) invalid_frame
    validate_ends f.base f.target
    guard (not (is_empty f.commits)) invalid_frame
    collect f.base.id (if is_empty f.base.id then [] else f.base.id ∷ []) f.commits
    last ← last_identity f.commits
    guard (last == f.target) invalid_frame
    seen ← check_objects [] f.objects
    check_snapshots seen f.commits

  abbrev pub marshal_with : (PackFrame → Done) → PackFrame → Result Bytes
  marshal_with validate f = do
    validate f
    encoded ← from_option invalid_frame (g.encode_frame f)
    guard (leb (length encoded) max_v2_pack_bytes) invalid_frame
    ok encoded

  abbrev pub unmarshal_with : (PackFrame → Result Bytes) → Bytes → Result PackFrame
  unmarshal_with marshal encoded = do
    guard (leb (length encoded) max_v2_pack_bytes) invalid_canonical_frame
    f ← from_option invalid_canonical_frame (g.decode_frame encoded)
    canonical ← marshal f
    guard (encoded == canonical) invalid_canonical_frame
    ok f

  -- `MarshalPackFrameV2`, `UnmarshalPackFrameV2` and their twins for version 3
  unfoldable pub marshal_v2 : PackFrame → Result Bytes
  marshal_v2 = marshal_with validate_v2

  unfoldable pub unmarshal_v2 : Bytes → Result PackFrame
  unmarshal_v2 = unmarshal_with marshal_v2

  unfoldable pub marshal_v3 : PackFrame → Result Bytes
  marshal_v3 = marshal_with validate_v3

  unfoldable pub unmarshal_v3 : Bytes → Result PackFrame
  unmarshal_v3 = unmarshal_with marshal_v3
