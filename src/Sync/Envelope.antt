-- ===== src/Sync/Envelope.antt =====
-- internal/server/sync/pull.go: the pull manifest, and reading a whole pull envelope.
use spool_rack.Prelude.{
  ℕ, ◌+◌, ◌-◌, Bytes, codes, is_empty, Bool, ◌&&◌, ◌||◌, not, List, [], ◌∷◌, length, take, drop,
  ◌==◌, bytes_eq, nat_eq, nat_beq, leb, contains, if◌then◌else◌,
}
use spool_rack.Fault.{
  Result, Done, ok, ◌>>=◌, ◌>>◌, rewrap, from_option, guard, invalid_pull_envelope,
}
use spool_rack.Sync.Contract.{
  CommitIdentity, identity_eq, CommitFrame, PackFrame, PullPack, PullManifest, Contract,
}
use spool_rack.Sync.ContentId.{content_id, valid_content_id}
use spool_rack.Sync.Frame.{
  max_v2_pack_bytes, commit_format_v2, pack_format_v2, pack_format_v3, v2_commit_identity,
  no_identity, frame_identity, unmarshal_v2, unmarshal_v3,
}
use spool_rack.NativePull.BigEndian.{uint_from}

abbrev pub pull_envelope_format_v2 : ℕ
pull_envelope_format_v2 = 2

abbrev pub pull_envelope_magic : Bytes
pull_envelope_magic = codes "SRPL"

abbrev pub pull_envelope_header_size : ℕ
pull_envelope_header_size = 16

-- the loop of `PullManifestV2.validate`
unfoldable pub check_pull_packs : List PullPack → Done
check_pull_packs [] = ok tt
check_pull_packs (pack ∷ packs) = do
  guard (valid_content_id pack.hash) invalid_pull_envelope
  guard (nat_beq pack.format pack_format_v2 || nat_beq pack.format pack_format_v3)
      invalid_pull_envelope
  check_pull_packs packs

-- `PullManifestV2.validate`
unfoldable pub validate_pull_manifest : PullManifest → Done
validate_pull_manifest m = do
  guard (m.version == pull_envelope_format_v2) invalid_pull_envelope
  guard (valid_content_id m.head) invalid_pull_envelope
  guard (not (is_empty m.packs)) invalid_pull_envelope
  check_pull_packs m.packs

-- What the loop over the packs of an envelope has gathered.
pub record Walk : Type 0 where
  pub packs : List Bytes
  pub frames : List PackFrame
  pub commits : List CommitIdentity
  pub head_targets : ℕ

-- `frames[len(frames)-1].Target`; the list is not empty where it is called
unfoldable pub last_target : List PackFrame → CommitIdentity
last_target [] = no_identity
last_target (frame ∷ []) = frame.target
last_target (frame ∷ next ∷ frames) = last_target (next ∷ frames)

-- the innermost of the last loops: every parent is supplied
unfoldable pub check_supplied : List CommitIdentity → List CommitIdentity → Done
check_supplied commits [] = ok tt
check_supplied commits (parent ∷ parents) = do
  guard (contains commits parent) invalid_pull_envelope
  check_supplied commits parents

unfoldable pub check_merge_parents : List CommitIdentity → List CommitFrame → Done
check_merge_parents commits [] = ok tt
check_merge_parents commits (commit ∷ rest) = do
  check_supplied commits (drop 1 commit.parents)
  check_merge_parents commits rest

unfoldable pub check_frames : List CommitIdentity → List PackFrame → Done
check_frames commits [] = ok tt
check_frames commits (frame ∷ frames) = do
  check_merge_parents commits frame.commits
  check_frames commits frames

module _ (g : Contract) where
  -- `MarshalPullManifestV2`
  unfoldable pub marshal_pull_manifest : PullManifest → Result Bytes
  marshal_pull_manifest m = do
    validate_pull_manifest m
    from_option invalid_pull_envelope (g.encode_manifest m)

  -- `UnmarshalPullManifestV2`
  unfoldable pub unmarshal_pull_manifest : Bytes → Result PullManifest
  unmarshal_pull_manifest encoded = do
    m ← from_option invalid_pull_envelope (g.decode_manifest encoded)
    canonical ← marshal_pull_manifest m
    guard (encoded == canonical) invalid_pull_envelope
    ok m

  -- the loop over a frame's commits, from the identities seen in this and in earlier packs
  unfoldable pub note_commits :
      List CommitIdentity → List CommitFrame → Result (List CommitIdentity)
  note_commits commits [] = ok commits
  note_commits commits (commit ∷ rest) = do
    identity ← rewrap invalid_pull_envelope (frame_identity g commit)
    guard (not (contains commits identity)) invalid_pull_envelope
    note_commits (identity ∷ commits) rest

  unfoldable pub read_frame : ℕ → Bytes → Result PackFrame
  read_frame format pack =
      rewrap invalid_pull_envelope
        (if nat_beq format pack_format_v3 then unmarshal_v3 g pack else unmarshal_v2 g pack)

  abbrev pub targets_head : Bytes → PackFrame → Bool
  targets_head head frame = nat_beq frame.target.format commit_format_v2 && frame.target.id == head

  -- the loop over the packs; `rest` is `data[offset:]`
  unfoldable pub read_packs : Bytes → List CommitIdentity → ℕ → List PullPack → Bytes → Result Walk
  read_packs head commits head_targets [] rest = do
    guard (is_empty rest) invalid_pull_envelope
    ok (record { packs = []; frames = []; commits = commits; head_targets = head_targets })
  read_packs head commits head_targets (pack ∷ packs) rest = do
    guard (leb pack.size max_v2_pack_bytes) invalid_pull_envelope
    guard (leb pack.size (length rest)) invalid_pull_envelope
    guard (content_id g (take pack.size rest) == pack.hash) invalid_pull_envelope
    frame ← read_frame pack.format (take pack.size rest)
    let here = targets_head head frame
    guard (not (here && leb 1 head_targets)) invalid_pull_envelope
    commits' ← note_commits commits frame.commits
    walk ←
        read_packs head commits' (if here then head_targets + 1 else head_targets) packs
          (drop pack.size rest)
    ok (record walk { packs = take pack.size rest ∷ walk.packs; frames = frame ∷ walk.frames })

  -- `UnmarshalPullEnvelopeV2`
  unfoldable pub unmarshal_envelope : Bytes → Result (PullManifest × List Bytes)
  unmarshal_envelope envelope = do
    guard
        (leb pull_envelope_header_size (length envelope) && take 4 envelope == pull_envelope_magic)
        invalid_pull_envelope
    guard (uint_from 0 (take 4 (drop 4 envelope)) == pull_envelope_format_v2) invalid_pull_envelope
    let manifest_length = uint_from 0 (take 8 (drop 8 envelope))
    guard (leb manifest_length (length envelope - pull_envelope_header_size)) invalid_pull_envelope
    manifest ←
        unmarshal_pull_manifest (take manifest_length (drop pull_envelope_header_size envelope))
    walk ←
        read_packs manifest.head [] 0 manifest.packs
          (drop manifest_length (drop pull_envelope_header_size envelope))
    guard (walk.head_targets == 1) invalid_pull_envelope
    guard (last_target walk.frames == v2_commit_identity manifest.head) invalid_pull_envelope
    check_frames walk.commits walk.frames
    ok (manifest, walk.packs)
