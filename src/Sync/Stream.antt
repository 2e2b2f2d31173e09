-- ===== src/Sync/Stream.antt =====
-- internal/server/sync/pull.go: the manifest of a pull plan, and the stream of its packs. `open`
-- stands for the driver's `OpenPack` in the plan's scope, read to its end. The bytes are those that
-- are given to the zstd encoder.
use spool_rack.Prelude.{
  ℕ, ◌%◌, ◌^◌, Bytes, is_empty, Bool, ◌&&◌, ◌||◌, not, List, [], ◌∷◌, ◌++◌, length, ◌==◌, bytes_eq,
  nat_eq, nat_beq, leb,
}
use spool_rack.Fault.{Result, Done, ok, ◌>>=◌, ◌>>◌, guard, invalid_pull_envelope, refused}
use spool_rack.Sync.Contract.{PullPack, PullManifest, Contract}
use spool_rack.Sync.ContentId.{content_id, valid_content_id}
use spool_rack.Sync.Frame.{max_v2_pack_bytes, pack_format_v2, pack_format_v3}
use spool_rack.Sync.Envelope.{pull_envelope_magic, pull_envelope_format_v2, marshal_pull_manifest}
use spool_rack.NativePull.BigEndian.{put_uint}

-- the fields of `postgres.PackRange` that the engine reads
pub record PackRange : Type 0 where
  pub pack_hash : Bytes
  pub format : ℕ
  pub base_commit_id : Bytes
  pub target_commit_id : Bytes

-- `PullPlan` without its scope
pub record PullPlan : Type 0 where
  pub head : Bytes
  pub ranges : List PackRange

-- the loop of `validatePackChain`
unfoldable pub follow_ranges : Bytes → List PackRange → Bytes → Done
follow_ranges expected_target [] known_commit = guard (expected_target == known_commit) refused
follow_ranges expected_target (range ∷ ranges) known_commit = do
  guard (range.target_commit_id == expected_target) refused
  follow_ranges range.base_commit_id ranges known_commit

-- `validatePackChain`
unfoldable pub validate_pack_chain : List PackRange → Bytes → Bytes → Done
validate_pack_chain ranges head known_commit = do
  guard (not (is_empty ranges)) refused
  follow_ranges head ranges known_commit

abbrev pub is_pack_format : ℕ → Bool
is_pack_format format = nat_beq format pack_format_v2 || nat_beq format pack_format_v3

-- the loop of `pullManifestMatchesPlan`, on lists of one length
unfoldable pub packs_match : List PullPack → List PackRange → Done
packs_match (pack ∷ packs) (range ∷ ranges) = do
  guard
      (pack.hash == range.pack_hash
        && nat_beq pack.format range.format
        && is_pack_format range.format)
      invalid_pull_envelope
  packs_match packs ranges
packs_match _ _ = ok tt

abbrev pub pull_header_of : Bytes → Bytes
pull_header_of manifest_data =
    pull_envelope_magic
    ++ (put_uint 4 pull_envelope_format_v2 ++ put_uint 8 (length manifest_data % 2 ^ 64))

module _ (g : Contract) where
  -- `pullManifestMatchesPlan`
  unfoldable pub pull_manifest_matches_plan : PullManifest → PullPlan → Done
  pull_manifest_matches_plan m plan = do
    _ ← marshal_pull_manifest g m
    guard (m.head == plan.head && nat_beq (length m.packs) (length plan.ranges))
        invalid_pull_envelope
    packs_match m.packs plan.ranges

  module _ (open_pack : Bytes → Result Bytes) where
    -- the loop of `BuildPullManifest`
    unfoldable pub list_packs : List PackRange → Result (List PullPack)
    list_packs [] = ok []
    list_packs (range ∷ ranges) = do
      guard (is_pack_format range.format) invalid_pull_envelope
      guard (valid_content_id range.pack_hash) invalid_pull_envelope
      pack ← open_pack range.pack_hash
      guard (content_id g pack == range.pack_hash) invalid_pull_envelope
      guard (leb (length pack) max_v2_pack_bytes) invalid_pull_envelope
      packs ← list_packs ranges
      ok (record { hash = range.pack_hash; format = range.format; size = length pack } ∷ packs)

    -- `BuildPullManifest`
    unfoldable pub build_pull_manifest : PullPlan → Result PullManifest
    build_pull_manifest plan = do
      packs ← list_packs plan.ranges
      let m : PullManifest = record {
        version = pull_envelope_format_v2;
        head = plan.head;
        packs = packs;
      }
      _ ← marshal_pull_manifest g m
      ok m

    -- the loop of `StreamPullWithManifest`, on lists of one length
    unfoldable pub stream_packs : List PullPack → List PackRange → Result Bytes
    stream_packs (manifest_pack ∷ packs) (range ∷ ranges) = do
      pack ← open_pack range.pack_hash
      guard (nat_beq (length pack) manifest_pack.size && content_id g pack == manifest_pack.hash)
          invalid_pull_envelope
      rest ← stream_packs packs ranges
      ok (pack ++ rest)
    stream_packs _ _ = ok []

    -- `StreamPullWithManifest`
    unfoldable pub stream_pull_with_manifest : PullPlan → PullManifest → Result Bytes
    stream_pull_with_manifest plan m = do
      pull_manifest_matches_plan m plan
      manifest_data ← marshal_pull_manifest g m
      packs ← stream_packs m.packs plan.ranges
      ok (pull_header_of manifest_data ++ (manifest_data ++ packs))
