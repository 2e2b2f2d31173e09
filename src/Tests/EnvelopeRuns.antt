-- ===== src/Tests/EnvelopeRuns.antt =====
-- The properties of the two pull envelopes, at small envelopes.
use spool_rack.Prelude.{
  ℕ, Bytes, codes, List, [], ◌∷◌, ◌++◌, ◌≡◌, refl, take, drop, contains, bytes_beq, bytes_eq,
}
use spool_rack.Prelude.Hex.{encode, decode, hex_digit, hex_value}
use spool_rack.Fault.{Result, ok}
use spool_rack.Sync.Contract.{PackFrame}
use spool_rack.Sync.ContentId.{content_id, valid_content_id}
use spool_rack.Sync.Frame.{
  v2_commit_identity, frame_identity, frame_commit, commit_object_id, parent_object_ids,
  validate_identity,
}
use spool_rack.Sync.Envelope.{
  validate_pull_manifest, check_pull_packs, marshal_pull_manifest, unmarshal_pull_manifest,
  note_commits, read_frame, read_packs, last_target, check_supplied, check_merge_parents,
  check_frames, unmarshal_envelope,
}
use spool_rack.Sync.EnvelopeSound.{Reads, joined, unmarshal_envelope_sound}
use spool_rack.Prelude.{is_empty, false, ◌↔◌}
use spool_rack.Sync.Stream.{
  PullPlan, validate_pack_chain, packs_match, pull_manifest_matches_plan, stream_packs,
  pull_header_of, stream_pull_with_manifest,
}
use spool_rack.Sync.StreamSound.{
  IsChain, AreListed, validate_pack_chain_iff, stream_pull_with_manifest_sound,
}
use spool_rack.NativePull.BigEndian.{uint_from, put_uint}
use spool_rack.Tests.Fixtures.{toy, bytes_v2, a_manifest, id_of}
use spool_rack.Tests.SyncRuns.{v2_reads}

abbrev an_envelope : Bytes
an_envelope = codes "SRPL" ++ (0 ∷ 0 ∷ 0 ∷ 2 ∷ 0 ∷ 0 ∷ 0 ∷ 0 ∷ 0 ∷ 0 ∷ 0 ∷ 1 ∷ 9 ∷ bytes_v2)

envelope_reads : unmarshal_envelope toy an_envelope ≡ ok (a_manifest, bytes_v2 ∷ [])
unfolding unmarshal_envelope unmarshal_pull_manifest marshal_pull_manifest validate_pull_manifest
    check_pull_packs read_packs read_frame note_commits last_target check_supplied
    check_merge_parents check_frames uint_from content_id valid_content_id encode decode hex_digit
    hex_value contains bytes_beq frame_identity frame_commit commit_object_id parent_object_ids
    validate_identity
envelope_reads = rw v2_reads refl

unmarshal_envelope_sound_example :
    (frames : List PackFrame) × (size : ℕ) × (validate_pull_manifest a_manifest ≡ ok tt)
    × Reads toy a_manifest.packs (bytes_v2 ∷ []) frames
    × (joined (bytes_v2 ∷ []) ≡ drop size (drop 16 an_envelope))
    × (marshal_pull_manifest toy a_manifest ≡ ok (take size (drop 16 an_envelope)))
    × (last_target frames ≡ v2_commit_identity a_manifest.head)
unmarshal_envelope_sound_example =
    unmarshal_envelope_sound toy an_envelope a_manifest (bytes_v2 ∷ []) envelope_reads

abbrev a_native_envelope : Bytes
a_native_envelope =
    codes "SRNP" ++ (0 ∷ 0 ∷ 0 ∷ 1 ∷ 0 ∷ 0 ∷ 0 ∷ 0 ∷ 0 ∷ 0 ∷ 0 ∷ 1 ∷ 9 ∷ 1 ∷ 2 ∷ 3 ∷ [])

abbrev a_plan : PullPlan
a_plan = record {
  head = id_of 2;
  ranges =
      record { pack_hash = id_of 7; format = 2; base_commit_id = []; target_commit_id = id_of 2 }
      ∷ [];
}

abbrev open_v2 : Bytes → Result Bytes
open_v2 hash = ok bytes_v2

plan_streams : stream_pull_with_manifest toy open_v2 a_plan a_manifest ≡ ok an_envelope
unfolding stream_pull_with_manifest pull_manifest_matches_plan packs_match stream_packs
    marshal_pull_manifest validate_pull_manifest check_pull_packs content_id valid_content_id encode
    decode hex_digit hex_value bytes_beq put_uint
plan_streams = refl

stream_pull_with_manifest_sound_example :
    (manifest_data : Bytes) × (packs : List Bytes) × (marshal_pull_manifest toy a_manifest
      ≡ ok manifest_data)
    × AreListed toy open_v2 a_manifest.packs packs
    × (pull_header_of manifest_data ++ (manifest_data ++ joined packs) ≡ an_envelope)
    × (a_manifest.head ≡ a_plan.head)
stream_pull_with_manifest_sound_example =
    stream_pull_with_manifest_sound toy open_v2 a_plan a_manifest an_envelope plan_streams

validate_pack_chain_iff_example :
    (validate_pack_chain a_plan.ranges (id_of 2) [] ≡ ok tt)
    ↔ ((is_empty a_plan.ranges ≡ false) × IsChain (id_of 2) a_plan.ranges [])
validate_pack_chain_iff_example = validate_pack_chain_iff a_plan.ranges (id_of 2) []
