-- ===== src/Tests/SyncRuns.antt =====
-- The properties of content IDs and pack frames, at the frames of the fixtures.
use spool_rack.Prelude.{[], ◌∷◌, ◌≡◌, ◌↔◌, refl, contains, bytes_beq, bytes_eq}
use spool_rack.Prelude.Hex.{encode, decode, hex_digit, hex_value}
use spool_rack.Fault.{ok, err, invalid_frame}
use spool_rack.Sync.ContentId.{valid_content_id, content_id}
use spool_rack.Sync.Frame.{
  validate_v2, validate_v3, marshal_v2, unmarshal_v2, marshal_v3, unmarshal_v3, validate_identity,
  parent_object_ids, validate_ends, frame_commit, commit_object_id, frame_identity, link, follow,
  check_objects, check_snapshots, check_parents, collect, last_identity,
}
use spool_rack.Prelude.{some, Bytes}
use spool_rack.Sync.Codec.{unmarshal_v2_iff, unmarshal_v3_iff}
use spool_rack.Sync.FrameV2.{IsPackV2, validate_v2_iff}
use spool_rack.Sync.FrameV3.{IsPackV3}
use spool_rack.Sync.OrderV3.{validate_v3_iff, validate_v3_swap}
use spool_rack.Tests.Fixtures.{toy, frame_v2, frame_v3, bytes_v2, bytes_v3, a_commit, commit_id}

v2_valid : validate_v2 toy frame_v2 ≡ ok tt
unfolding validate_v2 validate_identity validate_ends frame_commit commit_object_id frame_identity
    link follow check_objects check_snapshots parent_object_ids content_id valid_content_id encode
    decode hex_digit hex_value contains bytes_beq
v2_valid = refl

v3_valid : validate_v3 toy frame_v3 ≡ ok tt
unfolding validate_v3 validate_identity validate_ends frame_commit commit_object_id frame_identity
    collect check_parents last_identity check_objects check_snapshots parent_object_ids content_id
    valid_content_id encode decode hex_digit hex_value contains bytes_beq
v3_valid = refl

-- A commit whose parent is not the commit before it breaks the chain.
v2_broken :
    validate_v2 toy
      (record frame_v2 { commits = a_commit 1 [] ∷ a_commit 2 (commit_id 4 ∷ []) ∷ [] })
    ≡ err invalid_frame
unfolding validate_v2 validate_identity validate_ends frame_commit commit_object_id frame_identity
    link follow check_objects check_snapshots parent_object_ids content_id valid_content_id encode
    decode hex_digit hex_value contains bytes_beq
v2_broken = refl

validate_v2_iff_example : (validate_v2 toy frame_v2 ≡ ok tt) ↔ IsPackV2 toy frame_v2
validate_v2_iff_example = validate_v2_iff toy frame_v2

validate_v3_iff_example : (validate_v3 toy frame_v3 ≡ ok tt) ↔ IsPackV3 toy frame_v3
validate_v3_iff_example = validate_v3_iff toy frame_v3

validate_v3_swap_example :
    validate_v3 toy (record frame_v3 {
      commits = a_commit 2 (commit_id 1 ∷ []) ∷ a_commit 1 [] ∷ a_commit 3 (commit_id 2 ∷ []) ∷ [];
    })
    ≡ ok tt
validate_v3_swap_example =
    validate_v3_swap toy frame_v3 (a_commit 1 []) (a_commit 2 (commit_id 1 ∷ []))
      (a_commit 3 (commit_id 2 ∷ [])) [] refl v3_valid

unmarshal_v3_iff_example :
    ((unmarshal_v3 toy bytes_v3 ≡ ok frame_v3)
      ↔ ((toy.decode_frame bytes_v3 ≡ some frame_v3) × (marshal_v3 toy frame_v3 ≡ ok bytes_v3)))
    × ((other : Bytes)
        → unmarshal_v3 toy bytes_v3 ≡ ok frame_v3
        → unmarshal_v3 toy other ≡ ok frame_v3
        → bytes_v3 ≡ other)
unmarshal_v3_iff_example = unmarshal_v3_iff toy bytes_v3 frame_v3

v2_marshals : marshal_v2 toy frame_v2 ≡ ok bytes_v2
unfolding marshal_v2 bytes_beq encode
v2_marshals = rw v2_valid refl

v3_marshals : marshal_v3 toy frame_v3 ≡ ok bytes_v3
unfolding marshal_v3 bytes_beq encode
v3_marshals = rw v3_valid refl

pub v2_reads : unmarshal_v2 toy bytes_v2 ≡ ok frame_v2
unfolding bytes_beq
v2_reads = (unmarshal_v2_iff toy bytes_v2 frame_v2).0.1 (refl, v2_marshals)

v3_reads : unmarshal_v3 toy bytes_v3 ≡ ok frame_v3
unfolding bytes_beq
v3_reads = (unmarshal_v3_iff toy bytes_v3 frame_v3).0.1 (refl, v3_marshals)
