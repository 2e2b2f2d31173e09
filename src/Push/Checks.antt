-- ===== src/Push/Checks.antt =====
-- The requests of internal/server/sync/push.go, and the checks that read nothing but the request.
use spool_rack.Prelude.{
  ℕ, Bytes, codes, is_empty, Bool, ◌&&◌, ◌||◌, not, Option, List, [], ◌∷◌, ◌==◌, bytes_eq, nat_eq,
  nat_beq, length, drop, has_prefix, ltb, map, if◌then◌else◌,
}
use spool_rack.Prelude.Space.{trim_space}
use spool_rack.Fault.{
  Result, Done, ok, err, ◌>>=◌, ◌>>◌, guard, rewrap, required, invalid_frame,
  unsupported_contract_version,
}
use spool_rack.Auth.Defs.{to_lower}
use spool_rack.Sync.Contract.{CommitFrame, Contract}
use spool_rack.Sync.Frame.{pack_format_v2, pack_format_v3, frame_commit, commit_object_id}

-- a property of a node, and a node of the snapshot, as far as the scan for assets reads them
pub record Property : Type 0 where
  pub is_string : Bool
  pub text : Bytes

pub record Node : Type 0 where
  -- the property `assetUri`
  pub asset_uri : Option Property

-- `normalizePackFormat`
abbrev pub normalize_pack_format : ℕ → ℕ
normalize_pack_format format = if nat_beq format 0 then pack_format_v2 else format

-- `strings.TrimPrefix`
abbrev pub trim_prefix : Bytes → Bytes → Bytes
trim_prefix text prefix = if has_prefix text prefix then drop (length prefix) text else text

-- the hash that the URI of an asset names
unfoldable pub asset_hash : Bytes → Bytes
asset_hash uri = map to_lower (trim_space (trim_prefix (trim_space uri) (codes "spool://assets/")))

module _ (g : Contract) where
  -- `CommitRecord`
  pub record CommitRecord : Type 0 where
    pub id : Bytes
    pub commit : g.Commit

  -- `PushRequest`; the stream is absent, or gives its bytes or the error in which it ends
  pub record PushRequest : Type 0 where
    pub tenant_id : Bytes
    pub repo_id : Bytes
    pub branch : Bytes
    pub target_commit : Bytes
    pub base_commit : Bytes
    pub commits : List CommitRecord
    pub pack_hash : Bytes
    pub pack_format : ℕ
    pub pack_stream : Option (Result Bytes)

  -- `validateCommitRecord`
  unfoldable pub validate_commit_record : CommitRecord → Done
  validate_commit_record record' = do
    identity ← rewrap invalid_frame (commit_object_id g record'.commit)
    guard (record'.id == identity) invalid_frame

  unfoldable pub validate_commit_records : List CommitRecord → Done
  validate_commit_records [] = ok tt
  validate_commit_records (first ∷ others) = do
    validate_commit_record first
    validate_commit_records others

  -- `validatePushRequest`
  unfoldable pub validate_push_request : PushRequest → ℕ → Done
  validate_push_request request min_pack_format_version = do
    guard (not (is_empty request.branch)) required
    guard (not (is_empty request.target_commit)) required
    guard (not (is_empty request.pack_hash)) required
    let format = normalize_pack_format request.pack_format
    guard (not (ltb format min_pack_format_version || ltb pack_format_v3 format))
        unsupported_contract_version
    validate_commit_records request.commits

  -- `validateV2CommitMetadata`: the records are the frames' commits, one for one
  unfoldable pub match_records : List CommitRecord → List CommitFrame → Done
  match_records [] [] = ok tt
  match_records (first ∷ others) (frame ∷ frames) = do
    commit ← frame_commit g frame
    identity ← commit_object_id g commit
    guard (first.id == identity && g.same_commit first.commit commit) invalid_frame
    match_records others frames
  match_records _ _ = err invalid_frame

  unfoldable pub validate_v2_commit_metadata : List CommitRecord → List CommitFrame → Done
  validate_v2_commit_metadata records frames = do
    guard (length records == length frames) invalid_frame
    match_records records frames
