-- ===== src/NativePull/Frame.antt =====
-- internal/server/nativepull/framing.go: validation of a manifest, and the envelope.
use spool_rack.Prelude.{
  ℕ, ◌-◌, ◌*◌, ◌%◌, ◌^◌, Bytes, codes, is_empty, ◌&&◌, not, List, [], ◌∷◌, ◌++◌, length, take, drop,
  ◌==◌, bytes_eq, nat_eq, nat_beq, leb, contains, if◌then◌else◌,
}
use spool_rack.Prelude.Hex.{encode}
use spool_rack.Fault.{
  Result, Done, ok, err, ◌>>=◌, ◌>>◌, rewrap, from_option, guard, invalid_native_pull_frame,
  refused,
}
use spool_rack.Sync.ContentId.{valid_content_id}
use spool_rack.NativePull.BigEndian.{put_uint, uint_from}
use spool_rack.NativePull.Format.{
  PackMetadata, NativePackFrame, NativePullManifest, NativePackSource, DecodedNativePack,
  PackContract,
}

abbrev pub native_pull_format_v1 : ℕ
native_pull_format_v1 = 1

abbrev pub native_pull_magic : Bytes
native_pull_magic = codes "SRNP"

abbrev pub native_pull_header_size : ℕ
native_pull_header_size = 16

abbrev pub max_native_pull_packs : ℕ
max_native_pull_packs = 4096

abbrev pub max_native_pack_bytes : ℕ
max_native_pack_bytes = 64 * 2 ^ 20

-- `manifestListsPack`: the first metadata of the pack counts
unfoldable pub manifest_lists_pack : Bytes → List PackMetadata → Bytes → ℕ → Done
manifest_lists_pack zstd [] pack_id object_count = err refused
manifest_lists_pack zstd (metadata ∷ packs) pack_id object_count =
    let rest = manifest_lists_pack zstd packs pack_id object_count in
    if not (metadata.id == pack_id)
    then rest
    else if not (nat_beq metadata.object_count (object_count % 2 ^ 32))
    then err refused
    else if not (metadata.compression == zstd)
    then err refused
    else ok tt

module _ (g : PackContract) where
  -- `contentHash`
  unfoldable pub content_hash : Bytes → Bytes
  content_hash data_bytes = encode (g.blake3 data_bytes)

  -- the loop over the entries of `NativePackFrame.validate`, from the objects seen so far
  unfoldable pub check_entries : Bytes → List Bytes → List g.Entry → Done
  check_entries pack_id seen [] = ok tt
  check_entries pack_id seen (entry ∷ entries) = do
    guard (g.valid_entry pack_id entry) refused
    guard (not (contains seen (g.entry_object entry))) refused
    check_entries pack_id (g.entry_object entry ∷ seen) entries

  -- `NativePackFrame.validate`
  unfoldable pub validate_frame : NativePackFrame g.Manifest g.Entry → Done
  validate_frame f = do
    guard (g.valid_pack_id f.pack_id) refused
    guard (valid_content_id f.pack_hash) refused
    guard (valid_content_id f.commit_id) refused
    guard (not (nat_beq f.size 0)) refused
    guard (leb f.size max_native_pack_bytes) refused
    guard (g.valid_manifest f.manifest) refused
    manifest_lists_pack g.zstd (g.metadata f.manifest) f.pack_id (length f.entries)
    check_entries f.pack_id [] f.entries

  -- the loop over the packs of `NativePullManifestV1.validate`, from the packs and commits seen
  unfoldable pub check_packs :
      List Bytes → List Bytes → List (NativePackFrame g.Manifest g.Entry) → Done
  check_packs seen_packs seen_commits [] = ok tt
  check_packs seen_packs seen_commits (pack ∷ packs) = do
    rewrap invalid_native_pull_frame (validate_frame pack)
    guard (not (contains seen_packs pack.pack_id)) invalid_native_pull_frame
    guard (not (contains seen_commits pack.commit_id)) invalid_native_pull_frame
    check_packs (pack.pack_id ∷ seen_packs) (pack.commit_id ∷ seen_commits) packs

  -- `m.Packs[len(m.Packs)-1].CommitID`; the list is not empty where it is called
  unfoldable pub last_commit : List (NativePackFrame g.Manifest g.Entry) → Bytes
  last_commit [] = []
  last_commit (pack ∷ []) = pack.commit_id
  last_commit (pack ∷ next ∷ packs) = last_commit (next ∷ packs)

  -- `NativePullManifestV1.validate`
  unfoldable pub validate_manifest : NativePullManifest g.Manifest g.Entry → Done
  validate_manifest m = do
    guard (m.version == native_pull_format_v1) invalid_native_pull_frame
    guard (not (is_empty m.packs)) invalid_native_pull_frame
    guard (leb (length m.packs) max_native_pull_packs) invalid_native_pull_frame
    guard (valid_content_id m.head) invalid_native_pull_frame
    check_packs [] [] m.packs
    guard (last_commit m.packs == m.head) invalid_native_pull_frame

  -- `MarshalNativePullManifestV1`
  unfoldable pub marshal_manifest : NativePullManifest g.Manifest g.Entry → Result Bytes
  marshal_manifest m = do
    validate_manifest m
    from_option invalid_native_pull_frame (g.encode_manifest m)

  -- `UnmarshalNativePullManifestV1`
  unfoldable pub unmarshal_manifest : Bytes → Result (NativePullManifest g.Manifest g.Entry)
  unmarshal_manifest encoded = do
    m ← from_option invalid_native_pull_frame (g.decode_manifest encoded)
    canonical ← marshal_manifest m
    guard (encoded == canonical) invalid_native_pull_frame
    ok m

  -- `validateNativePackBytes`
  unfoldable pub validate_pack_bytes : Bytes → ℕ → Done
  validate_pack_bytes pack_data entry_count = do
    header ← from_option invalid_native_pull_frame (g.read_header pack_data)
    guard (g.valid_header header) invalid_native_pull_frame
    guard (nat_beq (g.object_count header) entry_count) invalid_native_pull_frame

  unfoldable pub frame_of : NativePackSource g.Manifest g.Entry → NativePackFrame g.Manifest g.Entry
  frame_of src = record {
    pack_id = src.pack_id;
    commit_id = src.commit_id;
    pack_hash = content_hash src.pack_data;
    size = length src.pack_data;
    manifest = src.manifest;
    entries = src.entries;
  }

  -- the first loop of `EncodeNativePullResponse`
  unfoldable pub frames_of :
      List (NativePackSource g.Manifest g.Entry)
      → Result (List (NativePackFrame g.Manifest g.Entry))
  frames_of [] = ok []
  frames_of (src ∷ sources) = do
    guard (leb (length src.pack_data) max_native_pack_bytes) invalid_native_pull_frame
    validate_pack_bytes src.pack_data (length src.entries)
    frames ← frames_of sources
    ok (frame_of src ∷ frames)

  -- its last loop
  unfoldable pub all_pack_data : List (NativePackSource g.Manifest g.Entry) → Bytes
  all_pack_data [] = []
  all_pack_data (src ∷ sources) = src.pack_data ++ all_pack_data sources

  abbrev pub header_of : Bytes → Bytes
  header_of manifest_data =
      native_pull_magic
      ++ (put_uint 4 native_pull_format_v1 ++ put_uint 8 (length manifest_data % 2 ^ 64))

  -- `EncodeNativePullResponse`
  unfoldable pub encode_response : Bytes → List (NativePackSource g.Manifest g.Entry) → Result Bytes
  encode_response head sources = do
    frames ← frames_of sources
    manifest_data ←
        marshal_manifest (record { version = native_pull_format_v1; head = head; packs = frames })
    ok (header_of manifest_data ++ (manifest_data ++ all_pack_data sources))

  -- the loop of `DecodeNativePullResponse`; `rest` is `data[offset:]`
  unfoldable pub split_packs :
      List (NativePackFrame g.Manifest g.Entry)
      → Bytes
      → Result (List (DecodedNativePack g.Manifest g.Entry))
  split_packs [] rest = do guard (is_empty rest) invalid_native_pull_frame; ok []
  split_packs (pack ∷ packs) rest = do
    guard (leb pack.size max_native_pack_bytes) invalid_native_pull_frame
    guard (leb pack.size (length rest)) invalid_native_pull_frame
    guard (content_hash (take pack.size rest) == pack.pack_hash) invalid_native_pull_frame
    validate_pack_bytes (take pack.size rest) (length pack.entries)
    decoded ← split_packs packs (drop pack.size rest)
    ok (
        record {
          pack_id = pack.pack_id;
          commit_id = pack.commit_id;
          manifest = pack.manifest;
          entries = pack.entries;
          pack_data = take pack.size rest;
        }
        ∷ decoded)

  -- `DecodeNativePullResponse`
  unfoldable pub decode_response :
      Bytes → Result (Bytes × List (DecodedNativePack g.Manifest g.Entry))
  decode_response envelope = do
    guard (leb native_pull_header_size (length envelope) && take 4 envelope == native_pull_magic)
        invalid_native_pull_frame
    guard (uint_from 0 (take 4 (drop 4 envelope)) == native_pull_format_v1)
        invalid_native_pull_frame
    let manifest_length = uint_from 0 (take 8 (drop 8 envelope))
    guard (leb manifest_length (length envelope - native_pull_header_size))
        invalid_native_pull_frame
    manifest ← unmarshal_manifest (take manifest_length (drop native_pull_header_size envelope))
    decoded ←
        split_packs manifest.packs (drop manifest_length (drop native_pull_header_size envelope))
    ok (manifest.head, decoded)
