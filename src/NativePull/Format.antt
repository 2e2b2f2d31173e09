-- ===== src/NativePull/Format.antt =====
-- internal/server/nativepull/framing.go: the records, and what the package takes from code outside
-- the repository: graphcontract's packs, BLAKE3 and the canonical CBOR codec.
use spool_rack.Prelude.{ℕ, Bytes, Bool, Option, some, List, ◌≡◌}

-- The fields of `graphcontract.PackMetadata` that the package reads.
pub record PackMetadata : Type 0 where
  pub id : Bytes
  pub object_count : ℕ
  pub compression : Bytes

-- `NativePackFrame`, over the types of a manifest and of an index entry
pub record NativePackFrame (Manifest Entry : Type 0) : Type 0 where
  pub pack_id : Bytes
  pub commit_id : Bytes
  pub pack_hash : Bytes
  pub size : ℕ
  pub manifest : Manifest
  pub entries : List Entry

-- `NativePullManifestV1`
pub record NativePullManifest (Manifest Entry : Type 0) : Type 0 where
  pub version : ℕ
  pub head : Bytes
  pub packs : List (NativePackFrame Manifest Entry)

-- `NativePackSource`
pub record NativePackSource (Manifest Entry : Type 0) : Type 0 where
  pub pack_id : Bytes
  pub commit_id : Bytes
  pub manifest : Manifest
  pub entries : List Entry
  pub pack_data : Bytes

-- `DecodedNativePack`
pub record DecodedNativePack (Manifest Entry : Type 0) : Type 0 where
  pub pack_id : Bytes
  pub commit_id : Bytes
  pub manifest : Manifest
  pub entries : List Entry
  pub pack_data : Bytes

pub record PackContract : Type 1 where
  -- graphcontract.PackManifest, its packs, ValidatePackManifest and PackCompressionZstd
  pub Manifest : Type 0
  pub metadata : Manifest → List PackMetadata
  pub valid_manifest : Manifest → Bool
  pub zstd : Bytes
  -- graphcontract.PackIndexEntry, its object and ValidatePackIndexEntry; ValidPackID
  pub Entry : Type 0
  pub entry_object : Entry → Bytes
  pub valid_entry : Bytes → Entry → Bool
  pub valid_pack_id : Bytes → Bool
  -- graphcontract.ReadPackHeader, the object count of a header, and ValidatePackHeader
  pub Header : Type 0
  pub read_header : Bytes → Option Header
  pub object_count : Header → ℕ
  pub valid_header : Header → Bool
  -- blake3.Sum256
  pub blake3 : Bytes → Bytes
  -- the canonical encoder and the strict decoder
  pub encode_manifest : NativePullManifest Manifest Entry → Option Bytes
  pub decode_manifest : Bytes → Option (NativePullManifest Manifest Entry)

-- What the encoder writes is read back.
pub record HasManifestCodec (g : PackContract) : Type 0 where
  pub reads_back :
      (m : NativePullManifest g.Manifest g.Entry) (d : Bytes)
      → g.encode_manifest m ≡ some d
      → g.decode_manifest d ≡ some m
