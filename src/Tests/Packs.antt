-- ===== src/Tests/Packs.antt =====
-- A concrete pack contract: manifests and entries are numbers, and the codec knows one manifest.
use spool_rack.Prelude.{
  ℕ, Bytes, codes, Bool, true, ◌&&◌, Option, none, some, [], ◌∷◌, ◌≡◌, ◌↔◌, Eq, ◌==◌, nat_eq,
  bytes_eq, bytes_beq_iff, nat_beq_iff, list_beq, list_beq_iff, arith, if◌then◌else◌,
}
use spool_rack.NativePull.Format.{
  NativePackFrame, NativePullManifest, NativePackSource, PackContract, HasManifestCodec,
}
use spool_rack.Tests.Fixtures.{digest, id_of}

abbrev pub native_frame_beq : NativePackFrame ℕ ℕ → NativePackFrame ℕ ℕ → Bool
native_frame_beq a b =
    a.pack_id == b.pack_id
    && a.commit_id == b.commit_id
    && a.pack_hash == b.pack_hash
    && a.size == b.size
    && a.manifest == b.manifest
    && list_beq a.entries b.entries

pub native_frame_beq_iff : (a b : NativePackFrame ℕ ℕ) → (native_frame_beq a b ≡ true) ↔ (a ≡ b)
native_frame_beq_iff a b = ground (
  arith,
  bytes_beq_iff a.pack_id b.pack_id,
  bytes_beq_iff a.commit_id b.commit_id,
  bytes_beq_iff a.pack_hash b.pack_hash,
  nat_beq_iff a.size b.size,
  nat_beq_iff a.manifest b.manifest,
  list_beq_iff a.entries b.entries,
)

instance abbrev pub native_frame_eq : Eq (NativePackFrame ℕ ℕ)
native_frame_eq = record { same = native_frame_beq; same_iff = native_frame_beq_iff }

abbrev pub native_manifest_beq : NativePullManifest ℕ ℕ → NativePullManifest ℕ ℕ → Bool
native_manifest_beq a b = a.version == b.version && a.head == b.head && list_beq a.packs b.packs

native_manifest_beq_iff :
    (a b : NativePullManifest ℕ ℕ) → (native_manifest_beq a b ≡ true) ↔ (a ≡ b)
native_manifest_beq_iff a b = ground (
  arith,
  nat_beq_iff a.version b.version,
  bytes_beq_iff a.head b.head,
  list_beq_iff a.packs b.packs,
)

abbrev pub a_source : NativePackSource ℕ ℕ
a_source = record {
  pack_id = codes "p1";
  commit_id = id_of 4;
  manifest = 0;
  entries = 6 ∷ [];
  pack_data = 1 ∷ 2 ∷ 3 ∷ [];
}

abbrev pub a_native_manifest : NativePullManifest ℕ ℕ
a_native_manifest = record {
  version = 1;
  head = id_of 4;
  packs =
      record {
        pack_id = codes "p1";
        commit_id = id_of 4;
        pack_hash = id_of 1;
        size = 3;
        manifest = 0;
        entries = 6 ∷ [];
      }
      ∷ [];
}

-- the first byte of a pack is its header, the number of its objects
abbrev pub first_byte : Bytes → Option ℕ
first_byte [] = none
first_byte (b ∷ s) = some b

abbrev pub toy_packs : PackContract
toy_packs = record {
  Manifest = ℕ;
  metadata = λ m. record { id = codes "p1"; object_count = 1; compression = codes "zstd" } ∷ [];
  valid_manifest = λ m. true;
  zstd = codes "zstd";
  Entry = ℕ;
  entry_object = λ n. n ∷ [];
  valid_entry = λ pack_id n. true;
  valid_pack_id = λ pack_id. true;
  Header = ℕ;
  read_header = first_byte;
  object_count = λ n. n;
  valid_header = λ n. true;
  blake3 = digest;
  encode_manifest = λ m. if native_manifest_beq m a_native_manifest then some (9 ∷ []) else none;
  decode_manifest = λ s. some a_native_manifest;
}

pub toy_packs_codec : HasManifestCodec toy_packs
toy_packs_codec = record {
  reads_back = λ m d h. ground (arith, native_manifest_beq_iff m a_native_manifest);
}
