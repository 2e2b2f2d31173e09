-- ===== src/Tests/Fixtures.antt =====
-- A concrete contract: a digest of one byte of the content, and a codec of two frames and a manifest.
use spool_rack.Prelude.{
  ℕ, zero, suc, ◌%◌, Bytes, codes, Bool, true, false, not, ◌&&◌, Option, none, some, List, [], ◌∷◌,
  All, length, ◌≡◌, ◌↔◌, refl, Eq, ◌==◌, nat_eq, bytes_eq, bytes_beq, bytes_beq_iff, nat_beq_iff,
  list_beq, list_beq_iff, arith, if◌then◌else◌,
}
use spool_rack.Prelude.Hex.{encode, IsByte}
use spool_rack.Sync.Contract.{
  CommitIdentity, CommitFrame, PackObject, PackFrame, PullPack, PullManifest, Contract, HasDigests,
  identity_eq, identity_beq_iff,
}

abbrev bool_beq : Bool → Bool → Bool
bool_beq true b = b
bool_beq false b = not b

bool_beq_iff : (a b : Bool) → (bool_beq a b ≡ true) ↔ (a ≡ b)
bool_beq_iff true b = ground arith
bool_beq_iff false b = ground arith

abbrev pub commit_beq : CommitFrame → CommitFrame → Bool
commit_beq a b =
    a.version == b.version
    && list_beq a.parents b.parents
    && bool_beq a.null_parents b.null_parents
    && a.snapshot_root == b.snapshot_root
    && a.author == b.author
    && a.message == b.message
    && a.time == b.time

pub commit_beq_iff : (a b : CommitFrame) → (commit_beq a b ≡ true) ↔ (a ≡ b)
commit_beq_iff a b = ground (
  arith,
  nat_beq_iff a.version b.version,
  list_beq_iff a.parents b.parents,
  bool_beq_iff a.null_parents b.null_parents,
  bytes_beq_iff a.snapshot_root b.snapshot_root,
  bytes_beq_iff a.author b.author,
  bytes_beq_iff a.message b.message,
  nat_beq_iff a.time b.time,
)

instance abbrev pub commit_eq : Eq CommitFrame
commit_eq = record { same = commit_beq; same_iff = commit_beq_iff }

abbrev pub object_beq : PackObject → PackObject → Bool
object_beq a b = a.id == b.id && a.content == b.content && bool_beq a.null_content b.null_content

pub object_beq_iff : (a b : PackObject) → (object_beq a b ≡ true) ↔ (a ≡ b)
object_beq_iff a b = ground (
  arith,
  bytes_beq_iff a.id b.id,
  bytes_beq_iff a.content b.content,
  bool_beq_iff a.null_content b.null_content,
)

instance abbrev pub object_eq : Eq PackObject
object_eq = record { same = object_beq; same_iff = object_beq_iff }

abbrev pub frame_beq : PackFrame → PackFrame → Bool
frame_beq a b =
    a.version == b.version
    && a.base == b.base
    && a.target == b.target
    && list_beq a.commits b.commits
    && list_beq a.objects b.objects
    && bool_beq a.null_commits b.null_commits
    && bool_beq a.null_objects b.null_objects

pub frame_beq_iff : (a b : PackFrame) → (frame_beq a b ≡ true) ↔ (a ≡ b)
frame_beq_iff a b = ground (
  arith,
  nat_beq_iff a.version b.version,
  identity_beq_iff a.base b.base,
  identity_beq_iff a.target b.target,
  list_beq_iff a.commits b.commits,
  list_beq_iff a.objects b.objects,
  bool_beq_iff a.null_commits b.null_commits,
  bool_beq_iff a.null_objects b.null_objects,
)

abbrev pub zero_bytes : ℕ → Bytes
zero_bytes zero = []
zero_bytes (suc n) = 0 ∷ zero_bytes n

abbrev pub zeros : Bytes
zeros = zero_bytes 31

abbrev pub digest : Bytes → Bytes
digest [] = 0 ∷ zeros
digest (b ∷ s) = (b % 256) ∷ zeros

-- the ID of a content that starts with this byte
abbrev pub id_of : ℕ → Bytes
id_of b = encode (b ∷ zeros)

abbrev pub absent : CommitIdentity
absent = record { format = 0; id = [] }

abbrev pub commit_id : ℕ → CommitIdentity
commit_id b = record { format = 2; id = id_of b }

abbrev pub a_commit : ℕ → List CommitIdentity → CommitFrame
a_commit b parents = record {
  version = 2;
  parents = parents;
  null_parents = false;
  snapshot_root = id_of 5;
  author = codes "ann";
  message = b ∷ [];
  time = 1;
}

abbrev pub an_object : PackObject
an_object = record { id = id_of 5; content = 5 ∷ []; null_content = false }

abbrev pub frame_v2 : PackFrame
frame_v2 = record {
  version = 2;
  base = absent;
  target = commit_id 2;
  commits = a_commit 1 [] ∷ a_commit 2 (commit_id 1 ∷ []) ∷ [];
  null_commits = false;
  objects = an_object ∷ [];
  null_objects = false;
}

abbrev pub frame_v3 : PackFrame
frame_v3 = record {
  version = 3;
  base = absent;
  target = commit_id 3;
  commits = a_commit 1 [] ∷ a_commit 2 (commit_id 1 ∷ []) ∷ a_commit 3 (commit_id 2 ∷ []) ∷ [];
  null_commits = false;
  objects = an_object ∷ [];
  null_objects = false;
}

abbrev pub bytes_v2 : Bytes
bytes_v2 = 7 ∷ 7 ∷ []

abbrev pub bytes_v3 : Bytes
bytes_v3 = 8 ∷ []

abbrev pub a_manifest : PullManifest
a_manifest = record {
  version = 2;
  head = id_of 2;
  packs = record { hash = id_of 7; format = 2; size = 2 } ∷ [];
}

abbrev pub pack_beq : PullPack → PullPack → Bool
pack_beq a b = a.hash == b.hash && a.format == b.format && a.size == b.size

pub pack_beq_iff : (a b : PullPack) → (pack_beq a b ≡ true) ↔ (a ≡ b)
pack_beq_iff a b =
    ground
      (arith, bytes_beq_iff a.hash b.hash, nat_beq_iff a.format b.format, nat_beq_iff a.size b.size)

instance abbrev pub pack_eq : Eq PullPack
pack_eq = record { same = pack_beq; same_iff = pack_beq_iff }

abbrev pub manifest_beq : PullManifest → PullManifest → Bool
manifest_beq a b = a.version == b.version && a.head == b.head && list_beq a.packs b.packs

pub manifest_beq_iff : (a b : PullManifest) → (manifest_beq a b ≡ true) ↔ (a ≡ b)
manifest_beq_iff a b = ground (
  arith,
  nat_beq_iff a.version b.version,
  bytes_beq_iff a.head b.head,
  list_beq_iff a.packs b.packs,
)

abbrev pub toy_encode : PackFrame → Option Bytes
toy_encode f =
    if frame_beq f frame_v2
    then some bytes_v2
    else if frame_beq f frame_v3
    then some bytes_v3
    else none

abbrev pub toy_decode : Bytes → Option PackFrame
toy_decode s = if s == bytes_v2 then some frame_v2 else some frame_v3

abbrev pub toy : Contract
toy = record {
  Commit = Bytes;
  new_commit = λ root parents author message time. some message;
  marshal_commit = λ c. some c;
  parent_ids = λ c. [];
  same_commit = bytes_beq;
  blake3 = digest;
  encode_frame = toy_encode;
  decode_frame = toy_decode;
  encode_manifest = λ m. if manifest_beq m a_manifest then some (9 ∷ []) else none;
  decode_manifest = λ s. some a_manifest;
}

toy_size : (d : Bytes) → length (digest d) ≡ 32
toy_size [] = refl
toy_size (b ∷ s) = refl

toy_zeros : (n : ℕ) → All IsByte (zero_bytes n)
toy_zeros zero = tt
toy_zeros (suc n) = (omega arith, toy_zeros n)

pub toy_bytes : (d : Bytes) → All IsByte (digest d)
toy_bytes [] = (omega arith, toy_zeros 31)
toy_bytes (b ∷ s) = (omega arith, toy_zeros 31)

pub toy_digests : HasDigests toy
toy_digests = record { size = toy_size; bytes = toy_bytes }
