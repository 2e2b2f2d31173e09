-- ===== src/Sync/Contract.antt =====
-- The records of internal/server/sync/framing.go and pull.go, and what the package takes from code
-- outside the repository: graphcontract's commits, BLAKE3, and the canonical CBOR codec.
use spool_rack.Prelude.{
  ℕ, Bytes, Bool, true, ◌&&◌, Option, List, All, length, ◌≡◌, ◌↔◌, Eq, nat_eq, bytes_eq, nat_beq,
  bytes_beq, bytes_beq_iff, arith,
}
use spool_rack.Prelude.Hex.{IsByte}

-- `CommitIdentity`
pub record CommitIdentity : Type 0 where
  pub format : ℕ
  pub id : Bytes

abbrev pub identity_beq : CommitIdentity → CommitIdentity → Bool
identity_beq a b = nat_beq a.format b.format && bytes_beq a.id b.id

pub identity_beq_iff : (a b : CommitIdentity) → (identity_beq a b ≡ true) ↔ (a ≡ b)
identity_beq_iff a b = ground (arith, bytes_beq_iff a.id b.id)

instance abbrev pub identity_eq : Eq CommitIdentity
identity_eq = record { same = identity_beq; same_iff = identity_beq_iff }

-- `CommitFrameV2`; a time is a number of seconds. A Go slice with no elements is nil or not, and CBOR
-- tells the two apart: a field `null_…` says which; it means nothing where there are elements.
pub record CommitFrame : Type 0 where
  pub version : ℕ
  pub parents : List CommitIdentity
  pub null_parents : Bool
  pub snapshot_root : Bytes
  pub author : Bytes
  pub message : Bytes
  pub time : ℕ

-- `PackObjectV2`; its field `data`
pub record PackObject : Type 0 where
  pub id : Bytes
  pub content : Bytes
  pub null_content : Bool

-- `PackFrameV2` and `PackFrameV3`, which have the same fields
pub record PackFrame : Type 0 where
  pub version : ℕ
  pub base : CommitIdentity
  pub target : CommitIdentity
  pub commits : List CommitFrame
  pub null_commits : Bool
  pub objects : List PackObject
  pub null_objects : Bool

-- `PullPackManifestV2`
pub record PullPack : Type 0 where
  pub hash : Bytes
  pub format : ℕ
  pub size : ℕ

-- `PullManifestV2`
pub record PullManifest : Type 0 where
  pub version : ℕ
  pub head : Bytes
  pub packs : List PullPack

pub record Contract : Type 1 where
  -- graphcontract.Commit, NewCommit, MarshalCommit, the field Parents, and Equal
  pub Commit : Type 0
  pub new_commit : Bytes → List Bytes → Bytes → Bytes → ℕ → Option Commit
  pub marshal_commit : Commit → Option Bytes
  pub parent_ids : Commit → List Bytes
  pub same_commit : Commit → Commit → Bool
  -- blake3.Sum256
  pub blake3 : Bytes → Bytes
  -- the canonical encoder and the strict decoder, at the two record types
  pub encode_frame : PackFrame → Option Bytes
  pub decode_frame : Bytes → Option PackFrame
  pub encode_manifest : PullManifest → Option Bytes
  pub decode_manifest : Bytes → Option PullManifest

module _ (g : Contract) where
  -- A BLAKE3-256 digest is 32 bytes.
  pub record HasDigests : Type 0 where
    pub size : (d : Bytes) → length (g.blake3 d) ≡ 32
    pub bytes : (d : Bytes) → All IsByte (g.blake3 d)
