-- ===== src/Cas/Local.antt =====
-- internal/server/storage/cas/local.go: the paths of the local driver and its hash test. Each element
-- of a path is a constant or hexadecimal, so joining them never leaves the root, which is left out.
use spool_rack.Prelude.{
  Bytes, codes, not, Option, none, some, List, [], ◌∷◌, ◌++◌, length, take, drop, Eq, bytes_eq,
  nat_beq, list_beq, list_beq_iff, if◌then◌else◌,
}
use spool_rack.Prelude.Hex.{encode, decode}
use spool_rack.Fault.{Result, Done, ok, err, ◌>>=◌, ◌>>◌, rewrap, guard, invalid_hash, refused}
use spool_rack.Cas.Scope.{Scope}

abbrev pub FilePath : Type 0
FilePath = List Bytes

instance abbrev pub path_eq : Eq FilePath
path_eq = record { same = list_beq; same_iff = list_beq_iff }

abbrev pub canonical_of : Option Bytes → Result Bytes
canonical_of none = err refused
canonical_of (some decoded) =
    if not (nat_beq (length decoded) 32) then err refused else ok (encode decoded)

-- `canonicalHashString`
unfoldable pub canonical_hash_string : Bytes → Result Bytes
canonical_hash_string hash = canonical_of (decode hash)

-- `validateHash`
unfoldable pub validate_hash : Bytes → Done
validate_hash hash = do
  guard (nat_beq (length hash) 64) invalid_hash
  _ ← rewrap invalid_hash (canonical_hash_string hash)
  ok tt

-- `blake3` is blake3.Sum256
module _ (blake3 : Bytes → Bytes) where
  unfoldable pub scope_storage_key : Bytes → Bytes
  scope_storage_key scope_id = encode (blake3 scope_id)

  unfoldable pub scope_root : Scope → FilePath
  scope_root scope =
      codes "tenants"
      ∷ scope_storage_key scope.tenant_id
      ∷ codes "repos"
      ∷ scope_storage_key scope.repo_id
      ∷ []

  unfoldable pub object_path : Scope → Bytes → Result FilePath
  object_path scope hash = do
    canonical_hash ← canonical_hash_string hash
    ok (scope_root scope ++ (codes "objects" ∷ take 2 canonical_hash ∷ drop 2 canonical_hash ∷ []))

  unfoldable pub pack_path : Scope → Bytes → Result FilePath
  pack_path scope pack_hash = do
    canonical_hash ← canonical_hash_string pack_hash
    ok (scope_root scope ++ (codes "packs" ∷ (canonical_hash ++ codes ".spack") ∷ []))

  unfoldable pub asset_path : Scope → Bytes → Result FilePath
  asset_path scope hash = do
    canonical_hash ← canonical_hash_string hash
    ok (scope_root scope ++ (codes "assets" ∷ take 2 canonical_hash ∷ drop 2 canonical_hash ∷ []))
