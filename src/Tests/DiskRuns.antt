-- ===== src/Tests/DiskRuns.antt =====
-- The properties of the local driver, on small disks.
use spool_rack.Prelude.{
  Bytes, codes, true, false, none, some, List, [], ◌∷◌, ◌++◌, ◌≡◌, ◌≢◌, inl, refl, ◌==◌, bytes_eq,
  bytes_beq, bytes_beq_iff, lookup, insert, take, drop,
}
use spool_rack.Prelude.Hex.{encode, decode, hex_digit, hex_value}
use spool_rack.Fault.{ok, err, hash_mismatch}
use spool_rack.Cas.Scope.{Scope}
use spool_rack.Cas.Local.{
  FilePath, path_eq, validate_hash, canonical_hash_string, scope_storage_key, scope_root,
  object_path, pack_path,
}
use spool_rack.Cas.Files.{Disk, Faults, put, get, sum_of, write_file_atomic, write_pack, open_pack}
use spool_rack.Cas.Isolation.{puts, deletes_pack, Call, run_calls, get-run_calls}
use spool_rack.Cas.Integrity.{IsIntact}
use spool_rack.Cas.Objects.{run_calls-IsIntact, get-put}
use spool_rack.Cas.Packs.{open_pack-write_pack}
use spool_rack.Tests.Fixtures.{digest, id_of, toy_bytes}

abbrev quiet : Faults
quiet = record {
  tmp_dir = false;
  stat = false;
  open_or_read = false;
  before_rename = false;
  sync_dir = false;
  remove = false;
}

abbrev stuck : Faults
stuck = record {
  tmp_dir = false;
  stat = false;
  open_or_read = false;
  before_rename = false;
  sync_dir = false;
  remove = true;
}

abbrev scope_a : Scope
scope_a = record { tenant_id = codes "a"; repo_id = codes "r" }

abbrev scope_b : Scope
scope_b = record { tenant_id = codes "b"; repo_id = codes "r" }

abbrev calls : List Call
calls =
    record { faults = quiet; scope = scope_a; operation = puts (id_of 5) (5 ∷ []) }
    ∷ record { faults = stuck; scope = scope_a; operation = deletes_pack (id_of 6) }
    ∷ []

keys_unlike :
    bytes_beq (scope_storage_key digest (codes "a")) (scope_storage_key digest (codes "b")) ≡ false
unfolding scope_storage_key encode hex_digit bytes_beq
keys_unlike = refl

keys_differ : scope_storage_key digest (codes "a") ≢ scope_storage_key digest (codes "b")
keys_differ h = cc (keys_unlike, (bytes_beq_iff _ _).1 h)

get-run_calls_example :
    get digest quiet scope_b (id_of 5) (run_calls digest (λ c. c) calls [])
    ≡ get digest quiet scope_b (id_of 5) []
get-run_calls_example =
    get-run_calls digest (λ c. c) quiet scope_b (id_of 5) calls []
      (inl keys_differ, (inl keys_differ, tt))

empty_IsIntact : IsIntact digest []
unfolding lookup
empty_IsIntact p content name l n = cc l

run_calls-IsIntact_example : IsIntact digest (run_calls digest (λ c. c) calls [])
run_calls-IsIntact_example = run_calls-IsIntact digest toy_bytes (λ c. c) calls [] empty_IsIntact

abbrev dest_of : Bytes → Bytes → FilePath
dest_of area name =
    codes "tenants"
    ∷ id_of b'a'
    ∷ codes "repos"
    ∷ id_of b'r'
    ∷ area
    ∷ take 2 name
    ∷ drop 2 name
    ∷ []

path_of_five : object_path digest scope_a (id_of 5) ≡ ok (dest_of (codes "objects") (id_of 5))
unfolding object_path scope_root scope_storage_key canonical_hash_string decode encode hex_digit
    hex_value
path_of_five = refl

five_is_put :
    put digest quiet scope_a (id_of 5) (5 ∷ []) []
    ≡ (ok tt, (dest_of (codes "objects") (id_of 5), 5 ∷ []) ∷ [])
unfolding put object_path scope_root scope_storage_key validate_hash canonical_hash_string
    write_file_atomic lookup insert decode encode hex_digit hex_value bytes_beq
five_is_put = refl

abbrev empty_disk : Disk
empty_disk = []

nothing_there : lookup (dest_of (codes "objects") (id_of 5)) empty_disk ≡ none
unfolding lookup
nothing_there = refl

get-put_example :
    get digest quiet scope_a (id_of 5) ((dest_of (codes "objects") (id_of 5), 5 ∷ []) ∷ [])
    ≡ ok (5 ∷ [])
get-put_example =
    get-put digest quiet quiet scope_a (id_of 5) (5 ∷ []) (dest_of (codes "objects") (id_of 5)) [] _
      path_of_five nothing_there five_is_put refl

abbrev pack_dest : FilePath
pack_dest =
    codes "tenants"
    ∷ id_of b'a'
    ∷ codes "repos"
    ∷ id_of b'r'
    ∷ codes "packs"
    ∷ (id_of 5 ++ codes ".spack")
    ∷ []

path_of_pack : pack_path digest scope_a (id_of 5) ≡ ok pack_dest
unfolding pack_path scope_root scope_storage_key canonical_hash_string decode encode hex_digit
    hex_value
path_of_pack = refl

five_is_hash : validate_hash (id_of 5) ≡ ok tt
unfolding validate_hash canonical_hash_string decode encode hex_digit hex_value
five_is_hash = refl

no_pack : lookup pack_dest empty_disk ≡ none
unfolding lookup
no_pack = refl

six_is_wrong : (sum_of digest (6 ∷ []) == id_of 5) ≡ false
unfolding encode hex_digit bytes_beq
six_is_wrong = refl

open_pack-write_pack_example :
    let (ended, after) = write_pack digest (λ c. c) stuck scope_a (id_of 5) (ok (6 ∷ [])) [] in
    (ended ≡ err hash_mismatch)
    × (open_pack digest (λ c. some c) quiet scope_a (id_of 5) after ≡ ok (6 ∷ []))
open_pack-write_pack_example =
    open_pack-write_pack digest (λ c. c) (λ c. some c) stuck quiet scope_a (id_of 5) (6 ∷ [])
      pack_dest [] refl five_is_hash path_of_pack no_pack six_is_wrong (refl, refl, refl, refl) refl
      refl
