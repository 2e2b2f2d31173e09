-- ===== src/Cas/Files.antt =====
-- internal/server/storage/cas/local.go: the operations of the local driver on the files under its
-- root. `Faults` says which calls of the operating system fail in one operation. A failed write may
-- leave a temporary file, which no operation reads and which is left out.
use spool_rack.Prelude.{
  ℕ, Bytes, Bool, true, false, Option, none, some, List, length, ◌==◌, bytes_eq, lookup, insert,
  delete, if◌then◌else◌,
}
use spool_rack.Prelude.Hex.{encode}
use spool_rack.Fault.{
  Result, Done, ok, err, ◌>>=◌, ◌>>◌, guard, hash_mismatch, corrupt_object, cas_not_found,
  io_failure, from_option,
}
use spool_rack.Cas.Scope.{Scope}
use spool_rack.Cas.Local.{FilePath, path_eq, validate_hash, object_path, pack_path, asset_path}

abbrev pub Disk : Type 0
Disk = List (FilePath × Bytes)

pub record Faults : Type 0 where
  -- creating the scope's temporary directory
  pub tmp_dir : Bool
  -- a stat that fails otherwise than by absence
  pub stat : Bool
  pub open_or_read : Bool
  -- any step of an atomic write up to the rename, and the sync of the directory after it
  pub before_rename : Bool
  pub sync_dir : Bool
  pub remove : Bool

abbrev pub io_ends : Bool → Done
io_ends fails = if fails then err io_failure else ok tt

-- A step's result, and the files after it.
abbrev pub Stored : Type 0 → Type 0
Stored A = Result A × Disk

-- `if err := …; err != nil { return err }` where the call leaves the files alone
abbrev pub checked_by {ℓ} : {X : Type ℓ} {A : Type 0} → Result X → Disk → (X → Stored A) → Stored A
checked_by (err reason) disk rest = (err reason, disk)
checked_by (ok x) disk rest = rest x

-- `writeFileAtomic`
unfoldable pub write_file_atomic : Faults → FilePath → Bytes → Disk → Stored (Unit {0})
write_file_atomic faults dest content disk =
    if faults.before_rename
    then (err io_failure, disk)
    else (io_ends faults.sync_dir, insert dest content disk)

module _ (blake3 : Bytes → Bytes) where
  -- the hexadecimal digest of a content
  abbrev pub sum_of : Bytes → Bytes
  sum_of content = encode (blake3 content)

  abbrev pub put_at : Faults → FilePath → Bytes → Disk → Option Bytes → Stored (Unit {0})
  put_at faults dest content disk (some _) = (ok tt, disk)
  put_at faults dest content disk none = write_file_atomic faults dest content disk

  unfoldable pub put : Faults → Scope → Bytes → Bytes → Disk → Stored (Unit {0})
  put faults scope hash content disk = checked_by (validate_hash hash) disk λ _.
      checked_by (guard (sum_of content == hash) hash_mismatch) disk λ _.
        checked_by (object_path blake3 scope hash) disk λ dest.
          checked_by (io_ends faults.tmp_dir) disk λ _.
            checked_by (io_ends faults.stat) disk
              λ _. put_at faults dest content disk (lookup dest disk)

  unfoldable pub get : Faults → Scope → Bytes → Disk → Result Bytes
  get faults scope hash disk = do
    validate_hash hash
    path ← object_path blake3 scope hash
    io_ends faults.open_or_read
    content ← from_option cas_not_found (lookup path disk)
    guard (sum_of content == hash) corrupt_object
    ok content

  abbrev pub is_file : Option Bytes → Bool
  is_file none = false
  is_file (some _) = true

  unfoldable pub exists_object : Faults → Scope → Bytes → Disk → Result Bool
  exists_object faults scope hash disk = do
    validate_hash hash
    path ← object_path blake3 scope hash
    io_ends faults.stat
    ok (is_file (lookup path disk))

  unfoldable pub asset_exists : Faults → Scope → Bytes → Disk → Result Bool
  asset_exists faults scope hash disk = do
    validate_hash hash
    path ← asset_path blake3 scope hash
    io_ends faults.stat
    ok (is_file (lookup path disk))

  -- what is read from the opened asset, and its size
  unfoldable pub open_asset : Faults → Scope → Bytes → Disk → Result (Bytes × ℕ)
  open_asset faults scope hash disk = do
    validate_hash hash
    path ← asset_path blake3 scope hash
    io_ends faults.open_or_read
    content ← from_option cas_not_found (lookup path disk)
    ok (content, length content)

  unfoldable pub delete_pack : Faults → Scope → Bytes → Disk → Stored (Unit {0})
  delete_pack faults scope pack_hash disk = checked_by (validate_hash pack_hash) disk λ _.
      checked_by (pack_path blake3 scope pack_hash) disk
        λ path. checked_by (io_ends faults.remove) disk λ _. (ok tt, delete path disk)

  -- the end of `WritePack` and `WriteAsset`: the hash is compared after the rename
  unfoldable pub verify_written :
      Faults → FilePath → Bytes → Bytes → Stored (Unit {0}) → Stored (Unit {0})
  verify_written faults dest hash content (err reason, disk) = (err reason, disk)
  verify_written faults dest hash content (ok _, disk) =
      if sum_of content == hash
      then (ok tt, disk)
      else (err hash_mismatch, if faults.remove then disk else delete dest disk)

  -- `stream` is what the caller's reader gives: its bytes, or the error in which it ends; `stored`
  -- are the bytes that are written for them
  abbrev pub write_stream :
      Faults
      → FilePath
      → Bytes
      → Result Bytes
      → (Bytes → Bytes)
      → Disk
      → Option Bytes
      → Stored (Unit {0})
  write_stream faults dest hash (err reason) stored disk _ = (err reason, disk)
  write_stream faults dest hash (ok content) stored disk (some _) = (ok tt, disk)
  write_stream faults dest hash (ok content) stored disk none =
      verify_written faults dest hash content (write_file_atomic faults dest (stored content) disk)

  -- `compress` is the zstd encoder
  unfoldable pub write_pack :
      (compress : Bytes → Bytes) → Faults → Scope → Bytes → Result Bytes → Disk → Stored (Unit {0})
  write_pack compress faults scope pack_hash stream disk =
      checked_by (validate_hash pack_hash) disk λ _.
        checked_by (pack_path blake3 scope pack_hash) disk λ dest.
          checked_by (io_ends faults.tmp_dir) disk λ _.
            checked_by (io_ends faults.stat) disk
              λ _. write_stream faults dest pack_hash stream compress disk (lookup dest disk)

  -- the size that `WriteAsset` returns: that of the file which was there, or what was written
  abbrev pub asset_size : Option Bytes → Result Bytes → ℕ
  asset_size (some found) stream = length found
  asset_size none (ok content) = length content
  asset_size none (err _) = 0

  abbrev pub with_size : ℕ → Done → Result ℕ
  with_size size (ok _) = ok size
  with_size size (err reason) = err reason

  unfoldable pub write_asset : Faults → Scope → Bytes → Result Bytes → Disk → Stored ℕ
  write_asset faults scope hash stream disk = checked_by (validate_hash hash) disk λ _.
      checked_by (asset_path blake3 scope hash) disk λ dest.
        checked_by (io_ends faults.tmp_dir) disk λ _. checked_by (io_ends faults.stat) disk λ _.
          let found = lookup dest disk in
          let written = write_stream faults dest hash stream (λ content. content) disk found in
          (with_size (asset_size found stream) written.0, written.1)

  -- `decompress` is the zstd decoder
  unfoldable pub open_pack :
      (decompress : Bytes → Option Bytes) → Faults → Scope → Bytes → Disk → Result Bytes
  open_pack decompress faults scope pack_hash disk = do
    validate_hash pack_hash
    path ← pack_path blake3 scope pack_hash
    io_ends faults.open_or_read
    content ← from_option cas_not_found (lookup path disk)
    from_option io_failure (decompress content)
