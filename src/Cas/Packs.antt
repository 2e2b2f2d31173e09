-- ===== src/Cas/Packs.antt =====
-- A pack whose content does not have its hash.
use spool_rack.Prelude.{
  Bytes, true, false, Option, none, some, ◌≡◌, refl, ◌==◌, bytes_eq, lookup, lookup-insert, eq_self,
}
use spool_rack.Fault.{ok, err, hash_mismatch}
use spool_rack.Cas.Scope.{Scope}
use spool_rack.Cas.Local.{FilePath, path_eq, validate_hash, pack_path}
use spool_rack.Cas.Files.{
  Disk, Faults, write_file_atomic, verify_written, sum_of, write_pack, open_pack,
}

module _ (blake3 compress : Bytes → Bytes) (decompress : Bytes → Option Bytes) (f f' : Faults)
    (scope : Scope) (pack_hash content : Bytes) (dest : FilePath) (disk : Disk) where
  -- The hash of a pack is compared after its file is in place: where a new pack's content does not
  -- have the hash and removing the file fails, and no other call does, the write ends in an error but
  -- the file stays, and a later read under that hash gives the wrong content.
  pub open_pack-write_pack :
      decompress (compress content) ≡ some content
      → validate_hash pack_hash ≡ ok tt
      → pack_path blake3 scope pack_hash ≡ ok dest
      → lookup dest disk ≡ none
      → (sum_of blake3 content == pack_hash) ≡ false
      → (f.tmp_dir ≡ false) × (f.stat ≡ false) × (f.before_rename ≡ false) × (f.sync_dir ≡ false)
      → f.remove ≡ true
      → f'.open_or_read ≡ false
      → let (ended, after) = write_pack blake3 compress f scope pack_hash (ok content) disk in
        (ended ≡ err hash_mismatch)
        × (open_pack blake3 decompress f' scope pack_hash after ≡ ok content)
  unfolding write_pack open_pack verify_written write_file_atomic
  open_pack-write_pack z v p absent wrong (t, s, b, y) r quiet = (
    rw (v, p, t, s, absent, b, y, wrong) refl,
    rw
        (
          v,
          p,
          t,
          s,
          absent,
          b,
          y,
          wrong,
          r,
          quiet,
          lookup-insert dest dest (compress content) disk,
          eq_self dest,
          z,
        )
        refl,
  )
