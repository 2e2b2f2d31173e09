-- ===== src/Cas/Objects.antt =====
-- Objects over a whole history of the store.
use spool_rack.Prelude.{
  Bytes, true, false, Option, none, some, List, [], ◌∷◌, All, ◌≡◌, ◌⊎◌, refl, ◌∙◌, length, ◌==◌,
  bytes_eq, bytes_beq_iff, nat_beq, lookup, insert, lookup-insert, Bool-cases, inl, inr, eq_self,
}
use spool_rack.Prelude.Hex.{IsByte, decode-encode}
use spool_rack.Fault.{Result, ok, err, guard, guard-eq-ok, hash_mismatch}
use spool_rack.Cas.Scope.{Scope}
use spool_rack.Cas.Local.{
  FilePath, path_eq, validate_hash, canonical_of, canonical_hash_string, object_path, pack_path,
  asset_path,
}
use spool_rack.Cas.Files.{
  Disk, Faults, Stored, io_ends, checked_by, write_file_atomic, sum_of, put, put_at, get,
  delete_pack, write_pack, write_asset,
}
use spool_rack.Cas.Isolation.{
  Operation, puts, writes_pack, writes_asset, deletes_pack, Call, run_operation, run_calls,
}
use spool_rack.Cas.Integrity.{
  object_name, checked_by-keeps, IsIntact, delete-IsIntact, put_at-IsIntact, write_stream-IsIntact,
  object_path-name, pack_path-name, asset_path-name,
}

module _ (blake3 : Bytes → Bytes) (digits : (d : Bytes) → All IsByte (blake3 d)) where
  canonical-sum_of :
      (content k : Bytes)
      → canonical_hash_string (sum_of blake3 content) ≡ ok k
      → sum_of blake3 content ≡ k
  unfolding canonical_hash_string
  canonical-sum_of content k h =
      sized (Bool-cases (nat_beq (length (blake3 content)) 32))
        (rw (decode-encode (blake3 content) (digits content)) at h)
    where
      sized :
          (nat_beq (length (blake3 content)) 32 ≡ true)
            ⊎ (nat_beq (length (blake3 content)) 32 ≡ false)
          → canonical_of (some (blake3 content)) ≡ ok k
          → sum_of blake3 content ≡ k
      sized (inl e) q = cc (rw e at q)
      sized (inr e) q = cc (rw e at q)

  name-sum_of :
      (scope : Scope) (hash content : Bytes) (dest : FilePath)
      → guard (sum_of blake3 content == hash) hash_mismatch ≡ ok tt
      → object_path blake3 scope hash ≡ ok dest
      → (name : Bytes) → object_name dest ≡ some name
      → sum_of blake3 content ≡ name
  name-sum_of scope hash content dest g e name n =
      let same : sum_of blake3 content ≡ hash =
        (bytes_beq_iff _ _).0 (guard-eq-ok _ hash_mismatch g) in
      let (k, c, m) = object_path-name blake3 scope hash e in
      let at_k : sum_of blake3 content ≡ k = canonical-sum_of content k (rw same c) in
      at_k ∙ cc (m, n)

  put-IsIntact :
      (f : Faults) (scope : Scope) (hash content : Bytes) (disk : Disk)
      → IsIntact blake3 disk
      → IsIntact blake3 (put blake3 f scope hash content disk).1
  unfolding put
  put-IsIntact f scope hash content disk w =
      checked_by-keeps (IsIntact blake3) (validate_hash hash) disk _ w λ _. λ _.
        checked_by-keeps (IsIntact blake3) (guard (sum_of blake3 content == hash) hash_mismatch)
          disk _ w
          λ _. λ g.
            checked_by-keeps (IsIntact blake3) (object_path blake3 scope hash) disk _ w λ dest. λ e.
              checked_by-keeps (IsIntact blake3) (io_ends f.tmp_dir) disk _ w λ _. λ _.
                checked_by-keeps (IsIntact blake3) (io_ends f.stat) disk _ w λ _. λ _.
                  put_at-IsIntact blake3 f dest content disk (lookup dest disk)
                    (name-sum_of scope hash content dest g e) w

  module _ (compress : Bytes → Bytes) where
    run_operation-IsIntact :
        (f : Faults) (scope : Scope) (o : Operation) (disk : Disk)
        → IsIntact blake3 disk
        → IsIntact blake3 (run_operation blake3 compress f scope o disk)
    unfolding run_operation write_pack write_asset delete_pack
    run_operation-IsIntact f scope (puts hash content) disk w =
        put-IsIntact f scope hash content disk w
    run_operation-IsIntact f scope (writes_pack hash stream) disk w =
        checked_by-keeps (IsIntact blake3) (validate_hash hash) disk _ w λ _. λ _.
          checked_by-keeps (IsIntact blake3) (pack_path blake3 scope hash) disk _ w λ dest. λ e.
            checked_by-keeps (IsIntact blake3) (io_ends f.tmp_dir) disk _ w λ _. λ _.
              checked_by-keeps (IsIntact blake3) (io_ends f.stat) disk _ w λ _. λ _.
                write_stream-IsIntact blake3 f dest hash stream compress disk (lookup dest disk)
                  (pack_path-name blake3 scope hash e) w
    run_operation-IsIntact f scope (writes_asset hash stream) disk w =
        checked_by-keeps (IsIntact blake3) (validate_hash hash) disk _ w λ _. λ _.
          checked_by-keeps (IsIntact blake3) (asset_path blake3 scope hash) disk _ w λ dest. λ e.
            checked_by-keeps (IsIntact blake3) (io_ends f.tmp_dir) disk _ w λ _. λ _.
              checked_by-keeps (IsIntact blake3) (io_ends f.stat) disk _ w λ _. λ _.
                write_stream-IsIntact blake3 f dest hash stream (λ content. content) disk
                  (lookup dest disk) (asset_path-name blake3 scope hash e) w
    run_operation-IsIntact f scope (deletes_pack hash) disk w =
        checked_by-keeps (IsIntact blake3) (validate_hash hash) disk _ w λ _. λ _.
          checked_by-keeps (IsIntact blake3) (pack_path blake3 scope hash) disk _ w λ dest. λ e.
            checked_by-keeps (IsIntact blake3) (io_ends f.remove) disk _ w
              λ _. λ _. delete-IsIntact blake3 dest disk w

    -- Given that a digest is bytes: whatever operations run, in whatever scopes and with whatever
    -- faults, from an intact disk they leave an intact one: every file in the place of an object has
    -- the digest that its place says.
    pub run_calls-IsIntact :
        (calls : List Call) (disk : Disk)
        → IsIntact blake3 disk
        → IsIntact blake3 (run_calls blake3 compress calls disk)
    unfolding run_calls
    run_calls-IsIntact [] disk w = w
    run_calls-IsIntact (call ∷ calls) disk w =
        run_calls-IsIntact calls _
          (run_operation-IsIntact call.faults call.scope call.operation disk w)

checked_by-eq-ok :
    {X A : Type 0} (m : Result X) (disk : Disk) (rest : X → Stored A) {a : A} {after : Disk}
    → checked_by m disk rest ≡ (ok a, after)
    → (x : X) × (m ≡ ok x) × (rest x ≡ (ok a, after))
checked_by-eq-ok (ok x) disk rest h = (x, refl, h)
checked_by-eq-ok (err e) disk rest h = cc h

write_file_atomic-eq-ok :
    (f : Faults) (dest : FilePath) (content : Bytes) (disk : Disk) {after : Disk}
    → write_file_atomic f dest content disk ≡ (ok tt, after)
    → insert dest content disk ≡ after
unfolding write_file_atomic
write_file_atomic-eq-ok f dest content disk h = elim (Bool-cases f.before_rename) [
  | inl e ↦ cc (rw e at h)
  | inr e ↦ cc (rw e at h)
]

module _ (blake3 : Bytes → Bytes) where
  put_at-new :
      (f : Faults) (dest : FilePath) (content : Bytes) (disk after : Disk) (found : Option Bytes)
      → found ≡ none
      → put_at blake3 f dest content disk found ≡ (ok tt, after)
      → insert dest content disk ≡ after
  put_at-new f dest content disk after none n h = write_file_atomic-eq-ok f dest content disk h
  put_at-new f dest content disk after (some _) n h = cc n

  -- Where an object whose file was absent was put without an error, a read that meets no fault gives
  -- its content back.
  pub get-put :
      (f f' : Faults) (scope : Scope) (hash content : Bytes) (dest : FilePath) (disk after : Disk)
      → object_path blake3 scope hash ≡ ok dest
      → lookup dest disk ≡ none
      → put blake3 f scope hash content disk ≡ (ok tt, after)
      → f'.open_or_read ≡ false
      → get blake3 f' scope hash after ≡ ok content
  unfolding put get
  get-put f f' scope hash content dest disk after p absent h quiet =
      let (_, v, h₁) = checked_by-eq-ok (validate_hash hash) disk _ h in
      let (_, g, h₂) =
        checked_by-eq-ok (guard (sum_of blake3 content == hash) hash_mismatch) disk _ h₁ in
      let (d, e, h₃) = checked_by-eq-ok (object_path blake3 scope hash) disk _ h₂ in
      let (_, _, h₄) = checked_by-eq-ok (io_ends f.tmp_dir) disk _ h₃ in
      let (_, _, h₅) = checked_by-eq-ok (io_ends f.stat) disk _ h₄ in
      let same : d ≡ dest = cc (e, p) in
      let none_there : lookup d disk ≡ none = rw same absent in
      let made : insert dest content disk ≡ after =
        rw (← same) (put_at-new f d content disk after (lookup d disk) none_there h₅) in
      rw (
        ← made,
        v,
        p,
        quiet,
        lookup-insert dest dest content disk,
        eq_self dest,
        guard-eq-ok _ hash_mismatch g,
      )
