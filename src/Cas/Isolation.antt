-- ===== src/Cas/Isolation.antt =====
-- What is stored for one repository stays out of reach of the operations of every other.
use spool_rack.Prelude.{
  Bytes, codes, Option, none, some, List, [], ◌∷◌, ◌++◌, All, ◌≡◌, ◌≢◌, ◌⊎◌, inl, inr, refl, sym,
  ◌∙◌, take, drop, ◌==◌, bytes_eq, lookup, insert, delete, lookup-insert, lookup-delete, arith,
  Bool-cases,
}
use spool_rack.Fault.{Result, ok, err, guard, bind-eq-ok, Result-cases, hash_mismatch}
use spool_rack.Cas.Scope.{Scope}
use spool_rack.Cas.Local.{
  FilePath, path_eq, validate_hash, canonical_hash_string, scope_storage_key, scope_root,
  object_path, pack_path, asset_path,
}
use spool_rack.Cas.Files.{
  Disk, Faults, Stored, io_ends, checked_by, write_file_atomic, sum_of, put, put_at, get,
  delete_pack, verify_written, write_stream, write_pack, write_asset,
}

-- An operation that may change the files.
pub data Operation : Type 0 where
  puts : Bytes → Bytes → Operation
  writes_pack : Bytes → Result Bytes → Operation
  writes_asset : Bytes → Result Bytes → Operation
  deletes_pack : Bytes → Operation

-- An operation, the scope that it is fenced to, and the faults that it meets.
pub record Call : Type 0 where
  pub faults : Faults
  pub scope : Scope
  pub operation : Operation

-- The file is the same on both disks.
abbrev pub SameAt : FilePath → Disk → Disk → Type 0
SameAt p after before = lookup p after ≡ lookup p before

insert-SameAt :
    (p dest : FilePath) (content : Bytes) (disk : Disk)
    → dest ≢ p
    → SameAt p (insert dest content disk) disk
insert-SameAt p dest content disk n =
    lookup-insert dest p content disk ∙ ground (arith, path_eq.same_iff dest p)

delete-SameAt : (p dest : FilePath) (disk : Disk) → dest ≢ p → SameAt p (delete dest disk) disk
delete-SameAt p dest disk n = lookup-delete dest p disk ∙ ground (arith, path_eq.same_iff dest p)

checked_by-SameAt :
    {X : Type 0} {A : Type 0} (p : FilePath) (m : Result X) (disk : Disk) (rest : X → Stored A)
    → ((x : X) → m ≡ ok x → SameAt p (rest x).1 disk)
    → SameAt p (checked_by m disk rest).1 disk
checked_by-SameAt p (ok x) disk rest h = h x refl
checked_by-SameAt p (err e) disk rest h = refl

write_file_atomic-SameAt :
    (p : FilePath) (faults : Faults) (dest : FilePath) (content : Bytes) (disk : Disk)
    → dest ≢ p
    → SameAt p (write_file_atomic faults dest content disk).1 disk
unfolding write_file_atomic
write_file_atomic-SameAt p faults dest content disk n = elim (Bool-cases faults.before_rename) [
  | inl e ↦ rw e refl
  | inr e ↦ rw e (insert-SameAt p dest content disk n)
]

module _ (blake3 : Bytes → Bytes) where
  put_at-SameAt :
      (p : FilePath) (faults : Faults) (dest : FilePath) (content : Bytes) (disk : Disk)
      (found : Option Bytes)
      → dest ≢ p
      → SameAt p (put_at blake3 faults dest content disk found).1 disk
  put_at-SameAt p faults dest content disk (some _) n = refl
  put_at-SameAt p faults dest content disk none n =
      write_file_atomic-SameAt p faults dest content disk n

  verify_written-SameAt :
      (p : FilePath) (faults : Faults) (dest : FilePath) (hash content : Bytes)
      (w : Stored (Unit {0})) (disk : Disk)
      → dest ≢ p
      → SameAt p w.1 disk
      → SameAt p (verify_written blake3 faults dest hash content w).1 disk
  unfolding verify_written
  verify_written-SameAt p faults dest hash content (err e, after) disk n h = h
  verify_written-SameAt p faults dest hash content (ok _, after) disk n h =
      elim (Bool-cases (sum_of blake3 content == hash)) [
        | inl e ↦ rw e h
        | inr e ↦ elim (Bool-cases faults.remove) [
          | inl r ↦ rw (e, r) h
          | inr r ↦ rw (e, r) (delete-SameAt p dest after n ∙ h)
        ]
      ]

  write_stream-SameAt :
      (p : FilePath) (faults : Faults) (dest : FilePath) (hash : Bytes) (stream : Result Bytes)
      (stored : Bytes → Bytes) (disk : Disk) (found : Option Bytes)
      → dest ≢ p
      → SameAt p (write_stream blake3 faults dest hash stream stored disk found).1 disk
  write_stream-SameAt p faults dest hash (err e) stored disk found n = refl
  write_stream-SameAt p faults dest hash (ok content) stored disk (some _) n = refl
  write_stream-SameAt p faults dest hash (ok content) stored disk none n =
      verify_written-SameAt p faults dest hash content _ disk n
        (write_file_atomic-SameAt p faults dest (stored content) disk n)

  -- The directories of the two scopes differ.
  abbrev pub AreApart : Scope → Scope → Type 0
  AreApart a b =
      (scope_storage_key blake3 a.tenant_id ≢ scope_storage_key blake3 b.tenant_id)
      ⊎ (scope_storage_key blake3 a.repo_id ≢ scope_storage_key blake3 b.repo_id)

  roots_apart :
      (a b : Scope) (s t : FilePath)
      → AreApart a b
      → scope_root blake3 a ++ s ≢ scope_root blake3 b ++ t
  unfolding scope_root
  roots_apart a b s t (inl n) h = n (cc h)
  roots_apart a b s t (inr n) h = n (cc h)

  -- Every path of an operation is its scope's root and more.
  abbrev pub IsUnder : Scope → FilePath → Type 0
  IsUnder scope p = (rest : FilePath) × (scope_root blake3 scope ++ rest ≡ p)

  apart : (a b : Scope) (p q : FilePath) → AreApart a b → IsUnder a p → IsUnder b q → p ≢ q
  apart a b p q n (s, hs) (t, ht) e = roots_apart a b s t n (hs ∙ (e ∙ sym ht))

  object_path-IsUnder :
      (scope : Scope) (hash : Bytes) {p : FilePath}
      → object_path blake3 scope hash ≡ ok p
      → IsUnder scope p
  unfolding object_path
  object_path-IsUnder scope hash {p} h =
      let (k, _, e) = bind-eq-ok (canonical_hash_string hash) _ h in
      (codes "objects" ∷ take 2 k ∷ drop 2 k ∷ [], cc e)

  pack_path-IsUnder :
      (scope : Scope) (hash : Bytes) {p : FilePath}
      → pack_path blake3 scope hash ≡ ok p
      → IsUnder scope p
  unfolding pack_path
  pack_path-IsUnder scope hash {p} h =
      let (k, _, e) = bind-eq-ok (canonical_hash_string hash) _ h in
      (codes "packs" ∷ (k ++ codes ".spack") ∷ [], cc e)

  asset_path-IsUnder :
      (scope : Scope) (hash : Bytes) {p : FilePath}
      → asset_path blake3 scope hash ≡ ok p
      → IsUnder scope p
  unfolding asset_path
  asset_path-IsUnder scope hash {p} h =
      let (k, _, e) = bind-eq-ok (canonical_hash_string hash) _ h in
      (codes "assets" ∷ take 2 k ∷ drop 2 k ∷ [], cc e)

  module _ (compress : Bytes → Bytes) where
    -- the files after one operation
    unfoldable pub run_operation : Faults → Scope → Operation → Disk → Disk
    run_operation f s (puts hash content) disk = (put blake3 f s hash content disk).1
    run_operation f s (writes_pack hash stream) disk =
        (write_pack blake3 compress f s hash stream disk).1
    run_operation f s (writes_asset hash stream) disk = (write_asset blake3 f s hash stream disk).1
    run_operation f s (deletes_pack hash) disk = (delete_pack blake3 f s hash disk).1

    -- the files after a sequence of operations
    unfoldable pub run_calls : List Call → Disk → Disk
    run_calls [] disk = disk
    run_calls (call ∷ calls) disk =
        run_calls calls (run_operation call.faults call.scope call.operation disk)

    run_operation-SameAt :
        (f : Faults) (a b : Scope) (o : Operation) (disk : Disk) (p : FilePath)
        → AreApart a b
        → IsUnder b p
        → SameAt p (run_operation f a o disk) disk
    unfolding run_operation put write_pack write_asset delete_pack
    run_operation-SameAt f a b (puts hash content) disk p n u =
        checked_by-SameAt p (validate_hash hash) disk _ λ _. λ _.
          checked_by-SameAt p (guard (sum_of blake3 content == hash) hash_mismatch) disk _ λ _. λ _.
            checked_by-SameAt p (object_path blake3 a hash) disk _ λ dest. λ e.
              checked_by-SameAt p (io_ends f.tmp_dir) disk _ λ _. λ _.
                checked_by-SameAt p (io_ends f.stat) disk _ λ _. λ _.
                  put_at-SameAt p f dest content disk (lookup dest disk)
                    (apart a b dest p n (object_path-IsUnder a hash e) u)
    run_operation-SameAt f a b (writes_pack hash stream) disk p n u =
        checked_by-SameAt p (validate_hash hash) disk _ λ _. λ _.
          checked_by-SameAt p (pack_path blake3 a hash) disk _ λ dest. λ e.
            checked_by-SameAt p (io_ends f.tmp_dir) disk _ λ _. λ _.
              checked_by-SameAt p (io_ends f.stat) disk _ λ _. λ _.
                write_stream-SameAt p f dest hash stream compress disk (lookup dest disk)
                  (apart a b dest p n (pack_path-IsUnder a hash e) u)
    run_operation-SameAt f a b (writes_asset hash stream) disk p n u =
        checked_by-SameAt p (validate_hash hash) disk _ λ _. λ _.
          checked_by-SameAt p (asset_path blake3 a hash) disk _ λ dest. λ e.
            checked_by-SameAt p (io_ends f.tmp_dir) disk _ λ _. λ _.
              checked_by-SameAt p (io_ends f.stat) disk _ λ _. λ _.
                write_stream-SameAt p f dest hash stream (λ content. content) disk
                  (lookup dest disk) (apart a b dest p n (asset_path-IsUnder a hash e) u)
    run_operation-SameAt f a b (deletes_pack hash) disk p n u =
        checked_by-SameAt p (validate_hash hash) disk _ λ _. λ _.
          checked_by-SameAt p (pack_path blake3 a hash) disk _ λ dest. λ e.
            checked_by-SameAt p (io_ends f.remove) disk _ λ _.
              λ _. delete-SameAt p dest disk (apart a b dest p n (pack_path-IsUnder a hash e) u)

    run_calls-SameAt :
        (b : Scope) (calls : List Call) (disk : Disk) (p : FilePath)
        → All (λ call. AreApart call.scope b) calls
        → IsUnder b p
        → SameAt p (run_calls calls disk) disk
    unfolding run_calls
    run_calls-SameAt b [] disk p n u = refl
    run_calls-SameAt b (call ∷ calls) disk p n u =
        let next = run_operation call.faults call.scope call.operation disk in
        run_calls-SameAt b calls next p n.1 u
        ∙ run_operation-SameAt call.faults call.scope b call.operation disk p n.0 u

    -- Whatever puts, writes and deletions run in scopes whose directories are not those of `scope`,
    -- and whatever faults they meet, a later read of an object in `scope` ends as it would have
    -- before them.
    pub get-run_calls :
        (faults : Faults) (scope : Scope) (hash : Bytes) (calls : List Call) (disk : Disk)
        → All (λ call. AreApart call.scope scope) calls
        → get blake3 faults scope hash (run_calls calls disk) ≡ get blake3 faults scope hash disk
    unfolding get
    get-run_calls faults scope hash calls disk n =
        elim (Result-cases (object_path blake3 scope hash)) [
          | inr (e, h) ↦ rw h refl
          | inl (p, h) ↦
              rw (h, run_calls-SameAt scope calls disk p n (object_path-IsUnder scope hash h)) refl
        ]
