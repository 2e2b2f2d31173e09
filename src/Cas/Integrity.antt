-- ===== src/Cas/Integrity.antt =====
-- Objects hold what their names say.
use spool_rack.Prelude.{
  Bytes, codes, Option, none, some, [], ◌∷◌, ◌++◌, ◌≡◌, refl, ap, take, drop, take-append-drop,
  ◌==◌, bytes_eq, bytes_beq, lookup, insert, delete, lookup-insert, lookup-delete, arith,
  if◌then◌else◌, Bool-cases, inl, inr,
}
use spool_rack.Fault.{Result, ok, err, bind-eq-ok}
use spool_rack.Cas.Scope.{Scope}
use spool_rack.Cas.Local.{
  FilePath, path_eq, canonical_hash_string, scope_root, object_path, pack_path, asset_path,
}
use spool_rack.Cas.Files.{
  Disk, Faults, Stored, checked_by, write_file_atomic, sum_of, put_at, verify_written, write_stream,
}

-- The hash that the path of an object names; no other path names one.
unfoldable pub object_name : FilePath → Option Bytes
object_name (tenants ∷ tenant ∷ repos ∷ repo ∷ area ∷ front ∷ back ∷ []) =
    if area == codes "objects" then some (front ++ back) else none
object_name _ = none

pub checked_by-keeps :
    {X A : Type 0} (P : Disk → Type 0) (m : Result X) (disk : Disk) (rest : X → Stored A)
    → P disk
    → ((x : X) → m ≡ ok x → P (rest x).1)
    → P (checked_by m disk rest).1
checked_by-keeps P (ok x) disk rest w h = h x refl
checked_by-keeps P (err e) disk rest w h = w

module _ (blake3 : Bytes → Bytes) where
  -- Every file in the place of an object has the digest that its place says.
  abbrev pub IsIntact : Disk → Type 0
  IsIntact disk =
      (p : FilePath) (content name : Bytes)
      → lookup p disk ≡ some content
      → object_name p ≡ some name
      → sum_of blake3 content ≡ name

  insert-IsIntact :
      (dest : FilePath) (content : Bytes) (disk : Disk)
      → ((name : Bytes) → object_name dest ≡ some name → sum_of blake3 content ≡ name)
      → IsIntact disk
      → IsIntact (insert dest content disk)
  insert-IsIntact dest content disk h w p found name l n = elim (Bool-cases (dest == p)) [
    | inl e ↦
        let same : dest ≡ p = (path_eq.same_iff dest p).0 e in
        let held : content ≡ found = ground (arith, lookup-insert dest p content disk) in
        rw (← held) (h name (rw same n))
    | inr e ↦ w p found name (ground (arith, lookup-insert dest p content disk)) n
  ]

  pub delete-IsIntact :
      (dest : FilePath) (disk : Disk) → IsIntact disk → IsIntact (delete dest disk)
  delete-IsIntact dest disk w p found name l n =
      w p found name (ground (arith, lookup-delete dest p disk)) n

  write_file_atomic-IsIntact :
      (f : Faults) (dest : FilePath) (content : Bytes) (disk : Disk)
      → ((name : Bytes) → object_name dest ≡ some name → sum_of blake3 content ≡ name)
      → IsIntact disk
      → IsIntact (write_file_atomic f dest content disk).1
  unfolding write_file_atomic
  write_file_atomic-IsIntact f dest content disk h w = elim (Bool-cases f.before_rename) [
    | inl e ↦ rw e w
    | inr e ↦ rw e (insert-IsIntact dest content disk h w)
  ]

  pub put_at-IsIntact :
      (f : Faults) (dest : FilePath) (content : Bytes) (disk : Disk) (found : Option Bytes)
      → ((name : Bytes) → object_name dest ≡ some name → sum_of blake3 content ≡ name)
      → IsIntact disk
      → IsIntact (put_at blake3 f dest content disk found).1
  put_at-IsIntact f dest content disk (some _) h w = w
  put_at-IsIntact f dest content disk none h w = write_file_atomic-IsIntact f dest content disk h w

  verify_written-IsIntact :
      (f : Faults) (dest : FilePath) (hash content : Bytes) (s : Stored (Unit {0}))
      → IsIntact s.1
      → IsIntact (verify_written blake3 f dest hash content s).1
  unfolding verify_written
  verify_written-IsIntact f dest hash content (err e, after) w = w
  verify_written-IsIntact f dest hash content (ok _, after) w =
      elim (Bool-cases (sum_of blake3 content == hash)) [
        | inl e ↦ rw e w
        | inr e ↦ elim (Bool-cases f.remove) [
          | inl r ↦ rw (e, r) w
          | inr r ↦ rw (e, r) (delete-IsIntact dest after w)
        ]
      ]

  pub write_stream-IsIntact :
      (f : Faults) (dest : FilePath) (hash : Bytes) (stream : Result Bytes) (stored : Bytes → Bytes)
      (disk : Disk) (found : Option Bytes)
      → object_name dest ≡ none
      → IsIntact disk
      → IsIntact (write_stream blake3 f dest hash stream stored disk found).1
  write_stream-IsIntact f dest hash (err e) stored disk found n w = w
  write_stream-IsIntact f dest hash (ok content) stored disk (some _) n w = w
  write_stream-IsIntact f dest hash (ok content) stored disk none n w =
      verify_written-IsIntact f dest hash content _
        (write_file_atomic-IsIntact f dest (stored content) disk (λ name. λ e. cc (n, e)) w)

  pub object_path-name :
      (scope : Scope) (hash : Bytes) {p : FilePath}
      → object_path blake3 scope hash ≡ ok p
      → (k : Bytes) × (canonical_hash_string hash ≡ ok k) × (object_name p ≡ some k)
  unfolding object_path scope_root object_name bytes_beq
  object_path-name scope hash {p} h =
      let (k, c, e) = bind-eq-ok (canonical_hash_string hash) _ h in
      let same : scope_root blake3 scope ++ (codes "objects" ∷ take 2 k ∷ drop 2 k ∷ []) ≡ p =
        cc e in
      (k, c, rw (← same) (ap some (take-append-drop 2 k)))

  pub pack_path-name :
      (scope : Scope) (hash : Bytes) {p : FilePath}
      → pack_path blake3 scope hash ≡ ok p
      → object_name p ≡ none
  unfolding pack_path scope_root object_name
  pack_path-name scope hash {p} h =
      let (k, _, e) = bind-eq-ok (canonical_hash_string hash) _ h in
      let same : scope_root blake3 scope ++ (codes "packs" ∷ (k ++ codes ".spack") ∷ []) ≡ p =
        cc e in
      rw (← same) refl

  pub asset_path-name :
      (scope : Scope) (hash : Bytes) {p : FilePath}
      → asset_path blake3 scope hash ≡ ok p
      → object_name p ≡ none
  unfolding asset_path scope_root object_name bytes_beq
  asset_path-name scope hash {p} h =
      let (k, _, e) = bind-eq-ok (canonical_hash_string hash) _ h in
      let same : scope_root blake3 scope ++ (codes "assets" ∷ take 2 k ∷ drop 2 k ∷ []) ≡ p =
        cc e in
      rw (← same) refl
