-- ===== src/Sync/Valid.antt =====
-- What the parts of frame validation accept: identities, objects and snapshots.
use spool_rack.Prelude.{
  Bytes, is_empty, Bool, true, false, ◌||◌, not, List, [], ◌∷◌, map, All, IsNodup, ◌≡◌, ◌≢◌, ◌⊎◌,
  ◌↔◌, inl, inr, refl, sym, ◌∙◌, ◌==◌, bytes_eq, nat_eq, nat_beq, bytes_beq_iff, eq_self, contains,
  arith, Bool-cases, not-true,
}
use spool_rack.Prelude.Distinct.{Fresh, Fresh-nil_iff}
use spool_rack.Fault.{
  Result, Done, ok, err, ◌>>=◌, ◌>>◌, guard, then-eq-ok, guard-eq-ok, invalid_frame,
}
use spool_rack.Sync.Contract.{CommitIdentity, CommitFrame, PackObject, Contract}
use spool_rack.Sync.ContentId.{content_id, valid_content_id, valid_content_id_iff, IsContentId}
use spool_rack.Sync.Frame.{
  validate_identity, validate_ends, no_identity, frame_identity, check_objects, check_snapshots,
}

-- A legacy identity is any text; a v2 identity is a content ID.
abbrev pub IsIdentity : CommitIdentity → Type 0
IsIdentity i = (i.id ≢ []) × ((i.format ≡ 1) ⊎ ((i.format ≡ 2) × IsContentId i.id))

validate_identity_complete : (i : CommitIdentity) → IsIdentity i → validate_identity i ≡ ok tt
unfolding validate_identity
validate_identity_complete i h = ground (arith, valid_content_id_iff i.id, not_nil i.id h.0)
  where
    not_nil : (s : Bytes) → s ≢ [] → is_empty s ≡ false
    not_nil [] n = absurd (n refl)
    not_nil (c ∷ s) n = refl

validate_identity_sound : (i : CommitIdentity) → validate_identity i ≡ ok tt → IsIdentity i
unfolding validate_identity
validate_identity_sound i h = (ground arith, ground (arith, valid_content_id_iff i.id))

pub validate_identity_iff : (i : CommitIdentity) → (validate_identity i ≡ ok tt) ↔ IsIdentity i
validate_identity_iff i = (validate_identity_sound i, validate_identity_complete i)

-- A pack starts at the root, which is the zero identity, or at a valid base.
abbrev pub IsBase : CommitIdentity → Type 0
IsBase base = (base ≡ no_identity) ⊎ IsIdentity base

base_tested : (b : CommitIdentity) → Bool
base_tested b = not (is_empty b.id) || not (nat_beq b.format 0)

no_identity_untested : (b : CommitIdentity) → base_tested b ≡ false → b ≡ no_identity
unfolding base_tested
no_identity_untested b h = ground arith

ends_tested :
    (b t : CommitIdentity)
    → validate_ends b t ≡ ok tt
    → ((base_tested b ≡ false) ⊎ (validate_identity b ≡ ok tt)) × (validate_identity t ≡ ok tt)
unfolding validate_ends base_tested
ends_tested b t h = ground arith

ends_accepted :
    (b t : CommitIdentity)
    → (base_tested b ≡ false) ⊎ (validate_identity b ≡ ok tt)
    → validate_identity t ≡ ok tt
    → validate_ends b t ≡ ok tt
unfolding validate_ends base_tested
ends_accepted b t h k = ground arith

base_accepted :
    (b : CommitIdentity) → IsBase b → (base_tested b ≡ false) ⊎ (validate_identity b ≡ ok tt)
unfolding base_tested
base_accepted b (inl e) = inl (rw e)
base_accepted b (inr h) = inr (validate_identity_complete b h)

IsBase-of_tested :
    (b : CommitIdentity) → (base_tested b ≡ false) ⊎ (validate_identity b ≡ ok tt) → IsBase b
IsBase-of_tested b (inl e) = inl (no_identity_untested b e)
IsBase-of_tested b (inr h) = inr (validate_identity_sound b h)

pub validate_ends_iff :
    (base target : CommitIdentity)
    → (validate_ends base target ≡ ok tt) ↔ (IsBase base × IsIdentity target)
validate_ends_iff b t = (
  λ h. let (hb, ht) = ends_tested b t h in (IsBase-of_tested b hb, validate_identity_sound t ht),
  λ h. ends_accepted b t (base_accepted b h.0) (validate_identity_complete t h.1),
)

refuse : Done
refuse = err invalid_frame

never_ok : (r : Result CommitIdentity) (k : Done) → ((r >>= λ _. refuse) >> k) ≡ ok tt → ⊥
unfolding refuse
never_ok (ok i) k h = cc
never_ok (err x) k h = cc

module _ (g : Contract) where
  -- The object's ID is well formed and names its content.
  abbrev pub IsObject : PackObject → Type 0
  IsObject o = (valid_content_id o.id ≡ true) × (content_id g o.content ≡ o.id)

  abbrev pub ids_of : List PackObject → List Bytes
  ids_of = map (λ o. o.id)

  check_objects_sound :
      (seen out : List Bytes) (os : List PackObject)
      → check_objects g seen os ≡ ok out
      → All IsObject os
        × Fresh seen (ids_of os)
        × ((x : Bytes) → contains out x ≡ (contains (ids_of os) x || contains seen x))
  unfolding check_objects contains
  check_objects_sound seen out [] h = (tt, tt, λ x. ground arith)
  check_objects_sound seen out (o ∷ os) h =
      let (v, h₁) = then-eq-ok (guard (valid_content_id o.id) invalid_frame) _ h in
      let (c, h₂) = then-eq-ok (guard (content_id g o.content == o.id) invalid_frame) _ h₁ in
      let (n, h₃) = then-eq-ok (guard (not (contains seen o.id)) invalid_frame) _ h₂ in
      let (as', fs, e) = check_objects_sound (o.id ∷ seen) out os h₃ in
      (
        (
          (guard-eq-ok _ invalid_frame v, (bytes_beq_iff _ o.id).0 (guard-eq-ok _ invalid_frame c)),
          as',
        ),
        (not-true _ (guard-eq-ok _ invalid_frame n), fs),
        λ x. ground (arith, e x),
      )

  check_objects_complete :
      (seen : List Bytes) (os : List PackObject)
      → All IsObject os
      → Fresh seen (ids_of os)
      → (out : List Bytes) × (check_objects g seen os ≡ ok out)
  unfolding check_objects
  check_objects_complete seen [] a f = (seen, refl)
  check_objects_complete seen (o ∷ os) a f =
      let (out, e) = check_objects_complete (o.id ∷ seen) os a.1 f.1 in
      (out, rw (a.0.0, a.0.1, eq_self o.id, f.0) e)

  -- The objects have their own content IDs, and no two of them the same.
  abbrev pub Objects : List PackObject → Type 0
  Objects os = All IsObject os × IsNodup (ids_of os)

  pub check_objects_iff :
      (os : List PackObject) → ((out : List Bytes) × (check_objects g [] os ≡ ok out)) ↔ Objects os
  check_objects_iff os = (
    λ (out, h). let (a, f, _) = check_objects_sound [] out os h in (a, (Fresh-nil_iff _).0 f),
    λ (a, d). check_objects_complete [] os a ((Fresh-nil_iff _).1 d),
  )

  -- What the loop has seen is what the pack holds.
  pub check_objects-seen :
      (os : List PackObject) {out : List Bytes}
      → check_objects g [] os ≡ ok out
      → (x : Bytes) → contains out x ≡ contains (ids_of os) x
  check_objects-seen os {out} h x =
      let (_, _, e) = check_objects_sound [] out os h in e x ∙ or_false (contains (ids_of os) x)
    where
      or_false : (b : Bool) → (b || contains {A = Bytes} [] x) ≡ b
      or_false b = unfold contains in ground arith

  -- Every commit's snapshot is one of these.
  abbrev pub Snapshots : List Bytes → List CommitFrame → Type 0
  Snapshots ids = All (λ c. contains ids c.snapshot_root ≡ true)

  pub check_snapshots_sound :
      (ids : List Bytes) (cs : List CommitFrame)
      → check_snapshots g ids cs ≡ ok tt
      → Snapshots ids cs
  unfolding check_snapshots refuse
  check_snapshots_sound ids [] h = tt
  check_snapshots_sound ids (c ∷ cs) h = elim (Bool-cases (contains ids c.snapshot_root)) [
    | inl e ↦ (e, check_snapshots_sound ids cs (rw e at h))
    | inr e ↦ absurd (never_ok (frame_identity g c) _ (rw e at h))
  ]

  pub check_snapshots_complete :
      (ids : List Bytes) (cs : List CommitFrame)
      → Snapshots ids cs
      → check_snapshots g ids cs ≡ ok tt
  unfolding check_snapshots
  check_snapshots_complete ids [] h = refl
  check_snapshots_complete ids (c ∷ cs) h = rw h.0 (check_snapshots_complete ids cs h.1)

  pub Snapshots-same :
      (a b : List Bytes) (cs : List CommitFrame)
      → ((x : Bytes) → contains a x ≡ contains b x)
      → Snapshots a cs
      → Snapshots b cs
  Snapshots-same a b [] e h = tt
  Snapshots-same a b (c ∷ cs) e h = (sym (e c.snapshot_root) ∙ h.0, Snapshots-same a b cs e h.1)
