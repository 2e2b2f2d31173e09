-- ===== src/Sync/FrameV2.antt =====
-- `PackFrameV2.validate` accepts exactly the first-parent chains from the base to the target.
use spool_rack.Prelude.{
  is_empty, Bool, true, false, not, List, [], ◌∷◌, ◌≡◌, ◌≢◌, ◌⊎◌, ◌↔◌, inl, inr, refl, sym, ap,
  ◌==◌, bytes_eq, nat_eq, nat_beq_iff, arith, not-true,
}
use spool_rack.Fault.{ok, guard, rewrap, bind-eq-ok, then-eq-ok, guard-eq-ok, invalid_frame}
use spool_rack.Sync.Contract.{
  CommitIdentity, CommitFrame, PackFrame, Contract, identity_eq, identity_beq_iff,
}
use spool_rack.Sync.Frame.{
  no_identity, frame_commit, frame_identity, commit_object_id, link, follow, validate_ends,
  check_objects, validate_v2, pack_format_v2, commit_format_v2,
}
use spool_rack.Sync.Valid.{
  IsBase, IsIdentity, Objects, Snapshots, ids_of, validate_ends_iff, check_objects_iff,
  check_objects-seen, check_snapshots_sound, check_snapshots_complete, Snapshots-same,
}

module _ (g : Contract) where
  -- A commit continues `previous`: that is its first parent, or it is a root and nothing is before.
  abbrev pub Continues : CommitIdentity → List CommitIdentity → Type 0
  Continues previous [] = previous ≡ no_identity
  Continues previous (parent ∷ parents) = parent ≡ previous

  -- Each commit continues the identity of the one before it, and the last is the target.
  abbrev pub FirstParentChain : CommitIdentity → List CommitFrame → CommitIdentity → Type 0
  FirstParentChain previous [] target = previous ≡ target
  FirstParentChain previous (c ∷ cs) target =
      (identity : CommitIdentity) × (frame_identity g c ≡ ok identity)
      × Continues previous c.parents
      × FirstParentChain identity cs target

  pub frame_identity-commit :
      (c : CommitFrame) {i : CommitIdentity}
      → frame_identity g c ≡ ok i
      → ((m : g.Commit) × (frame_commit g c ≡ ok m)) × (i.format ≡ commit_format_v2)
  unfolding frame_identity
  frame_identity-commit c {i} h =
      let (m, e, k) = bind-eq-ok (frame_commit g c) _ h in
      let (x, _, j) = bind-eq-ok (commit_object_id g m) _ k in ((m, e), ground arith)

  -- The flag of the first commit matters only where something stands before it.
  abbrev Later : Bool → CommitIdentity → Type 0
  Later first previous = (first ≡ true) ⊎ (previous.format ≡ commit_format_v2)

  link_sound :
      (first : Bool) (previous : CommitIdentity) (c : CommitFrame) (ps : List CommitIdentity)
      {i : CommitIdentity}
      → link g first previous c ps ≡ ok i
      → (frame_identity g c ≡ ok i) × Continues previous ps
  unfolding link
  link_sound first previous c [] h = (ground arith, ground arith)
  link_sound first previous c (p ∷ ps) h =
      (ground arith, ground (arith, identity_beq_iff p previous))

  link_complete :
      (first : Bool) (previous : CommitIdentity) (c : CommitFrame) (ps : List CommitIdentity)
      {i : CommitIdentity}
      → Later first previous
      → frame_identity g c ≡ ok i
      → Continues previous ps
      → link g first previous c ps ≡ ok i
  unfolding link
  link_complete first previous c [] l e k = ground arith
  link_complete first previous c (p ∷ ps) l e k = ground (arith, identity_beq_iff p previous)

  follow_sound :
      (first : Bool) (previous : CommitIdentity) (cs : List CommitFrame) {target : CommitIdentity}
      → follow g first previous cs ≡ ok target
      → FirstParentChain previous cs target
  unfolding follow
  follow_sound first previous [] h = cc
  follow_sound first previous (c ∷ cs) h =
      let (_, _, h₁) = bind-eq-ok (rewrap invalid_frame (frame_commit g c)) _ h in
      let (i, l, h₂) = bind-eq-ok (link g first previous c c.parents) _ h₁ in
      let (e, k) = link_sound first previous c c.parents l in (i, e, k, follow_sound false i cs h₂)

  follow_complete :
      (first : Bool) (previous : CommitIdentity) (cs : List CommitFrame) {target : CommitIdentity}
      → Later first previous
      → FirstParentChain previous cs target
      → follow g first previous cs ≡ ok target
  unfolding follow
  follow_complete first previous [] l h = ap ok h
  follow_complete first previous (c ∷ cs) l (i, e, k, rest) =
      let ((m, made), v2) = frame_identity-commit c e in
      rw (made, link_complete first previous c c.parents l e k)
        (follow_complete false i cs (inr v2) rest)

  -- What a version 2 pack promises.
  pub record IsPackV2 (f : PackFrame) : Type 0 where
    pub version_is : f.version ≡ pack_format_v2
    pub base_is : IsBase f.base
    pub target_is : IsIdentity f.target
    pub advances : f.commits ≢ []
    pub chain : FirstParentChain f.base f.commits f.target
    pub objects : Objects g f.objects
    pub snapshots : Snapshots g (ids_of g f.objects) f.commits

  validate_v2_sound : (f : PackFrame) → validate_v2 g f ≡ ok tt → IsPackV2 f
  unfolding validate_v2
  validate_v2_sound f h =
      let (v, h₁) = then-eq-ok (guard (f.version == pack_format_v2) invalid_frame) _ h in
      let (ends, h₂) = then-eq-ok (validate_ends f.base f.target) _ h₁ in
      let (n, h₃) = then-eq-ok (guard (not (is_empty f.commits)) invalid_frame) _ h₂ in
      let (last, w, h₄) = bind-eq-ok (follow g true f.base f.commits) _ h₃ in
      let (t, h₅) = then-eq-ok (guard (last == f.target) invalid_frame) _ h₄ in
      let (seen, o, s) = bind-eq-ok (check_objects g [] f.objects) _ h₅ in
      let same = (identity_beq_iff last f.target).0 (guard-eq-ok _ invalid_frame t) in
      record {
        version_is = (nat_beq_iff _ _).0 (guard-eq-ok _ invalid_frame v);
        base_is = ((validate_ends_iff f.base f.target).0 ends).0;
        target_is = ((validate_ends_iff f.base f.target).0 ends).1;
        advances = not_nil f.commits (not-true _ (guard-eq-ok _ invalid_frame n));
        chain = rw (← same) (follow_sound true f.base f.commits w);
        objects = (check_objects_iff g f.objects).0 (seen, o);
        snapshots =
            Snapshots-same g seen _ f.commits (check_objects-seen g f.objects o)
              (check_snapshots_sound g seen f.commits s);
      }
    where
      not_nil : (cs : List CommitFrame) → is_empty cs ≡ false → cs ≢ []
      not_nil [] e = cc
      not_nil (c ∷ cs) e = λ k. cc

  validate_v2_complete : (f : PackFrame) → IsPackV2 f → validate_v2 g f ≡ ok tt
  unfolding validate_v2
  validate_v2_complete f p =
      let (seen, o) = (check_objects_iff g f.objects).1 p.objects in
      rw
        (
          p.version_is,
          (validate_ends_iff f.base f.target).1 (p.base_is, p.target_is),
          some_commit f.commits p.advances,
          follow_complete true f.base f.commits (inl refl) p.chain,
          (identity_beq_iff f.target f.target).1 refl,
          o,
        )
        (check_snapshots_complete g seen f.commits (
          Snapshots-same g _ seen f.commits (λ x. sym (check_objects-seen g f.objects o x))
            p.snapshots))
    where
      some_commit : (cs : List CommitFrame) → cs ≢ [] → is_empty cs ≡ false
      some_commit [] n = absurd (n refl)
      some_commit (c ∷ cs) n = refl

  -- A frame passes version 2 validation exactly if it has version 2, a valid or absent base, a valid
  -- target and at least one commit; each commit's first parent is the identity of the one before,
  -- from the base, and the last identity is the target; the objects have their own content IDs, all
  -- distinct; and every commit's snapshot is among them.
  pub validate_v2_iff : (f : PackFrame) → (validate_v2 g f ≡ ok tt) ↔ IsPackV2 f
  validate_v2_iff f = (validate_v2_sound f, validate_v2_complete f)
