-- ===== src/Sync/OrderV3.antt =====
-- Version 3 validation as a whole, and what it says nothing about.
use spool_rack.Prelude.{
  Bytes, is_empty, false, not, List, [], ◌∷◌, All, ◌≡◌, ◌↔◌, refl, sym, ap, ◌∙◌, subst, ◌==◌,
  nat_eq, bytes_eq, nat_beq_iff,
}
use spool_rack.Prelude.Distinct.{Fresh, Fresh-swap}
use spool_rack.Fault.{ok, guard, bind-eq-ok, then-eq-ok, guard-eq-ok, invalid_frame}
use spool_rack.Sync.Contract.{
  CommitIdentity, CommitFrame, PackFrame, Contract, identity_eq, identity_beq_iff,
}
use spool_rack.Sync.Frame.{
  validate_ends, check_objects, collect, last_identity, validate_v3, pack_format_v3,
}
use spool_rack.Sync.FrameV3.{HaveIds, IsMember, IsPackV3, before, collect_sound, collect_complete}
use spool_rack.Sync.Valid.{
  Snapshots, ids_of, validate_ends_iff, check_objects_iff, check_objects-seen,
  check_snapshots_sound, check_snapshots_complete, Snapshots-same,
}

module _ (g : Contract) where
  validate_v3_sound : (f : PackFrame) → validate_v3 g f ≡ ok tt → IsPackV3 g f
  unfolding validate_v3
  validate_v3_sound f h =
      let (v, h₁) = then-eq-ok (guard (f.version == pack_format_v3) invalid_frame) _ h in
      let (ends, h₂) = then-eq-ok (validate_ends f.base f.target) _ h₁ in
      let (_, h₃) = then-eq-ok (guard (not (is_empty f.commits)) invalid_frame) _ h₂ in
      let (c, h₄) = then-eq-ok (collect g f.base.id (before g f.base.id) f.commits) _ h₃ in
      let (last, w, h₅) = bind-eq-ok (last_identity g f.commits) _ h₄ in
      let (t, h₆) = then-eq-ok (guard (last == f.target) invalid_frame) _ h₅ in
      let (seen, o, s) = bind-eq-ok (check_objects g [] f.objects) _ h₆ in
      let same = (identity_beq_iff last f.target).0 (guard-eq-ok _ invalid_frame t) in
      let (ids, have, fresh, members) =
        collect_sound g f.base.id (before g f.base.id) f.commits c in
      record {
        version_is = (nat_beq_iff _ _).0 (guard-eq-ok _ invalid_frame v);
        base_is = ((validate_ends_iff f.base f.target).0 ends).0;
        target_is = ((validate_ends_iff f.base f.target).0 ends).1;
        commit_ids = ids;
        identified = have;
        distinct = fresh;
        members = members;
        ends = rw (← same) w;
        objects = (check_objects_iff g f.objects).0 (seen, o);
        snapshots =
            Snapshots-same g seen _ f.commits (check_objects-seen g f.objects o)
              (check_snapshots_sound g seen f.commits s);
      }

  some_commit :
      (cs : List CommitFrame) {t : CommitIdentity} → last_identity g cs ≡ ok t → is_empty cs ≡ false
  unfolding last_identity
  some_commit [] h = cc
  some_commit (c ∷ cs) h = refl

  validate_v3_complete : (f : PackFrame) → IsPackV3 g f → validate_v3 g f ≡ ok tt
  unfolding validate_v3
  validate_v3_complete f p =
      let (seen, o) = (check_objects_iff g f.objects).1 p.objects in
      rw
        (
          p.version_is,
          (validate_ends_iff f.base f.target).1 (p.base_is, p.target_is),
          some_commit f.commits p.ends,
          collect_complete g f.base.id (before g f.base.id) f.commits p.commit_ids p.identified
              p.distinct p.members,
          p.ends,
          (identity_beq_iff f.target f.target).1 refl,
          o,
        )
        (check_snapshots_complete g seen f.commits (
          Snapshots-same g _ seen f.commits (λ x. sym (check_objects-seen g f.objects o x))
            p.snapshots))

  -- A frame passes version 3 validation exactly if it has version 3, a valid or absent base and a
  -- valid target; its commits have distinct IDs, none of them the base's, valid parents, and at least
  -- one parent where there is a base; the last commit is the target; the objects have their own
  -- content IDs, all distinct; and every commit's snapshot is among them.
  pub validate_v3_iff : (f : PackFrame) → (validate_v3 g f ≡ ok tt) ↔ IsPackV3 g f
  validate_v3_iff f = (validate_v3_sound f, validate_v3_complete f)

  HaveIds-swap :
      (a b : CommitFrame) (rest : List CommitFrame) (ids : List Bytes) (seen : List Bytes)
      → HaveIds g (a ∷ b ∷ rest) ids
      → Fresh seen ids
      → (ids' : List Bytes) × HaveIds g (b ∷ a ∷ rest) ids' × Fresh seen ids'
  HaveIds-swap a b rest ids seen (i, _, e, s, (j, tail, e', s', have)) fresh = (
    j.id ∷ i.id ∷ tail,
    (j, i.id ∷ tail, e', refl, (i, tail, e, refl, have)),
    Fresh-swap seen i.id j.id tail (subst (Fresh seen) (s ∙ ap (◌∷◌ i.id) s') fresh),
  )

  -- Version 3 validation does not test that ancestors stand before descendants: the first two
  -- commits of a valid frame that has a third may change places.
  pub validate_v3_swap :
      (f : PackFrame) (a b c : CommitFrame) (rest : List CommitFrame)
      → f.commits ≡ a ∷ b ∷ c ∷ rest
      → validate_v3 g f ≡ ok tt
      → validate_v3 g (record f { commits = b ∷ a ∷ c ∷ rest }) ≡ ok tt
  unfolding last_identity
  validate_v3_swap f a b c rest e h =
      let p = validate_v3_sound f h in
      let have = subst (λ cs. HaveIds g cs p.commit_ids) e p.identified in
      let members = subst (λ cs. All (IsMember g f.base.id) cs) e p.members in
      let snapshots = subst (λ cs. Snapshots g (ids_of g f.objects) cs) e p.snapshots in
      let ends = subst (λ cs. last_identity g cs ≡ ok f.target) e p.ends in
      let (ids, have', fresh) =
        HaveIds-swap a b (c ∷ rest) p.commit_ids (before g f.base.id) have p.distinct in
      validate_v3_complete (record f { commits = b ∷ a ∷ c ∷ rest })
        (record {
          version_is = p.version_is;
          base_is = p.base_is;
          target_is = p.target_is;
          commit_ids = ids;
          identified = have';
          distinct = fresh;
          members = (members.1.0, (members.0, members.1.1));
          ends = ends;
          objects = p.objects;
          snapshots = (snapshots.1.0, (snapshots.0, snapshots.1.1));
        })
