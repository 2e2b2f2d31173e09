-- ===== src/Sync/FrameV3.antt =====
-- `PackFrameV3.validate`: which sets of commits it accepts, and that their order is not tested.
use spool_rack.Prelude.{
  Bytes, is_empty, true, ◌&&◌, not, List, [], ◌∷◌, All, ◌≡◌, ◌≢◌, refl, subst, bytes_eq, nat_eq,
  contains, if◌then◌else◌, not-true,
}
use spool_rack.Prelude.Distinct.{Fresh}
use spool_rack.Fault.{
  ok, guard, rewrap, bind-eq-ok, then-eq-ok, guard-eq-ok, rewrap-eq-ok, invalid_frame,
}
use spool_rack.Sync.Contract.{CommitIdentity, CommitFrame, PackFrame, Contract, identity_eq}
use spool_rack.Sync.Frame.{
  frame_commit, frame_identity, validate_identity, check_parents, collect, last_identity,
  pack_format_v3,
}
use spool_rack.Sync.FrameV2.{frame_identity-commit}
use spool_rack.Sync.Valid.{IsBase, IsIdentity, Objects, Snapshots, ids_of, validate_identity_iff}

-- Only a pack without a base may hold a root commit.
abbrev pub MayBeRoot : Bytes → List CommitIdentity → Type 0
MayBeRoot base parents = (base ≢ []) → parents ≢ []

module _ (g : Contract) where
  -- The commits have these IDs.
  abbrev pub HaveIds : List CommitFrame → List Bytes → Type 0
  HaveIds [] ids = ids ≡ []
  HaveIds (c ∷ cs) ids =
      (i : CommitIdentity) × (rest : List Bytes) × (frame_identity g c ≡ ok i)
      × (ids ≡ i.id ∷ rest)
      × HaveIds cs rest

  -- The parents of a commit are valid, and it is no root of an advancing pack.
  abbrev pub IsMember : Bytes → CommitFrame → Type 0
  IsMember base c = MayBeRoot base c.parents × All IsIdentity c.parents

  check_parents_sound : (ps : List CommitIdentity) → check_parents g ps ≡ ok tt → All IsIdentity ps
  unfolding check_parents
  check_parents_sound [] h = tt
  check_parents_sound (p ∷ ps) h =
      let (v, k) = then-eq-ok (rewrap invalid_frame (validate_identity p)) _ h in
      ((validate_identity_iff p).0 (rewrap-eq-ok invalid_frame _ v), check_parents_sound ps k)

  check_parents_complete :
      (ps : List CommitIdentity) → All IsIdentity ps → check_parents g ps ≡ ok tt
  unfolding check_parents
  check_parents_complete [] h = refl
  check_parents_complete (p ∷ ps) h =
      rw ((validate_identity_iff p).1 h.0) (check_parents_complete ps h.1)

  root_tested :
      (base : Bytes) (ps : List CommitIdentity)
      → not (is_empty ps && not (is_empty base)) ≡ true
      → MayBeRoot base ps
  root_tested [] ps h = λ n. absurd (n refl)
  root_tested (c ∷ base) [] h = cc
  root_tested (c ∷ base) (p ∷ ps) h = λ _. λ e. cc

  root_allowed :
      (base : Bytes) (ps : List CommitIdentity)
      → MayBeRoot base ps
      → not (is_empty ps && not (is_empty base)) ≡ true
  root_allowed [] [] h = refl
  root_allowed [] (p ∷ ps) h = refl
  root_allowed (c ∷ base) [] h = absurd (h (λ e. cc) refl)
  root_allowed (c ∷ base) (p ∷ ps) h = refl

  pub collect_sound :
      (base : Bytes) (seen : List Bytes) (cs : List CommitFrame)
      → collect g base seen cs ≡ ok tt
      → (ids : List Bytes) × HaveIds cs ids × Fresh seen ids × All (IsMember base) cs
  unfolding collect
  collect_sound base seen [] h = ([], refl, tt, tt)
  collect_sound base seen (c ∷ cs) h =
      let (_, _, h₁) = bind-eq-ok (rewrap invalid_frame (frame_commit g c)) _ h in
      let (i, e, h₂) = bind-eq-ok (frame_identity g c) _ h₁ in
      let (n, h₃) = then-eq-ok (guard (not (contains seen i.id)) invalid_frame) _ h₂ in
      let (r, h₄) =
        then-eq-ok (guard (not (is_empty c.parents && not (is_empty base))) invalid_frame) _ h₃ in
      let (p, h₅) = then-eq-ok (check_parents g c.parents) _ h₄ in
      let (ids, have, fresh, members) = collect_sound base (i.id ∷ seen) cs h₅ in
      (
        i.id ∷ ids,
        (i, ids, e, refl, have),
        (not-true _ (guard-eq-ok _ invalid_frame n), fresh),
        (
          (
            root_tested base c.parents (guard-eq-ok _ invalid_frame r),
            check_parents_sound c.parents p,
          ),
          members,
        ),
      )

  pub collect_complete :
      (base : Bytes) (seen : List Bytes) (cs : List CommitFrame) (ids : List Bytes)
      → HaveIds cs ids
      → Fresh seen ids
      → All (IsMember base) cs
      → collect g base seen cs ≡ ok tt
  unfolding collect
  collect_complete base seen [] ids have fresh members = refl
  collect_complete base seen (c ∷ cs) ids (i, rest, e, s, have) fresh members =
      let ((_, made), _) = frame_identity-commit g c e in
      let fresh' : Fresh seen (i.id ∷ rest) = subst (Fresh seen) s fresh in
      rw
        (
          made,
          e,
          fresh'.0,
          root_allowed base c.parents members.0.0,
          check_parents_complete c.parents members.0.1,
        )
        (collect_complete base (i.id ∷ seen) cs rest have fresh'.1 members.1)

  abbrev pub before : Bytes → List Bytes
  before base = if is_empty base then [] else base ∷ []

  -- What a version 3 pack promises; no order among the commits but that the target is last.
  pub record IsPackV3 (f : PackFrame) : Type 0 where
    pub version_is : f.version ≡ pack_format_v3
    pub base_is : IsBase f.base
    pub target_is : IsIdentity f.target
    pub commit_ids : List Bytes
    pub identified : HaveIds f.commits commit_ids
    pub distinct : Fresh (before f.base.id) commit_ids
    pub members : All (IsMember f.base.id) f.commits
    pub ends : last_identity g f.commits ≡ ok f.target
    pub objects : Objects g f.objects
    pub snapshots : Snapshots g (ids_of g f.objects) f.commits
