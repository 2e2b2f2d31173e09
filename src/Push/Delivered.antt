-- ===== src/Push/Delivered.antt =====
-- The pack of an accepted push: `writePack` of internal/server/sync/push.go.
use spool_rack.Prelude.{
  ℕ, Bytes, Bool, true, ◌&&◌, Option, some, List, ◌==◌, ◌≡◌, ◌≢◌, ap, ◌∙◌, false, bytes_eq, nat_eq,
  nat_beq, inl, inr, arith, Bool-cases, bytes_beq_iff, nat_beq_iff,
}
use spool_rack.Fault.{
  Result, Done, ok, err, required, refused, invalid_frame, guard-eq-ok, from_option-eq-ok,
}
use spool_rack.Cas.Scope.{Scope}
use spool_rack.Sync.Contract.{Contract, CommitIdentity, PackFrame}
use spool_rack.Sync.ContentId.{content_id}
use spool_rack.Sync.Frame.{pack_format_v3}
use spool_rack.Sync.Codec.{unmarshal_v2_sound, unmarshal_v3_sound}
use spool_rack.Sync.FrameV2.{IsPackV2, validate_v2_iff}
use spool_rack.Sync.FrameV3.{IsPackV3}
use spool_rack.Sync.OrderV3.{validate_v3_iff}
use spool_rack.Push.Effect.{World, pure, bind-eq-ok, then-eq-ok}
use spool_rack.Push.Interfaces.{Driver, BranchStore}
use spool_rack.Push.Checks.{Node, PushRequest, normalize_pack_format}
use spool_rack.Push.Engine.{read_pack, unmarshal_frame, write_pack, prepare, handle_push}

-- The stream of the request held a pack under its hash, whose ends are those of the request. In
-- version 3 it may be any valid pack; in every other version that the request may name, its commits
-- lead from the base to the target along first parents.
abbrev pub Delivered : (g : Contract) → PushRequest g → Type 0
Delivered g request =
    (content : Bytes) × (frame : PackFrame) × (request.pack_stream ≡ some (ok content))
    × (content_id g content ≡ request.pack_hash)
    × (frame.base.id ≡ request.base_commit)
    × (frame.target.id ≡ request.target_commit)
    × (normalize_pack_format request.pack_format ≡ 3 → IsPackV3 g frame)
    × (normalize_pack_format request.pack_format ≢ 3 → IsPackV2 g frame)

pure-eq-ok :
    {W A : Type 0} (r : Result A) (a : A) (w u : W)
    → ◌≡◌ {A = Result A × W} (pure r w) (ok a, u)
    → r ≡ ok a
unfolding pure
pure-eq-ok r a w u h = ap (λ m. m.0) h

module _ (g : Contract) {σ δ : Type 0} (driver : Driver δ) (store : BranchStore g σ)
    (validate_snapshot : Option (Bytes → Bool)) (scan : Bytes → Option (List Node)) where
  read_pack-eq-ok :
      (stream : Result Bytes) (content : Bytes)
      → read_pack g driver store validate_snapshot scan stream ≡ ok content
      → stream ≡ ok content
  unfolding read_pack
  read_pack-eq-ok (ok c) content h = ground arith
  read_pack-eq-ok (err reason) content h = cc h

  unmarshal_frame-eq-ok :
      (format : ℕ) (content : Bytes) (frame : PackFrame)
      → unmarshal_frame g driver store validate_snapshot scan format content ≡ ok frame
      → (normalize_pack_format format ≡ 3 → IsPackV3 g frame)
        × (normalize_pack_format format ≢ 3 → IsPackV2 g frame)
  unmarshal_frame-eq-ok format content frame h =
      elim (Bool-cases (normalize_pack_format format == pack_format_v3)) [
        | inl v3 ↦ (
          λ _. (validate_v3_iff g frame).0 (unmarshal_v3_sound g content frame (rw v3 at h)).0,
          λ other. absurd (other ((nat_beq_iff _ _).0 v3)),
        )
        | inr v2 ↦ (
          λ is. absurd (differs (normalize_pack_format format) v2 is),
          λ _. (validate_v2_iff g frame).0 (unmarshal_v2_sound g content frame (rw v2 at h)).0,
        )
      ]
    where
      differs : (n : ℕ) → nat_beq n 3 ≡ false → n ≡ 3 → ⊥
      differs n h is = ground arith

  write_pack-Delivered :
      (scope : Scope) (request : PushRequest g) (base : CommitIdentity) (w v : World σ δ)
      → ◌≡◌ {A = Result CommitIdentity × World σ δ}
          (write_pack g driver store validate_snapshot scan scope request w)
          (ok base, v)
      → Delivered g request
  unfolding write_pack
  write_pack-Delivered scope request base w v h =
      let (stream, w₁, some_stream, h₁) = bind-eq-ok _ _ w v base h in
      let (validate, w₂, _, h₂) = bind-eq-ok _ _ w₁ v base h₁ in
      let (content, w₃, was_read, h₃) = bind-eq-ok _ _ w₂ v base h₂ in
      let (w₄, hashed, h₄) = then-eq-ok _ _ w₃ v base h₃ in
      let (frame, w₅, decoded, h₅) = bind-eq-ok _ _ w₄ v base h₄ in
      let (w₆, ends, _) = then-eq-ok _ _ w₅ v base h₅ in
      let stream_is =
        from_option-eq-ok required request.pack_stream (pure-eq-ok _ stream w w₁ some_stream) in
      let content_is = read_pack-eq-ok stream content (pure-eq-ok _ content w₂ w₃ was_read) in
      let both =
        guard-eq-ok
          (frame.base.id == request.base_commit && frame.target.id == request.target_commit)
          invalid_frame (pure-eq-ok _ tt w₅ w₆ ends) in
      let valid =
        unmarshal_frame-eq-ok request.pack_format content frame
          (pure-eq-ok _ frame w₄ w₅ decoded) in
      (
        content,
        frame,
        stream_is ∙ ap some content_is,
        (bytes_beq_iff _ _).0 (guard-eq-ok _ refused (pure-eq-ok _ tt w₃ w₄ hashed)),
        (bytes_beq_iff _ _).0 (first _ _ both),
        (bytes_beq_iff _ _).0 (second _ _ both),
        valid.0,
        valid.1,
      )
    where
      first : (a b : Bool) → (a && b) ≡ true → a ≡ true
      first a b h = ground arith

      second : (a b : Bool) → (a && b) ≡ true → b ≡ true
      second a b h = ground arith

  pub handle_push-Delivered :
      (min : ℕ) (request : PushRequest g) (w : World σ δ)
      → (handle_push g driver store validate_snapshot scan min request w).0 ≡ ok tt
      → Delivered g request
  unfolding handle_push prepare
  handle_push-Delivered min request w h =
      let ended = handle_push g driver store validate_snapshot scan min request w in
      let (w₁, prepared, _) = then-eq-ok _ _ w ended.1 tt (whole ended h) in
      let (w₂, _, h₂) = then-eq-ok _ _ w w₁ tt prepared in
      let (w₃, _, h₃) = then-eq-ok _ _ w₂ w₁ tt h₂ in
      let (scope, w₄, _, h₄) = bind-eq-ok _ _ w₃ w₁ tt h₃ in
      let (base, w₅, written, _) = bind-eq-ok _ _ w₄ w₁ tt h₄ in
      write_pack-Delivered scope request base w₄ w₅ written
    where
      whole :
          (ended : Done × World σ δ)
          → ended.0 ≡ ok tt
          → ◌≡◌ {A = Done × World σ δ} ended (ok tt, ended.1)
      whole (r, v) h = ap (λ x. (x, v)) h
