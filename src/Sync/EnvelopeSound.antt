-- ===== src/Sync/EnvelopeSound.antt =====
-- What a client may rely on after it has read a pull envelope.
use spool_rack.Prelude.{
  ℕ, ◌+◌, ◌-◌, Bytes, is_empty, true, ◌&&◌, not, List, [], ◌∷◌, ◌++◌, length, take, drop,
  length-take, take-append-drop, ◌≡◌, refl, ap, ◌∙◌, ◌==◌, bytes_eq, bytes_beq_iff, nat_eq, leb,
  arith, if◌then◌else◌,
}
use spool_rack.Fault.{
  ok, from_option, guard, bind-eq-ok, then-eq-ok, guard-eq-ok, invalid_pull_envelope,
}
use spool_rack.Sync.Contract.{
  CommitIdentity, identity_eq, identity_beq_iff, PackFrame, PullPack, PullManifest, Contract,
}
use spool_rack.Sync.ContentId.{content_id}
use spool_rack.Sync.Frame.{max_v2_pack_bytes, v2_commit_identity}
use spool_rack.NativePull.BigEndian.{uint_from}
use spool_rack.Sync.Envelope.{
  Walk, validate_pull_manifest, marshal_pull_manifest, unmarshal_pull_manifest, note_commits,
  read_frame, targets_head, read_packs, last_target, check_frames, unmarshal_envelope,
  pull_envelope_header_size, pull_envelope_magic, pull_envelope_format_v2,
}

abbrev pub joined : List Bytes → Bytes
joined [] = []
joined (pack ∷ packs) = pack ++ joined packs

empty_is : (s : Bytes) → is_empty s ≡ true → [] ≡ s
empty_is [] h = refl
empty_is (x ∷ s) h = cc h

module _ (g : Contract) where
  -- The packs are those that the manifest lists, in order: each has its size and its hash, and is a
  -- frame that passes the validation of its format.
  abbrev pub Reads : List PullPack → List Bytes → List PackFrame → Type 0
  Reads [] [] [] = Unit
  Reads (pack ∷ packs) (b ∷ bs) (frame ∷ frames) =
      (length b ≡ pack.size)
      × (content_id g b ≡ pack.hash)
      × (read_frame g pack.format b ≡ ok frame)
      × Reads packs bs frames
  Reads _ _ _ = ⊥

  read_packs-Reads :
      (head : Bytes) (commits : List CommitIdentity) (n : ℕ) (packs : List PullPack) (rest : Bytes)
      (walk : Walk)
      → read_packs g head commits n packs rest ≡ ok walk
      → Reads packs walk.packs walk.frames × (joined walk.packs ≡ rest)
  unfolding read_packs
  read_packs-Reads head commits n [] rest walk h =
      let (empty, h₁) = then-eq-ok (guard (is_empty rest) invalid_pull_envelope) _ h in
      let e : record { packs = []; frames = []; commits = commits; head_targets = n } ≡ walk =
        cc h₁ in
      rw (← e) (tt, empty_is rest (guard-eq-ok _ invalid_pull_envelope empty))
  read_packs-Reads head commits n (pack ∷ packs) rest walk h =
      let b = take pack.size rest in
      let (_, h₁) =
        then-eq-ok (guard (leb pack.size max_v2_pack_bytes) invalid_pull_envelope) _ h in
      let (fits, h₂) =
        then-eq-ok (guard (leb pack.size (length rest)) invalid_pull_envelope) _ h₁ in
      let (same, h₃) =
        then-eq-ok (guard (content_id g b == pack.hash) invalid_pull_envelope) _ h₂ in
      let (frame, r, h₄) = bind-eq-ok (read_frame g pack.format b) _ h₃ in
      let (_, h₅) =
        then-eq-ok (guard (not (targets_head g head frame && leb 1 n)) invalid_pull_envelope) _
          h₄ in
      let (commits', _, h₆) = bind-eq-ok (note_commits g commits frame.commits) _ h₅ in
      let (w, k, h₇) =
        bind-eq-ok
          (read_packs g head commits' (if targets_head g head frame then n + 1 else n) packs
            (drop pack.size rest))
          _ h₆ in
      let e : record w { packs = b ∷ w.packs; frames = frame ∷ w.frames } ≡ walk = cc h₇ in
      let (tail, whole) = read_packs-Reads head commits' _ packs (drop pack.size rest) w k in
      let leb_fits = guard-eq-ok _ invalid_pull_envelope fits in
      rw (← e) (
        (
          ground (arith, length-take pack.size rest),
          (bytes_beq_iff _ _).0 (guard-eq-ok _ invalid_pull_envelope same),
          r,
          tail,
        ),
        ap (λ s. b ++ s) whole ∙ take-append-drop pack.size rest,
      )

  unmarshal_pull_manifest_sound :
      (d : Bytes) (m : PullManifest)
      → unmarshal_pull_manifest g d ≡ ok m
      → (validate_pull_manifest m ≡ ok tt) × (marshal_pull_manifest g m ≡ ok d)
  unfolding unmarshal_pull_manifest marshal_pull_manifest
  unmarshal_pull_manifest_sound d m h =
      let (m', _, h₁) = bind-eq-ok (from_option invalid_pull_envelope (g.decode_manifest d)) _ h in
      let (c, k, h₂) = bind-eq-ok (marshal_pull_manifest g m') _ h₁ in
      let (same, h₃) = then-eq-ok (guard (d == c) invalid_pull_envelope) _ h₂ in
      let e : d ≡ c = (bytes_beq_iff d c).0 (guard-eq-ok _ invalid_pull_envelope same) in
      let e' : m' ≡ m = cc h₃ in
      let (v, _) = then-eq-ok (validate_pull_manifest m') _ k in (rw (← e') v, rw (← e') (rw e k))

  -- What the end of the reading has tested.
  from_walk :
      (m m' : PullManifest) (packs : List Bytes) (walk : Walk) (d rest : Bytes)
      → unmarshal_pull_manifest g d ≡ ok m'
      → read_packs g m'.head [] 0 m'.packs rest ≡ ok walk
      → last_target walk.frames ≡ v2_commit_identity m'.head
      → m' ≡ m
      → walk.packs ≡ packs
      → (validate_pull_manifest m ≡ ok tt)
        × Reads m.packs packs walk.frames
        × (joined packs ≡ rest)
        × (marshal_pull_manifest g m ≡ ok d)
        × (last_target walk.frames ≡ v2_commit_identity m.head)
  from_walk m m' packs walk d rest u r last e q =
      let (v, k) = unmarshal_pull_manifest_sound d m' u in
      let (reads, whole) = read_packs-Reads m'.head [] 0 m'.packs rest walk r in
      rw (← e, ← q) (v, reads, whole, k, last)

  -- An envelope that is read has a valid manifest; its packs have the sizes and hashes that the
  -- manifest lists, pass the validation of their formats, and fill the rest of the envelope; and the
  -- last pack's target is the advertised head.
  pub unmarshal_envelope_sound :
      (envelope : Bytes) (m : PullManifest) (packs : List Bytes)
      → unmarshal_envelope g envelope ≡ ok (m, packs)
      → (frames : List PackFrame) × (size : ℕ) × (validate_pull_manifest m ≡ ok tt)
        × Reads m.packs packs frames
        × (joined packs ≡ drop size (drop pull_envelope_header_size envelope))
        × (marshal_pull_manifest g m ≡ ok (take size (drop pull_envelope_header_size envelope)))
        × (last_target frames ≡ v2_commit_identity m.head)
  unfolding unmarshal_envelope
  unmarshal_envelope_sound envelope m packs h =
      let n = uint_from 0 (take 8 (drop 8 envelope)) in
      let body = drop 16 envelope in
      let (_, h₁) =
        then-eq-ok
          (guard
            (leb pull_envelope_header_size (length envelope)
              && take 4 envelope == pull_envelope_magic)
            invalid_pull_envelope)
          _ h in
      let (_, h₂) =
        then-eq-ok
          (guard (uint_from 0 (take 4 (drop 4 envelope)) == pull_envelope_format_v2)
            invalid_pull_envelope)
          _ h₁ in
      let (_, h₃) =
        then-eq-ok
          (guard (leb n (length envelope - pull_envelope_header_size)) invalid_pull_envelope) _
          h₂ in
      let (m', u, h₄) = bind-eq-ok (unmarshal_pull_manifest g (take n body)) _ h₃ in
      let (walk, r, h₅) = bind-eq-ok (read_packs g m'.head [] 0 m'.packs (drop n body)) _ h₄ in
      let (_, h₆) = then-eq-ok (guard (walk.head_targets == 1) invalid_pull_envelope) _ h₅ in
      let (t, h₇) =
        then-eq-ok
          (guard (last_target walk.frames == v2_commit_identity m'.head) invalid_pull_envelope) _
          h₆ in
      let (_, h₈) = then-eq-ok (check_frames walk.commits walk.frames) _ h₇ in
      let last =
        (identity_beq_iff (last_target walk.frames) (v2_commit_identity m'.head)).0
          (guard-eq-ok _ invalid_pull_envelope t) in
      let (v, reads, whole, k, ends) =
        from_walk m m' packs walk (take n body) (drop n body) u r last (cc h₈) (cc h₈) in
      (walk.frames, n, v, reads, whole, k, ends)
