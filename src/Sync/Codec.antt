-- ===== src/Sync/Codec.antt =====
-- Unmarshal of pack frames reads what marshal writes.
use spool_rack.Prelude.{
  ◌≤◌, Bytes, true, some, length, ◌≡◌, ◌↔◌, ◌==◌, bytes_eq, bytes_beq_iff, leb, leb→le, eq_self,
}
use spool_rack.Fault.{
  Result, Done, ok, from_option, guard, bind-eq-ok, then-eq-ok, guard-eq-ok, from_option-eq-ok,
  invalid_frame, invalid_canonical_frame,
}
use spool_rack.Sync.Contract.{PackFrame, Contract}
use spool_rack.Sync.Frame.{
  max_v2_pack_bytes, marshal_with, unmarshal_with, validate_v2, validate_v3, marshal_v2,
  unmarshal_v2, marshal_v3, unmarshal_v3,
}

module _ (g : Contract) where
  unmarshal_marshals :
      (marshal : PackFrame → Result Bytes) (d : Bytes) (f : PackFrame)
      → unmarshal_with g marshal d ≡ ok f
      → (g.decode_frame d ≡ some f) × (marshal f ≡ ok d)
  unmarshal_marshals marshal d f h =
      let (_, h₁) =
        then-eq-ok (guard (leb (length d) max_v2_pack_bytes) invalid_canonical_frame) _ h in
      let (f', read, h₂) =
        bind-eq-ok (from_option invalid_canonical_frame (g.decode_frame d)) _ h₁ in
      let (c, m, h₃) = bind-eq-ok (marshal f') _ h₂ in
      let (same, h₄) = then-eq-ok (guard (d == c) invalid_canonical_frame) _ h₃ in
      let e : d ≡ c = (bytes_beq_iff d c).0 (guard-eq-ok (d == c) invalid_canonical_frame same) in
      let e' : f' ≡ f = cc h₄ in
      (rw (← e') (from_option-eq-ok invalid_canonical_frame _ read), rw (← e') (rw e m))

  -- A successful marshal has validated the frame, and its bytes are within the limit.
  pub marshal_with-eq-ok :
      (validate : PackFrame → Done) (f : PackFrame) (d : Bytes)
      → marshal_with g validate f ≡ ok d
      → (validate f ≡ ok tt)
        × (g.encode_frame f ≡ some d)
        × (leb (length d) max_v2_pack_bytes ≡ true)
  marshal_with-eq-ok validate f d h =
      let (v, h₁) = then-eq-ok (validate f) _ h in
      let (d', e, h₂) = bind-eq-ok (from_option invalid_frame (g.encode_frame f)) _ h₁ in
      let (s, h₃) = then-eq-ok (guard (leb (length d') max_v2_pack_bytes) invalid_frame) _ h₂ in
      let same : d' ≡ d = cc h₃ in
      (
        v,
        rw (← same) (from_option-eq-ok invalid_frame _ e),
        rw (← same) (guard-eq-ok _ invalid_frame s),
      )

  marshal_unmarshals :
      (validate : PackFrame → Done) (d : Bytes) (f : PackFrame)
      → g.decode_frame d ≡ some f
      → marshal_with g validate f ≡ ok d
      → unmarshal_with g (marshal_with g validate) d ≡ ok f
  marshal_unmarshals validate d f read h =
      let (v, e, s) = marshal_with-eq-ok validate f d h in rw (s, read, v, e, s, eq_self d)

  written_once : (written : Result Bytes) (a b : Bytes) → written ≡ ok a → written ≡ ok b → a ≡ b
  written_once written a b h k = cc

  -- Bytes are read as a version 2 frame exactly if the decoder gives that frame for them and marshal
  -- writes them for it. No codec is assumed; and as marshal is a function, only one byte string is
  -- read as a given frame.
  pub unmarshal_v2_iff :
      (d : Bytes) (f : PackFrame)
      → ((unmarshal_v2 g d ≡ ok f) ↔ ((g.decode_frame d ≡ some f) × (marshal_v2 g f ≡ ok d)))
        × ((other : Bytes) → unmarshal_v2 g d ≡ ok f → unmarshal_v2 g other ≡ ok f → d ≡ other)
  unfolding unmarshal_v2 marshal_v2
  unmarshal_v2_iff d f = (
    (
      unmarshal_marshals (marshal_with g (validate_v2 g)) d f,
      λ h. marshal_unmarshals (validate_v2 g) d f h.0 h.1,
    ),
    λ other h k.
        written_once (marshal_with g (validate_v2 g) f) d other
          (unmarshal_marshals (marshal_with g (validate_v2 g)) d f h).1
          (unmarshal_marshals (marshal_with g (validate_v2 g)) other f k).1,
  )

  -- Bytes are read as a version 3 frame exactly if the decoder gives that frame for them and marshal
  -- writes them for it. No codec is assumed; and as marshal is a function, only one byte string is
  -- read as a given frame.
  pub unmarshal_v3_iff :
      (d : Bytes) (f : PackFrame)
      → ((unmarshal_v3 g d ≡ ok f) ↔ ((g.decode_frame d ≡ some f) × (marshal_v3 g f ≡ ok d)))
        × ((other : Bytes) → unmarshal_v3 g d ≡ ok f → unmarshal_v3 g other ≡ ok f → d ≡ other)
  unfolding unmarshal_v3 marshal_v3
  unmarshal_v3_iff d f = (
    (
      unmarshal_marshals (marshal_with g (validate_v3 g)) d f,
      λ h. marshal_unmarshals (validate_v3 g) d f h.0 h.1,
    ),
    λ other h k.
        written_once (marshal_with g (validate_v3 g) f) d other
          (unmarshal_marshals (marshal_with g (validate_v3 g)) d f h).1
          (unmarshal_marshals (marshal_with g (validate_v3 g)) other f k).1,
  )

  -- Whatever the bytes, a version 2 frame that is read passed its validation and fits the limit; nothing is
  -- assumed of the codec.
  pub unmarshal_v2_sound :
      (d : Bytes) (f : PackFrame)
      → unmarshal_v2 g d ≡ ok f
      → (validate_v2 g f ≡ ok tt) × (length d ≤ max_v2_pack_bytes)
  unfolding unmarshal_v2 marshal_v2
  unmarshal_v2_sound d f h =
      let (v, _, s) =
        marshal_with-eq-ok (validate_v2 g) f d
          (unmarshal_marshals (marshal_with g (validate_v2 g)) d f h).1 in
      (v, leb→le (length d) max_v2_pack_bytes s)

  -- Whatever the bytes, a version 3 frame that is read passed its validation and fits the limit;
  -- nothing is assumed of the codec.
  pub unmarshal_v3_sound :
      (d : Bytes) (f : PackFrame)
      → unmarshal_v3 g d ≡ ok f
      → (validate_v3 g f ≡ ok tt) × (length d ≤ max_v2_pack_bytes)
  unfolding unmarshal_v3 marshal_v3
  unmarshal_v3_sound d f h =
      let (v, _, s) =
        marshal_with-eq-ok (validate_v3 g) f d
          (unmarshal_marshals (marshal_with g (validate_v3 g)) d f h).1 in
      (v, leb→le (length d) max_v2_pack_bytes s)
