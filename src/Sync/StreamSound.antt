-- ===== src/Sync/StreamSound.antt =====
-- What is streamed, and what a chain of pack ranges is.
use spool_rack.Prelude.{
  Bytes, is_empty, false, ◌&&◌, List, [], ◌∷◌, ◌++◌, length, ◌≡◌, ◌↔◌, ap, ◌∙◌, ◌==◌, bytes_eq,
  bytes_beq_iff, nat_beq, nat_beq_iff, arith,
}
use spool_rack.Fault.{Result, ok, guard, bind-eq-ok, then-eq-ok, guard-eq-ok, invalid_pull_envelope}
use spool_rack.Sync.Contract.{PullPack, PullManifest, Contract}
use spool_rack.Sync.ContentId.{content_id}
use spool_rack.Sync.Envelope.{marshal_pull_manifest}
use spool_rack.Sync.EnvelopeSound.{joined}
use spool_rack.Sync.Stream.{
  PackRange, PullPlan, follow_ranges, validate_pack_chain, pull_manifest_matches_plan, stream_packs,
  pull_header_of, stream_pull_with_manifest,
}

-- The ranges lead from the head back to the known commit, each from the base of the one before it.
abbrev pub IsChain : Bytes → List PackRange → Bytes → Type 0
IsChain head [] known_commit = head ≡ known_commit
IsChain head (range ∷ ranges) known_commit =
    (range.target_commit_id ≡ head) × IsChain range.base_commit_id ranges known_commit

follow_ranges_iff :
    (head : Bytes) (ranges : List PackRange) (known_commit : Bytes)
    → (follow_ranges head ranges known_commit ≡ ok tt) ↔ IsChain head ranges known_commit
unfolding follow_ranges
follow_ranges_iff head [] known = ground (arith, bytes_beq_iff head known)
follow_ranges_iff head (range ∷ ranges) known = ground (
  arith,
  bytes_beq_iff range.target_commit_id head,
  follow_ranges_iff range.base_commit_id ranges known,
)

-- A chain of pack ranges is accepted exactly if it is not empty and leads from the head, each range
-- from the base of the one before it, to the known commit.
pub validate_pack_chain_iff :
    (ranges : List PackRange) (head known_commit : Bytes)
    → (validate_pack_chain ranges head known_commit ≡ ok tt)
      ↔ ((is_empty ranges ≡ false) × IsChain head ranges known_commit)
unfolding validate_pack_chain
validate_pack_chain_iff ranges head known = ground (arith, follow_ranges_iff head ranges known)

module _ (g : Contract) (open_pack : Bytes → Result Bytes) where
  -- Each pack has the size and the hash that the manifest lists, in order.
  abbrev pub AreListed : List PullPack → List Bytes → Type 0
  AreListed [] [] = Unit
  AreListed (listed ∷ packs) (pack ∷ rest) =
      (length pack ≡ listed.size) × (content_id g pack ≡ listed.hash) × AreListed packs rest
  AreListed _ _ = ⊥

  stream_packs-AreListed :
      (packs : List PullPack) (ranges : List PackRange) (out : Bytes)
      → length packs ≡ length ranges
      → stream_packs g open_pack packs ranges ≡ ok out
      → (streamed : List Bytes) × AreListed packs streamed × (joined streamed ≡ out)
  unfolding stream_packs
  stream_packs-AreListed [] [] out n h = ([], tt, cc h)
  stream_packs-AreListed [] (range ∷ ranges) out n h = ([], tt, cc h)
  stream_packs-AreListed (listed ∷ packs) [] out n h = absurd (omega (arith, n))
  stream_packs-AreListed (listed ∷ packs) (range ∷ ranges) out n h =
      let (pack, _, h₁) = bind-eq-ok (open_pack range.pack_hash) _ h in
      let (checked, h₂) =
        then-eq-ok
          (guard (nat_beq (length pack) listed.size && content_id g pack == listed.hash)
            invalid_pull_envelope)
          _ h₁ in
      let (rest, r, h₃) = bind-eq-ok (stream_packs g open_pack packs ranges) _ h₂ in
      let (streamed, tail, whole) = stream_packs-AreListed packs ranges rest (omega (arith, n)) r in
      let e : pack ++ rest ≡ out = cc h₃ in
      let both = guard-eq-ok _ invalid_pull_envelope checked in
      (
        pack ∷ streamed,
        (
          ground (arith, both, nat_beq_iff (length pack) listed.size),
          ground (arith, both, bytes_beq_iff (content_id g pack) listed.hash),
          tail,
        ),
        ap (λ s. pack ++ s) whole ∙ e,
      )

  -- A stream that ends without an error is the header, the encoded manifest and the packs that the
  -- manifest lists, in order, each of its size and with its hash.
  pub stream_pull_with_manifest_sound :
      (plan : PullPlan) (m : PullManifest) (out : Bytes)
      → stream_pull_with_manifest g open_pack plan m ≡ ok out
      → (manifest_data : Bytes) × (packs : List Bytes) × (marshal_pull_manifest g m
          ≡ ok manifest_data)
        × AreListed m.packs packs
        × (pull_header_of manifest_data ++ (manifest_data ++ joined packs) ≡ out)
        × (m.head ≡ plan.head)
  unfolding stream_pull_with_manifest pull_manifest_matches_plan
  stream_pull_with_manifest_sound plan m out h =
      let (matches, h₁) = then-eq-ok (pull_manifest_matches_plan g m plan) _ h in
      let (d, e, h₂) = bind-eq-ok (marshal_pull_manifest g m) _ h₁ in
      let (body, s, h₃) = bind-eq-ok (stream_packs g open_pack m.packs plan.ranges) _ h₂ in
      let (_, _, m₁) = bind-eq-ok (marshal_pull_manifest g m) _ matches in
      let (same, _) =
        then-eq-ok
          (guard (m.head == plan.head && nat_beq (length m.packs) (length plan.ranges))
            invalid_pull_envelope)
          _ m₁ in
      let both = guard-eq-ok _ invalid_pull_envelope same in
      let n : length m.packs ≡ length plan.ranges =
        ground (arith, both, nat_beq_iff (length m.packs) (length plan.ranges)) in
      let head : m.head ≡ plan.head = ground (arith, both, bytes_beq_iff m.head plan.head) in
      let (packs, listed, whole) = stream_packs-AreListed m.packs plan.ranges body n s in
      (d, packs, e, listed, ap (λ t. pull_header_of d ++ (d ++ t)) whole ∙ cc h₃, head)
