-- ===== src/Retention/Safety.antt =====
-- What a collection may delete, whatever the store and the driver answer.
use spool_rack.Prelude.{
  Bytes, Bool, true, false, ◌&&◌, List, [], ◌∷◌, ◌≡◌, ◌≢◌, ◌⊎◌, inl, inr, refl, bytes_beq_iff, All,
  All-append, Any, bytes_eq, contains, arith, Bool-cases,
}
use spool_rack.Fault.{Error, Done, ok, err, Result-cases}
use spool_rack.Retention.Defs.{
  NativePack, Answers, Action, delete_rows, delete_blob, Reached, is_retained, retained_of,
  candidates_of, Acting, is_new, blob_step, and_then, perform, hashes_of, sweep, survey, collect,
  Driver, can_delete_cas,
}

-- Every action of a step and of what follows it satisfies `P`.
All-and_then {ℓ κ} :
    {A : Type ℓ} {B : Type κ} (P : Action → Type 0) (m : Acting A) (f : A → Acting B)
    → All P m.1
    → ((a : A) → All P (f a).1)
    → All P (and_then m f).1
All-and_then P (ok a, did) f h k = All-append P did (f a).1 h (k a)
All-and_then P (err e, did) f h k = h

All-perform :
    (P : Action → Type 0) (dry_run : Bool) (x : Action) (ends : Done)
    → P x
    → All P (perform dry_run x ends).1
All-perform P true x ends h = tt
All-perform P false x ends h = (h, tt)

-- A row deletion names a candidate, and a blob deletion a hash that no retained pack has.
abbrev Allowed : List NativePack → List Bytes → Action → Type 0
Allowed candidates kept (delete_rows id) = Any (λ p. p.pack_id ≡ id) candidates
Allowed candidates kept (delete_blob hash) =
    (contains kept hash ≡ false) × Any (λ p. p.cas_pack_hash ≡ hash) candidates

Allowed-cons :
    (p : NativePack) (ps : List NativePack) (kept : List Bytes) (x : Action)
    → Allowed ps kept x
    → Allowed (p ∷ ps) kept x
Allowed-cons p ps kept (delete_rows id) h = inr h
Allowed-cons p ps kept (delete_blob hash) h = (h.0, inr h.1)

All-Allowed-cons :
    (p : NativePack) (ps : List NativePack) (kept : List Bytes) (xs : List Action)
    → All (Allowed ps kept) xs
    → All (Allowed (p ∷ ps) kept) xs
All-Allowed-cons p ps kept [] h = tt
All-Allowed-cons p ps kept (x ∷ xs) h =
    (Allowed-cons p ps kept x h.0, All-Allowed-cons p ps kept xs h.1)

All-blob_step :
    (P : Action → Type 0) (a : Answers) (dry_run wanted : Bool) (p : NativePack)
    → (wanted ≡ true → P (delete_blob p.cas_pack_hash))
    → All P (blob_step a dry_run wanted p).1
All-blob_step P a dry_run true p h = All-perform P dry_run _ _ (h refl)
All-blob_step P a dry_run false p h = tt

new_not_kept :
    (kept handled : List Bytes) (p : NativePack) (can : Bool)
    → (is_new kept handled p && can) ≡ true
    → contains kept p.cas_pack_hash ≡ false
new_not_kept kept handled p can h = ground arith

module _ (a : Answers) (dry_run can_delete : Bool) (kept : List Bytes) where
  sweep-Allowed :
      (ps : List NativePack) (handled : List Bytes)
      → All (Allowed ps kept) (sweep a dry_run can_delete kept handled ps).1
  unfolding sweep
  sweep-Allowed [] handled = tt
  sweep-Allowed (p ∷ ps) handled =
      let P = Allowed (p ∷ ps) kept in
      All-and_then P _ _ (All-perform P dry_run _ _ (inl refl)) λ _.
        All-and_then P _ _
          (All-blob_step P a dry_run _ p
            (λ w. (new_not_kept kept handled p can_delete w, inl refl)))
          λ _. All-and_then P _ _ (All-Allowed-cons p ps kept _ (sweep-Allowed ps _)) λ _. tt

-- The candidates are the listed packs that are not retained.
candidates-listed :
    (r : Reached) (packs : List NativePack) (P : NativePack → Type 0)
    → Any P (candidates_of r packs)
    → Any (λ p. (is_retained r p ≡ false) × P p) packs
unfolding candidates_of
candidates-listed r [] P h = absurd h
candidates-listed r (p ∷ ps) P h = elim (Bool-cases (is_retained r p)) [
  | inl e ↦ inr (candidates-listed r ps P (rw e at h))
  | inr e ↦ elim (listed (rw e at h)) [
    | inl k ↦ inl (e, k)
    | inr k ↦ inr (candidates-listed r ps P k)
  ]
]
  where
    listed : Any P (p ∷ candidates_of r ps) → P p ⊎ Any P (candidates_of r ps)
    listed k = k

retained-hashes :
    (r : Reached) (packs : List NativePack) (hash : Bytes)
    → contains (hashes_of (retained_of r packs)) hash ≡ false
    → All (λ p. is_retained r p ≡ true → p.cas_pack_hash ≢ hash) packs
unfolding retained_of contains
retained-hashes r [] hash h = tt
retained-hashes r (p ∷ ps) hash h = elim (Bool-cases (is_retained r p)) [
  | inl e ↦ let (n, k) = neither (rw e at h) in ((λ _. λ q. n q), retained-hashes r ps hash k)
  | inr e ↦ ((λ y. cc), retained-hashes r ps hash (rw e at h))
]
  where
    neither :
        contains (p.cas_pack_hash ∷ hashes_of (retained_of r ps)) hash ≡ false
        → (p.cas_pack_hash ≢ hash) × (contains (hashes_of (retained_of r ps)) hash ≡ false)
    neither k = ground (arith, bytes_beq_iff p.cas_pack_hash hash)

-- What a deletion may touch: rows of a listed pack that nothing reaches, and a blob of such a pack
-- that no reachable pack shares.
abbrev pub Spares : Reached → List NativePack → Action → Type 0
Spares r packs (delete_rows id) = Any (λ p. (is_retained r p ≡ false) × (p.pack_id ≡ id)) packs
Spares r packs (delete_blob hash) =
    All (λ p. is_retained r p ≡ true → p.cas_pack_hash ≢ hash) packs
    × Any (λ p. (is_retained r p ≡ false) × (p.cas_pack_hash ≡ hash)) packs

Allowed-Spares :
    (r : Reached) (packs : List NativePack) (xs : List Action)
    → All (Allowed (candidates_of r packs) (hashes_of (retained_of r packs))) xs
    → All (Spares r packs) xs
Allowed-Spares r packs [] h = tt
Allowed-Spares r packs (delete_rows id ∷ xs) h =
    (candidates-listed r packs _ h.0, Allowed-Spares r packs xs h.1)
Allowed-Spares r packs (delete_blob hash ∷ xs) h = (
  (retained-hashes r packs hash h.0.0, candidates-listed r packs _ h.0.1),
  Allowed-Spares r packs xs h.1,
)

-- Whatever the store and the driver answer, and wherever the run stops: a call that deletes index
-- rows names a listed pack that no root reaches, and a call that deletes a blob names the hash of
-- such a pack which no reachable pack has. A run whose survey fails deletes nothing.
pub collect_safe :
    (a : Answers) (driver : Driver) (tenant_id repo_id : Bytes) (dry_run : Bool)
    → ((e : Error) × (survey a driver tenant_id repo_id ≡ err e)
        × ((collect a driver tenant_id repo_id dry_run).1 ≡ []))
      ⊎ ((r : Reached) × (packs : List NativePack) × (survey a driver tenant_id repo_id
            ≡ ok (r, packs))
          × All (Spares r packs) (collect a driver tenant_id repo_id dry_run).1)
unfolding collect
collect_safe a driver t repo dry_run = elim (Result-cases (survey a driver t repo)) [
  | inr (e, p) ↦ inl (e, p, rw p)
  | inl ((r, packs), p) ↦ inr (
    r,
    packs,
    p,
    rw p (
        Allowed-Spares r packs _ (
          All-and_then _ _ _
            (sweep-Allowed a dry_run (can_delete_cas driver) _ (candidates_of r packs) [])
            λ _. tt)),
  )
]
