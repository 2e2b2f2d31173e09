-- ===== src/Retention/Sets.antt =====
-- What the loops over the roots put into the sets of commits and objects.
use spool_rack.Prelude.{
  Bytes, is_empty, true, false, Option, none, some, List, [], ◌∷◌, ◌++◌, ◌≡◌, ◌⊎◌, ◌↔◌, inl, inr,
  refl, Any, Any-append_left, Any-append_right, Any-append-cases, bytes_eq, bytes_beq_iff, contains,
  lookup, arith, if◌then◌else◌, Bool-cases,
}
use spool_rack.Fault.{Result, ok, err, bind-eq-ok, commit_not_found}
use spool_rack.Retention.Defs.{
  BranchRef, Root, extend, add_commit_root, add_branches, add_roots, or_none, rooted_packs,
}

pub contains-Any : (xs : List Bytes) (c : Bytes) → (contains xs c ≡ true) ↔ Any (λ x. x ≡ c) xs
unfolding contains
contains-Any [] c = (λ h. absurd (cc h), λ h. absurd h)
contains-Any (x ∷ xs) c = ground (arith, bytes_beq_iff x c, contains-Any xs c)

-- What a loop has gathered after one round and after the rest.
sum_step : {A B C D E : Type 0} → B ↔ (A ⊎ C) → D ↔ (B ⊎ E) → D ↔ (A ⊎ (C ⊎ E))
sum_step {A} {B} {C} {D} {E} p q = (there, back)
  where
    first : B ⊎ E → A ⊎ (C ⊎ E)
    first (inr e) = inr (inr e)
    first (inl b) = elim (p.0 b) [ inl a ↦ inl a | inr c ↦ inr (inl c) ]

    there : D → A ⊎ (C ⊎ E)
    there d = first (q.0 d)

    back : A ⊎ (C ⊎ E) → D
    back (inl a) = q.1 (inl (p.1 (inl a)))
    back (inr (inl c)) = q.1 (inl (p.1 (inr c)))
    back (inr (inr e)) = q.1 (inr e)

-- A loop with no rounds.
sum_none {ℓ} : {X : Type ℓ} (F : X → Type 0) {x y : X} → x ≡ y → F y ↔ (F x ⊎ ⊥)
sum_none F {x} {y} e = rw (← e) ((λ k. inl k), back)
  where
    back : F x ⊎ ⊥ → F x
    back (inl k) = k
    back (inr k) = absurd k

module _ (ancestry : Bytes → Result (List Bytes)) (Q : Bytes → Type 0) where
  -- The root, if it is not empty, or a commit of its ancestry has the property.
  abbrev pub Covers : Bytes → Type 0
  Covers root =
      (is_empty root ≡ false)
      × (Q root ⊎ ((ids : List Bytes) × (ancestry root ≡ ok ids) × Any Q ids))

  extend_iff :
      (set set' : List Bytes) (root : Bytes) (r : Result (List Bytes))
      → ancestry root ≡ r
      → is_empty root ≡ false
      → extend set root r ≡ ok set'
      → Any Q set' ↔ (Any Q set ⊎ Covers root)
  extend_iff set set' root (ok ids) a n h =
      let e : ids ++ root ∷ set ≡ set' = cc h in rw (← e) (there, back)
    where
      there : Any Q (ids ++ root ∷ set) → Any Q set ⊎ Covers root
      there k = elim (Any-append-cases Q ids (root ∷ set) k) [
        | inl k ↦ inr (n, inr (ids, a, k))
        | inr (inl k) ↦ inr (n, inl k)
        | inr (inr k) ↦ inl k
      ]

      back : Any Q set ⊎ Covers root → Any Q (ids ++ root ∷ set)
      back (inl k) = Any-append_right Q ids (root ∷ set) (inr k)
      back (inr (_, inl k)) = Any-append_right Q ids (root ∷ set) (inl k)
      back (inr (_, inr (ids', a', k))) =
          let e : ids' ≡ ids = cc (a, a') in Any-append_left Q ids (root ∷ set) (rw e at k)
  extend_iff set set' root (err commit_not_found) a n h =
      let e : root ∷ set ≡ set' = cc h in rw (← e) (there, back)
    where
      there : Any Q (root ∷ set) → Any Q set ⊎ Covers root
      there (inl k) = inr (n, inl k)
      there (inr k) = inl k

      back : Any Q set ⊎ Covers root → Any Q (root ∷ set)
      back (inl k) = inr k
      back (inr (_, inl k)) = inl k
      back (inr (_, inr (ids', a', k))) = cc (a, a')
  extend_iff set set' root (err _) a n h = cc h

  pub add_commit_root_iff :
      (set set' : List Bytes) (root : Bytes)
      → add_commit_root ancestry set root ≡ ok set'
      → Any Q set' ↔ (Any Q set ⊎ Covers root)
  unfolding add_commit_root
  add_commit_root_iff set set' [] h = let e : set ≡ set' = cc h in rw (← e) ((λ k. inl k), back)
    where
      back : Any Q set ⊎ Covers [] → Any Q set
      back (inl k) = k
      back (inr k) = cc k.0
  add_commit_root_iff set set' (b ∷ root) h =
      extend_iff set set' (b ∷ root) (ancestry (b ∷ root)) refl refl h

  pub add_branches_iff :
      (set set' : List Bytes) (bs : List BranchRef)
      → add_branches ancestry set bs ≡ ok set'
      → Any Q set' ↔ (Any Q set ⊎ Any (λ b. Covers b.head_commit_id) bs)
  unfolding add_branches
  add_branches_iff set set' [] h = sum_none (Any Q) (cc h)
  add_branches_iff set set' (b ∷ bs) h =
      let (mid, e, k) = bind-eq-ok (add_commit_root ancestry set b.head_commit_id) _ h in
      sum_step (add_commit_root_iff set mid b.head_commit_id e) (add_branches_iff mid set' bs k)

  pub add_roots_iff :
      (set objects set' objects' : List Bytes) (rs : List Root)
      → add_roots ancestry set objects rs ≡ ok (set', objects')
      → Any Q set' ↔ (Any Q set ⊎ Any (λ r. Covers r.commit_id) rs)
  unfolding add_roots
  add_roots_iff set objects set' objects' [] h = sum_none (Any Q) (ground arith)
  add_roots_iff set objects set' objects' (r ∷ rs) h =
      let (mid, e, k) = bind-eq-ok (add_commit_root ancestry set r.commit_id) _ h in
      sum_step (add_commit_root_iff set mid r.commit_id e) (
        add_roots_iff mid (if is_empty r.object_id then objects else r.object_id ∷ objects) set'
          objects' rs k)

  -- A root that names an object with the property.
  abbrev pub RootsObject : Root → Type 0
  RootsObject r = (is_empty r.object_id ≡ false) × Q r.object_id

  add_object_iff :
      (objects : List Bytes) (r : Root)
      → Any Q (if is_empty r.object_id then objects else r.object_id ∷ objects)
        ↔ (Any Q objects ⊎ RootsObject r)
  add_object_iff objects r = elim (Bool-cases (is_empty r.object_id)) [
    | inl e ↦ rw e ((λ k. inl k), empty)
    | inr e ↦ rw e (there, back)
  ]
    where
      empty : Any Q objects ⊎ ((true ≡ false) × Q r.object_id) → Any Q objects
      empty (inl k) = k
      empty (inr k) = cc k.0

      there : Any Q (r.object_id ∷ objects) → Any Q objects ⊎ ((false ≡ false) × Q r.object_id)
      there (inl k) = inr (refl, k)
      there (inr k) = inl k

      back : Any Q objects ⊎ ((false ≡ false) × Q r.object_id) → Any Q (r.object_id ∷ objects)
      back (inl k) = inr k
      back (inr k) = inl k.1

  pub add_roots-objects_iff :
      (set objects set' objects' : List Bytes) (rs : List Root)
      → add_roots ancestry set objects rs ≡ ok (set', objects')
      → Any Q objects' ↔ (Any Q objects ⊎ Any RootsObject rs)
  unfolding add_roots
  add_roots-objects_iff set objects set' objects' [] h = sum_none (Any Q) (ground arith)
  add_roots-objects_iff set objects set' objects' (r ∷ rs) h =
      let (mid, e, k) = bind-eq-ok (add_commit_root ancestry set r.commit_id) _ h in
      sum_step (add_object_iff objects r) (
        add_roots-objects_iff mid (if is_empty r.object_id then objects else r.object_id ∷ objects)
          set' objects' rs k)

or_none_iff :
    (o : Option Bytes) (p : Bytes) (packs : List Bytes) {B : Type 0}
    → Any (λ x. x ≡ p) packs ↔ B
    → Any (λ x. x ≡ p) (or_none o packs) ↔ ((o ≡ some p) ⊎ B)
or_none_iff none p packs {B} ih = ((λ h. inr (ih.0 h)), back)
  where
    back : (none ≡ some p) ⊎ B → Any (λ x. x ≡ p) packs
    back (inl k) = cc k
    back (inr k) = ih.1 k
or_none_iff (some q) p packs {B} ih = (there, back)
  where
    there : Any (λ x. x ≡ p) (q ∷ packs) → (some q ≡ some p) ⊎ B
    there (inl k) = inl (cc k)
    there (inr k) = inr (ih.0 k)

    back : (some q ≡ some p) ⊎ B → Any (λ x. x ≡ p) (q ∷ packs)
    back (inl k) = inl (cc k)
    back (inr k) = inr (ih.1 k)

pub rooted_packs_iff :
    (m : List (Bytes × Bytes)) (objects : List Bytes) (p : Bytes)
    → Any (λ x. x ≡ p) (rooted_packs m objects) ↔ Any (λ o. lookup o m ≡ some p) objects
unfolding rooted_packs
rooted_packs_iff m [] p = ((λ h. h), (λ h. h))
rooted_packs_iff m (o ∷ objects) p =
    or_none_iff (lookup o m) p (rooted_packs m objects) (rooted_packs_iff m objects p)
