-- ===== src/Store/Lowest.antt =====
-- The choice of the lowest common ancestor.
use spool_rack.Prelude.{
  ℕ, Bytes, true, false, ◌⊎◌, IsNodup, eq_self, bytes_ltb_self, ap, Option, none, some, [], ◌∷◌,
  ◌≡◌, refl, sym, subst, ◌∙◌, inl, inr, bytes_eq, contains, lookup, arith, bytes_beq_iff, All,
  Option-cases, Bool-cases,
}
use spool_rack.Fault.{Result, ok, err}
use spool_rack.Store.Tables.{Rows}
use spool_rack.Store.AncestryReach.{Ancestor}
use spool_rack.Store.CommonAncestor.{
  Depths, commits_of, Best, candidate, is_better, consider, lowest, ancestor_of, with_histories,
  collect_merge_ancestry, find_lowest_common_ancestor,
}
use spool_rack.Store.CommonSound.{
  NoBetter, AtMost, collected-IsNodup, consider-NoBetter, collected_ancestors,
}

-- No entry of the source's history that is in the target's is lower.
abbrev pub IsLowest : Depths → Depths → Best → Type 0
IsLowest source target best =
    All
      (λ (id, depth).
        (other : ℕ) → lookup id target ≡ some other → NoBetter best (candidate id depth other))
      source

lowest-IsLowest :
    (source target : Depths) (before : Option Best) (best : Best)
    → lowest source target before ≡ some best
    → AtMost before best × IsLowest source target best
unfolding lowest
lowest-IsLowest [] target none best h = (tt, tt)
lowest-IsLowest [] target (some before) best h =
    let is : before ≡ best = cc h in
    let id_is : before.id ≡ best.id = ap (λ b. b.id) is in
    ((ground (arith, is), ground (arith, is), λ _ _. rw id_is (bytes_ltb_self best.id)), tt)
lowest-IsLowest ((id, depth) ∷ others) target before best h =
    elim (Option-cases (lookup id target)) [
      | inl absent ↦
          let (least, rest) = lowest-IsLowest others target before best (rw absent at h) in
          (least, (λ other k. cc (sym absent ∙ k), rest))
      | inr (far, found) ↦
          let (least, rest) =
            lowest-IsLowest others target (consider id depth (some far) before) best
              (rw found at h) in
          let (no_better, earlier) = consider-NoBetter id depth far before best least in
          (
            earlier,
            (
              λ other k.
                  subst (λ x. NoBetter best (candidate id depth x)) (same far other (sym found ∙ k))
                    no_better,
              rest,
            ),
          )
    ]
  where
    same : (a b : ℕ) → some a ≡ some b → a ≡ b
    same a b h = cc

contains-commits_of :
    (id : Bytes) (depth : ℕ) (history : Depths)
    → lookup id history ≡ some depth
    → contains (commits_of history) id ≡ true
unfolding lookup contains
contains-commits_of id depth [] h = cc h
contains-commits_of id depth ((first, d) ∷ history) h =
    ground (arith, contains-commits_of id depth history, bytes_beq_iff first id)

-- The best has the depths at which the two histories list its commit.
abbrev IsEntry : Depths → Depths → Best → Type 0
IsEntry source target best =
    (near far : ℕ) × (lookup best.id source ≡ some near)
    × (lookup best.id target ≡ some far)
    × (best ≡ candidate best.id near far)

IsEntry-cons :
    (id : Bytes) (depth : ℕ) (source target : Depths) (best : Best)
    → contains (commits_of source) id ≡ false
    → IsEntry source target best
    → IsEntry ((id, depth) ∷ source) target best
unfolding lookup
IsEntry-cons id depth source target best fresh (near, far, there, found, is) = (
  near,
  far,
  ground (
    arith,
    there,
    fresh,
    bytes_beq_iff id best.id,
    contains-commits_of best.id near source there,
  ),
  found,
  is,
)

lowest-IsEntry :
    (source target : Depths) (before : Option Best) (best : Best)
    → IsNodup (commits_of source)
    → lowest source target before ≡ some best
    → (before ≡ some best) ⊎ IsEntry source target best
unfolding lowest
lowest-IsEntry [] target before best once h = inl h
lowest-IsEntry ((id, depth) ∷ others) target before best (fresh, once) h =
    elim (lowest-IsEntry others target (consider id depth (lookup id target) before) best once h) [
      | inr later ↦ inr (IsEntry-cons id depth others target best fresh later)
      | inl now ↦ considered (lookup id target) before refl now
    ]
  where
    taken :
        (far : ℕ)
        → lookup id target ≡ some far
        → candidate id depth far ≡ best
        → IsEntry ((id, depth) ∷ others) target best
    taken far found is =
        subst (IsEntry ((id, depth) ∷ others) target) is
          (depth, far, unfold lookup in rw (eq_self id) refl, found, refl)

    considered :
        (other : Option ℕ) (before : Option Best)
        → lookup id target ≡ other
        → consider id depth other before ≡ some best
        → (before ≡ some best) ⊎ IsEntry ((id, depth) ∷ others) target best
    considered none before e k = inl k
    considered (some far) none e k = inr (taken far e (cc k))
    considered (some far) (some held) e k =
        elim (Bool-cases (is_better (candidate id depth far) held)) [
          | inl better ↦ inr (taken far e (cc (rw better at k)))
          | inr worse ↦ inl (rw worse at k)
        ]

ancestor_of-eq-ok :
    (found : Option Best) (id : Bytes)
    → ancestor_of found ≡ ok id
    → (best : Best) × (found ≡ some best) × (best.id ≡ id)
ancestor_of-eq-ok none id h = cc h
ancestor_of-eq-ok (some best) id h = (best, refl, ground arith)

histories-eq-ok :
    (source target : Option (Result Depths)) (id : Bytes)
    → with_histories source target ≡ some (ok id)
    → (s t : Depths) × (best : Best) × (source ≡ some (ok s))
      × (target ≡ some (ok t))
      × (lowest s t none ≡ some best)
      × (best.id ≡ id)
histories-eq-ok none target id h = cc h
histories-eq-ok (some (err e)) target id h = cc h
histories-eq-ok (some (ok s)) none id h = cc h
histories-eq-ok (some (ok s)) (some (err e)) id h = cc h
histories-eq-ok (some (ok s)) (some (ok t)) id h =
    let (best, found, is) = ancestor_of-eq-ok (lowest s t none) id (cc h) in
    (s, t, best, refl, refl, found, is)

module _ (limit : ℕ) (rows : Rows) where
  -- If `FindLowestCommonAncestor` returns a commit, it is an ancestor of both commits, and both
  -- collected histories list it, at two depths. No commit that both list has a smaller sum of depths;
  -- nor the same sum and a smaller maximum; nor the same sum, the same maximum and an earlier id.
  pub find_lowest_common_ancestor_sound :
      (source target id : Bytes)
      → find_lowest_common_ancestor limit rows source target ≡ some (ok id)
      → Ancestor rows source id
        × Ancestor rows target id
        × ((s t : Depths) × (near far : ℕ) × (collect_merge_ancestry limit rows source
              ≡ some (ok s))
            × (collect_merge_ancestry limit rows target ≡ some (ok t))
            × (lookup id s ≡ some near)
            × (lookup id t ≡ some far)
            × IsLowest s t (candidate id near far))
  unfolding find_lowest_common_ancestor
  find_lowest_common_ancestor_sound source target id h =
      let (s, t, best, s_is, t_is, found, is) = histories-eq-ok _ _ id h in
      let (near, far, in_s, in_t, same) =
        entry s t best found
          (lowest-IsEntry s t none best (collected-IsNodup limit rows source s s_is) found) in
      let (_, least) = lowest-IsLowest s t none best found in
      (
        subst (Ancestor rows source) is (
            collected_ancestors limit rows source s s_is best.id
              (contains-commits_of _ near s in_s)),
        subst (Ancestor rows target) is (
            collected_ancestors limit rows target t t_is best.id
              (contains-commits_of _ far t in_t)),
        (
          s,
          t,
          near,
          far,
          s_is,
          t_is,
          subst (λ x. lookup x s ≡ some near) is in_s,
          subst (λ x. lookup x t ≡ some far) is in_t,
          subst (λ x. IsLowest s t (candidate x near far)) is (subst (IsLowest s t) same least),
        ),
      )
    where
      entry :
          (s t : Depths) (best : Best)
          → lowest s t none ≡ some best
          → ((◌≡◌ {A = Option Best} none (some best)) ⊎ IsEntry s t best)
          → IsEntry s t best
      entry s t best found (inl h) = cc h
      entry s t best found (inr is) = is
