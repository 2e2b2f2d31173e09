-- ===== src/Retention/Reach.antt =====
-- Which packs a collection keeps: those that a branch head, an active transaction or an audit
-- record reaches.
use spool_rack.Prelude.{
  Bytes, is_empty, true, false, some, List, [], ◌≡◌, ◌⊎◌, ◌↔◌, inl, inr, Any, bytes_eq, contains,
  lookup, arith, subst,
}
use spool_rack.Fault.{Result, ok, ◌>>=◌, bind-eq-ok, Result-cases}
use spool_rack.Retention.Defs.{
  BranchRef, Root, NativePack, Answers, Reached, add_branches, add_roots, rooted_packs, reach,
  is_retained,
}
use spool_rack.Retention.Sets.{
  contains-Any, Covers, RootsObject, add_branches_iff, add_roots_iff, add_roots-objects_iff,
  rooted_packs_iff,
}

-- The three kinds of roots, as the store answered.
pub record Roots (a : Answers) : Type 0 where
  pub branches : List BranchRef
  pub transactions : List Root
  pub audit_records : List Root
  pub objects : List (Bytes × Bytes)
  pub branches_are : a.branches ≡ ok branches
  pub transactions_are : a.transactions ≡ ok transactions
  pub audit_records_are : a.audit_records ≡ ok audit_records
  pub objects_are : a.object_to_pack ≡ ok objects

-- A root names the commit or has it in its ancestry.
abbrev pub ReachesCommit : (a : Answers) → Roots a → Bytes → Type 0
ReachesCommit a s c =
    Any (λ b. Covers a.ancestry (λ x. x ≡ c) b.head_commit_id) s.branches
    ⊎ (Any (λ r. Covers a.ancestry (λ x. x ≡ c) r.commit_id) s.transactions
        ⊎ Any (λ r. Covers a.ancestry (λ x. x ≡ c) r.commit_id) s.audit_records)

-- A root names an object that the index places in the pack.
abbrev pub ReachesPack : (a : Answers) → Roots a → Bytes → Type 0
ReachesPack a s p =
    Any (RootsObject a.ancestry (λ o. lookup o s.objects ≡ some p)) s.transactions
    ⊎ Any (RootsObject a.ancestry (λ o. lookup o s.objects ≡ some p)) s.audit_records

gather : {A B C D E F : Type 0} → B ↔ (⊥ ⊎ A) → C ↔ (B ⊎ D) → E ↔ (C ⊎ F) → E ↔ (A ⊎ (D ⊎ F))
gather {A} {B} {C} {D} {E} {F} p q r = (there, back)
  where
    of_b : B → A
    of_b b = elim (p.0 b) [ inl x ↦ absurd x | inr a ↦ a ]

    of_c : C → A ⊎ (D ⊎ F)
    of_c c = elim (q.0 c) [ inl b ↦ inl (of_b b) | inr d ↦ inr (inl d) ]

    there : E → A ⊎ (D ⊎ F)
    there e = elim (r.0 e) [ inl c ↦ of_c c | inr f ↦ inr (inr f) ]

    back : A ⊎ (D ⊎ F) → E
    back (inl a) = r.1 (inl (q.1 (inl (p.1 (inr a)))))
    back (inr (inl d)) = r.1 (inl (q.1 (inr d)))
    back (inr (inr f)) = r.1 (inr f)

gather_two : {A B C D : Type 0} → B ↔ (⊥ ⊎ A) → C ↔ (B ⊎ D) → C ↔ (A ⊎ D)
gather_two {A} {B} {C} {D} p q = (there, back)
  where
    of_b : B → A
    of_b b = elim (p.0 b) [ inl x ↦ absurd x | inr a ↦ a ]

    there : C → A ⊎ D
    there c = elim (q.0 c) [ inl b ↦ inl (of_b b) | inr d ↦ inr d ]

    back : A ⊎ D → C
    back (inl a) = q.1 (inl (p.1 (inr a)))
    back (inr d) = q.1 (inr d)

pub iff_trans : {A B C : Type 0} → A ↔ B → B ↔ C → A ↔ C
iff_trans p q = ((λ a. q.0 (p.0 a)), (λ c. p.1 (q.1 c)))

closure :
    (a : Answers) (s : Roots a) (c₁ c₂ o₂ c₃ o₃ : List Bytes)
    → add_branches a.ancestry [] s.branches ≡ ok c₁
    → add_roots a.ancestry c₁ [] s.transactions ≡ ok (c₂, o₂)
    → add_roots a.ancestry c₂ o₂ s.audit_records ≡ ok (c₃, o₃)
    → ((c : Bytes) → (contains c₃ c ≡ true) ↔ ReachesCommit a s c)
      × ((p : Bytes) → (contains (rooted_packs s.objects o₃) p ≡ true) ↔ ReachesPack a s p)
closure a s c₁ c₂ o₂ c₃ o₃ h₁ h₂ h₃ = (commits, packs)
  where
    commits : (c : Bytes) → (contains c₃ c ≡ true) ↔ ReachesCommit a s c
    commits c = iff_trans (contains-Any c₃ c) (
        gather (add_branches_iff a.ancestry (λ x. x ≡ c) [] c₁ s.branches h₁)
          (add_roots_iff a.ancestry (λ x. x ≡ c) c₁ [] c₂ o₂ s.transactions h₂)
          (add_roots_iff a.ancestry (λ x. x ≡ c) c₂ o₂ c₃ o₃ s.audit_records h₃))

    packs : (p : Bytes) → (contains (rooted_packs s.objects o₃) p ≡ true) ↔ ReachesPack a s p
    packs p = iff_trans (contains-Any (rooted_packs s.objects o₃) p) (
        iff_trans (rooted_packs_iff s.objects o₃ p) (
          gather_two
            (add_roots-objects_iff a.ancestry (λ o. lookup o s.objects ≡ some p) c₁ [] c₂ o₂
              s.transactions h₂)
            (add_roots-objects_iff a.ancestry (λ o. lookup o s.objects ≡ some p) c₂ o₂ c₃ o₃
              s.audit_records h₃)))

-- The sets that the run builds are the closure of the roots.
abbrev pub IsClosure : Answers → Reached → Type 0
IsClosure a reached =
    (s : Roots a) × ((c : Bytes) → (contains reached.commits c ≡ true) ↔ ReachesCommit a s c)
    × ((p : Bytes) → (contains reached.pack_ids p ≡ true) ↔ ReachesPack a s p)

-- what follows the loop over the audit records
abbrev pub reached_of : Answers → List Bytes × List Bytes → Result Reached
reached_of a (c₃, o₃) = do
  m ← a.object_to_pack
  ok (record { commits = c₃; pack_ids = rooted_packs m o₃ })

from_objects :
    (a : Answers) (reached : Reached) (bs : List BranchRef) (ts rs : List Root)
    (c₁ c₂ o₂ c₃ o₃ : List Bytes)
    → a.branches ≡ ok bs
    → add_branches a.ancestry [] bs ≡ ok c₁
    → a.transactions ≡ ok ts
    → add_roots a.ancestry c₁ [] ts ≡ ok (c₂, o₂)
    → a.audit_records ≡ ok rs
    → add_roots a.ancestry c₂ o₂ rs ≡ ok (c₃, o₃)
    → reached_of a (c₃, o₃) ≡ ok reached
    → IsClosure a reached
from_objects a reached bs ts rs c₁ c₂ o₂ c₃ o₃ eb h₁ et h₂ er h₃ h =
    elim (Result-cases a.object_to_pack) [
      | inr (e, p) ↦ cc (rw p at h)
      | inl (m, p) ↦ at_map m p (rw p at h)
    ]
  where
    at_map :
        (m : List (Bytes × Bytes))
        → a.object_to_pack ≡ ok m
        → ok (record { commits = c₃; pack_ids = rooted_packs m o₃ }) ≡ ok reached
        → IsClosure a reached
    at_map m em q =
        let s : Roots a = record {
          branches = bs;
          transactions = ts;
          audit_records = rs;
          objects = m;
          branches_are = eb;
          transactions_are = et;
          audit_records_are = er;
          objects_are = em;
        } in
        let e : record { commits = c₃; pack_ids = rooted_packs m o₃ } ≡ reached = cc q in
        let (cs, ps) = closure a s c₁ c₂ o₂ c₃ o₃ h₁ h₂ h₃ in subst (IsClosure a) e (s, cs, ps)

-- A successful `reach` holds exactly the commits and packs that the roots reach.
pub reach-IsClosure : (a : Answers) (reached : Reached) → reach a ≡ ok reached → IsClosure a reached
unfolding reach
reach-IsClosure a reached h =
    let (bs, eb, k₁) = bind-eq-ok a.branches _ h in
    let (c₁, h₁, k₂) = bind-eq-ok (add_branches a.ancestry [] bs) _ k₁ in
    let (ts, et, k₃) = bind-eq-ok a.transactions _ k₂ in
    let ((c₂, o₂), h₂, k₄) = bind-eq-ok (add_roots a.ancestry c₁ [] ts) _ k₃ in
    let (rs, er, k₅) = bind-eq-ok a.audit_records _ k₄ in
    let ((c₃, o₃), h₃, k₆) = bind-eq-ok (add_roots a.ancestry c₂ o₂ rs) _ k₅ in
    from_objects a reached bs ts rs c₁ c₂ o₂ c₃ o₃ eb h₁ et h₂ er h₃ k₆

-- After a successful `reach`, a pack is retained exactly when its commit is reached by a root or an
-- object that a root names lies in it.
pub is_retained_iff :
    (a : Answers) (reached : Reached)
    → reach a ≡ ok reached
    → (s : Roots a) × ((pack : NativePack)
        → (is_retained reached pack ≡ true) ↔ (
            ((is_empty pack.commit_id ≡ false) × ReachesCommit a s pack.commit_id)
            ⊎ ReachesPack a s pack.pack_id))
unfolding is_retained
is_retained_iff a reached h =
    let (s, c, p) = reach-IsClosure a reached h in
    (s, λ pack. retained pack (c pack.commit_id) (p pack.pack_id))
  where
    retained :
        {C P : Type 0} (pack : NativePack)
        → (contains reached.commits pack.commit_id ≡ true) ↔ C
        → (contains reached.pack_ids pack.pack_id ≡ true) ↔ P
        → (is_retained reached pack ≡ true) ↔ (((is_empty pack.commit_id ≡ false) × C) ⊎ P)
    retained pack c p = ground (arith, c, p)
