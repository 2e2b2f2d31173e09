-- ===== src/Prelude/Sort.antt =====
-- `sort.Slice` by a text key. The order of equal keys is not fixed by Go; where the server sorts,
-- the keys are distinct.
use spool_rack.Prelude.Tests.{if◌then◌else◌}
use spool_rack.Prelude.Text.{Bytes, bytes_ltb, bytes_eq, bytes_beq_iff, is_empty}
use mathlib.Core.Path.{◌≡◌, refl, ap, ◌∙◌}
use mathlib.Core.Bool.{false, ◌||◌}
use mathlib.Core.List.{List, [], ◌∷◌, Perm, map}
use mathlib.Core.List.Perm
use native.Mathlib.Omega.{arith}
use spool_rack.Prelude.Keys.{Eq, ◌==◌, contains, IsNodup}
use spool_rack.Prelude.Tests.{Bool-cases}
use spool_rack.Prelude.Lists.{Any}
use mathlib.Core.Logic.{inl, inr}

module _ {ℓ} {A : Type ℓ} (key : A → Bytes) where
  unfoldable pub insert_by : A → List A → List A
  insert_by a [] = a ∷ []
  insert_by a (x ∷ xs) = if bytes_ltb (key x) (key a) then x ∷ insert_by a xs else a ∷ x ∷ xs

  unfoldable pub sort_by : List A → List A
  sort_by [] = []
  sort_by (a ∷ xs) = insert_by a (sort_by xs)

  insert_by-perm : (a : A) (xs : List A) → Perm (insert_by a xs) (a ∷ xs)
  unfolding insert_by
  insert_by-perm a [] = Perm.refl (a ∷ [])
  insert_by-perm a (x ∷ xs) = elim (Bool-cases (bytes_ltb (key x) (key a))) [
    | inl e ↦ rw e (Perm.trans (Perm.cons x (insert_by-perm a xs)) (Perm.swap a x xs))
    | inr e ↦ rw e (Perm.refl (a ∷ x ∷ xs))
  ]

  -- Sorting rearranges.
  pub sort_by-perm : (xs : List A) → Perm (sort_by xs) xs
  unfolding sort_by
  sort_by-perm [] = Perm.refl []
  sort_by-perm (a ∷ xs) = Perm.trans (insert_by-perm a (sort_by xs)) (Perm.cons a (sort_by-perm xs))

  insert_by-Any : (P : A → Type 0) (a : A) (xs : List A) → Any P (a ∷ xs) → Any P (insert_by a xs)
  unfolding insert_by
  insert_by-Any P a [] h = h
  insert_by-Any P a (x ∷ xs) h = elim (Bool-cases (bytes_ltb (key x) (key a))) [
    | inl e ↦ rw e (elim h [
      | inl p ↦ inr (insert_by-Any P a xs (inl p))
      | inr (inl p) ↦ inl p
      | inr (inr p) ↦ inr (insert_by-Any P a xs (inr p))
    ])
    | inr e ↦ rw e h
  ]

  -- What some element has, some element has after sorting.
  pub sort_by-Any : (P : A → Type 0) (xs : List A) → Any P xs → Any P (sort_by xs)
  unfolding sort_by
  sort_by-Any P [] h = h
  sort_by-Any P (x ∷ xs) (inl p) = insert_by-Any P x (sort_by xs) (inl p)
  sort_by-Any P (x ∷ xs) (inr p) = insert_by-Any P x (sort_by xs) (inr (sort_by-Any P xs p))

  module _ ⦃e : Eq A⦄ where
    insert_by-contains :
        (a : A) (xs : List A) (x : A) → contains (insert_by a xs) x ≡ (a == x || contains xs x)
    unfolding insert_by contains
    insert_by-contains a [] x = refl
    insert_by-contains a (y ∷ xs) x = ground (arith, insert_by-contains a xs x)

    -- Sorting keeps what is in a list.
    pub sort_by-contains : (xs : List A) (x : A) → contains (sort_by xs) x ≡ contains xs x
    unfolding sort_by contains
    sort_by-contains [] x = refl
    sort_by-contains (a ∷ xs) x =
        ground (arith, insert_by-contains a (sort_by xs) x, sort_by-contains xs x)

  is_empty-insert_by : (a : A) (xs : List A) → is_empty (insert_by a xs) ≡ false
  unfolding insert_by
  is_empty-insert_by a [] = refl
  is_empty-insert_by a (x ∷ xs) = ground arith

  pub is_empty-sort_by : (xs : List A) → is_empty (sort_by xs) ≡ is_empty xs
  unfolding sort_by
  is_empty-sort_by [] = refl
  is_empty-sort_by (a ∷ xs) = is_empty-insert_by a (sort_by xs)

module _ {ℓ κ} {A : Type ℓ} {B : Type κ} (key : A → Bytes) (key' : B → Bytes) (f : A → B)
    (h : (a : A) → key' (f a) ≡ key a) where
  map-insert_by :
      (a : A) (xs : List A) → map f (insert_by key a xs) ≡ insert_by key' (f a) (map f xs)
  unfolding insert_by
  map-insert_by a [] = refl
  map-insert_by a (x ∷ xs) =
      rw (h x, h a)
        (elim (Bool-cases (bytes_ltb (key x) (key a))) [
          | inl e ↦ rw e (ap (◌∷◌ (f x)) (map-insert_by a xs))
          | inr e ↦ rw e refl
        ])

  -- A function that keeps the key commutes with sorting.
  pub map-sort_by : (xs : List A) → map f (sort_by key xs) ≡ sort_by key' (map f xs)
  unfolding sort_by
  map-sort_by [] = refl
  map-sort_by (a ∷ xs) =
      map-insert_by a (sort_by key xs) ∙ ap (insert_by key' (f a)) (map-sort_by xs)

IsNodup-insert_by :
    (t : Bytes) (ts : List Bytes)
    → contains ts t ≡ false
    → IsNodup ts
    → IsNodup (insert_by (λ x. x) t ts)
unfolding insert_by contains
IsNodup-insert_by t [] n d = (refl, tt)
IsNodup-insert_by t (s ∷ ts) n d = elim (Bool-cases (bytes_ltb s t)) [
  | inl e ↦ rw e (
    ground (arith, insert_by-contains (λ x. x) t ts s, d.0, bytes_beq_iff s t, bytes_beq_iff t s),
    IsNodup-insert_by t ts (ground arith) d.1,
  )
  | inr e ↦ rw e (n, d)
]

-- Sorting brings in no repetition.
pub IsNodup-sort_by : (ts : List Bytes) → IsNodup ts → IsNodup (sort_by (λ x. x) ts)
unfolding sort_by
IsNodup-sort_by [] d = tt
IsNodup-sort_by (t ∷ ts) d =
    IsNodup-insert_by t (sort_by (λ x. x) ts) (sort_by-contains (λ x. x) ts t ∙ d.0)
      (IsNodup-sort_by ts d.1)
