-- ===== src/Review/Values.antt =====
-- What a three-way merge chooses: of one value, and of every property of an element.
use spool_rack.Prelude.{
  Bytes, Bool, true, false, ◌||◌, Option, none, some, List, [], ◌∷◌, ◌≡◌, ◌≢◌, ◌⊎◌, ◌↔◌, inl, inr,
  refl, Eq, ◌==◌, bytes_eq, bytes_beq_iff, contains, lookup, arith, if◌then◌else◌, Bool-cases,
}
use spool_rack.Prelude.Sort.{sort_by-contains}
use spool_rack.Review.Defs.{MergePreview, ElementKind}
use spool_rack.Review.ThreeWay.{
  merge_optional, optional_equal, add_keys, all_keys, keep_entry, is_present,
}
use spool_rack.Review.Merge.{merge_names, merge_properties}

module _ {A : Type 0} ⦃e : Eq A⦄ where
  optional_equal_iff : (x y : Option A) → (optional_equal x y ≡ true) ↔ (x ≡ y)
  unfolding optional_equal
  optional_equal_iff (some a) (some b) = ground (arith, e.same_iff a b)
  optional_equal_iff none none = ground arith
  optional_equal_iff none (some b) = ground arith
  optional_equal_iff (some a) none = ground arith

  -- A merge of three optional values conflicts exactly if both sides changed the base and differ from
  -- one another. A side that equals the base gives way to the other; where both sides agree, their
  -- value is taken; with a conflict, the target's value stands.
  pub merge_optional_iff :
      (base source target : Option A)
      → let m = merge_optional base source target in
        ((m.conflict ≡ true) ↔ ((source ≢ base) × (target ≢ base) × (source ≢ target)))
        × (source ≡ base → m.value ≡ target)
        × (target ≡ base → m.value ≡ source)
        × (source ≡ target → m.value ≡ source)
        × (m.conflict ≡ true → m.value ≡ target)
  unfolding merge_optional
  merge_optional_iff base source target = ground (
    arith,
    optional_equal_iff source base,
    optional_equal_iff target base,
    optional_equal_iff source target,
  )

  -- Exchanging the sides changes neither whether three values conflict nor, without a conflict, the
  -- merged value.
  pub merge_optional_swap :
      (base source target : Option A)
      → let m = merge_optional base source target in
        let n = merge_optional base target source in
        (m.conflict ≡ n.conflict) × (m.conflict ≡ false → m.value ≡ n.value)
  unfolding merge_optional
  merge_optional_swap base source target = ground (
    arith,
    optional_equal_iff source base,
    optional_equal_iff target base,
    optional_equal_iff source target,
    optional_equal_iff target source,
  )

-- The keys of a merge are those that one of the maps has.
add_keys-contains :
    {V : Type 0} (seen : List Bytes) (m : List (Bytes × V)) (k : Bytes)
    → (contains (add_keys seen m) k ≡ true) ↔ ((contains seen k ≡ true) ⊎ (lookup k m ≢ none))
unfolding add_keys lookup contains
add_keys-contains seen [] k = ground arith
add_keys-contains seen ((j, v) ∷ m) k =
    ground
      (arith, bytes_beq_iff j k, add_keys-contains (if contains seen j then seen else j ∷ seen) m k)

all_keys-contains :
    {V : Type 0} (base source target : List (Bytes × V)) (k : Bytes)
    → contains (all_keys base source target) k ≡ false
    → (lookup k base ≡ none) × (lookup k source ≡ none) × (lookup k target ≡ none)
unfolding all_keys contains
all_keys-contains base source target k h =
    let s₁ = add_keys [] base in
    let s₂ = add_keys s₁ source in
    ground (
      arith,
      sort_by-contains (λ x. x) (add_keys s₂ target) k,
      add_keys-contains s₂ target k,
      add_keys-contains s₁ source k,
      add_keys-contains [] base k,
    )

keep_present :
    {V : Type 0} (k j : Bytes) (o : Option V) (rest : List (Bytes × V))
    → lookup k (keep_entry j o rest)
      ≡ (if j == k then (if is_present o then o else lookup k rest) else lookup k rest)
unfolding lookup
keep_present k j none rest = ground arith
keep_present k j (some v) rest = refl

-- The three-way merge of the property `k`.
abbrev pub chosen :
    {Value : Type 0} ⦃ve : Eq Value⦄
    → List (Bytes × Value)
    → List (Bytes × Value)
    → List (Bytes × Value)
    → Bytes
    → Option Value
chosen base source target k =
    (merge_optional (lookup k base) (lookup k source) (lookup k target)).value

present_or :
    {V : Type 0} (x found : Option V) (d : Bool)
    → found ≡ (if d then x else none)
    → (if is_present x then x else found) ≡ x
present_or none found d q = ground arith
present_or (some v) found d q = refl

lookup-keep_entry :
    {V : Type 0} (k j : Bytes) (o : Bytes → Option V) (rest : List (Bytes × V)) (c : Bool)
    → lookup k rest ≡ (if c then o k else none)
    → lookup k (keep_entry j (o j) rest) ≡ (if j == k || c then o k else none)
lookup-keep_entry k j o rest c h = rw (keep_present k j (o j) rest) (elim (Bool-cases (j == k)) [
  | inr e ↦ rw (e, h)
  | inl e ↦
      let same : j ≡ k = (bytes_beq_iff j k).0 e in
      rw (e, same) (present_or (o k) (lookup k rest) c h)
])

module _ {Violation Value : Type 0} ⦃ve : Eq Value⦄ (kind : ElementKind) (id : Bytes) where
  lookup-merge_names :
      (base source target : List (Bytes × Value)) (names : List Bytes) (p : MergePreview Violation)
      (k : Bytes)
      → lookup k (merge_names kind id base source target names p).0
        ≡ (if contains names k then chosen base source target k else none)
  unfolding merge_names contains
  lookup-merge_names base source target [] p k = unfold lookup in refl
  lookup-merge_names base source target (name ∷ names) p k =
      lookup-keep_entry k name (chosen base source target) _ (contains names k)
        (lookup-merge_names base source target names _ k)

  -- Every property of a merged element is the three-way merge of that property of the base, the
  -- source and the target, whether or not they have it.
  pub lookup-merge_properties :
      (base source target : List (Bytes × Value)) (p : MergePreview Violation) (k : Bytes)
      → lookup k (merge_properties base source target kind id p).0
        ≡ (merge_optional (lookup k base) (lookup k source) (lookup k target)).value
  unfolding merge_properties
  lookup-merge_properties base source target p k =
      elim (Bool-cases (contains (all_keys base source target) k)) [
        | inl c ↦ rw (lookup-merge_names base source target (all_keys base source target) p k, c)
        | inr c ↦
            let (b, s, t) = all_keys-contains base source target k c in
            rw (lookup-merge_names base source target (all_keys base source target) p k, c, b, s, t)
              (unfold merge_optional optional_equal in refl)
      ]
