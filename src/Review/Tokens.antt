-- ===== src/Review/Tokens.antt =====
-- The conflicts of a preview and the resolutions that it asks for.
use spool_rack.Prelude.{
  Bytes, is_empty, Bool, true, false, not, Option, none, some, List, [], ◌∷◌, ◌++◌, ◌≡◌, inl, inr,
  refl, sym, ap, ◌∙◌, Eq, bytes_eq, bytes_beq_iff, contains, contains-append, IsNodup, lookup, map,
  arith, if◌then◌else◌, Bool-cases,
}
use spool_rack.Review.Defs.{
  Change, ConflictToken, ResolutionRequirement, ElementKind, ConflictType, ChangeOperation,
  MergePreview, Element, add_change, add_element_change, add_conflict, has_token, token_of,
}
use spool_rack.Review.ThreeWay.{Merged}
use spool_rack.Review.Merge.{
  note_property, merge_names, merge_properties, note_structure, merge_present, merge_element,
  merge_ids, merge_elements,
}

abbrev pub tokens_of : List ConflictToken → List Bytes
tokens_of cs = map (λ c. c.token) cs

abbrev pub required_of : List ResolutionRequirement → List Bytes
required_of rs = map (λ r. r.token) rs

-- No token stands twice, each has exactly one resolution, in the same order, and the flag says
-- whether there is any.
pub record IsConsistent {Violation : Type 0} (p : MergePreview Violation) : Type 0 where
  pub distinct : IsNodup (tokens_of p.conflicts)
  pub one_resolution_each : required_of p.resolutions ≡ tokens_of p.conflicts
  pub flag : p.has_conflicts ≡ not (is_empty p.conflicts)

has_token-eq : (cs : List ConflictToken) (t : Bytes) → has_token cs t ≡ contains (tokens_of cs) t
unfolding has_token contains
has_token-eq [] t = refl
has_token-eq (c ∷ cs) t = ground (arith, has_token-eq cs t)

tokens_of-append :
    (cs : List ConflictToken) (c : ConflictToken)
    → tokens_of (cs ++ c ∷ []) ≡ tokens_of cs ++ c.token ∷ []
tokens_of-append [] c = refl
tokens_of-append (d ∷ cs) c = ap (◌∷◌ d.token) (tokens_of-append cs c)

required_of-append :
    (rs : List ResolutionRequirement) (r : ResolutionRequirement)
    → required_of (rs ++ r ∷ []) ≡ required_of rs ++ r.token ∷ []
required_of-append [] r = refl
required_of-append (s ∷ rs) r = ap (◌∷◌ s.token) (required_of-append rs r)

IsNodup-append :
    (ts : List Bytes) (t : Bytes) → IsNodup ts → contains ts t ≡ false → IsNodup (ts ++ t ∷ [])
unfolding contains
IsNodup-append [] t d n = (refl, tt)
IsNodup-append (s ∷ ts) t d n = (
  ground (arith, contains-append ts (t ∷ []) s, d.0, bytes_beq_iff t s, bytes_beq_iff s t),
  IsNodup-append ts t d.1 (ground arith),
)

not_empty : {A : Type 0} (xs : List A) (x : A) → is_empty (xs ++ x ∷ []) ≡ false
not_empty [] x = refl
not_empty (y ∷ xs) x = refl

module _ {Violation : Type 0} where
  pub add_conflict-IsConsistent :
      (kind : ConflictType) (element : ElementKind) (id property : Bytes)
      (p : MergePreview Violation)
      → IsConsistent p
      → IsConsistent (add_conflict kind element id property p)
  unfolding add_conflict
  add_conflict-IsConsistent kind element id property p w =
      let t = token_of kind element id property in
      elim (Bool-cases (has_token p.conflicts t)) [
        | inl h ↦ rw h w
        | inr h ↦ rw h (record {
          distinct = rw (tokens_of-append p.conflicts _) (
              IsNodup-append (tokens_of p.conflicts) t w.distinct
                (sym (has_token-eq p.conflicts t) ∙ h));
          one_resolution_each = rw (
            tokens_of-append p.conflicts _,
            required_of-append p.resolutions _,
            w.one_resolution_each,
          );
          flag = rw (not_empty p.conflicts _);
        })
      ]

  pub add_change-IsConsistent :
      (c : Change) (p : MergePreview Violation) → IsConsistent p → IsConsistent (add_change c p)
  add_change-IsConsistent c p w = record {
    distinct = w.distinct;
    one_resolution_each = w.one_resolution_each;
    flag = w.flag;
  }

  pub if-IsConsistent :
      (c : Bool) (p q : MergePreview Violation)
      → IsConsistent p
      → IsConsistent q
      → IsConsistent (if c then p else q)
  if-IsConsistent true p q v w = v
  if-IsConsistent false p q v w = w

  add_element_change-IsConsistent :
      (kind : ElementKind) (id : Bytes) (operation : ChangeOperation) (branch : Bytes)
      (p : MergePreview Violation)
      → IsConsistent p
      → IsConsistent (add_element_change kind id operation branch p)
  unfolding add_element_change
  add_element_change-IsConsistent kind id operation branch p w = add_change-IsConsistent _ p w

  module _ {Value : Type 0} ⦃ve : Eq Value⦄ where
    note_property-IsConsistent :
        (kind : ElementKind) (id name : Bytes) (base : Option Value) (m : Merged (Option Value))
        (p : MergePreview Violation)
        → IsConsistent p
        → IsConsistent (note_property kind id name base m p)
    unfolding note_property
    note_property-IsConsistent kind id name base m p w =
        if-IsConsistent m.conflict _ _ (add_conflict-IsConsistent _ kind id name p w)
          (if-IsConsistent _ _ p (add_change-IsConsistent _ p w) w)

    merge_names-IsConsistent :
        (kind : ElementKind) (id : Bytes) (base source target : List (Bytes × Value))
        (names : List Bytes) (p : MergePreview Violation)
        → IsConsistent p
        → IsConsistent (merge_names kind id base source target names p).1
    unfolding merge_names
    merge_names-IsConsistent kind id base source target [] p w = w
    merge_names-IsConsistent kind id base source target (name ∷ names) p w =
        merge_names-IsConsistent kind id base source target names _
          (note_property-IsConsistent kind id name (lookup name base) _ p w)

  note_structure-IsConsistent :
      {S : Type 0} ⦃se : Eq S⦄ (kind : ElementKind) (id : Bytes) (base : S) (m : Merged S)
      (p : MergePreview Violation)
      → IsConsistent p
      → IsConsistent (note_structure kind id base m p)
  unfolding note_structure
  note_structure-IsConsistent kind id base m p w =
      if-IsConsistent m.conflict _ _ (add_conflict-IsConsistent _ kind id [] p w)
        (if-IsConsistent _ _ p (add_element_change-IsConsistent kind id _ _ p w) w)

  if-second-IsConsistent :
      {A : Type 0} (c : Bool) (x y : A × MergePreview Violation)
      → IsConsistent x.1
      → IsConsistent y.1
      → IsConsistent (if c then x else y).1
  if-second-IsConsistent true x y v w = v
  if-second-IsConsistent false x y v w = w

  module _ {Value S : Type 0} ⦃ve : Eq Value⦄ ⦃se : Eq S⦄ (zero : S) (kind : ElementKind) where
    merge_present-IsConsistent :
        (id : Bytes) (base source target : Element S Value) (p : MergePreview Violation)
        → IsConsistent p
        → IsConsistent (merge_present zero kind id base source target p).1
    unfolding merge_present merge_properties
    merge_present-IsConsistent id base source target p w =
        merge_names-IsConsistent kind id base.properties source.properties target.properties _ _
          (note_structure-IsConsistent kind id base.structure _ p w)

    merge_element-IsConsistent :
        (id : Bytes) (base source target : Option (Element S Value)) (p : MergePreview Violation)
        → IsConsistent p
        → IsConsistent (merge_element zero id base source target kind p).1
    unfolding merge_element
    merge_element-IsConsistent id (some base) none (some target) p w =
        if-second-IsConsistent _ _ _ (add_conflict-IsConsistent _ kind id [] p w)
          (add_element_change-IsConsistent kind id _ _ p w)
    merge_element-IsConsistent id (some base) (some source) none p w =
        if-second-IsConsistent _ _ _ (add_conflict-IsConsistent _ kind id [] p w)
          (add_element_change-IsConsistent kind id _ _ p w)
    merge_element-IsConsistent id none (some source) (some target) p w =
        if-second-IsConsistent _ _ _ (add_conflict-IsConsistent _ kind id [] p w)
          (merge_present-IsConsistent id _ source target p w)
    merge_element-IsConsistent id none (some source) none p w =
        add_element_change-IsConsistent kind id _ _ p w
    merge_element-IsConsistent id none none (some target) p w =
        add_element_change-IsConsistent kind id _ _ p w
    merge_element-IsConsistent id (some base) none none p w =
        add_element_change-IsConsistent kind id _ _ p w
    merge_element-IsConsistent id (some base) (some source) (some target) p w =
        merge_present-IsConsistent id base source target p w
    merge_element-IsConsistent id none none none p w = merge_present-IsConsistent id _ _ _ p w

    merge_ids-IsConsistent :
        (base source target : List (Bytes × Element S Value)) (ids : List Bytes)
        (p : MergePreview Violation)
        → IsConsistent p
        → IsConsistent (merge_ids zero kind base source target ids p).1
    unfolding merge_ids
    merge_ids-IsConsistent base source target [] p w = w
    merge_ids-IsConsistent base source target (id ∷ ids) p w =
        merge_ids-IsConsistent base source target ids _
          (merge_element-IsConsistent id (lookup id base) (lookup id source) (lookup id target) p w)

    pub merge_elements-IsConsistent :
        (base source target : List (Bytes × Element S Value)) (p : MergePreview Violation)
        → IsConsistent p
        → IsConsistent (merge_elements zero base source target kind p).1
    unfolding merge_elements
    merge_elements-IsConsistent base source target p w =
        merge_ids-IsConsistent base source target _ p w
