-- ===== src/Review/Merge.antt =====
-- internal/server/review/engine.go: the merge of properties and of elements.
use spool_rack.Prelude.{
  Bytes, not, Option, none, some, List, [], ◌∷◌, Eq, ◌==◌, bytes_eq, lookup, if◌then◌else◌,
}
use spool_rack.Review.Defs.{
  ElementKind, MergePreview, Element, added, updated, deleted, property_conflict, delete_update,
  structural, property_change, element_eq, node_eq, edge_eq, add_change, add_element_change,
  add_conflict,
}
use spool_rack.Review.ThreeWay.{
  Merged, all_keys, from_both, from_source, from_target, is_present, keep_entry, merge_optional,
  merge_value, optional_equal, property_operation,
}

module _ {S Value : Type 0} (zero : S) where
  abbrev pub zero_element : Element S Value
  zero_element = record { structure = zero; properties = [] }

  abbrev pub or_zero : Option (Element S Value) → Element S Value
  or_zero none = zero_element
  or_zero (some x) = x

module _ {Violation S : Type 0} ⦃se : Eq S⦄ where
  -- what follows `mergeStructure` before the properties are merged
  unfoldable pub note_structure :
      ElementKind → Bytes → S → Merged S → MergePreview Violation → MergePreview Violation
  note_structure kind id base m p =
      if m.conflict
      then add_conflict structural kind id [] p
      else if not (base == m.value)
      then add_element_change kind id updated m.branch p
      else p

module _ {Violation Value : Type 0} ⦃ve : Eq Value⦄ where
  -- what one round of `mergeProperties` records; after a conflict its value is the target's, which
  -- `merge_optional` returns
  unfoldable pub note_property :
      ElementKind
      → Bytes
      → Bytes
      → Option Value
      → Merged (Option Value)
      → MergePreview Violation
      → MergePreview Violation
  note_property kind id name base m p =
      if m.conflict
      then add_conflict property_conflict kind id name p
      else if not (optional_equal base m.value)
      then add_change
          (record {
            kind = property_change;
            operation = property_operation (is_present base) (is_present m.value);
            element = kind;
            element_id = id;
            property = name;
            branch = m.branch;
          })
          p
      else p

  -- the loop of `mergeProperties` over the names
  unfoldable pub merge_names :
      ElementKind
      → Bytes
      → List (Bytes × Value)
      → List (Bytes × Value)
      → List (Bytes × Value)
      → List Bytes
      → MergePreview Violation
      → List (Bytes × Value) × MergePreview Violation
  merge_names kind id base source target [] p = ([], p)
  merge_names kind id base source target (name ∷ names) p =
      let b = lookup name base in
      let m = merge_optional b (lookup name source) (lookup name target) in
      let (rest, p') =
        merge_names kind id base source target names (note_property kind id name b m p) in
      (keep_entry name m.value rest, p')

  unfoldable pub merge_properties :
      List (Bytes × Value)
      → List (Bytes × Value)
      → List (Bytes × Value)
      → ElementKind
      → Bytes
      → MergePreview Violation
      → List (Bytes × Value) × MergePreview Violation
  merge_properties base source target kind id p =
      merge_names kind id base source target (all_keys base source target) p

  module _ {S : Type 0} ⦃se : Eq S⦄ (zero : S) where
    -- the end of `mergeElement`, after its `switch`
    unfoldable pub merge_present :
        ElementKind
        → Bytes
        → Element S Value
        → Element S Value
        → Element S Value
        → MergePreview Violation
        → Option (Element S Value) × MergePreview Violation
    merge_present kind id base source target p =
        let m = merge_value base.structure source.structure target.structure in
        let (properties, p') =
          merge_properties base.properties source.properties target.properties kind id
            (note_structure kind id base.structure m p) in
        (some (record { structure = m.value; properties = properties }), p')

    unfoldable pub merge_element :
        Bytes
        → Option (Element S Value)
        → Option (Element S Value)
        → Option (Element S Value)
        → ElementKind
        → MergePreview Violation
        → Option (Element S Value) × MergePreview Violation
    merge_element id (some base) none (some target) kind p =
        if not (base == target)
        then (some target, add_conflict delete_update kind id [] p)
        else (none, add_element_change kind id deleted from_source p)
    merge_element id (some base) (some source) none kind p =
        if not (base == source)
        then (none, add_conflict delete_update kind id [] p)
        else (none, add_element_change kind id deleted from_target p)
    merge_element id none (some source) (some target) kind p =
        if not (source.structure == target.structure)
        then (some target, add_conflict structural kind id [] p)
        else merge_present kind id (zero_element zero) source target p
    merge_element id none (some source) none kind p =
        (some source, add_element_change kind id added from_source p)
    merge_element id none none (some target) kind p =
        (some target, add_element_change kind id added from_target p)
    merge_element id (some base) none none kind p =
        (none, add_element_change kind id deleted from_both p)
    merge_element id base source target kind p =
        merge_present kind id (or_zero zero base) (or_zero zero source) (or_zero zero target) p

    -- the loop of `mergeElements` over the IDs
    unfoldable pub merge_ids :
        ElementKind
        → List (Bytes × Element S Value)
        → List (Bytes × Element S Value)
        → List (Bytes × Element S Value)
        → List Bytes
        → MergePreview Violation
        → List (Bytes × Element S Value) × MergePreview Violation
    merge_ids kind base source target [] p = ([], p)
    merge_ids kind base source target (id ∷ ids) p =
        let (value, p') =
          merge_element id (lookup id base) (lookup id source) (lookup id target) kind p in
        let (rest, p'') = merge_ids kind base source target ids p' in
        (keep_entry id value rest, p'')

    unfoldable pub merge_elements :
        List (Bytes × Element S Value)
        → List (Bytes × Element S Value)
        → List (Bytes × Element S Value)
        → ElementKind
        → MergePreview Violation
        → List (Bytes × Element S Value) × MergePreview Violation
    merge_elements base source target kind p =
        merge_ids kind base source target (all_keys base source target) p
