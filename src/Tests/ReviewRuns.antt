-- ===== src/Tests/ReviewRuns.antt =====
-- The properties of a merge preview, at small snapshots whose values, schemas and violations are
-- numbers and texts.
use spool_rack.Prelude.{
  ℕ, Bytes, codes, true, Option, some, List, [], ◌∷◌, ◌++◌, ◌≡◌, ◌≢◌, ◌↔◌, refl, lookup, nat_eq,
  bytes_eq,
}
use spool_rack.Review.Defs.{
  Element, NodeStructure, node, property_conflict, empty_preview, add_conflict,
}
use spool_rack.Review.ThreeWay.{merge_optional}
use spool_rack.Review.Merge.{merge_properties}
use spool_rack.Review.Snapshots.{Snapshot, Validation, valid, merge_snapshots}
use spool_rack.Review.Values.{merge_optional_iff, lookup-merge_properties}
use spool_rack.Review.Tokens.{IsConsistent}
use spool_rack.Review.Preview.{merge_snapshots-IsConsistent, add_conflict-colon}

abbrev value_1 : Option ℕ
value_1 = some 1

abbrev value_2 : Option ℕ
value_2 = some 2

abbrev value_3 : Option ℕ
value_3 = some 3

merge_optional_iff_example :
    let m = merge_optional value_1 value_2 value_3 in
    ((m.conflict ≡ true) ↔ ((value_2 ≢ value_1) × (value_3 ≢ value_1) × (value_2 ≢ value_3)))
    × (value_2 ≡ value_1 → m.value ≡ value_3)
    × (value_3 ≡ value_1 → m.value ≡ value_2)
    × (value_2 ≡ value_3 → m.value ≡ value_2)
    × (m.conflict ≡ true → m.value ≡ value_3)
merge_optional_iff_example = merge_optional_iff value_1 value_2 value_3

abbrev base_properties : List (Bytes × ℕ)
base_properties = (codes "age", 1) ∷ []

abbrev source_properties : List (Bytes × ℕ)
source_properties = (codes "age", 2) ∷ []

abbrev target_properties : List (Bytes × ℕ)
target_properties = (codes "age", 1) ∷ (codes "name", 7) ∷ []

lookup-merge_properties_example :
    lookup
      (codes "age")
      (merge_properties base_properties source_properties target_properties node
        (codes "n1")
        (empty_preview {Violation = Bytes})).0
    ≡ (merge_optional
        (lookup (codes "age") base_properties)
        (lookup (codes "age") source_properties)
        (lookup (codes "age") target_properties)).value
lookup-merge_properties_example =
    lookup-merge_properties node (codes "n1") base_properties source_properties target_properties
      empty_preview (codes "age")

abbrev a_node : List (Bytes × ℕ) → List (Bytes × Element NodeStructure ℕ)
a_node properties =
    (
      codes "n1",
      record {
        structure = record { id = codes "n1"; title = codes "Ann"; labels = [] };
        properties = properties;
      },
    )
    ∷ []

abbrev snapshot : ℕ → List (Bytes × Element NodeStructure ℕ) → Snapshot ℕ ℕ
snapshot schema nodes = record { schema_of = schema; nodes = nodes; edges = [] }

abbrev no_violation : Snapshot ℕ ℕ → Validation Bytes
no_violation merged = valid

merge_snapshots-IsConsistent_example : IsConsistent (
    merge_snapshots
      (λ code. code)
      no_violation
      (snapshot 1 (a_node base_properties))
      (snapshot 2 (a_node source_properties))
      (snapshot 3 []))
merge_snapshots-IsConsistent_example =
    merge_snapshots-IsConsistent (λ code. code) no_violation (snapshot 1 (a_node base_properties))
      (snapshot 2 (a_node source_properties)) (snapshot 3 [])

add_conflict-colon_example :
    let first =
      add_conflict property_conflict node
        (codes "a" ++ b':' ∷ codes "b")
        (codes "c")
        (empty_preview {Violation = Bytes}) in
    add_conflict property_conflict node (codes "a") (codes "b" ++ b':' ∷ codes "c") first ≡ first
add_conflict-colon_example =
    add_conflict-colon property_conflict node (codes "a") (codes "b") (codes "c") empty_preview refl
      refl refl
