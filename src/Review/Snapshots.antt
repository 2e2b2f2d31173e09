-- ===== src/Review/Snapshots.antt =====
-- internal/server/review/engine.go: `mergeSnapshots`, with the schemas and their validation.
use spool_rack.Prelude.{
  Bytes, codes, Bool, true, false, ◌||◌, not, List, [], ◌∷◌, ◌++◌, Eq, ◌==◌, bytes_eq, has_prefix,
  if◌then◌else◌,
}
use spool_rack.Prelude.Sort.{sort_by}
use spool_rack.Review.Defs.{
  ConflictType, MergePreview, Element, NodeStructure, EdgeStructure, updated, node, edge, schema,
  schema_conflict, cardinality, schema_change, element_eq, node_eq, edge_eq, empty_preview,
  add_change, add_conflict, sort_changes, sort_conflicts,
}
use spool_rack.Review.ThreeWay.{Merged, merge_value}
use spool_rack.Review.Merge.{merge_elements}

abbrev pub zero_node : NodeStructure
zero_node = record { id = []; title = []; labels = [] }

abbrev pub zero_edge : EdgeStructure
zero_edge = record { id = []; source = []; target = []; edge_type = [] }

pub record Snapshot (Schema Value : Type 0) : Type 0 where
  pub schema_of : Schema
  pub nodes : List (Bytes × Element NodeStructure Value)
  pub edges : List (Bytes × Element EdgeStructure Value)

-- How `graphcontract.ValidateSchemaSnapshot` ends: with no error, with a `SchemaValidationError`, or
-- with another error.
pub data Validation (Violation : Type 0) : Type 0 where
  valid : Validation Violation
  invalid : List Violation → Validation Violation
  failed : Validation Violation

-- `strings.Contains`
unfoldable pub has_substring : Bytes → Bytes → Bool
has_substring s [] = true
has_substring [] (c ∷ sub) = false
has_substring (b ∷ s) (c ∷ sub) = has_prefix (b ∷ s) (c ∷ sub) || has_substring s (c ∷ sub)

module _ {Violation : Type 0} (code_of : Violation → Bytes) where
  -- the loop of `validateMergedSchema`
  unfoldable pub conflict_of : List Violation → ConflictType
  conflict_of [] = cardinality
  conflict_of (violation ∷ violations) =
      if not (has_substring (code_of violation) (codes "cardinality"))
      then schema_conflict
      else conflict_of violations

  unfoldable pub note_validation :
      Validation Violation → MergePreview Violation → MergePreview Violation
  note_validation valid p = p
  note_validation failed p = add_conflict schema_conflict schema [] [] p
  note_validation (invalid violations) p =
      add_conflict (conflict_of violations) schema [] []
        (record p { violations = p.violations ++ violations })

  module _ {Schema Value : Type 0} ⦃ce : Eq Schema⦄ ⦃ve : Eq Value⦄
      (validate_schema : Snapshot Schema Value → Validation Violation) where
    -- `validateMergedSchema`
    unfoldable pub validate_merged_schema :
        Snapshot Schema Value → MergePreview Violation → MergePreview Violation
    validate_merged_schema merged p = note_validation (validate_schema merged) p

    -- the merge of the schemas; after a conflict the merged schema is the target's, which
    -- `merge_value` returns
    unfoldable pub note_schema :
        Schema → Merged Schema → MergePreview Violation → MergePreview Violation
    note_schema base m p =
        if m.conflict
        then add_conflict schema_conflict schema [] [] p
        else if not (base == m.value)
        then add_change
            (record {
              kind = schema_change;
              operation = updated;
              element = schema;
              element_id = [];
              property = [];
              branch = m.branch;
            })
            p
        else p

    -- `mergeSnapshots` before it sorts: the merged snapshot and what the merge recorded
    unfoldable pub merge_recorded :
        Snapshot Schema Value
        → Snapshot Schema Value
        → Snapshot Schema Value
        → Snapshot Schema Value × MergePreview Violation
    merge_recorded base source target =
        let m = merge_value base.schema_of source.schema_of target.schema_of in
        let p = note_schema base.schema_of m empty_preview in
        let (nodes, p') = merge_elements zero_node base.nodes source.nodes target.nodes node p in
        let (edges, p'') = merge_elements zero_edge base.edges source.edges target.edges edge p' in
        let merged : Snapshot Schema Value = record {
          schema_of = m.value;
          nodes = nodes;
          edges = edges;
        } in
        (merged, if not p''.has_conflicts then validate_merged_schema merged p'' else p'')

    unfoldable pub merge_snapshots :
        Snapshot Schema Value
        → Snapshot Schema Value
        → Snapshot Schema Value
        → MergePreview Violation
    merge_snapshots base source target =
        let result = (merge_recorded base source target).1 in
        record result {
          clean_changes = sort_changes result.clean_changes;
          conflicts = sort_conflicts result.conflicts;
          resolutions = sort_by (λ r. r.token) result.resolutions;
        }
