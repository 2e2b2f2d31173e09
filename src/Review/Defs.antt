-- ===== src/Review/Defs.antt =====
-- internal/server/review/engine.go and snapshot.go: the types of a merge preview and the operations
-- that record what a merge meets. A Go map is the list of its entries, one for each key, in the
-- order of the keys; so equal maps are equal lists.
use spool_rack.Prelude.{
  Bytes, codes, Bool, true, false, ◌&&◌, List, [], ◌∷◌, ◌++◌, ◌↔◌, ◌≡◌, Eq, ◌==◌, bytes_eq,
  list_beq, list_beq_iff, arith, if◌then◌else◌,
}
use spool_rack.Prelude.Sort.{sort_by}

pub data ChangeKind : Type 0 where
  element_change property_change schema_change : ChangeKind

pub data ChangeOperation : Type 0 where
  added updated deleted : ChangeOperation

pub data ElementKind : Type 0 where
  node edge schema : ElementKind

pub data ConflictType : Type 0 where
  property_conflict delete_update structural schema_conflict cardinality : ConflictType

-- the string constants behind the enumerations
abbrev pub change_kind_name : ChangeKind → Bytes
change_kind_name element_change = codes "element"
change_kind_name property_change = codes "property"
change_kind_name schema_change = codes "schema"

abbrev pub operation_name : ChangeOperation → Bytes
operation_name added = codes "added"
operation_name updated = codes "updated"
operation_name deleted = codes "deleted"

abbrev pub element_name : ElementKind → Bytes
element_name node = codes "node"
element_name edge = codes "edge"
element_name schema = codes "schema"

abbrev pub conflict_name : ConflictType → Bytes
conflict_name property_conflict = codes "property"
conflict_name delete_update = codes "delete_update"
conflict_name structural = codes "structural"
conflict_name schema_conflict = codes "schema"
conflict_name cardinality = codes "cardinality"

pub record Change : Type 0 where
  pub kind : ChangeKind
  pub operation : ChangeOperation
  pub element : ElementKind
  pub element_id : Bytes
  pub property : Bytes
  pub branch : Bytes

pub record ConflictToken : Type 0 where
  pub token : Bytes
  pub conflict : ConflictType
  pub element : ElementKind
  pub element_id : Bytes
  pub property : Bytes

pub record ResolutionRequirement : Type 0 where
  pub token : Bytes
  pub required : Bool
  pub options : List Bytes

-- `MergePreview` without the branches and commits, which the merge does not read
pub record MergePreview (Violation : Type 0) : Type 0 where
  pub clean_changes : List Change
  pub conflicts : List ConflictToken
  pub violations : List Violation
  pub has_conflicts : Bool
  pub resolutions : List ResolutionRequirement

-- A node or edge: its properties, and the rest of its fields.
pub record Element (S Value : Type 0) : Type 0 where
  pub structure : S
  pub properties : List (Bytes × Value)

pub record NodeStructure : Type 0 where
  pub id : Bytes
  pub title : Bytes
  pub labels : List Bytes

pub record EdgeStructure : Type 0 where
  pub id : Bytes
  pub source : Bytes
  pub target : Bytes
  pub edge_type : Bytes

-- `sameStructure` at nodes
abbrev pub node_beq : NodeStructure → NodeStructure → Bool
node_beq left right =
    left.id == right.id && left.title == right.title && list_beq left.labels right.labels

-- `sameStructure` at edges
abbrev pub edge_beq : EdgeStructure → EdgeStructure → Bool
edge_beq left right =
    left.id == right.id
    && left.source == right.source
    && left.target == right.target
    && left.edge_type == right.edge_type

pub node_beq_iff : (a b : NodeStructure) → (node_beq a b ≡ true) ↔ (a ≡ b)
node_beq_iff a b = ground (
  arith,
  bytes_eq.same_iff a.id b.id,
  bytes_eq.same_iff a.title b.title,
  list_beq_iff a.labels b.labels,
)

pub edge_beq_iff : (a b : EdgeStructure) → (edge_beq a b ≡ true) ↔ (a ≡ b)
edge_beq_iff a b = ground (
  arith,
  bytes_eq.same_iff a.id b.id,
  bytes_eq.same_iff a.source b.source,
  bytes_eq.same_iff a.target b.target,
  bytes_eq.same_iff a.edge_type b.edge_type,
)

instance abbrev pub node_eq : Eq NodeStructure
node_eq = record { same = node_beq; same_iff = node_beq_iff }

instance abbrev pub edge_eq : Eq EdgeStructure
edge_eq = record { same = edge_beq; same_iff = edge_beq_iff }

module _ {Value : Type 0} ⦃ve : Eq Value⦄ where
  -- `reflect.DeepEqual` at two maps of property values
  abbrev pub entries_beq : List (Bytes × Value) → List (Bytes × Value) → Bool
  entries_beq [] [] = true
  entries_beq ((k, v) ∷ m) ((j, w) ∷ n) = k == j && v == w && entries_beq m n
  entries_beq _ _ = false

  pub entries_beq_iff : (m n : List (Bytes × Value)) → (entries_beq m n ≡ true) ↔ (m ≡ n)
  entries_beq_iff ((k, v) ∷ m) ((j, w) ∷ n) =
      ground (arith, bytes_eq.same_iff k j, ve.same_iff v w, entries_beq_iff m n)
  entries_beq_iff _ _ = ground arith

  -- `reflect.DeepEqual` at two elements
  abbrev pub element_beq : {S : Type 0} ⦃se : Eq S⦄ → Element S Value → Element S Value → Bool
  element_beq a b = a.structure == b.structure && entries_beq a.properties b.properties

  pub element_beq_iff :
      {S : Type 0} ⦃se : Eq S⦄ (a b : Element S Value) → (element_beq a b ≡ true) ↔ (a ≡ b)
  element_beq_iff ⦃se⦄ a b =
      ground (arith, se.same_iff a.structure b.structure, entries_beq_iff a.properties b.properties)

  instance abbrev pub element_eq : {S : Type 0} ⦃se : Eq S⦄ → Eq (Element S Value)
  element_eq = record { same = element_beq; same_iff = element_beq_iff }

abbrev pub colon_unless_empty : Bytes → Bytes
colon_unless_empty [] = []
colon_unless_empty (c ∷ s) = b':' ∷ c ∷ s

-- the text of a conflict's token
unfoldable pub token_of : ConflictType → ElementKind → Bytes → Bytes → Bytes
token_of kind element id property =
    conflict_name kind
    ++ (b':' ∷ element_name element)
    ++ colon_unless_empty id
    ++ colon_unless_empty property

unfoldable pub has_token : List ConflictToken → Bytes → Bool
has_token [] token = false
has_token (existing ∷ conflicts) token =
    if existing.token == token then true else has_token conflicts token

abbrev pub options : List Bytes
options = codes "source" ∷ codes "target" ∷ codes "manual" ∷ []

module _ {Violation : Type 0} where
  abbrev pub empty_preview : MergePreview Violation
  empty_preview = record {
    clean_changes = [];
    conflicts = [];
    violations = [];
    has_conflicts = false;
    resolutions = [];
  }

  abbrev pub add_change : Change → MergePreview Violation → MergePreview Violation
  add_change change p = record p { clean_changes = p.clean_changes ++ change ∷ [] }

  -- `addElementChange`
  unfoldable pub add_element_change :
      ElementKind
      → Bytes
      → ChangeOperation
      → Bytes
      → MergePreview Violation
      → MergePreview Violation
  add_element_change kind id operation branch p =
      add_change
        (record {
          kind = element_change;
          operation = operation;
          element = kind;
          element_id = id;
          property = [];
          branch = branch;
        })
        p

  -- `addConflict`
  unfoldable pub add_conflict :
      ConflictType → ElementKind → Bytes → Bytes → MergePreview Violation → MergePreview Violation
  add_conflict kind element id property p =
      let token = token_of kind element id property in
      if has_token p.conflicts token then p else record p {
        has_conflicts = true;
        conflicts =
            p.conflicts
            ++ record {
              token = token;
              conflict = kind;
              element = element;
              element_id = id;
              property = property;
            }
              ∷ [];
        resolutions =
            p.resolutions ++ record { token = token; required = true; options = options } ∷ [];
      }

-- the text by which `sortChanges` compares
abbrev pub change_key : Change → Bytes
change_key c =
    change_kind_name c.kind
    ++ (0 ∷ element_name c.element)
    ++ (0 ∷ c.element_id)
    ++ (0 ∷ c.property)
    ++ (0 ∷ operation_name c.operation)
    ++ (0 ∷ c.branch)

unfoldable pub sort_changes : List Change → List Change
sort_changes = sort_by change_key

unfoldable pub sort_conflicts : List ConflictToken → List ConflictToken
sort_conflicts = sort_by (λ c. c.token)
