-- ===== src/Review/Preview.antt =====
-- The whole preview.
use spool_rack.Prelude.{
  Bytes, is_empty, true, false, not, List, [], ◌∷◌, ◌++◌, ◌≡◌, inl, inr, refl, sym, ap, ◌∙◌, Eq,
  bytes_eq, eq_self, arith, Bool-cases,
}
use spool_rack.Prelude.Sort.{sort_by, map-sort_by, IsNodup-sort_by, is_empty-sort_by}
use spool_rack.Review.Defs.{
  ConflictToken, ResolutionRequirement, ElementKind, ConflictType, MergePreview, empty_preview,
  add_conflict, sort_conflicts, token_of, has_token, node_eq, edge_eq, conflict_name, element_name,
}
use spool_rack.Review.ThreeWay.{Merged}
use spool_rack.Review.Snapshots.{
  Snapshot, Validation, valid, invalid, failed, note_validation, validate_merged_schema,
  note_schema, merge_recorded, merge_snapshots, zero_node, zero_edge,
}
use spool_rack.Review.Tokens.{
  IsConsistent, tokens_of, required_of, add_conflict-IsConsistent, add_change-IsConsistent,
  if-IsConsistent, merge_elements-IsConsistent,
}

module _ {Violation Schema Value : Type 0} ⦃ce : Eq Schema⦄ ⦃ve : Eq Value⦄
    (code_of : Violation → Bytes)
    (validate_schema : Snapshot Schema Value → Validation Violation) where
  note_validation-IsConsistent :
      (r : Validation Violation) (p : MergePreview Violation)
      → IsConsistent p
      → IsConsistent (note_validation code_of r p)
  unfolding note_validation
  note_validation-IsConsistent valid p w = w
  note_validation-IsConsistent failed p w = add_conflict-IsConsistent _ _ [] [] p w
  note_validation-IsConsistent (invalid vs) p w =
      add_conflict-IsConsistent _ _ [] [] _ (record {
        distinct = w.distinct;
        one_resolution_each = w.one_resolution_each;
        flag = w.flag;
      })

  note_schema-IsConsistent :
      (base : Schema) (m : Merged Schema) (p : MergePreview Violation)
      → IsConsistent p
      → IsConsistent (note_schema code_of validate_schema base m p)
  unfolding note_schema
  note_schema-IsConsistent base m p w =
      if-IsConsistent m.conflict _ _ (add_conflict-IsConsistent _ _ [] [] p w)
        (if-IsConsistent _ _ p (add_change-IsConsistent _ p w) w)

  empty-IsConsistent : IsConsistent (empty_preview {Violation = Violation})
  empty-IsConsistent = record { distinct = tt; one_resolution_each = refl; flag = refl }

  merge_recorded-IsConsistent :
      (base source target : Snapshot Schema Value)
      → IsConsistent (merge_recorded code_of validate_schema base source target).1
  unfolding merge_recorded validate_merged_schema
  merge_recorded-IsConsistent base source target =
      let schema = note_schema-IsConsistent base.schema_of _ empty_preview empty-IsConsistent in
      let nodes =
        merge_elements-IsConsistent zero_node _ base.nodes source.nodes target.nodes _ schema in
      let edges =
        merge_elements-IsConsistent zero_edge _ base.edges source.edges target.edges _ nodes in
      if-IsConsistent _ _ _ (note_validation-IsConsistent _ _ edges) edges

  sorted_tokens :
      (cs : List ConflictToken) → tokens_of (sort_conflicts cs) ≡ sort_by (λ t. t) (tokens_of cs)
  unfolding sort_conflicts
  sorted_tokens cs = map-sort_by (λ c. c.token) (λ t. t) (λ c. c.token) (λ c. refl) cs

  sorted_required :
      (rs : List ResolutionRequirement)
      → required_of (sort_by (λ r. r.token) rs) ≡ sort_by (λ t. t) (required_of rs)
  sorted_required rs = map-sort_by (λ r. r.token) (λ t. t) (λ r. r.token) (λ r. refl) rs

  -- Whatever the three snapshots are and however the schema validation ends: no token stands twice
  -- among the conflicts of the preview, its resolution requirements name the same tokens in the same
  -- order, and `has_conflicts` says whether there is a conflict.
  pub merge_snapshots-IsConsistent :
      (base source target : Snapshot Schema Value)
      → IsConsistent (merge_snapshots code_of validate_schema base source target)
  unfolding merge_snapshots
  merge_snapshots-IsConsistent base source target =
      let p = (merge_recorded code_of validate_schema base source target).1 in
      let w = merge_recorded-IsConsistent base source target in
      record {
        distinct =
            rw (sorted_tokens p.conflicts) (IsNodup-sort_by (tokens_of p.conflicts) w.distinct);
        one_resolution_each =
            rw (sorted_tokens p.conflicts, sorted_required p.resolutions, w.one_resolution_each);
        flag =
            w.flag
            ∙ ap not (sym (unfold sort_conflicts in is_empty-sort_by (λ c. c.token) p.conflicts));
      }

append_assoc : (xs ys zs : Bytes) → (xs ++ ys) ++ zs ≡ xs ++ (ys ++ zs)
append_assoc [] ys zs = refl
append_assoc (x ∷ xs) ys zs = ap (◌∷◌ x) (append_assoc xs ys zs)

token_of-colon :
    (kind : ConflictType) (element : ElementKind) (a b c : Bytes)
    → is_empty a ≡ false
    → is_empty b ≡ false
    → is_empty c ≡ false
    → token_of kind element (a ++ b':' ∷ b) c ≡ token_of kind element a (b ++ b':' ∷ c)
unfolding token_of
token_of-colon kind element (x ∷ a) (y ∷ b) (z ∷ c) p q r =
    let prefix = conflict_name kind ++ (b':' ∷ element_name element) in
    (append_assoc prefix (b':' ∷ x ∷ (a ++ (b':' ∷ y ∷ b))) (b':' ∷ z ∷ c)
      ∙ ap (λ t. prefix ++ (b':' ∷ x ∷ t)) (append_assoc a (b':' ∷ y ∷ b) (b':' ∷ z ∷ c)))
    ∙ sym (append_assoc prefix (b':' ∷ x ∷ a) (b':' ∷ y ∷ (b ++ (b':' ∷ z ∷ c))))
token_of-colon kind element [] b c p q r = cc p
token_of-colon kind element (x ∷ a) [] c p q r = cc q
token_of-colon kind element (x ∷ a) (y ∷ b) [] p q r = cc r

has_token-append :
    (cs : List ConflictToken) (c : ConflictToken) → has_token (cs ++ c ∷ []) c.token ≡ true
unfolding has_token
has_token-append [] c = rw (eq_self c.token)
has_token-append (d ∷ cs) c = ground (arith, has_token-append cs c)

has_token-add_conflict :
    {Violation : Type 0} (kind : ConflictType) (element : ElementKind) (id property : Bytes)
    (p : MergePreview Violation)
    → has_token
        (add_conflict kind element id property p).conflicts
        (token_of kind element id property)
      ≡ true
unfolding add_conflict
has_token-add_conflict kind element id property p =
    elim (Bool-cases (has_token p.conflicts (token_of kind element id property))) [
      | inl h ↦ rw (h, h)
      | inr h ↦ rw h (has_token-append p.conflicts _)
    ]

-- A preview may lose a conflict: where an ID or a property name holds a colon, two properties of two
-- elements of one kind have the same token, and after the conflict on one of them that on the other
-- is not recorded.
pub add_conflict-colon :
    {Violation : Type 0} (kind : ConflictType) (element : ElementKind) (a b c : Bytes)
    (p : MergePreview Violation)
    → is_empty a ≡ false
    → is_empty b ≡ false
    → is_empty c ≡ false
    → let first = add_conflict kind element (a ++ b':' ∷ b) c p in
      add_conflict kind element a (b ++ b':' ∷ c) first ≡ first
unfolding add_conflict
add_conflict-colon kind element a b c p u v w = rw (
  ← token_of-colon kind element a b c u v w,
  has_token-add_conflict kind element (a ++ b':' ∷ b) c p,
)
