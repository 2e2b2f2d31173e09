-- ===== src/Review/ThreeWay.antt =====
-- internal/server/review/engine.go: the merge of one value, and the keys of three maps.
use spool_rack.Prelude.{
  Bytes, codes, Bool, true, false, not, Option, none, some, List, [], ◌∷◌, Eq, ◌==◌, bytes_eq,
  contains, if◌then◌else◌,
}
use spool_rack.Prelude.Sort.{sort_by}
use spool_rack.Review.Defs.{ChangeOperation, added, updated, deleted, element_eq, node_eq, edge_eq}

-- What a three-way merge of one value chooses.
pub record Merged (A : Type 0) : Type 0 where
  pub value : A
  pub branch : Bytes
  pub conflict : Bool

abbrev pub from_source : Bytes
from_source = codes "source"

abbrev pub from_target : Bytes
from_target = codes "target"

abbrev pub from_both : Bytes
from_both = codes "both"

module _ {A : Type 0} ⦃e : Eq A⦄ where
  unfoldable pub merge_value : A → A → A → Merged A
  merge_value base source target =
      if source == base
      then record { value = target; branch = from_target; conflict = false }
      else if target == base
      then record { value = source; branch = from_source; conflict = false }
      else if source == target
      then record { value = source; branch = from_both; conflict = false }
      else record { value = target; branch = []; conflict = true }

  -- `optionalEqual`; a value and its `ok` flag are one option
  unfoldable pub optional_equal : Option A → Option A → Bool
  optional_equal none none = true
  optional_equal (some left) (some right) = left == right
  optional_equal _ _ = false

  unfoldable pub merge_optional : Option A → Option A → Option A → Merged (Option A)
  merge_optional base source target =
      if optional_equal source base
      then record { value = target; branch = from_target; conflict = false }
      else if optional_equal target base
      then record { value = source; branch = from_source; conflict = false }
      else if optional_equal source target
      then record { value = source; branch = from_both; conflict = false }
      else record { value = target; branch = []; conflict = true }

unfoldable pub add_keys {ℓ} : {V : Type ℓ} → List Bytes → List (Bytes × V) → List Bytes
add_keys seen [] = seen
add_keys seen ((k, _) ∷ m) = add_keys (if contains seen k then seen else k ∷ seen) m

-- `elementIDs` and `propertyNames`
unfoldable pub all_keys {ℓ} :
    {V : Type ℓ} → List (Bytes × V) → List (Bytes × V) → List (Bytes × V) → List Bytes
all_keys base source target =
    sort_by (λ k. k) (add_keys (add_keys (add_keys [] base) source) target)

abbrev pub is_present {ℓ} : {A : Type ℓ} → Option A → Bool
is_present none = false
is_present (some _) = true

unfoldable pub property_operation : Bool → Bool → ChangeOperation
property_operation before after =
    if not before then added else if not after then deleted else updated

abbrev pub keep_entry {ℓ} : {V : Type ℓ} → Bytes → Option V → List (Bytes × V) → List (Bytes × V)
keep_entry k none rest = rest
keep_entry k (some v) rest = (k, v) ∷ rest
