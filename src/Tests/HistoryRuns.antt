-- ===== src/Tests/HistoryRuns.antt =====
-- The properties of histories, at a repository of three commits.
use spool_rack.Prelude.{
  Bytes, codes, true, some, List, [], ◌∷◌, ◌≡◌, ◌↔◌, refl, bytes_beq, bytes_ltb, bytes_eq, lookup,
  contains,
}
use spool_rack.Prelude.Sort.{insert_by, sort_by}
use spool_rack.Prelude.Loop.{iterate}
use spool_rack.Fault.{Result, ok}
use spool_rack.Retention.Defs.{
  NativePack, Answers, Reached, reach, is_retained, add_branches, add_roots, add_commit_root,
  rooted_packs,
}
use spool_rack.Store.Branches.{list_branch_refs}
use spool_rack.Store.Ancestry.{
  unseen, ancestry_body, parents_left, ancestry_fuel, commit_ancestry_ids,
}
use spool_rack.Store.AncestryEnds.{commit_ancestry_ids_ends}
use spool_rack.Store.AncestryReach.{Ancestor, itself, older, commit_ancestry_ids_iff}
use spool_rack.Store.Retained.{ancestry_of, history_is_retained}
use spool_rack.Store.CommonAncestor.{
  Depths, candidate, window_body, collect_merge_ancestry, lowest, find_lowest_common_ancestor,
}
use spool_rack.Prelude.{ℕ}
use spool_rack.Store.Lowest.{IsLowest, find_lowest_common_ancestor_sound}
use spool_rack.Tests.Repository.{c1, c2, c3, dev, a_row, dev_branch, the_rows}

commit_ancestry_ids_ends_example :
    (ends : Result (List Bytes)) × (commit_ancestry_ids 10 the_rows c2 ≡ some ends)
commit_ancestry_ids_ends_example = commit_ancestry_ids_ends 10 the_rows c2

history_of_c2 : commit_ancestry_ids 10 the_rows c2 ≡ some (ok (c1 ∷ c2 ∷ []))
unfolding commit_ancestry_ids ancestry_fuel parents_left ancestry_body unseen iterate lookup
    contains bytes_beq bytes_ltb sort_by insert_by
history_of_c2 = refl

commit_ancestry_ids_iff_example : (contains (c1 ∷ c2 ∷ []) c1 ≡ true) ↔ Ancestor the_rows c2 c1
commit_ancestry_ids_iff_example =
    commit_ancestry_ids_iff 10 the_rows c2 (c1 ∷ c2 ∷ []) history_of_c2 c1

abbrev the_answers : Answers
the_answers = record {
  set_tenant = ok tt;
  branches = ok (list_branch_refs the_rows);
  ancestry = ancestry_of 10 the_rows;
  transactions = ok [];
  audit_records = ok [];
  object_to_pack = ok [];
  packs = ok [];
  delete_rows_ends = λ id. ok tt;
  delete_blob_ends = λ hash. ok tt;
}

abbrev what_is_reached : Reached
what_is_reached = record { commits = c1 ∷ c2 ∷ c2 ∷ c1 ∷ c3 ∷ c3 ∷ []; pack_ids = [] }

reached_all : reach the_answers ≡ ok what_is_reached
unfolding reach add_branches add_roots add_commit_root rooted_packs list_branch_refs
    commit_ancestry_ids ancestry_fuel parents_left ancestry_body unseen iterate lookup contains
    bytes_beq bytes_ltb sort_by insert_by
reached_all = refl

abbrev a_pack : NativePack
a_pack = record { pack_id = codes "p"; cas_pack_hash = codes "h"; commit_id = c1 }

c1_in_c3 : Ancestor the_rows c3 c1
unfolding lookup contains bytes_beq
c1_in_c3 = older (a_row (c1 ∷ [])) c1 refl refl itself

dev_found : lookup dev the_rows.branches ≡ some dev_branch
unfolding lookup bytes_beq
dev_found = refl

history_is_retained_example : is_retained what_is_reached a_pack ≡ true
history_is_retained_example =
    history_is_retained 10 the_rows the_answers what_is_reached dev dev_branch a_pack refl
      (λ id. refl) reached_all dev_found refl refl c1_in_c3

lowest_of_both : find_lowest_common_ancestor 10 the_rows c3 c2 ≡ some (ok c1)
unfolding find_lowest_common_ancestor collect_merge_ancestry ancestry_fuel parents_left window_body
    unseen iterate lookup contains bytes_beq bytes_ltb lowest
lowest_of_both = refl

find_lowest_common_ancestor_sound_example :
    Ancestor the_rows c3 c1
    × Ancestor the_rows c2 c1
    × ((s t : Depths) × (near far : ℕ) × (collect_merge_ancestry 10 the_rows c3 ≡ some (ok s))
        × (collect_merge_ancestry 10 the_rows c2 ≡ some (ok t))
        × (lookup c1 s ≡ some near)
        × (lookup c1 t ≡ some far)
        × IsLowest s t (candidate c1 near far))
find_lowest_common_ancestor_sound_example =
    find_lowest_common_ancestor_sound 10 the_rows c3 c2 c1 lowest_of_both
