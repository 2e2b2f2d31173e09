-- ===== src/Tests/RetentionRuns.antt =====
-- The properties of a collection, at a store with one branch and two packs.
use spool_rack.Prelude.{
  codes, is_empty, true, false, some, List, [], ◌∷◌, ◌≡◌, ◌⊎◌, ◌↔◌, refl, All, bytes_beq, bytes_eq,
  lookup,
}
use spool_rack.Fault.{Error, ok, err}
use spool_rack.Retention.Defs.{
  NativePack, Answers, Reached, survey, collect, reach, is_retained, add_branches, add_commit_root,
  add_roots, rooted_packs,
}
use spool_rack.Prelude.{contains}
use spool_rack.Prelude.Sort.{sort_by, insert_by}
use spool_rack.Cas.Scope.{new_scope, validate_scope_segment, matches_pattern}
use spool_rack.Retention.Defs.{Report, retained_of, candidates_of, sweep}
use spool_rack.Retention.DryRun.{collect-dry_run}
use spool_rack.Retention.Safety.{Spares, collect_safe}
use spool_rack.Retention.Reach.{Roots, ReachesCommit, ReachesPack, is_retained_iff}

abbrev kept_pack : NativePack
kept_pack = record { pack_id = codes "p1"; cas_pack_hash = codes "h1"; commit_id = codes "c1" }

abbrev dropped_pack : NativePack
dropped_pack = record { pack_id = codes "p2"; cas_pack_hash = codes "h2"; commit_id = codes "c9" }

abbrev answers : Answers
answers = record {
  set_tenant = ok tt;
  branches = ok (record { name = codes "main"; head_commit_id = codes "c2"; deleted = false } ∷ []);
  ancestry = λ c. ok (codes "c1" ∷ c ∷ []);
  transactions = ok [];
  audit_records = ok (record { id = codes "a"; commit_id = []; object_id = codes "o1" } ∷ []);
  object_to_pack = ok ((codes "o1", codes "p3") ∷ []);
  packs = ok (kept_pack ∷ dropped_pack ∷ []);
  delete_rows_ends = λ id. ok tt;
  delete_blob_ends = λ hash. ok tt;
}

abbrev reached : Reached
reached = record { commits = codes "c1" ∷ codes "c2" ∷ codes "c2" ∷ []; pack_ids = codes "p3" ∷ [] }

reaches : reach answers ≡ ok reached
unfolding reach add_branches add_commit_root add_roots rooted_packs lookup bytes_beq
reaches = refl

collect_safe_example :
    ((e : Error) × (survey answers (some true) (codes "t") (codes "r") ≡ err e)
      × ((collect answers (some true) (codes "t") (codes "r") false).1 ≡ []))
    ⊎ ((r : Reached) × (packs : List NativePack) × (survey answers
            (some true)
            (codes "t")
            (codes "r")
          ≡ ok (r, packs))
        × All (Spares r packs) (collect answers (some true) (codes "t") (codes "r") false).1)
collect_safe_example = collect_safe answers (some true) (codes "t") (codes "r") false

is_retained_iff_example :
    (s : Roots answers) × ((pack : NativePack)
      → (is_retained reached pack ≡ true) ↔ (
          ((is_empty pack.commit_id ≡ false) × ReachesCommit answers s pack.commit_id)
          ⊎ ReachesPack answers s pack.pack_id))
is_retained_iff_example = is_retained_iff answers reached reaches

abbrev a_report : Report
a_report = record {
  tenant_id = codes "t";
  repo_id = codes "r";
  dry_run = false;
  retained = record { pack_id = codes "p1"; cas_pack_hash = codes "h1" } ∷ [];
  collected =
      record { pack_id = codes "p2"; cas_pack_hash = codes "h2"; cas_blob_collected = true } ∷ [];
}

collects : (collect answers (some true) (codes "t") (codes "r") false).0 ≡ ok a_report
unfolding collect survey reach add_branches add_commit_root add_roots rooted_packs lookup contains
    is_retained retained_of candidates_of sweep sort_by insert_by new_scope validate_scope_segment
    matches_pattern bytes_beq
collects = refl

collect-dry_run_example :
    collect answers (some true) (codes "t") (codes "r") true
    ≡ (ok (record a_report { dry_run = true }), [])
collect-dry_run_example =
    collect-dry_run answers (some true) (codes "t") (codes "r") a_report collects
