-- ===== src/Store/CommonAncestor.antt =====
-- The merge window of internal/server/storage/postgres/store.go: histories with depths, and the
-- lowest common ancestor of two of them.
use spool_rack.Prelude.{
  ℕ, suc, ◌+◌, Bytes, Bool, ◌&&◌, ◌||◌, Option, none, some, List, [], ◌∷◌, ◌++◌, ◌==◌, bytes_eq,
  nat_eq, contains, lookup, length, is_empty, if◌then◌else◌, bytes_ltb, ltb, leb,
}
use spool_rack.Prelude.Loop.{Next, finished, again, iterate}
use spool_rack.Fault.{
  Result, ok, err, commit_not_found, commit_history_incomplete, commit_history_too_deep,
  no_common_ancestor,
}
use spool_rack.Store.Tables.{CommitRow, Rows}
use spool_rack.Store.Ancestry.{unseen, ancestry_fuel}

-- Go's map from a commit to its depth, and the queue of commits with depths
abbrev pub Depths : Type 0
Depths = List (Bytes × ℕ)

abbrev pub commits_of : Depths → List Bytes
commits_of [] = []
commits_of ((id, depth) ∷ others) = id ∷ commits_of others

-- the parents that are not in the history yet, one step further away
abbrev pub put_at_depth : ℕ → List Bytes → Depths
put_at_depth depth [] = []
put_at_depth depth (id ∷ ids) = (id, depth) ∷ put_at_depth depth ids

pub record Window : Type 0 where
  pub history : Depths
  pub queue : Depths

abbrev pub enter_window :
    Bytes → ℕ → Depths → Depths → Option CommitRow → Next Window (Result Depths)
enter_window id depth history queue none =
    finished (err (if is_empty history then commit_not_found else commit_history_incomplete))
enter_window id depth history queue (some row) = again (record {
  history = (id, depth) ∷ history;
  queue = queue ++ put_at_depth (suc depth) (unseen (id ∷ commits_of history) row.parents);
})

abbrev pub window_next : ℕ → Rows → Depths → Depths → Next Window (Result Depths)
window_next limit rows history [] = finished (ok history)
window_next limit rows history ((id, depth) ∷ queue) =
    if contains (commits_of history) id
    then again (record { history = history; queue = queue })
    else if length history == limit
    then finished (err commit_history_too_deep)
    else enter_window id depth history queue (lookup id rows.commits)

-- one iteration of the loop of `collectMergeAncestry`
unfoldable pub window_body : ℕ → Rows → Window → Next Window (Result Depths)
window_body limit rows window = window_next limit rows window.history window.queue

-- `collectMergeAncestry`; its limit is `maxMergeAncestryCommits`
unfoldable pub collect_merge_ancestry : ℕ → Rows → Bytes → Option (Result Depths)
collect_merge_ancestry limit rows commit_id =
    iterate (window_body limit rows) (ancestry_fuel rows)
      (record { history = []; queue = (commit_id, 0) ∷ [] })

-- `ancestor`, `bestDistance` and `bestMaximumDepth`
pub record Best : Type 0 where
  pub id : Bytes
  pub distance : ℕ
  pub maximum : ℕ

abbrev pub larger : ℕ → ℕ → ℕ
larger a b = if leb a b then b else a

abbrev pub is_better : Best → Best → Bool
is_better new best =
    ltb new.distance best.distance
    || (new.distance == best.distance && ltb new.maximum best.maximum)
    || (new.distance == best.distance && new.maximum == best.maximum && bytes_ltb new.id best.id)

abbrev pub candidate : Bytes → ℕ → ℕ → Best
candidate id near far = record { id = id; distance = near + far; maximum = larger near far }

abbrev pub consider : Bytes → ℕ → Option ℕ → Option Best → Option Best
consider id depth none best = best
consider id depth (some other) none = some (candidate id depth other)
consider id depth (some other) (some best) =
    if is_better (candidate id depth other) best then some (candidate id depth other) else some best

-- the loop over the source's history; Go visits a map in an order that is not fixed
unfoldable pub lowest : Depths → Depths → Option Best → Option Best
lowest [] target best = best
lowest ((id, depth) ∷ others) target best =
    lowest others target (consider id depth (lookup id target) best)

abbrev pub ancestor_of : Option Best → Result Bytes
ancestor_of none = err no_common_ancestor
ancestor_of (some best) = if is_empty best.id then err no_common_ancestor else ok best.id

abbrev pub with_histories : Option (Result Depths) → Option (Result Depths) → Option (Result Bytes)
with_histories (some (ok source)) (some (ok target)) =
    some (ancestor_of (lowest source target none))
with_histories (some (ok source)) (some (err reason)) = some (err reason)
with_histories (some (err reason)) target = some (err reason)
with_histories _ _ = none

-- `FindLowestCommonAncestor`
unfoldable pub find_lowest_common_ancestor : ℕ → Rows → Bytes → Bytes → Option (Result Bytes)
find_lowest_common_ancestor limit rows source target =
    with_histories (collect_merge_ancestry limit rows source)
      (collect_merge_ancestry limit rows target)
