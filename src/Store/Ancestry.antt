-- ===== src/Store/Ancestry.antt =====
-- Histories in internal/server/storage/postgres/store.go: the breadth-first loops over the parents of
-- commits, and the lowest common ancestor.
use spool_rack.Prelude.{
  ℕ, suc, ◌+◌, Bytes, Option, none, some, List, [], ◌∷◌, ◌++◌, ◌==◌, bytes_eq, nat_eq, contains,
  lookup, length, is_empty, if◌then◌else◌,
}
use spool_rack.Prelude.Sort.{sort_by}
use spool_rack.Prelude.Loop.{Next, finished, again, iterate}
use spool_rack.Fault.{
  Result, ok, err, commit_not_found, commit_history_incomplete, commit_history_too_deep,
}
use spool_rack.Store.Tables.{CommitRow, Rows}

-- the commits that were visited, and the queue
pub record Front : Type 0 where
  pub visited : List Bytes
  pub queue : List Bytes

-- the parents that are not visited yet
unfoldable pub unseen : List Bytes → List Bytes → List Bytes
unseen visited [] = []
unseen visited (id ∷ ids) =
    let rest = unseen visited ids in if contains visited id then rest else id ∷ rest

abbrev pub missing : List Bytes → Result (List Bytes)
missing visited = err (if is_empty visited then commit_not_found else commit_history_incomplete)

abbrev pub enter :
    ℕ → List Bytes → Bytes → List Bytes → Option CommitRow → Next Front (Result (List Bytes))
enter limit visited current queue none = finished (missing visited)
enter limit visited current queue (some row) =
    if length visited == limit
    then finished (err commit_history_too_deep)
    else again (record {
      visited = current ∷ visited;
      queue = queue ++ unseen (current ∷ visited) row.parents;
    })

abbrev pub ancestry_next : ℕ → Rows → List Bytes → List Bytes → Next Front (Result (List Bytes))
ancestry_next limit rows visited [] = finished (ok visited)
ancestry_next limit rows visited (current ∷ queue) =
    if contains visited current
    then again (record { visited = visited; queue = queue })
    else enter limit visited current queue (lookup current rows.commits)

-- one iteration of the loop of `CommitAncestryIDs`
unfoldable pub ancestry_body : ℕ → Rows → Front → Next Front (Result (List Bytes))
ancestry_body limit rows front = ancestry_next limit rows front.visited front.queue

abbrev pub sorted : Result (List Bytes) → Result (List Bytes)
sorted (ok ids) = ok (sort_by (λ id. id) ids)
sorted (err reason) = err reason

abbrev pub sorted_end : Option (Result (List Bytes)) → Option (Result (List Bytes))
sorted_end none = none
sorted_end (some ends) = some (sorted ends)

-- the rows of `commit_parents` that the loop may still read
unfoldable pub parents_left : List Bytes → List (Bytes × CommitRow) → ℕ
parents_left visited [] = 0
parents_left visited ((id, row) ∷ commits) =
    let rest = parents_left visited commits in
    if contains visited id then rest else length row.parents + rest

-- enough iterations for any history in the rows
unfoldable pub ancestry_fuel : Rows → ℕ
ancestry_fuel rows = suc (suc (parents_left [] rows.commits))

-- `CommitAncestryIDs`; its limit is `maxRetentionAncestryCommits`
unfoldable pub commit_ancestry_ids : ℕ → Rows → Bytes → Option (Result (List Bytes))
commit_ancestry_ids limit rows commit_id = sorted_end (
    iterate (ancestry_body limit rows) (ancestry_fuel rows)
      (record { visited = []; queue = commit_id ∷ [] }))
