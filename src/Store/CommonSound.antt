-- ===== src/Store/CommonSound.antt =====
-- The lowest common ancestor is one, and none is lower.
use spool_rack.Prelude.{
  ℕ, suc, ◌≤◌, Bytes, Bool, true, false, ◌||◌, Option, none, some, List, [], ◌∷◌, ◌++◌, ◌==◌,
  bytes_ltb, bytes_ltb_trans, bytes_ltb_split, IsNodup, ◌≡◌, refl, sym, ap, subst, ◌∙◌, bytes_eq,
  nat_eq, contains, lookup, length, if◌then◌else◌, arith,
}
use spool_rack.Prelude.Loop.{Next, finished, again, iterate_rule, iterate_ends}
use spool_rack.Fault.{Result, ok, err, commit_history_too_deep}
use spool_rack.Store.Tables.{CommitRow, Rows}
use spool_rack.Store.Ancestry.{Front, unseen, ancestry_next, ancestry_body, ancestry_fuel}
use spool_rack.Store.AncestryEnds.{work, work-next}
use spool_rack.Store.AncestryReach.{Ancestor, Explores, Explores-next, Explores-start}
use spool_rack.Store.CommonAncestor.{
  Depths, commits_of, put_at_depth, Window, enter_window, window_next, window_body,
  collect_merge_ancestry, Best, candidate, consider, with_histories, find_lowest_common_ancestor,
}

-- the window without its depths
abbrev front_of : Window → Front
front_of window = record { visited = commits_of window.history; queue = commits_of window.queue }

commits_of-append : (xs ys : Depths) → commits_of (xs ++ ys) ≡ commits_of xs ++ commits_of ys
commits_of-append [] ys = refl
commits_of-append ((id, depth) ∷ xs) ys = ap (◌∷◌ id) (commits_of-append xs ys)

commits_of-put_at_depth : (depth : ℕ) (ids : List Bytes) → commits_of (put_at_depth depth ids) ≡ ids
commits_of-put_at_depth depth [] = refl
commits_of-put_at_depth depth (id ∷ ids) = ap (◌∷◌ id) (commits_of-put_at_depth depth ids)

length-commits_of : (xs : Depths) → length (commits_of xs) ≡ length xs
length-commits_of [] = refl
length-commits_of ((id, depth) ∷ xs) = ap suc (length-commits_of xs)

window_is : (s t : Window) → ◌≡◌ {A = Next Window (Result Depths)} (again s) (again t) → s ≡ t
window_is s t h = cc

module _ (limit : ℕ) (rows : Rows) where
  -- Without the depths, the loop of the window is the loop over a history.
  next-front :
      (history queue : Depths) (t : Window)
      → window_next limit rows history queue ≡ again t
      → ancestry_next limit rows (commits_of history) (commits_of queue) ≡ again (front_of t)
  next-front history [] t h = cc h
  next-front history ((id, depth) ∷ queue) t h =
      by_found (contains (commits_of history) id) (lookup id rows.commits) (length history == limit)
        refl refl refl h
    where
      visited_front :
          (row : CommitRow)
          → ◌≡◌ {A = Front}
              (record {
                visited = id ∷ commits_of history;
                queue = commits_of queue ++ unseen (id ∷ commits_of history) row.parents;
              })
              (front_of (record {
                history = (id, depth) ∷ history;
                queue =
                    queue
                    ++ put_at_depth (suc depth) (unseen (id ∷ commits_of history) row.parents);
              }))
      visited_front row =
          let new = unseen (id ∷ commits_of history) row.parents in
          rw
            (
              commits_of-append queue (put_at_depth (suc depth) new),
              commits_of-put_at_depth (suc depth) new,
            )
            refl

      by_found :
          (seen : Bool) (found : Option CommitRow) (full : Bool)
          → contains (commits_of history) id ≡ seen
          → lookup id rows.commits ≡ found
          → (length history == limit) ≡ full
          → (if seen
              then again (record { history = history; queue = queue })
              else if full
              then finished (err commit_history_too_deep)
              else enter_window id depth history queue found)
            ≡ again t
          → ancestry_next limit rows (commits_of history) (id ∷ commits_of queue)
            ≡ again (front_of t)
      by_found true found full e k f h = rw e (ap (λ w. again (front_of w)) (window_is _ t h))
      by_found false found true e k f h = cc h
      by_found false none false e k f h = cc h
      by_found false (some row) false e k f h =
          let is = window_is _ t h in
          rw (e, k, length-commits_of history, f) (ap again (visited_front row ∙ ap front_of is))

  front-body :
      (s t : Window)
      → window_body limit rows s ≡ again t
      → ancestry_body limit rows (front_of s) ≡ again (front_of t)
  unfolding window_body ancestry_body
  front-body s t h = next-front s.history s.queue t h

  next-done :
      (history queue found : Depths)
      → window_next limit rows history queue ≡ finished (ok found)
      → (queue ≡ []) × (found ≡ history)
  next-done history [] found h = (refl, cc h)
  next-done history ((id, depth) ∷ queue) found h = ground arith

  collect_ends :
      (start : Bytes)
      → (ends : Result Depths) × (collect_merge_ancestry limit rows start ≡ some ends)
  unfolding collect_merge_ancestry ancestry_fuel
  collect_ends start =
      iterate_ends (window_body limit rows) (λ _. Unit {0}) (λ w. work limit rows (front_of w))
        (λ s t _ h. work-next limit rows (front_of s) (front_of t) (front-body s t h))
        (ancestry_fuel rows) (record { history = []; queue = (start, 0) ∷ [] }) tt (omega arith)

  -- A collected history holds ancestors alone.
  pub collected_ancestors :
      (start : Bytes) (found : Depths)
      → collect_merge_ancestry limit rows start ≡ some (ok found)
      → (id : Bytes) → contains (commits_of found) id ≡ true
      → Ancestor rows start id
  unfolding collect_merge_ancestry window_body
  collected_ancestors start found h id k =
      let (last, explored, final) =
        iterate_rule (window_body limit rows) (λ w. Explores limit rows start (front_of w))
          (λ s t e g. Explores-next limit rows start (front_of s) (front_of t) e (front-body s t g))
          (ancestry_fuel rows) (record { history = []; queue = (start, 0) ∷ [] }) (ok found)
          (Explores-start limit rows start) h in
      let (_, same) = next-done last.history last.queue found final in
      explored.sound id (in_history _ _ (subst (λ x. contains (commits_of x) id ≡ true) same k))
    where
      in_history : (a b : Bool) → a ≡ true → (a || b) ≡ true
      in_history a b h = ground arith

  next-IsNodup :
      (history queue : Depths) (t : Window)
      → IsNodup (commits_of history)
      → window_next limit rows history queue ≡ again t
      → IsNodup (commits_of t.history)
  next-IsNodup history [] t once h = cc h
  next-IsNodup history ((id, depth) ∷ queue) t once h =
      by_found (contains (commits_of history) id) (lookup id rows.commits) (length history == limit)
        refl h
    where
      by_found :
          (seen : Bool) (found : Option CommitRow) (full : Bool)
          → contains (commits_of history) id ≡ seen
          → (if seen
              then again (record { history = history; queue = queue })
              else if full
              then finished (err commit_history_too_deep)
              else enter_window id depth history queue found)
            ≡ again t
          → IsNodup (commits_of t.history)
      by_found true found full e h =
          subst (λ w. IsNodup (commits_of w.history)) (window_is _ t h) once
      by_found false found true e h = cc h
      by_found false none false e h = cc h
      by_found false (some row) false e h =
          subst (λ w. IsNodup (commits_of w.history)) (window_is _ t h) (e, once)

  -- A collected history lists a commit once.
  pub collected-IsNodup :
      (start : Bytes) (found : Depths)
      → collect_merge_ancestry limit rows start ≡ some (ok found)
      → IsNodup (commits_of found)
  unfolding collect_merge_ancestry window_body
  collected-IsNodup start found h =
      let (last, once, final) =
        iterate_rule (window_body limit rows) (λ w. IsNodup (commits_of w.history))
          (λ s t p k. next-IsNodup s.history s.queue t p k) (ancestry_fuel rows)
          (record { history = []; queue = (start, 0) ∷ [] }) (ok found) tt h in
      subst (λ x. IsNodup (commits_of x)) (sym (next-done last.history last.queue found final).1)
        once

  -- `FindLowestCommonAncestor` ends on every repository and any two commits.
  pub find_lowest_common_ancestor_ends :
      (source target : Bytes)
      → (ends : Result Bytes) × (find_lowest_common_ancestor limit rows source target ≡ some ends)
  unfolding find_lowest_common_ancestor
  find_lowest_common_ancestor_ends source target =
      let (s, s_ends) = collect_ends source in
      let (t, t_ends) = collect_ends target in rw (s_ends, t_ends) (both s t)
    where
      both :
          (s t : Result Depths)
          → (ends : Result Bytes) × (with_histories (some s) (some t) ≡ some ends)
      both (ok a) (ok b) = (_, refl)
      both (ok a) (err e) = (_, refl)
      both (err e) t = (_, refl)

-- The other is not nearer in sum; nor as near with a smaller maximum; nor the same in both with an
-- earlier id.
abbrev pub NoBetter : Best → Best → Type 0
NoBetter best other =
    (best.distance ≤ other.distance)
    × (best.distance ≡ other.distance → best.maximum ≤ other.maximum)
    × (best.distance ≡ other.distance
        → best.maximum ≡ other.maximum
        → bytes_ltb other.id best.id ≡ false)

-- what the loop may hold when it starts
abbrev pub AtMost : Option Best → Best → Type 0
AtMost none best = Unit
AtMost (some before) best = NoBetter best before

pub consider-NoBetter :
    (id : Bytes) (depth other : ℕ) (before : Option Best) (best : Best)
    → AtMost (consider id depth (some other) before) best
    → NoBetter best (candidate id depth other) × AtMost before best
consider-NoBetter id depth other none best h = (h, tt)
consider-NoBetter id depth other (some before) best h = ground (
  arith,
  bytes_ltb_trans before.id best.id id,
  bytes_ltb_trans id before.id best.id,
  bytes_ltb_trans before.id id best.id,
  bytes_ltb_split id before.id best.id,
  bytes_ltb_split before.id id best.id,
)
