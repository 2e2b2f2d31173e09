-- ===== src/Store/AncestryEnds.antt =====
-- The loop over a history ends, however the parents are laid out.
use spool_rack.Prelude.{
  ℕ, ◌+◌, ◌≤◌, ◌<◌, Bytes, Bool, true, false, Option, none, some, List, [], ◌∷◌, ◌++◌, ◌≡◌, refl,
  ◌⊎◌, inl, inr, bytes_eq, contains, lookup, length, length-append, if◌then◌else◌, arith,
  Bool-cases, bytes_beq, bytes_beq_iff, nat_eq, sym, ap, subst,
}
use spool_rack.Prelude.Loop.{finished, again, iterate_ends}
use spool_rack.Fault.{Result, ok}
use spool_rack.Store.Tables.{CommitRow, Rows}
use spool_rack.Store.Ancestry.{
  Front, unseen, enter, ancestry_next, ancestry_body, parents_left, ancestry_fuel,
  commit_ancestry_ids, sorted,
}

length-unseen : (visited ids : List Bytes) → length (unseen visited ids) ≤ length ids
unfolding unseen
length-unseen visited [] = omega arith
length-unseen visited (id ∷ ids) = ground (arith, length-unseen visited ids)

parents_left-cons :
    (id : Bytes) (visited : List Bytes) (commits : List (Bytes × CommitRow))
    → parents_left (id ∷ visited) commits ≤ parents_left visited commits
unfolding parents_left contains
parents_left-cons id visited [] = omega arith
parents_left-cons id visited ((other, row) ∷ commits) =
    ground (arith, parents_left-cons id visited commits)

-- A commit's parents are read once.
parents_left-visit :
    (id : Bytes) (row : CommitRow) (visited : List Bytes) (commits : List (Bytes × CommitRow))
    → contains visited id ≡ false
    → lookup id commits ≡ some row
    → parents_left (id ∷ visited) commits + length row.parents ≤ parents_left visited commits
unfolding parents_left contains lookup
parents_left-visit id row visited [] new found = cc
parents_left-visit id row visited ((other, first) ∷ commits) new found =
    elim (Bool-cases (bytes_beq other id)) [
      | inl e ↦
          let is : other ≡ id = (bytes_beq_iff other id).0 e in
          let same : first ≡ row = this (first) (rw e at found) in
          let other_new = subst (λ x. contains visited x ≡ false) (sym is) new in
          let both = (bytes_beq_iff id other).1 (sym is) in
          rw (both, other_new)
            (omega (arith, parents_left-cons id visited commits, ap (λ r. length r.parents) same))
      | inr e ↦
          let rest = parents_left-visit id row visited commits new (rw e at found) in
          let differs = other_way id other e in ground (arith, rest, differs)
    ]
  where
    this : (x : CommitRow) → some x ≡ some row → x ≡ row
    this x h = cc

    other_way : (a b : Bytes) → bytes_beq b a ≡ false → bytes_beq a b ≡ false
    other_way a b h = ground (arith, bytes_beq_iff a b, bytes_beq_iff b a)

-- the front after a commit was visited
abbrev pub visit : Bytes → CommitRow → List Bytes → List Bytes → Front
visit current row visited queue = record {
  visited = current ∷ visited;
  queue = queue ++ unseen (current ∷ visited) row.parents;
}

module _ (limit : ℕ) (rows : Rows) where
  -- The loop goes on after a commit that was visited before, or that it visits now.
  pub next-eq-again :
      (visited queue : List Bytes) (t : Front)
      → ancestry_next limit rows visited queue ≡ again t
      → (current : Bytes) × (others : List Bytes) × (queue ≡ current ∷ others)
        × (((contains visited current ≡ true) × (t ≡ record { visited = visited; queue = others }))
            ⊎ ((row : CommitRow) × (contains visited current ≡ false)
                × (lookup current rows.commits ≡ some row)
                × (t ≡ visit current row visited others)))
  next-eq-again visited [] t h = cc
  next-eq-again visited (current ∷ others) t h = (
    current,
    others,
    refl,
    by_seen (contains visited current) (lookup current rows.commits) refl refl h,
  )
    where
      by_seen :
          (seen : Bool) (found : Option CommitRow)
          → contains visited current ≡ seen
          → lookup current rows.commits ≡ found
          → (if seen
              then again (record { visited = visited; queue = others })
              else enter limit visited current others found)
            ≡ again t
          → ((contains visited current ≡ true) × (t ≡ record { visited = visited; queue = others }))
            ⊎ ((row : CommitRow) × (contains visited current ≡ false)
                × (lookup current rows.commits ≡ some row)
                × (t ≡ visit current row visited others))
      by_seen true found e k h = inl (e, cc h)
      by_seen false none e k h = cc h
      by_seen false (some row) e k h = inr (row, e, k, ground arith)

  -- The loop ends without an error when the queue is empty.
  pub next-eq-ok :
      (visited queue ids : List Bytes)
      → ancestry_next limit rows visited queue ≡ finished (ok ids)
      → (queue ≡ []) × (ids ≡ visited)
  next-eq-ok visited [] ids h = (refl, cc h)
  next-eq-ok visited (current ∷ others) ids h = ground arith

  -- what is left to read, and to take from the queue
  abbrev pub work : Front → ℕ
  work front = parents_left front.visited rows.commits + length front.queue

  pub work-next :
      (s t : Front) → ancestry_body limit rows s ≡ again t → Unit {0} × (work t < work s)
  unfolding ancestry_body
  work-next s t h =
      let (current, others, is_queue, either) = next-eq-again s.visited s.queue t h in
      (
        tt,
        elim either [
          | inl (_, is) ↦ omega (arith, ap work is, ap length is_queue)
          | inr (row, new, found, is) ↦ omega (
            arith,
            ap work is,
            ap length is_queue,
            parents_left-visit current row s.visited rows.commits new found,
            length-append others (unseen (current ∷ s.visited) row.parents),
            length-unseen (current ∷ s.visited) row.parents,
          )
        ],
      )

  -- `CommitAncestryIDs` ends on every repository and every commit: its loop makes at most two
  -- iterations more than there are rows of `commit_parents`.
  pub commit_ancestry_ids_ends :
      (commit_id : Bytes)
      → (ends : Result (List Bytes)) × (commit_ancestry_ids limit rows commit_id ≡ some ends)
  unfolding commit_ancestry_ids ancestry_fuel
  commit_ancestry_ids_ends commit_id =
      let start : Front = record { visited = []; queue = commit_id ∷ [] } in
      let (r, ends) =
        iterate_ends (ancestry_body limit rows) (λ _. Unit {0}) work (λ s t _ h. work-next s t h)
          (ancestry_fuel rows) start tt (omega arith) in
      (sorted r, rw ends refl)
