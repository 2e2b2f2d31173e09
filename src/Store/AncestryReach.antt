-- ===== src/Store/AncestryReach.antt =====
-- What `CommitAncestryIDs` collects is the history of the commit.
use spool_rack.Prelude.{
  ℕ, Bytes, Bool, true, false, ◌&&◌, ◌||◌, not, Option, none, some, List, [], ◌∷◌, ◌≡◌, ◌↔◌, refl,
  sym, ap, subst, ◌∙◌, ◌⊎◌, inl, inr, bytes_eq, contains, contains-append, lookup, arith,
  Bool-cases, bytes_beq, bytes_beq_iff,
}
use spool_rack.Prelude.Sort.{sort_by, sort_by-contains}
use spool_rack.Prelude.Loop.{again, iterate, iterate_rule}
use spool_rack.Fault.{Result, ok, err}
use spool_rack.Store.Tables.{CommitRow, Rows}
use spool_rack.Store.Ancestry.{
  Front, unseen, ancestry_body, ancestry_fuel, commit_ancestry_ids, sorted_end,
}
use spool_rack.Store.AncestryEnds.{visit, next-eq-again, next-eq-ok}

-- The second commit is the first or is reached from it along parents.
pub data Ancestor (rows : Rows) : Bytes → Bytes → Type 0 where
  itself : {id : Bytes} → Ancestor rows id id
  older :
      {id ancestor : Bytes} (row : CommitRow) (parent : Bytes)
      → lookup id rows.commits ≡ some row
      → contains row.parents parent ≡ true
      → Ancestor rows parent ancestor
      → Ancestor rows id ancestor

pub one_older :
    (rows : Rows) (id middle parent : Bytes) (row : CommitRow)
    → Ancestor rows id middle
    → lookup middle rows.commits ≡ some row
    → contains row.parents parent ≡ true
    → Ancestor rows id parent
one_older rows id middle parent row itself found is_parent = older row parent found is_parent itself
one_older rows id middle parent row (older first next held among path) found is_parent =
    older first next held among (one_older rows next middle parent row path found is_parent)

contains-unseen :
    (visited ids : List Bytes) (id : Bytes)
    → contains (unseen visited ids) id ≡ (contains ids id && not (contains visited id))
unfolding unseen contains
contains-unseen visited [] id = refl
contains-unseen visited (first ∷ ids) id =
    ground (arith, contains-unseen visited ids id, bytes_beq_iff first id)

front_or_parent : (a b c : Bool) → (a || b || c) ≡ true → ((a || b) ≡ true) ⊎ (c ≡ true)
front_or_parent a b c h = ground arith

last_true : (a b c : Bool) → c ≡ true → (a || b || c) ≡ true
last_true a b c h = ground arith

one_row : (a b : CommitRow) → some a ≡ some b → a ≡ b
one_row a b h = cc

sorted_end-eq-ok :
    (ends : Option (Result (List Bytes))) (ids : List Bytes)
    → sorted_end ends ≡ some (ok ids)
    → (found : List Bytes) × (ends ≡ some (ok found)) × (ids ≡ sort_by (λ x. x) found)
sorted_end-eq-ok none ids h = cc
sorted_end-eq-ok (some (ok found)) ids h = (found, refl, cc h)
sorted_end-eq-ok (some (err reason)) ids h = cc

abbrev pub InFront : Front → Bytes → Type 0
InFront front id = (contains front.visited id || contains front.queue id) ≡ true

module _ (limit : ℕ) (rows : Rows) (start : Bytes) where
  -- Only the history is seen, the start is seen, and so is each parent of a visited commit.
  pub record Explores (front : Front) : Type 0 where
    pub sound : (id : Bytes) → InFront front id → Ancestor rows start id
    pub from_start : InFront front start
    pub closed :
        (id : Bytes) (row : CommitRow) (parent : Bytes)
        → contains front.visited id ≡ true
        → lookup id rows.commits ≡ some row
        → contains row.parents parent ≡ true
        → InFront front parent

  Explores-drop :
      (visited others : List Bytes) (current : Bytes)
      → contains visited current ≡ true
      → Explores (record { visited = visited; queue = current ∷ others })
      → Explores (record { visited = visited; queue = others })
  unfolding contains
  Explores-drop visited others current seen h = record {
    sound = λ id k. h.sound id (ground arith);
    from_start = same start h.from_start;
    closed = λ id row parent v found among. same parent (h.closed id row parent v found among);
  }
    where
      same :
          (id : Bytes)
          → InFront (record { visited = visited; queue = current ∷ others }) id
          → InFront (record { visited = visited; queue = others }) id
      same id k = ground (arith, bytes_beq_iff current id, seen)

  -- what the front holds once the commit was visited
  in_visit :
      (visited others : List Bytes) (current id : Bytes) (row : CommitRow)
      → (contains (visit current row visited others).visited id
          || contains (visit current row visited others).queue id)
        ≡ (contains visited id || contains (current ∷ others) id || contains row.parents id)
  unfolding contains
  in_visit visited others current id row = ground (
    arith,
    contains-append others (unseen (current ∷ visited) row.parents) id,
    contains-unseen (current ∷ visited) row.parents id,
  )

  Explores-visit :
      (visited others : List Bytes) (current : Bytes) (row : CommitRow)
      → lookup current rows.commits ≡ some row
      → Explores (record { visited = visited; queue = current ∷ others })
      → Explores (visit current row visited others)
  Explores-visit visited others current row held h = record {
    sound = λ id k. sound id (sym (in_visit visited others current id row) ∙ k);
    from_start = wider start h.from_start;
    closed = λ id found_row parent v found among. closed id found_row parent v found among;
  }
    where
      wider :
          (id : Bytes)
          → InFront (record { visited = visited; queue = current ∷ others }) id
          → InFront (visit current row visited others) id
      wider id k = in_visit visited others current id row ∙ ground arith

      sound :
          (id : Bytes)
          → (contains visited id || contains (current ∷ others) id || contains row.parents id)
            ≡ true
          → Ancestor rows start id
      sound id k =
          elim (front_or_parent (contains visited id) (contains (current ∷ others) id)
            (contains row.parents id) k) [
              | inl q ↦ h.sound id q
              | inr among ↦
                  one_older rows start current id row (h.sound current current_there) held among
            ]
        where
          current_there : InFront (record { visited = visited; queue = current ∷ others }) current
          current_there = unfold contains in ground (arith, bytes_beq_iff current current)

      closed :
          (id : Bytes) (found_row : CommitRow) (parent : Bytes)
          → contains (current ∷ visited) id ≡ true
          → lookup id rows.commits ≡ some found_row
          → contains found_row.parents parent ≡ true
          → InFront (visit current row visited others) parent
      closed id found_row parent v found among = elim (Bool-cases (bytes_beq current id)) [
        | inl e ↦
            let is : current ≡ id = (bytes_beq_iff current id).0 e in
            let same : row ≡ found_row =
              one_row row found_row
                (sym held ∙ subst (λ x. lookup x rows.commits ≡ some found_row) (sym is) found) in
            let mine : contains row.parents parent ≡ true =
              subst (λ r. contains r.parents parent ≡ true) (sym same) among in
            in_visit visited others current parent row
            ∙ last_true (contains visited parent) (contains (current ∷ others) parent)
                (contains row.parents parent) mine
        | inr e ↦
            wider parent
              (h.closed id found_row parent (unfold contains in ground arith) found among)
      ]

  pub Explores-next : (s t : Front) → Explores s → ancestry_body limit rows s ≡ again t → Explores t
  unfolding ancestry_body
  Explores-next s t h k =
      let (current, others, is_queue, either) = next-eq-again limit rows s.visited s.queue t k in
      let h' : Explores (record { visited = s.visited; queue = current ∷ others }) =
        subst (λ q. Explores (record { visited = s.visited; queue = q })) is_queue h in
      elim either [
        | inl (seen, is) ↦ subst Explores (sym is) (Explores-drop s.visited others current seen h')
        | inr (row, _, found, is) ↦
            subst Explores (sym is) (Explores-visit s.visited others current row found h')
      ]

  pub Explores-start : Explores (record { visited = []; queue = start ∷ [] })
  unfolding contains
  Explores-start = record {
    sound = λ id k. subst (Ancestor rows start) (only id k) itself;
    from_start = ground (arith, bytes_beq_iff start start);
    closed = λ id row parent v found among. cc;
  }
    where
      only : (id : Bytes) → InFront (record { visited = []; queue = start ∷ [] }) id → start ≡ id
      only id k = ground (arith, bytes_beq_iff start id)

  -- A closed set that has the start has the whole history.
  complete :
      (visited : List Bytes) (id : Bytes)
      → Explores (record { visited = visited; queue = [] })
      → (from : Bytes) → contains visited from ≡ true
      → Ancestor rows from id
      → contains visited id ≡ true
  unfolding contains
  complete visited id h from k itself = k
  complete visited id h from k (older row parent found among path) =
      complete visited id h parent
        (no_queue (contains visited parent) (h.closed from row parent k found among)) path
    where
      no_queue : (b : Bool) → (b || false) ≡ true → b ≡ true
      no_queue b h = ground arith

  collected :
      (ids : List Bytes)
      → commit_ancestry_ids limit rows start ≡ some (ok ids)
      → (visited : List Bytes) × (ids ≡ sort_by (λ x. x) visited)
        × Explores (record { visited = visited; queue = [] })
  unfolding commit_ancestry_ids ancestry_body
  collected ids h =
      let front : Front = record { visited = []; queue = start ∷ [] } in
      let (found, ends, is) =
        sorted_end-eq-ok (iterate (ancestry_body limit rows) (ancestry_fuel rows) front) ids h in
      let (last, explored, final) =
        iterate_rule (ancestry_body limit rows) Explores Explores-next (ancestry_fuel rows) front
          (ok found) Explores-start ends in
      let (empty, same) = next-eq-ok limit rows last.visited last.queue found final in
      (
        last.visited,
        is ∙ ap (sort_by (λ x. x)) same,
        subst (λ q. Explores (record { visited = last.visited; queue = q })) empty explored,
      )

  -- If `CommitAncestryIDs` returns without an error, a commit is in its answer exactly when it is the
  -- given commit or is reached from it along parents.
  pub commit_ancestry_ids_iff :
      (ids : List Bytes)
      → commit_ancestry_ids limit rows start ≡ some (ok ids)
      → (id : Bytes) → (contains ids id ≡ true) ↔ Ancestor rows start id
  unfolding contains
  commit_ancestry_ids_iff ids h id =
      let (visited, is, explored) = collected ids h in
      let same = ap (λ l. contains l id) is ∙ sort_by-contains (λ x. x) visited id in
      (
        λ k. explored.sound id (or_left (contains visited id) (sym same ∙ k)),
        λ path.
            same
            ∙ complete visited id explored start
                (without (contains visited start) explored.from_start) path,
      )
    where
      or_left : (b : Bool) → b ≡ true → (b || false) ≡ true
      or_left b h = ground arith

      without : (b : Bool) → (b || false) ≡ true → b ≡ true
      without b h = ground arith
