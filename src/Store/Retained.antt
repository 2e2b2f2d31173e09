-- ===== src/Store/Retained.antt =====
-- A collection over the store: internal/server/retention/retention.go reads the branches by
-- `ListBranchRefs` and the histories by `CommitAncestryIDs`.
use spool_rack.Prelude.{
  ℕ, Bytes, Bool, true, false, Option, none, some, List, [], ◌∷◌, ◌≡◌, refl, sym, ap, subst, ◌∙◌,
  ◌⊎◌, inl, inr, bytes_eq, contains, lookup, arith, is_empty, Any, Any-weaken, ◌==◌, if◌then◌else◌,
  Bool-cases,
}
use spool_rack.Prelude.Sort.{sort_by-Any}
use spool_rack.Prelude.Loop.{finished, again, iterate, iterate_rule}
use spool_rack.Fault.{Error, Result, ok, err, bind-eq-ok, commit_not_found, commit_history_too_deep}
use spool_rack.Retention.Defs.{
  BranchRef, NativePack, Answers, Reached, extend, add_commit_root, add_branches, reach,
  is_retained,
}
use spool_rack.Retention.Sets.{contains-Any, Covers}
use spool_rack.Retention.Reach.{reach-IsClosure}
use spool_rack.Store.Tables.{CommitRow, Branch, Rows}
use spool_rack.Store.Branches.{refs_of, list_branch_refs}
use spool_rack.Store.Ancestry.{
  Front, ancestry_next, ancestry_body, ancestry_fuel, commit_ancestry_ids, sorted_end, enter,
}
use spool_rack.Store.AncestryEnds.{next-eq-again, commit_ancestry_ids_ends}
use spool_rack.Store.AncestryReach.{Ancestor, itself, older, commit_ancestry_ids_iff}

-- the fuel suffices, so the first case does not arise
abbrev pub returned : Option (Result (List Bytes)) → Result (List Bytes)
returned none = err commit_history_too_deep
returned (some ends) = ends

-- what `CommitAncestryIDs` returns
abbrev pub ancestry_of : ℕ → Rows → Bytes → Result (List Bytes)
ancestry_of limit rows commit_id = returned (commit_ancestry_ids limit rows commit_id)

ancestry_of_is :
    (limit : ℕ) (rows : Rows) (id : Bytes)
    → commit_ancestry_ids limit rows id ≡ some (ancestry_of limit rows id)
ancestry_of_is limit rows id =
    let (ends, e) = commit_ancestry_ids_ends limit rows id in e ∙ ap some (sym (ap returned e))

abbrev IsStarting : Bytes → Front → Type 0
IsStarting start front = is_empty front.visited ≡ true → front.queue ≡ start ∷ []

module _ (limit : ℕ) (rows : Rows) (start : Bytes) where
  IsStarting-next :
      (s t : Front) → IsStarting start s → ancestry_body limit rows s ≡ again t → IsStarting start t
  unfolding ancestry_body contains
  IsStarting-next s t h k =
      let (current, others, _, either) = next-eq-again limit rows s.visited s.queue t k in
      elim either [
        | inl (seen, is) ↦
            subst (IsStarting start) (sym is)
              (λ empty. absurd (nothing s.visited current empty seen))
        | inr (row, _, _, is) ↦ subst (IsStarting start) (sym is) (λ empty. cc)
      ]
    where
      nothing :
          (visited : List Bytes) (id : Bytes)
          → is_empty visited ≡ true
          → contains visited id ≡ true
          → ⊥
      nothing [] id e h = cc h
      nothing (x ∷ xs) id e h = cc e

  not_found-next :
      (visited queue : List Bytes)
      → (is_empty visited ≡ true → queue ≡ start ∷ [])
      → ancestry_next limit rows visited queue ≡ finished (err commit_not_found)
      → lookup start rows.commits ≡ none
  not_found-next visited [] h k = cc k
  not_found-next visited (current ∷ others) h k =
      by_found (contains visited current) (lookup current rows.commits) refl k
    where
      start_is : current ∷ others ≡ start ∷ [] → current ≡ start
      start_is e = cc

      by_found :
          (seen : Bool) (found : Option CommitRow)
          → lookup current rows.commits ≡ found
          → (if seen
              then again (record { visited = visited; queue = others })
              else enter limit visited current others found)
            ≡ finished (err commit_not_found)
          → lookup start rows.commits ≡ none
      by_found true found e k = cc k
      by_found false none e k =
          subst (λ x. lookup x rows.commits ≡ none) (start_is (h (ground arith))) e
      by_found false (some row) e k = ground arith

  -- The store finds no history only for a commit that it does not have.
  not_found :
      commit_ancestry_ids limit rows start ≡ some (err commit_not_found)
      → lookup start rows.commits ≡ none
  unfolding commit_ancestry_ids ancestry_body
  not_found h =
      let front : Front = record { visited = []; queue = start ∷ [] } in
      let ends =
        sorted_end-eq-err (iterate (ancestry_body limit rows) (ancestry_fuel rows) front)
          commit_not_found h in
      let (last, starting, final) =
        iterate_rule (ancestry_body limit rows) (IsStarting start) IsStarting-next
          (ancestry_fuel rows) front (err commit_not_found) (λ _. refl) ends in
      not_found-next last.visited last.queue starting final
    where
      sorted_end-eq-err :
          (ends : Option (Result (List Bytes))) (e : Error)
          → sorted_end ends ≡ some (err e)
          → ends ≡ some (err e)
      sorted_end-eq-err none e h = cc
      sorted_end-eq-err (some (ok found)) e h = cc
      sorted_end-eq-err (some (err reason)) e h = h

asked_one :
    (ancestry : Bytes → Result (List Bytes)) (set set' : List Bytes) (head : Bytes)
    → is_empty head ≡ false
    → add_commit_root ancestry set head ≡ ok set'
    → ((ids : List Bytes) × (ancestry head ≡ ok ids)) ⊎ (ancestry head ≡ err commit_not_found)
unfolding add_commit_root
asked_one ancestry set set' head nonempty h = by_answer (ancestry head) refl (rw nonempty at h)
  where
    by_answer :
        (answer : Result (List Bytes))
        → ancestry head ≡ answer
        → extend set head answer ≡ ok set'
        → ((ids : List Bytes) × (ancestry head ≡ ok ids)) ⊎ (ancestry head ≡ err commit_not_found)
    by_answer (ok ids) e k = inl (ids, e)
    by_answer (err commit_not_found) e k = inr e
    by_answer (err _) e k = cc k

-- the loop over the branches asked for the history of each of them
asked :
    (ancestry : Bytes → Result (List Bytes)) (set set' : List Bytes) (branches : List BranchRef)
    (head : Bytes)
    → add_branches ancestry set branches ≡ ok set'
    → Any (λ b. b.head_commit_id ≡ head) branches
    → is_empty head ≡ false
    → ((ids : List Bytes) × (ancestry head ≡ ok ids)) ⊎ (ancestry head ≡ err commit_not_found)
unfolding add_branches
asked ancestry set set' [] head h k nonempty = absurd k
asked ancestry set set' (branch ∷ branches) head h k nonempty =
    let (middle, first, rest) =
      bind-eq-ok (add_commit_root ancestry set branch.head_commit_id) _ h in
    elim k [
      | inl is ↦
          asked_one ancestry set middle head nonempty
            (subst (λ x. add_commit_root ancestry set x ≡ ok middle) is first)
      | inr among ↦ asked ancestry middle set' branches head rest among nonempty
    ]

refs_of-Any :
    (name : Bytes) (branch : Branch) (branches : List (Bytes × Branch))
    → lookup name branches ≡ some branch
    → Any (λ b. b.head_commit_id ≡ branch.head) (refs_of branches)
unfolding lookup
refs_of-Any name branch [] h = cc h
refs_of-Any name branch ((other, first) ∷ branches) h = elim (Bool-cases (other == name)) [
  | inl e ↦ inl (head_of first (rw e at h))
  | inr e ↦ inr (refs_of-Any name branch branches (rw e at h))
]
  where
    head_of : (b : Branch) → some b ≡ some branch → b.head ≡ branch.head
    head_of b h = let is : b ≡ branch = cc h in ap (λ x. x.head) is

module _ (limit : ℕ) (rows : Rows) (a : Answers) where
  covers :
      ((id : Bytes) → a.ancestry id ≡ ancestry_of limit rows id)
      → (head id : Bytes) → is_empty head ≡ false
      → Ancestor rows head id
      → ((ids : List Bytes) × (a.ancestry head ≡ ok ids)) ⊎ (a.ancestry head ≡ err commit_not_found)
      → Covers a.ancestry (λ x. x ≡ id) head
  covers are head id nonempty path (inl (ids, answered)) =
      let ended : commit_ancestry_ids limit rows head ≡ some (ok ids) =
        ancestry_of_is limit rows head ∙ ap some (sym (are head) ∙ answered) in
      (
        nonempty,
        inr (
          ids,
          answered,
          (contains-Any ids id).0 ((commit_ancestry_ids_iff limit rows head ids ended id).1 path),
        ),
      )
  covers are head id nonempty path (inr unknown) =
      let ended : commit_ancestry_ids limit rows head ≡ some (err commit_not_found) =
        ancestry_of_is limit rows head ∙ ap some (sym (are head) ∙ unknown) in
      (nonempty, inl (no_history head id (not_found limit rows head ended) path))
    where
      no_history :
          (head id : Bytes) → lookup head rows.commits ≡ none → Ancestor rows head id → head ≡ id
      no_history head id absent itself = refl
      no_history head id absent (older row parent found among rest) = cc (sym absent ∙ found)

  asked_branches :
      (reached : Reached)
      → reach a ≡ ok reached
      → (bs : List BranchRef) × (a.branches ≡ ok bs)
        × ((set : List Bytes) × (add_branches a.ancestry [] bs ≡ ok set))
  unfolding reach
  asked_branches reached h =
      let (bs, bs_are, k) = bind-eq-ok a.branches _ h in
      let (set, is_set, _) = bind-eq-ok (add_branches a.ancestry [] bs) _ k in
      (bs, bs_are, (set, is_set))

  same_branches : (x y : List BranchRef) → ok x ≡ ok y → x ≡ y
  same_branches x y h = cc

  -- Where the collection's branches and histories are those of the store, a pack of any commit in the
  -- history of a branch's head is retained, be the branch deleted or not, whatever the transactions,
  -- the audit records and the index of packs are.
  pub history_is_retained :
      (reached : Reached) (name : Bytes) (branch : Branch) (pack : NativePack)
      → a.branches ≡ ok (list_branch_refs rows)
      → ((id : Bytes) → a.ancestry id ≡ ancestry_of limit rows id)
      → reach a ≡ ok reached
      → lookup name rows.branches ≡ some branch
      → is_empty branch.head ≡ false
      → is_empty pack.commit_id ≡ false
      → Ancestor rows branch.head pack.commit_id
      → is_retained reached pack ≡ true
  unfolding is_retained list_branch_refs
  history_is_retained reached name branch pack branches_are histories_are h found headed named
        path =
      let (s, commits, _) = reach-IsClosure a reached h in
      let (bs, bs_are, rest) = asked_branches reached h in
      let is : bs ≡ list_branch_refs rows = same_branches _ _ (sym bs_are ∙ branches_are) in
      let is' : s.branches ≡ list_branch_refs rows =
        same_branches _ _ (sym s.branches_are ∙ branches_are) in
      let among : Any (λ b. b.head_commit_id ≡ branch.head) (list_branch_refs rows) =
        sort_by-Any (λ ref. ref.name) _ (refs_of rows.branches)
          (refs_of-Any name branch rows.branches found) in
      let answer =
        asked a.ancestry [] rest.0 bs branch.head rest.1
          (subst (Any (λ b. b.head_commit_id ≡ branch.head)) (sym is) among) headed in
      let covered = covers histories_are branch.head pack.commit_id headed path answer in
      let kept : contains reached.commits pack.commit_id ≡ true = (commits pack.commit_id).1 (
        inl (
          Any-weaken (λ b. b.head_commit_id ≡ branch.head)
            (λ b. Covers a.ancestry (λ x. x ≡ pack.commit_id) b.head_commit_id) s.branches
            (λ b e. subst (Covers a.ancestry (λ x. x ≡ pack.commit_id)) (sym e) covered)
            (subst (Any (λ b. b.head_commit_id ≡ branch.head)) (sym is') among))) in
      ground (arith, kept, named)
