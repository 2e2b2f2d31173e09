-- ===== src/Push/Interfaces.antt =====
-- What internal/server/sync/push.go asks of the metadata store (`BranchStore`, with the optional
-- methods that the PostgreSQL store has) and of CAS (`cas.Driver`).
use spool_rack.Prelude.{ℕ, Bytes, Bool, Option, none, some, ◌≡◌, ◌≢◌}
use spool_rack.Fault.{Error, Result, Done, ok, err, branch_not_found}
use spool_rack.Cas.Scope.{Scope}
use spool_rack.Sync.Contract.{Contract}

pub record Driver (δ : Type 0) : Type 0 where
  pub put : Scope → Bytes → Bytes → δ → Done × δ
  pub get : Scope → Bytes → δ → Result Bytes
  pub asset_exists : Scope → Bytes → δ → Result Bool
  pub write_pack : Scope → Bytes → Bytes → δ → Done × δ

pub record BranchStore (g : Contract) (σ : Type 0) : Type 0 where
  pub set_tenant_context : Bytes → σ → Done
  pub put_commit_with_format : Bytes → g.Commit → ℕ → σ → Done × σ
  pub put_pack_range_with_format : Bytes → Bytes → Bytes → ℕ → σ → Done × σ
  -- the field `Format` of `GetCommitMetadata`
  pub get_commit_format : Bytes → σ → Result ℕ
  pub get_branch_ref : Bytes → σ → Result Bytes
  pub create_branch : Bytes → Bytes → σ → Done × σ
  pub is_ancestor : Bytes → Bytes → σ → Result Bool
  pub compare_and_swap_branch_ref : Bytes → Bytes → Bytes → σ → Done × σ

-- Only the head of this branch changes, to the target.
abbrev pub Moves : Bytes → Bytes → (Bytes → Option Bytes) → (Bytes → Option Bytes) → Type 0
Moves branch target before later =
    (later branch ≡ some target) × ((other : Bytes) → other ≢ branch → later other ≡ before other)

-- What the engine relies on, in terms of the heads of the branches.
pub record IsBranchStore {g : Contract} {σ : Type 0} (heads : σ → Bytes → Option Bytes)
    (s : BranchStore g σ) : Type 0 where
  pub get_ok : (b head : Bytes) (x : σ) → s.get_branch_ref b x ≡ ok head → heads x b ≡ some head
  pub get_absent :
      (b : Bytes) (x : σ) → s.get_branch_ref b x ≡ err branch_not_found → heads x b ≡ none
  pub put_commit_keeps :
      (id : Bytes) (commit : g.Commit) (format : ℕ) (x : σ)
      → heads (s.put_commit_with_format id commit format x).1 ≡ heads x
  pub put_range_keeps :
      (hash base target : Bytes) (format : ℕ) (x : σ)
      → heads (s.put_pack_range_with_format hash base target format x).1 ≡ heads x
  pub create_ok :
      (b head : Bytes) (x : σ)
      → (s.create_branch b head x).0 ≡ ok tt
      → Moves b head (heads x) (heads (s.create_branch b head x).1)
  pub create_fails :
      (b head : Bytes) (x : σ) (e : Error)
      → (s.create_branch b head x).0 ≡ err e
      → heads (s.create_branch b head x).1 ≡ heads x
  pub swap_ok :
      (b expected target : Bytes) (x : σ)
      → (s.compare_and_swap_branch_ref b expected target x).0 ≡ ok tt
      → (heads x b ≡ some expected)
        × Moves b target (heads x) (heads (s.compare_and_swap_branch_ref b expected target x).1)
  pub swap_fails :
      (b expected target : Bytes) (x : σ) (e : Error)
      → (s.compare_and_swap_branch_ref b expected target x).0 ≡ err e
      → heads (s.compare_and_swap_branch_ref b expected target x).1 ≡ heads x
