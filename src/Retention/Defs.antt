-- ===== src/Retention/Defs.antt =====
-- internal/server/retention/retention.go. What the store answers is an argument; what the run does
-- to the store and to CAS is a list of actions, in order.
use spool_rack.Prelude.{
  Bytes, is_empty, Bool, false, ◌&&◌, ◌||◌, not, Option, none, some, List, [], ◌∷◌, ◌++◌, bytes_eq,
  contains, lookup, if◌then◌else◌,
}
use spool_rack.Prelude.Sort.{sort_by}
use spool_rack.Fault.{Result, Done, ok, err, ◌>>=◌, required, commit_not_found}
use spool_rack.Cas.Scope.{new_scope}

pub record BranchRef : Type 0 where
  pub name : Bytes
  pub head_commit_id : Bytes
  pub deleted : Bool

-- An active transaction or an audit record: either ID may be empty.
pub record Root : Type 0 where
  pub id : Bytes
  pub commit_id : Bytes
  pub object_id : Bytes

pub record NativePack : Type 0 where
  pub pack_id : Bytes
  pub cas_pack_hash : Bytes
  pub commit_id : Bytes

-- What the store's reading methods answer within the run, and how its `DeleteNativePack` and the
-- driver's `DeletePack` end.
pub record Answers : Type 0 where
  pub set_tenant : Done
  pub branches : Result (List BranchRef)
  pub ancestry : Bytes → Result (List Bytes)
  pub transactions : Result (List Root)
  pub audit_records : Result (List Root)
  pub object_to_pack : Result (List (Bytes × Bytes))
  pub packs : Result (List NativePack)
  pub delete_rows_ends : Bytes → Done
  pub delete_blob_ends : Bytes → Done

pub record RetainedPack : Type 0 where
  pub pack_id : Bytes
  pub cas_pack_hash : Bytes

pub record CollectedPack : Type 0 where
  pub pack_id : Bytes
  pub cas_pack_hash : Bytes
  pub cas_blob_collected : Bool

pub record Report : Type 0 where
  pub tenant_id : Bytes
  pub repo_id : Bytes
  pub dry_run : Bool
  pub retained : List RetainedPack
  pub collected : List CollectedPack

-- a call that may delete something, whether it succeeds or not
pub data Action : Type 0 where
  delete_rows : Bytes → Action
  delete_blob : Bytes → Action

-- a root that is no registered commit has no history, and is kept itself
abbrev pub extend : List Bytes → Bytes → Result (List Bytes) → Result (List Bytes)
extend retained commit_id (ok ids) = ok (ids ++ commit_id ∷ retained)
extend retained commit_id (err commit_not_found) = ok (commit_id ∷ retained)
extend retained commit_id (err e) = err e

-- the closure `addCommitRoot`, on the set of retained commits
unfoldable pub add_commit_root :
    (Bytes → Result (List Bytes)) → List Bytes → Bytes → Result (List Bytes)
add_commit_root ancestry retained commit_id =
    if is_empty commit_id then ok retained else extend retained commit_id (ancestry commit_id)

unfoldable pub add_branches :
    (Bytes → Result (List Bytes)) → List Bytes → List BranchRef → Result (List Bytes)
add_branches ancestry retained [] = ok retained
add_branches ancestry retained (branch ∷ branches) = do
  retained' ← add_commit_root ancestry retained branch.head_commit_id
  add_branches ancestry retained' branches

-- the loops over the transactions and over the audit records; also the set of rooted objects
unfoldable pub add_roots :
    (Bytes → Result (List Bytes))
    → List Bytes
    → List Bytes
    → List Root
    → Result (List Bytes × List Bytes)
add_roots ancestry retained objects [] = ok (retained, objects)
add_roots ancestry retained objects (root ∷ roots) = do
  retained' ← add_commit_root ancestry retained root.commit_id
  add_roots ancestry retained'
      (if is_empty root.object_id then objects else root.object_id ∷ objects) roots

abbrev pub or_none : Option Bytes → List Bytes → List Bytes
or_none none packs = packs
or_none (some pack_id) packs = pack_id ∷ packs

unfoldable pub rooted_packs : List (Bytes × Bytes) → List Bytes → List Bytes
rooted_packs object_to_pack [] = []
rooted_packs object_to_pack (object_id ∷ objects) =
    or_none (lookup object_id object_to_pack) (rooted_packs object_to_pack objects)

-- the commits and packs that the roots reach
pub record Reached : Type 0 where
  pub commits : List Bytes
  pub pack_ids : List Bytes

unfoldable pub reach : Answers → Result Reached
reach a = do
  branches ← a.branches
  commits ← add_branches a.ancestry [] branches
  transactions ← a.transactions
  (commits', objects) ← add_roots a.ancestry commits [] transactions
  audit_records ← a.audit_records
  (commits'', objects') ← add_roots a.ancestry commits' objects audit_records
  object_to_pack ← a.object_to_pack
  ok (record { commits = commits''; pack_ids = rooted_packs object_to_pack objects' })

unfoldable pub is_retained : Reached → NativePack → Bool
is_retained r pack =
    (not (is_empty pack.commit_id) && contains r.commits pack.commit_id)
    || contains r.pack_ids pack.pack_id

unfoldable pub retained_of : Reached → List NativePack → List NativePack
retained_of r [] = []
retained_of r (pack ∷ packs) =
    let rest = retained_of r packs in if is_retained r pack then pack ∷ rest else rest

unfoldable pub candidates_of : Reached → List NativePack → List NativePack
candidates_of r [] = []
candidates_of r (pack ∷ packs) =
    let rest = candidates_of r packs in if is_retained r pack then rest else pack ∷ rest

-- A step that may act: its result, and the calls that it made.
abbrev pub Acting {ℓ} : Type ℓ → Type ℓ
Acting A = Result A × List Action

abbrev pub and_then {ℓ κ} : {A : Type ℓ} {B : Type κ} → Acting A → (A → Acting B) → Acting B
and_then (ok a, did) f = ((f a).0, did ++ (f a).1)
and_then (err e, did) f = (err e, did)

-- `if !dryRun { … }` around a call
abbrev pub perform : Bool → Action → Done → Acting (Unit {0})
perform dry_run action ends = if dry_run then (ok tt, []) else (ends, action ∷ [])

abbrev pub hashes_of : List NativePack → List Bytes
hashes_of [] = []
hashes_of (pack ∷ packs) = pack.cas_pack_hash ∷ hashes_of packs

abbrev pub report_pack : NativePack → Bool → CollectedPack
report_pack pack blob = record {
  pack_id = pack.pack_id;
  cas_pack_hash = pack.cas_pack_hash;
  cas_blob_collected = blob;
}

-- neither a retained pack nor an earlier candidate has the hash
abbrev pub is_new : List Bytes → List Bytes → NativePack → Bool
is_new kept handled pack =
    not (contains kept pack.cas_pack_hash) && not (contains handled pack.cas_pack_hash)

abbrev pub blob_step : Answers → Bool → Bool → NativePack → Acting (Unit {0})
blob_step a dry_run wanted pack =
    if wanted
    then perform dry_run (delete_blob pack.cas_pack_hash) (a.delete_blob_ends pack.cas_pack_hash)
    else (ok tt, [])

-- the loop over the candidates; `kept` are the retained hashes and `handled` those dealt with
unfoldable pub sweep :
    Answers → Bool → Bool → List Bytes → List Bytes → List NativePack → Acting (List CollectedPack)
sweep a dry_run can_delete kept handled [] = (ok [], [])
sweep a dry_run can_delete kept handled (pack ∷ packs) =
    let fresh = is_new kept handled pack in
    and_then (perform dry_run (delete_rows pack.pack_id) (a.delete_rows_ends pack.pack_id)) λ _.
      and_then (blob_step a dry_run (fresh && can_delete) pack) λ _.
        and_then
          (sweep a dry_run can_delete kept (if fresh then pack.cas_pack_hash ∷ handled else handled)
            packs)
          λ rest. (ok (report_pack pack (fresh && can_delete) ∷ rest), [])

abbrev pub retained_packs : List NativePack → List RetainedPack
retained_packs [] = []
retained_packs (pack ∷ packs) =
    record { pack_id = pack.pack_id; cas_pack_hash = pack.cas_pack_hash } ∷ retained_packs packs

-- the driver: absent, or whether it implements `PackDeleter`
abbrev pub Driver : Type 0
Driver = Option Bool

abbrev pub can_delete_cas : Driver → Bool
can_delete_cas none = false
can_delete_cas (some b) = b

abbrev pub scope_checked : Driver → Bytes → Bytes → Done
scope_checked none tenant_id repo_id = ok tt
scope_checked (some _) tenant_id repo_id = do _ ← new_scope tenant_id repo_id; ok tt

-- what precedes the first deletion
unfoldable pub survey : Answers → Driver → Bytes → Bytes → Result (Reached × List NativePack)
survey a driver tenant_id repo_id =
    if is_empty tenant_id || is_empty repo_id then err required else do
      _ ← scope_checked driver tenant_id repo_id
      _ ← a.set_tenant
      reached ← reach a
      packs ← a.packs
      ok (reached, packs)

abbrev pub finish : Bytes → Bytes → Bool → List NativePack → List CollectedPack → Report
finish tenant_id repo_id dry_run retained collected = record {
  tenant_id = tenant_id;
  repo_id = repo_id;
  dry_run = dry_run;
  retained = sort_by (λ p. p.pack_id) (retained_packs retained);
  collected = sort_by (λ p. p.pack_id) collected;
}

-- `Collector.Collect`
unfoldable pub collect : Answers → Driver → Bytes → Bytes → Bool → Acting Report
collect a driver tenant_id repo_id dry_run =
    and_then (survey a driver tenant_id repo_id, [])
      λ (reached, packs).
        let retained = retained_of reached packs in
        and_then
          (sweep a dry_run (can_delete_cas driver) (hashes_of retained) []
            (candidates_of reached packs))
          λ collected. (ok (finish tenant_id repo_id dry_run retained collected), [])
