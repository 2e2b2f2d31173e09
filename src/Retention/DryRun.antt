-- ===== src/Retention/DryRun.antt =====
-- What a dry run promises of the run that it stands for.
use spool_rack.Prelude.{Bytes, Bool, true, false, ◌&&◌, List, [], ◌∷◌, ◌≡◌, refl, if◌then◌else◌}
use spool_rack.Fault.{ok, err}
use spool_rack.Retention.Defs.{
  NativePack, Answers, Report, CollectedPack, delete_rows, retained_of, candidates_of, Acting,
  and_then, perform, hashes_of, blob_step, report_pack, is_new, sweep, survey, collect, Driver,
  can_delete_cas, finish,
}

-- A successful step and what follows it.
and_then-eq-ok {ℓ κ} :
    {A : Type ℓ} {B : Type κ} (m : Acting A) (f : A → Acting B) {b : B}
    → (and_then m f).0 ≡ ok b
    → (a : A) × (m.0 ≡ ok a) × ((f a).0 ≡ ok b)
and_then-eq-ok (ok a, did) f h = (a, refl, h)
and_then-eq-ok (err e, did) f h = cc h

blob_step-dry :
    (a : Answers) (wanted : Bool) (p : NativePack) → blob_step a true wanted p ≡ (ok tt, [])
blob_step-dry a true p = refl
blob_step-dry a false p = refl

module _ (a : Answers) (can_delete : Bool) (kept : List Bytes) where
  sweep-dry :
      (handled : List Bytes) (ps : List NativePack) (cs : List CollectedPack)
      → (sweep a false can_delete kept handled ps).0 ≡ ok cs
      → sweep a true can_delete kept handled ps ≡ (ok cs, [])
  unfolding sweep
  sweep-dry handled [] cs h = let e : [] ≡ cs = cc h in rw (← e) refl
  sweep-dry handled (p ∷ ps) cs h =
      let fresh = is_new kept handled p in
      let next = if fresh then p.cas_pack_hash ∷ handled else handled in
      let (_, _, h₁) =
        and_then-eq-ok (perform false (delete_rows p.pack_id) (a.delete_rows_ends p.pack_id)) _ h in
      let (_, _, h₂) = and_then-eq-ok (blob_step a false (fresh && can_delete) p) _ h₁ in
      let (rest, r, h₃) = and_then-eq-ok (sweep a false can_delete kept next ps) _ h₂ in
      let e : report_pack p (fresh && can_delete) ∷ rest ≡ cs = cc h₃ in
      rw (← e, blob_step-dry a (fresh && can_delete) p, sweep-dry next ps rest r)

-- Where a collection succeeds, the dry run over the same answers succeeds too, deletes nothing, and
-- reports the same packs as retained and collected.
pub collect-dry_run :
    (a : Answers) (driver : Driver) (tenant_id repo_id : Bytes) (report : Report)
    → (collect a driver tenant_id repo_id false).0 ≡ ok report
    → collect a driver tenant_id repo_id true ≡ (ok (record report { dry_run = true }), [])
unfolding collect
collect-dry_run a driver t repo report h =
    let ((r, packs), s, h₁) = and_then-eq-ok (survey a driver t repo, []) _ h in
    let kept = hashes_of (retained_of r packs) in
    let (cs, k, h₂) =
      and_then-eq-ok (sweep a false (can_delete_cas driver) kept [] (candidates_of r packs)) _ h₁ in
    let e : finish t repo false (retained_of r packs) cs ≡ report = cc h₂ in
    rw (← e, s, sweep-dry a (can_delete_cas driver) kept [] (candidates_of r packs) cs k)
