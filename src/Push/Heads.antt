-- ===== src/Push/Heads.antt =====
-- What a push does to the heads of the branches.
use spool_rack.Prelude.{
  ℕ, Bytes, is_empty, Bool, Option, none, some, List, [], ◌∷◌, ◌==◌, inl, inr, bytes_eq, nat_eq,
  contains, Bool-cases,
}
use spool_rack.Cas.Scope.{Scope}
use spool_rack.Sync.Contract.{CommitIdentity, CommitFrame, PackObject, Contract}
use spool_rack.Sync.Frame.{pack_format_v3}
use spool_rack.Push.Effect.{
  World, Effect, Keeps, bind-Keeps, then-Keeps, pure-Keeps, reads-Keeps, reads_cas-Keeps,
  in_cas-Keeps, in_store-Keeps,
}
use spool_rack.Push.Interfaces.{Driver, BranchStore, IsBranchStore}
use spool_rack.Push.Checks.{Node, CommitRecord, PushRequest, normalize_pack_format}
use spool_rack.Push.Engine.{
  verify_assets, scanned, write_objects, check_snapshots, write_pack, validate_v2_base_format,
  resolve_base, resolve_parents, resolve_commits, resolve, register_commits, prepare, hashes_of,
}

module _ (g : Contract) {σ δ : Type 0} (driver : Driver δ) (store : BranchStore g σ)
    (validate_snapshot : Option (Bytes → Bool)) (scan : Bytes → Option (List Node)) where
  -- The calls that leave alone what is read of the store.
  module _ {X : Type 0} (of_store : σ → X) where
    abbrev Stays : {A : Type 0} → Effect (World σ δ) A → Type 0
    Stays = Keeps (λ w. of_store w.store)

    verify_assets-Stays :
        (scope : Scope) (hashes : List Bytes) → Stays (verify_assets g driver store scope hashes)
    unfolding verify_assets
    verify_assets-Stays scope [] = pure-Keeps _ _
    verify_assets-Stays scope (hash ∷ hashes) =
        bind-Keeps _ (reads_cas-Keeps _ _)
          λ exists. then-Keeps _ (pure-Keeps _ _) (verify_assets-Stays scope hashes)

    scanned-Stays :
        (scope : Scope) (nodes : Option (List Node)) → Stays (scanned g driver store scope nodes)
    scanned-Stays scope none = pure-Keeps _ _
    scanned-Stays scope (some nodes) = verify_assets-Stays scope (hashes_of g driver store nodes)

    write_objects-Stays :
        (scope : Scope) (objects : List PackObject)
        → Stays (write_objects g driver store scope objects)
    unfolding write_objects
    write_objects-Stays scope [] = pure-Keeps _ _
    write_objects-Stays scope (object ∷ objects) =
        then-Keeps _ (in_cas-Keeps of_store _) (write_objects-Stays scope objects)

    check_snapshots-Stays :
        (scope : Scope) (validate : Bytes → Bool) (commits : List CommitFrame)
        → Stays (check_snapshots g driver store validate_snapshot scan scope validate commits)
    unfolding check_snapshots
    check_snapshots-Stays scope validate [] = pure-Keeps _ _
    check_snapshots-Stays scope validate (commit ∷ commits) =
        bind-Keeps _ (reads_cas-Keeps _ _) λ snapshot. then-Keeps _ (pure-Keeps _ _) (
          then-Keeps _ (pure-Keeps _ _) (
            then-Keeps _ (scanned-Stays scope (scan snapshot))
              (check_snapshots-Stays scope validate commits)))

    -- Writing the pack, whether it succeeds or not, leaves the metadata store as it was.
    pub write_pack-Stays :
        (scope : Scope) (request : PushRequest g)
        → Stays (write_pack g driver store validate_snapshot scan scope request)
    unfolding write_pack
    write_pack-Stays scope request = bind-Keeps _ (pure-Keeps _ _) λ stream.
        bind-Keeps _ (pure-Keeps _ _) λ validate. bind-Keeps _ (pure-Keeps _ _) λ content.
          then-Keeps _ (pure-Keeps _ _) (
            bind-Keeps _ (pure-Keeps _ _) λ frame. then-Keeps _ (pure-Keeps _ _) (
              then-Keeps _ (pure-Keeps _ _) (
                then-Keeps _ (write_objects-Stays scope frame.objects) (
                  then-Keeps _ (check_snapshots-Stays scope validate frame.commits)
                    (then-Keeps _ (in_cas-Keeps of_store _) (pure-Keeps _ _))))))

    resolve_base-Stays :
        (request : PushRequest g) (base : CommitIdentity)
        → Stays (resolve_base g driver store validate_snapshot scan request base)
    unfolding validate_v2_base_format
    resolve_base-Stays request base = elim (Bool-cases (is_empty request.base_commit)) [
      | inl e ↦ rw e (pure-Keeps _ _)
      | inr e ↦
          rw e (
            then-Keeps _ (pure-Keeps _ _) (bind-Keeps _ (reads-Keeps _ _) λ format. pure-Keeps _ _))
    ]

    resolve_parents-Stays :
        (known parents : List Bytes)
        → Stays (resolve_parents g driver store validate_snapshot scan known parents)
    unfolding resolve_parents
    resolve_parents-Stays known [] = pure-Keeps _ _
    resolve_parents-Stays known (parent ∷ parents) = elim (Bool-cases (contains known parent)) [
      | inl e ↦ rw e (resolve_parents-Stays known parents)
      | inr e ↦
          rw e (then-Keeps _ (reads-Keeps _ _) (resolve_parents-Stays (parent ∷ known) parents))
    ]

    resolve_commits-Stays :
        (known : List Bytes) (commits : List (CommitRecord g))
        → Stays (resolve_commits g driver store validate_snapshot scan known commits)
    unfolding resolve_commits
    resolve_commits-Stays known [] = pure-Keeps _ _
    resolve_commits-Stays known (first ∷ others) =
        bind-Keeps _ (resolve_parents-Stays known (g.parent_ids first.commit))
          λ known'. resolve_commits-Stays (first.id ∷ known') others

    resolve-Stays :
        (request : PushRequest g) → Stays (resolve g driver store validate_snapshot scan request)
    resolve-Stays request =
        elim (Bool-cases (normalize_pack_format request.pack_format == pack_format_v3)) [
          | inl e ↦ rw e (resolve_commits-Stays _ request.commits)
          | inr e ↦ rw e (pure-Keeps _ _)
        ]

  module _ (heads : σ → Bytes → Option Bytes) (law : IsBranchStore heads store) where
    register_commits-Keeps :
        (commits : List (CommitRecord g))
        → Keeps
            (λ w. heads w.store)
            (register_commits g driver store validate_snapshot scan commits)
    unfolding register_commits
    register_commits-Keeps [] = pure-Keeps _ _
    register_commits-Keeps (first ∷ others) = then-Keeps _ (pure-Keeps _ _) (
        then-Keeps _ (in_store-Keeps heads _ (law.put_commit_keeps first.id first.commit _))
          (register_commits-Keeps others))

    pub prepare-Keeps :
        (min : ℕ) (request : PushRequest g)
        → Keeps (λ w. heads w.store) (prepare g driver store validate_snapshot scan min request)
    unfolding prepare
    prepare-Keeps min request = then-Keeps _ (pure-Keeps _ _) (
        then-Keeps _ (reads-Keeps _ _) (
          bind-Keeps _ (pure-Keeps _ _) λ scope.
            bind-Keeps _ (write_pack-Stays heads scope request) λ base.
              then-Keeps _ (resolve_base-Stays heads request base) (
                then-Keeps _ (resolve-Stays heads request) (
                  then-Keeps _ (register_commits-Keeps request.commits)
                    (in_store-Keeps heads _ (law.put_range_keeps _ _ _ _))))))
