-- ===== src/Tests/PushRuns.antt =====
-- The properties of a push, at a push of two commits to an empty repository.
use spool_rack.Prelude.{
  ℕ, Bytes, codes, Bool, true, false, Option, none, some, List, [], ◌∷◌, ◌≡◌, refl, bytes_beq,
  bytes_eq, lookup, insert,
}
use spool_rack.Prelude.Hex.{encode, decode, hex_digit, hex_value}
use spool_rack.Fault.{Result, Done, ok, err, non_fast_forward_head}
use spool_rack.Cas.Scope.{
  is_alnum, is_segment_char, all_segment_chars, matches_pattern, validate_scope_segment, new_scope,
}
use spool_rack.Sync.ContentId.{content_id, valid_content_id}
use spool_rack.Sync.Frame.{frame_commit, commit_object_id, parent_object_ids, validate_identity}
use spool_rack.Store.Tables.{Rows, has_commit, has_commits}
use spool_rack.Store.Commits.{
  NewCommit, put_commit_with_format, put_pack_range_with_format, put_commit_tx, put_pack_range,
  insert_commit, insert_range,
}
use spool_rack.Store.Branches.{get_branch_ref, create_branch}
use spool_rack.Push.Effect.{World, ◌>>=◌, ◌>>◌, pure, reads, reads_cas, in_store, in_cas}
use spool_rack.Push.Interfaces.{Driver, BranchStore, IsBranchStore}
use spool_rack.Push.Checks.{
  CommitRecord, PushRequest, validate_commit_record, validate_commit_records, validate_push_request,
  match_records, validate_v2_commit_metadata,
}
use spool_rack.Push.Engine.{
  write_objects, check_snapshots, read_pack, write_pack, register_commits,
  diagnose_non_fast_forward, advance_from, prepare, handle_push,
}
use spool_rack.Push.Delivered.{Delivered}
use spool_rack.Push.Outcome.{rejected_push}
use spool_rack.Push.Postgres.{pg_store, heads_of, pg_store-IsBranchStore}
use spool_rack.Gateway.Upload.{
  Part, part, Response, pushed, Event, PushMetadata, is_pack_hash, take_part, read_parts,
  serve_push,
}
use spool_rack.Tests.Fixtures.{toy, bytes_v2, id_of}
use spool_rack.Tests.SyncRuns.{v2_reads}

-- A driver that holds one snapshot.
abbrev a_driver : Driver (Unit {0})
a_driver = record {
  put = λ scope id content disk. (ok tt, disk);
  get = λ scope id disk. ok (5 ∷ []);
  asset_exists = λ scope id disk. ok true;
  write_pack = λ scope id content disk. (ok tt, disk);
}

abbrev toy_fields : Bytes → NewCommit
toy_fields c = record {
  parents = [];
  snapshot = id_of 5;
  author = codes "ann";
  message = c;
  time = 1;
}

abbrev never : Bytes → Bytes → Rows → Result Bool
never a b rows = ok false

abbrev a_store : BranchStore toy Rows
a_store = pg_store toy toy_fields some (λ tenant. ok tt) never 0

abbrev toy_record : ℕ → CommitRecord toy
toy_record b = record { id = id_of b; commit = b ∷ [] }

abbrev a_push : PushRequest toy
a_push = record {
  tenant_id = codes "a";
  repo_id = codes "r";
  branch = codes "main";
  target_commit = id_of 2;
  base_commit = [];
  commits = toy_record 1 ∷ toy_record 2 ∷ [];
  pack_hash = id_of 7;
  pack_format = 2;
  pack_stream = some (ok bytes_v2);
}

abbrev empty_rows : Rows
empty_rows = record {
  repository = some (record { default_branch = none });
  commits = [];
  branches = [];
  pack_ranges = [];
  leases = [];
  pushes = [];
}

-- main is somewhere else
abbrev other_rows : Rows
other_rows = record empty_rows {
  branches = (codes "main", record { head = id_of 9; deleted = false }) ∷ [];
}

abbrev run : Rows → Done × World Rows (Unit {0})
run rows =
    handle_push toy a_driver a_store (some (λ snapshot. true)) (λ snapshot. none) 2 a_push
      (record { store = rows; disk = tt })

push_accepted : (run empty_rows).0 ≡ ok tt
unfolding handle_push prepare validate_push_request validate_commit_records validate_commit_record
    write_pack read_pack write_objects check_snapshots register_commits match_records
    validate_v2_commit_metadata ◌>>=◌ ◌>>◌ pure reads reads_cas in_store in_cas new_scope
    validate_scope_segment matches_pattern all_segment_chars is_segment_char is_alnum content_id
    frame_commit commit_object_id parent_object_ids validate_identity valid_content_id encode decode
    hex_digit hex_value put_commit_with_format put_pack_range_with_format put_commit_tx
    put_pack_range insert_commit insert_range has_commit has_commits get_branch_ref create_branch
    lookup insert bytes_beq
push_accepted = rw v2_reads refl

push_refused : (run other_rows).0 ≡ err (non_fast_forward_head (id_of 9))
unfolding handle_push prepare validate_push_request validate_commit_records validate_commit_record
    write_pack read_pack write_objects check_snapshots register_commits match_records
    validate_v2_commit_metadata ◌>>=◌ ◌>>◌ pure reads reads_cas in_store in_cas new_scope
    validate_scope_segment matches_pattern all_segment_chars is_segment_char is_alnum content_id
    frame_commit commit_object_id parent_object_ids validate_identity valid_content_id encode decode
    hex_digit hex_value put_commit_with_format put_pack_range_with_format put_commit_tx
    put_pack_range insert_commit insert_range has_commit has_commits get_branch_ref advance_from
    diagnose_non_fast_forward lookup insert bytes_beq
push_refused = rw v2_reads refl

pg_store-IsBranchStore_example : IsBranchStore heads_of a_store
pg_store-IsBranchStore_example =
    pg_store-IsBranchStore toy toy_fields some (λ tenant. ok tt) never 0

rejected_push_example : heads_of (run other_rows).1.store ≡ heads_of other_rows
rejected_push_example =
    rejected_push toy a_driver a_store (some (λ snapshot. true)) (λ snapshot. none) heads_of
      (pg_store-IsBranchStore toy toy_fields some (λ tenant. ok tt) never 0) 2 a_push
      (record { store = other_rows; disk = tt }) (non_fast_forward_head (id_of 9)) push_refused

abbrev metadata : PushMetadata toy
metadata = record {
  branch = codes "main";
  base_commit = [];
  target_commit = id_of 2;
  pack_hash = id_of 7;
  pack_format = 2;
  commits = toy_record 1 ∷ toy_record 2 ∷ [];
}

abbrev body : List Part
body = part (codes "metadata") (ok []) ∷ part (codes "pack") (ok bytes_v2) ∷ []

abbrev parsed : Result Bytes → PushMetadata toy → Option (PushMetadata toy)
parsed content before = some metadata

abbrev served : Rows → (Response × List Event) × World Rows (Unit {0})
served rows =
    serve_push toy (codes "a") (codes "r")
      (λ request.
        handle_push toy a_driver a_store (some (λ snapshot. true)) (λ snapshot. none) 2 request)
      parsed true (some body) (record { store = rows; disk = tt })

served_pushed : (served empty_rows).0.0 ≡ pushed (codes "main") (id_of 2)
unfolding serve_push read_parts take_part is_pack_hash bytes_beq encode hex_digit
served_pushed = rw push_accepted refl
