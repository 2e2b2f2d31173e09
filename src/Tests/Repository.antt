-- ===== src/Tests/Repository.antt =====
-- A repository of three commits and two branches, one of them under a merge lease.
use spool_rack.Prelude.{Bytes, codes, true, false, some, List, [], ◌∷◌}
use spool_rack.Store.Tables.{CommitRow, Branch, LeaseRow, Rows}

abbrev pub c1 : Bytes
c1 = codes "c1"

abbrev pub c2 : Bytes
c2 = codes "c2"

abbrev pub c3 : Bytes
c3 = codes "c3"

abbrev pub c4 : Bytes
c4 = codes "c4"

abbrev pub main : Bytes
main = codes "main"

abbrev pub dev : Bytes
dev = codes "dev"

abbrev pub a_row : List Bytes → CommitRow
a_row parents = record {
  snapshot_root = codes "root";
  object_format = 2;
  author = codes "ann";
  message = codes "work";
  commit_time = 1;
  parents = parents;
}

abbrev pub main_branch : Branch
main_branch = record { head = c2; deleted = false }

abbrev pub dev_branch : Branch
dev_branch = record { head = c3; deleted = false }

abbrev pub a_lease : LeaseRow
a_lease = record {
  subject = codes "ann";
  token = codes "key";
  source = c3;
  target = c2;
  base = c1;
  expires_at = 100;
}

abbrev pub the_rows : Rows
the_rows = record {
  repository = some (record { default_branch = some main });
  commits = (c1, a_row []) ∷ (c2, a_row (c1 ∷ [])) ∷ (c3, a_row (c1 ∷ [])) ∷ [];
  branches = (main, main_branch) ∷ (dev, dev_branch) ∷ [];
  pack_ranges = [];
  leases = (main, a_lease) ∷ [];
  pushes = [];
}

abbrev pub without_dev : Rows
without_dev = record the_rows {
  branches = (main, main_branch) ∷ (dev, record { head = c3; deleted = true }) ∷ [];
}
