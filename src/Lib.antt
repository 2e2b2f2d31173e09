-- ===== src/Lib.antt =====
-- Verification of Spool Rack, the server that keeps graph repositories of several tenants: commits
-- and objects in a content-addressed store (CAS), branches and indexes in PostgreSQL, and an HTTP
-- gateway in front of both. Clients push and pull packs, preview merges, and operators collect packs
-- that nothing reaches.
--
-- The parts, and where they are modelled (paths are those of the repository):
--   Auth         internal/server/auth/auth.go and the development verifier of cmd/spool-rack/main.go.
--                Auth.Defs has the roles, the verifiers and `extract_credential`.
--   Cas          internal/server/storage/cas/cas.go. Cas.Scope has `new_scope`, which fences every
--                access to one repository of one tenant. internal/server/storage/cas/local.go: Cas.Local
--                has the paths, Cas.Files the operations as functions from the files to a result and the
--                files after it; the calls of the operating system that fail are an argument.
--   Gateway      internal/server/gateway/middleware.go, context.go, contractversion.go and gateway.go.
--                Gateway.Access has the handlers of a repository route as functions from a request and
--                its context to a response; it calls Auth and Cas. Gateway.Version has the version
--                windows and the minimum that they set in internal/server/sync/push.go.
--                Gateway.Upload has the handler `handlePush` over the parts of a body and any push
--                engine; Gateway.Told and Gateway.UploadSound run it over Push.
--   Sync         internal/server/sync/framing.go and pull.go. Sync.Contract has the records,
--                Sync.Frame the validation and codecs of pack frames, Sync.Envelope the pull manifest
--                and the reading of a pull envelope, Sync.Stream its writing.
--   NativePull   internal/server/nativepull/framing.go: the envelope of native packs. NativePull.Frame
--                has its validation, writing and reading.
--   Review       internal/server/review/engine.go and the snapshot type of snapshot.go. Review.Defs has
--                the records of a preview; Review.ThreeWay, Review.Merge and Review.Snapshots have the
--                three-way merge of values, elements and snapshots that fills them.
--   Push         internal/server/sync/push.go. Push.Engine has `handle_push` over any metadata store and
--                any CAS driver (Push.Interfaces); Push.Effect has the calls that act on both, one after
--                the other. Push.Postgres fills the interfaces by Store and Cas.
--   Store        internal/server/storage/postgres/store.go over the tables of
--                internal/server/storage/postgres/migrations. Store.Tables has the rows of one
--                repository, Store.Commits, Store.Branches, Store.Leases and Store.NativePush the
--                transactions, which Store.Steps makes a step relation, Store.Ancestry and
--                Store.CommonAncestor the loops over histories. Retention reads the branches and the
--                histories of this store (Store.Retained).
--   Retention    internal/server/retention/retention.go. Retention.Defs has `collect`; what the store
--                answers is an argument, and the calls that delete are its second result, in order.
--   Fault has the errors as values, Prelude the lists, texts, maps and tests that the parts share, and
--   Tests the runs at concrete inputs.
--
-- How the model stands to the code. A Go string or byte slice is a list of byte values. A `uint32` or
-- `uint64` is a natural number; where the code narrows one, the remainder is written out. A set that
-- is only tested for membership is the list of what was put into it. A loop over a slice is structural
-- recursion on the list that it walks; an index or an offset into a slice is the part of the list that
-- is left. The two loops over a history, which go on while a queue is not empty, run on fuel
-- (Prelude.Loop): two iterations more than there are rows of parents in the repository, which is
-- enough, as an iteration takes one commit from the queue and a commit's parents are read once.
-- A transaction gives the rows after it, or the error that rolls it back; a statement that fails for a
-- reason of its own, as a lost connection, is left out, since it rolls back in the same way; so is a
-- connection that is lost in COMMIT, after which the client cannot tell whether the rows were written.
-- A transaction is one step at one moment, which is an assumption about those that read a row and
-- write another under READ COMMITTED. `DeleteBranch` alone gets the rows that its first statement saw
-- as an argument of its own, as it reads the default branch without a lock. The database's clock and
-- the server's are two arguments. An error is a constructor of `Error`; its text is not modelled. A
-- merged map is the list of its entries in the order of the keys, so a nil map and an empty one are not
-- told apart. The slices of a pack frame have a field that says whether an empty one is nil, as the
-- codec tells the two apart.
--
-- Code outside the repository is a parameter: graphcontract's commits, packs and schema validation,
-- BLAKE3, zstd and the canonical CBOR codec (`Contract`, `PackContract`, `validate_schema`,
-- `compress`). Where a theorem needs it, a hypothesis says that a digest is 32 bytes (`HasDigests`),
-- or just bytes, or that the decoder reads back what the encoder writes (`HasManifestCodec`).
--
-- The recursive queries of `IsAncestor` and `GetPackRanges`, the CBOR scan of a snapshot for assets and
-- the answer of `SetTenantContext` are arguments, too.
--
-- Not modelled: connections, migrations, tenants, workspaces and quotas of the PostgreSQL store,
-- temporary files and permissions, the native push engine, the planning of pulls, the finalization of
-- merges, the other HTTP handlers, logging, metrics and the decoding of HTTP bodies; nil receivers
-- and canceled contexts.
pub mod Prelude
pub mod Fault
pub mod Auth
pub mod Cas
pub mod Gateway
pub mod Sync
pub mod Retention
pub mod Review
pub mod NativePull
pub mod Push
pub mod Store
pub mod Tests
