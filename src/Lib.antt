-- ===== src/Lib.antt =====
-- A verification library for CRDTdb, a relational database whose peers write offline and converge.
--
-- The program. Every change is an operation (`CrdtOp`) under a stamp of a hybrid logical clock. An
-- engine appends it to its log and applies it to its store: tables of rows, where an OR-map says
-- which rows are there and each cell is a multi-value register. Two engines exchange the operations
-- that the other lacks, and both then rebuild the store from the whole log: the operations are
-- replayed in a fixed order, elections decide who owns a unique value, the losers' cells are
-- nulled, and deletions cascade along foreign keys.
--
-- The files, by the part of the repository that they are about:
--   Crdt/Clocks        src/crdt/clocks.rs: HlcTimestamp, HlcClock::tick and observe; Monotone has
--                      histories of calls.
--   Crdt/VersionVector the rest of src/crdt/clocks.rs: VersionVector, over an interface for the map of
--                      the crate indexmap.
--   Crdt/MvRegister    src/crdt/mv_register.rs: MvRegister::write, merge, read.
--   Crdt/OrSet         src/crdt/orset.rs: OrMap::insert, delete, merge, and what is visible.
--   Crdt/Token         the triple by which both of these tag and key.
--   Crdt/Merge         src/crdt/merge.rs: schemas, CrdtOp, names of composite keys.
--   Storage/OpLog      src/storage/op_log.rs: OpLog::append, since, ops_for_row.
--   Storage/RowStore   src/storage/row_store.rs: CrdtRow, TableState, RowStore, apply_op, merge.
--   Storage/Compaction src/storage/compaction.rs: GcTracker.
--   Storage/Snapshots  src/storage/snapshots.rs: the canonical bytes of a store.
--   Sync/AntiEntropy   src/sync/anti_entropy.rs: SyncCursor, compute_delta, apply_delta, sync_peers;
--                      Merkle has MerkleDigest.
--   Constraints        src/constraints: UniqueIndex with its elections (Uniqueness), and FkResolver
--                      (ForeignKeys).
--   Index              src/index/secondary_index.rs: SecondaryIndex, TableIndexManager.
--   Sql/Values, Filter, Statement
--                      src/sql/parser.rs: SqlValue, SqlExpr with evaluate, ParsedStatement.
--   Sql/Syntax         the shapes of the syntax trees of the crate sqlparser that the parser reads.
--   Sql/Parser         the rest of src/sql/parser.rs: literals and conditions (Literals), CREATE TABLE
--                      (Tables), convert_statement and parse_sql.
--   Sql/Planner        src/sql/planner.rs: one row of an INSERT (Row), and plan with its parts.
--   Sql/Executor       src/sql/executor.rs: execute_select, ResultRow.
--   Engine             src/api/engine.rs: the engine and apply_op (State), execute and query
--                      (Statements), rebuild_store in its parts (Replay, Columns, FkCascade),
--                      rebuild_store, sync_with and sync_from (Rebuild).
--   Dashboard          src/bin/dashboard_server.rs: the peers of a cluster and which are online
--                      (Cluster), the handlers that sync them (Syncing) or run SQL on one (Statements),
--                      the cluster at the start and snapshots (Seeded), sequences of requests
--                      (Requests).
-- Base, BTree, Sort and Utf8 model what the source uses of the standard library: lists and tests,
-- BTreeMap and BTreeSet, the stable sort_by, and String::from_utf8_lossy. A map is its sorted
-- entries with the proof that they are sorted, so that maps with the same entries are equal.
-- BTree/Join is the contract of a CRDT, a join semilattice, and lifts it from values to maps.
--
-- How state corresponds. A struct is a record with the same fields, a method that changes it a
-- function that returns the new record. Strings are their bytes. Integers are natural numbers, with
-- the wrap-around of u32 and u64 written where the source adds to a stamp's counter (as a release
-- build computes); sequence numbers, which count entries in memory, do not wrap. A panic is `none`.
-- Code that is not in the repository is a parameter: the hash of a log
-- entry, a bucket or a store (bincode, BLAKE3, hex), and the map of the crate indexmap.
-- The order in which a HashMap is walked is a parameter too.
-- The wall clock is an argument of each call on a clock; where SQL is executed it is a sequence of
-- readings, and the number of readings taken goes with the engine. The crate sqlparser, with its
-- prints, and the standard library's parser of floats are a record of functions (SqlCrate); a float
-- is its bits. Error strings are values that tell the same.
--
-- Loops. All are structural recursion but two. The cascade loop of rebuild_store runs on fuel, one
-- more than the rows visible in all tables: every round but the last hides a row. The decoding of
-- UTF-8 runs on fuel, the number of bytes: every round reads one.
--
-- Two logs agree if, under each stamp that both know, they have the same operations in the same
-- order. The planner gives an insertion and its reservations one stamp and logs them together.
--
-- Not modelled: the grammar of SQL, which is the crate sqlparser; the calls of a clock from several
-- threads at once; events, scenarios and interleaved requests of the dashboard; the daemon; the test
-- harnesses.
pub mod Base
pub mod BTree
pub mod Sort
pub mod Utf8
pub mod Crdt
pub mod Storage
pub mod Sync
pub mod Constraints
pub mod Index
pub mod Sql
pub mod Engine
pub mod Dashboard
