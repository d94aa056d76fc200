-- ===== src/Engine/State.antt =====
-- src/api/engine.rs: the state of an engine, and the operations on it but for the replay of the
-- log. The wall clock and the hash of log entries are arguments.
use conflict_free_oltp_v.Base.{
  ℕ, ◌+◌, ◌%◌, none, some, List, [], ◌∷◌, ◌++◌, map, list_ord, nat_ord, unwrap_or, Bytes, Str, str,
  u32_range, false,
}
use conflict_free_oltp_v.BTree.{BTreeMap, empty, get, update_entry, insert}
use conflict_free_oltp_v.Crdt.Clocks.{HlcTimestamp, HlcClock, new_clock, observe}
use conflict_free_oltp_v.Crdt.Merge.{
  CrdtOp, insert_row, update_cells, delete_row, reserve_unique, create_table, hlc, table, Cells,
}
use conflict_free_oltp_v.Storage.OpLog
use conflict_free_oltp_v.Storage.OpLog.{OpLog, LogEntry, append, ops}
use conflict_free_oltp_v.Storage.RowStore.{
  RowStore, apply_op, new_store, get_table, visible_rows, read_cell,
}
use conflict_free_oltp_v.Storage.Snapshots.{compute}
use conflict_free_oltp_v.Constraints.Uniqueness.{
  TableUniqueness, Reservation, provisional, new_uniqueness, on_index, reserve,
}
use conflict_free_oltp_v.Constraints.ForeignKeys.{
  FkPolicy, tombstone, cascade, orphan, enforce_on_delete,
}
use conflict_free_oltp_v.Index.SecondaryIndex.{
  SecondaryIndex, TableIndexManager, new_manager, new_index, rebuild_from, rebuild_all, add_index,
}
use conflict_free_oltp_v.Sync.AntiEntropy.{SyncCursor, new_cursor}

-- The planner holds the same clock, and a resolver of its own under the same policy.
pub record Engine : Type 0 where
  pub peer_id : Str
  pub clock : HlcClock
  pub log : OpLog
  pub store : RowStore
  pub fk_policy : FkPolicy
  pub uniqueness : BTreeMap Str TableUniqueness
  pub index_managers : BTreeMap Str TableIndexManager
  pub sync_cursor : SyncCursor
  pub fk_resolver : FkPolicy

unfoldable pub open_with_policy : Str → FkPolicy → Engine
open_with_policy peer_id fk_policy = record {
  peer_id = peer_id;
  clock = new_clock peer_id;
  log = OpLog.new;
  store = new_store;
  fk_policy = fk_policy;
  uniqueness = empty;
  index_managers = empty;
  sync_cursor = new_cursor;
  fk_resolver = fk_policy;
}

pub open_engine : Str → Engine
unfolding open_with_policy
open_engine peer_id = open_with_policy peer_id tombstone

-- The reservation that an operation carries.
abbrev pub reservation : Bytes → Str → HlcTimestamp → Reservation
reservation value row_id t = record {
  value = value;
  row_id = row_id;
  owner_peer = t.peer_id;
  hlc = t;
  state = provisional;
}

unfoldable pub reserve_in :
    Str → Str → Reservation → BTreeMap Str TableUniqueness → BTreeMap Str TableUniqueness
reserve_in name column r m =
    update_entry name (λ u. on_index column (reserve r) (unwrap_or new_uniqueness u)) m

-- The stamp of a derived deletion: one tick after its parent's.
abbrev pub next_logical : HlcTimestamp → Str → HlcTimestamp
next_logical t peer = record {
  wall_ms = t.wall_ms;
  logical = (t.logical + 1) % u32_range;
  peer_id = peer;
}

unfoldable pub delete_affected : HlcTimestamp → List (Str × Str) → RowStore → RowStore
delete_affected t [] s = s
delete_affected t ((name, row_id) ∷ l) s =
    delete_affected t l (apply_op s (delete_row name row_id t false))

-- Under the cascade policy a deletion takes the children along, in the store only.
unfoldable pub cascade_op : Engine → CrdtOp → RowStore → RowStore
unfolding delete_affected
cascade_op e (delete_row name row_id t fk_tombstone) s = elim e.fk_policy [
  | cascade ↦
      let (s', affected) = enforce_on_delete e.fk_resolver name row_id t s in
      delete_affected (next_logical t (str "__cascade__" ++ t.peer_id)) affected s'
  | tombstone ↦ s
  | orphan ↦ s
]
cascade_op e (insert_row name row_id t cells) s = s
cascade_op e (update_cells name row_id t cells) s = s
cascade_op e (reserve_unique name column value row_id t) s = s
cascade_op e (create_table name schema t) s = s

-- The indexes of one table, rebuilt if the table and its manager are there.
unfoldable pub rebuild_indexes_of :
    Str → RowStore → BTreeMap Str TableIndexManager → BTreeMap Str TableIndexManager
rebuild_indexes_of name s m = elim (get_table name s) [
  | none ↦ m
  | some t ↦ elim (get name m) [ none ↦ m | some mgr ↦ insert name (rebuild_all t mgr) m ]
]

-- An operation that is no reservation.
unfoldable pub apply_row_op : (LogEntry → Bytes) → CrdtOp → Engine → Engine
unfolding cascade_op rebuild_indexes_of
apply_row_op hash op e =
    let s = cascade_op e op (apply_op e.store op) in
    record e {
      store = s;
      index_managers = rebuild_indexes_of (table op) s e.index_managers;
      log = (append hash op e.log).0;
    }

unfoldable pub apply_reservation :
    (LogEntry → Bytes) → CrdtOp → Str → Str → Reservation → Engine → Engine
unfolding reserve_in
apply_reservation hash op name column r e = record e {
  uniqueness = reserve_in name column r e.uniqueness;
  log = (append hash op e.log).0;
}

unfoldable pub apply_to_state : (LogEntry → Bytes) → CrdtOp → Engine → Engine
unfolding apply_row_op apply_reservation
apply_to_state hash (reserve_unique name column value row_id t) e =
    apply_reservation hash (reserve_unique name column value row_id t) name column
      (reservation value row_id t) e
apply_to_state hash (insert_row name row_id t cells) e =
    apply_row_op hash (insert_row name row_id t cells) e
apply_to_state hash (update_cells name row_id t cells) e =
    apply_row_op hash (update_cells name row_id t cells) e
apply_to_state hash (delete_row name row_id t fk_tombstone) e =
    apply_row_op hash (delete_row name row_id t fk_tombstone) e
apply_to_state hash (create_table name schema t) e =
    apply_row_op hash (create_table name schema t) e

-- `apply_op` of the engine. The result is always `Ok(())`.
unfoldable pub apply : (LogEntry → Bytes) → ℕ → CrdtOp → Engine → Engine
unfolding apply_to_state
apply hash wall op e =
    apply_to_state hash op (record e { clock = (observe e.clock wall (hlc op)).0 })

unfoldable pub create_index : Str → Str → List Str → Engine → Engine
create_index name index_name columns e =
    let fresh = new_index index_name columns in
    let idx : SecondaryIndex = elim (get_table name e.store) [
      | none ↦ fresh
      | some t ↦ rebuild_from t fresh
    ] in
    record e {
      index_managers =
          update_entry name (λ m. add_index idx (unwrap_or new_manager m)) e.index_managers;
    }

unfoldable pub table_rows : Str → Engine → List Cells
table_rows name e = elim (get_table name e.store) [
  | none ↦ []
  | some t ↦
      let columns = map (λ c. c.name) t.schema.columns in
      map (λ r. map (λ column. (column, read_cell column r.1)) columns) (visible_rows t)
]

unfoldable pub snapshot_hash : (Bytes → Bytes) → (Bytes → Str) → Engine → Str
snapshot_hash blake3 hex_encode e = (compute blake3 hex_encode e.store).hex
