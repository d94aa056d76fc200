-- ===== src/Engine/Rebuild.antt =====
-- `rebuild_store`, `sync_with` and `sync_from` of src/api/engine.rs.
use conflict_free_oltp_v.Base.{
  Option, none, some, List, map_option, and_then, list_ord, nat_ord, Bytes, Str,
}
use conflict_free_oltp_v.BTree.{BTreeMap, map_values}
use conflict_free_oltp_v.Crdt.Merge.{CrdtOp}
use conflict_free_oltp_v.Storage.OpLog.{LogEntry, ops}
use conflict_free_oltp_v.Storage.RowStore.{RowStore, get_table}
use conflict_free_oltp_v.Constraints.ForeignKeys.{FkPolicy, tombstone, cascade, orphan}
use conflict_free_oltp_v.Index.SecondaryIndex.{TableIndexManager, rebuild_all}
use conflict_free_oltp_v.Sync.AntiEntropy.{
  Synced, sync_peers, append_all, missing_from, fingerprints,
}
use conflict_free_oltp_v.Engine.State.{Engine}
use conflict_free_oltp_v.Engine.Replay.{Replayed, new_replayed, replay, replay_order, null_losers}
use conflict_free_oltp_v.Engine.FkCascade.{cascade_deletions}

-- `if matches!(self.fk_policy, FkPolicy::Cascade)`
unfoldable pub cascade_if : FkPolicy → RowStore → Option RowStore
unfolding cascade_deletions
cascade_if tombstone s = some s
cascade_if cascade s = cascade_deletions s
cascade_if orphan s = some s

-- What a rebuild makes of a list of operations; `none` is a panic on a composite name.
unfoldable pub rebuilt : FkPolicy → List CrdtOp → Option Replayed
unfolding replay replay_order null_losers cascade_if
rebuilt policy l =
    let r = replay (replay_order l) new_replayed in
    map_option (λ s. record r { store = s })
      (and_then (null_losers r.uniqueness.entries r.store) (cascade_if policy))

-- Each manager whose table is there rebuilds its indexes.
unfoldable pub rebuild_indexes :
    RowStore → BTreeMap Str TableIndexManager → BTreeMap Str TableIndexManager
unfolding map_values rebuild_all
rebuild_indexes s m =
    map_values (λ name mgr. elim (get_table name s) [ none ↦ mgr | some t ↦ rebuild_all t mgr ]) m

-- The engine with what a rebuild made.
unfoldable pub rebuild_with : Engine → Replayed → Engine
unfolding rebuild_indexes
rebuild_with e r = record e {
  store = r.store;
  uniqueness = r.uniqueness;
  index_managers = rebuild_indexes r.store e.index_managers;
}

unfoldable pub rebuild_store : Engine → Option Engine
unfolding rebuilt rebuild_with
rebuild_store e = map_option (rebuild_with e) (rebuilt e.fk_policy (ops e.log))

module _ (hash : LogEntry → Bytes) where
  -- The exchange of the logs, before the stores are rebuilt.
  unfoldable pub exchange : Engine → Engine → Synced
  unfolding sync_peers
  exchange a b = sync_peers hash a.log b.log a.peer_id b.peer_id a.sync_cursor b.sync_cursor

  unfoldable pub sync_with : Engine → Engine → Option (Engine × Engine)
  unfolding exchange rebuild_store
  sync_with a b =
      let s = exchange a b in
      and_then (rebuild_store (record a { log = s.log_a; sync_cursor = s.cursor_a })) (λ a'.
        map_option (λ b'. (a', b'))
          (rebuild_store (record b { log = s.log_b; sync_cursor = s.cursor_b })))

  unfoldable pub sync_from : Engine → Engine → Option Engine
  unfolding append_all rebuild_store
  sync_from e source = rebuild_store (record e {
    log = append_all hash (missing_from (fingerprints e.log) (ops source.log)) e.log;
  })
