-- ===== src/Dashboard/Seeded.antt =====
-- src/bin/dashboard_server.rs: the cluster that the server starts with, and the snapshots of a peer.
-- The report on integrity that snapshot_state computes and drops is not modelled.
use conflict_free_oltp_v.Base.{
  ℕ, true, Option, none, List, [], ◌∷◌, map, map_option, is_some, if◌then◌else◌, list_ord, nat_ord,
  Bytes, Str, str,
}
use conflict_free_oltp_v.BTree.{BTreeMap, empty, get, insert}
use conflict_free_oltp_v.Utf8.{from_utf8_lossy}
use conflict_free_oltp_v.Sort.{sort_by}
use conflict_free_oltp_v.Crdt.OrSet
use conflict_free_oltp_v.Storage.OpLog.{LogEntry}
use conflict_free_oltp_v.Storage.RowStore.{CrdtRow, TableState, read_cell, with_rows}
use conflict_free_oltp_v.Constraints.ForeignKeys.{tombstone}
use conflict_free_oltp_v.Sql.Syntax.{SqlCrate}
use conflict_free_oltp_v.Engine.State.{open_with_policy, snapshot_hash}
use conflict_free_oltp_v.Engine.Statements.{Session, execute}
use conflict_free_oltp_v.Dashboard.Cluster.{Cluster, base_peers, put_peer, set_online}
use conflict_free_oltp_v.Dashboard.Statements.{PeerInfo, peer_info}

abbrev pub seed_statements : List Str
seed_statements =
    str "CREATE TABLE users (id TEXT PRIMARY KEY, email TEXT UNIQUE NOT NULL, name TEXT)"
    ∷ str
        "CREATE TABLE orders (id TEXT PRIMARY KEY, user_id TEXT NOT NULL, status TEXT NOT NULL, total_cents INTEGER NOT NULL)"
    ∷ str "INSERT INTO users VALUES ('u1', 'alice@example.com', 'Alice')"
    ∷ str "INSERT INTO users VALUES ('u2', 'bob@example.com', 'Bob')"
    ∷ str "INSERT INTO orders VALUES ('o1', 'u1', 'PENDING', 2500)"
    ∷ str "INSERT INTO orders VALUES ('o2', 'u2', 'SHIPPED', 8900)"
    ∷ []

module _ (hash : LogEntry → Bytes) (wall : ℕ → ℕ) (lib : SqlCrate) where
  -- `let _ = e.execute(..)`, one after the other.
  unfoldable pub run_statements : List Str → Session → Session
  unfolding execute
  run_statements [] s = s
  run_statements (sql ∷ sqls) s = run_statements sqls (execute hash wall lib sql s).0

  unfoldable pub seed_peer : Str → Cluster → Cluster
  unfolding run_statements put_peer set_online
  seed_peer id c =
      let s =
        run_statements seed_statements
          (record { engine = open_with_policy id tombstone; readings = c.readings }) in
      set_online id true (put_peer id s.engine (record c { readings = s.readings }))

  unfoldable pub seed_peers : List Str → Cluster → Cluster
  unfolding seed_peer
  seed_peers [] c = c
  seed_peers (id ∷ ids) c = seed_peers ids (seed_peer id c)

  unfoldable pub build_state : Cluster
  unfolding seed_peers
  build_state = seed_peers base_peers (record { peers = empty; online = empty; readings = 0 })

-- `json!({ "error": "not found" })` is `none`.
unfoldable pub get_snapshot : (Bytes → Bytes) → (Bytes → Str) → Str → Cluster → Option Str
unfolding snapshot_hash
get_snapshot blake3 hex_encode id c = map_option (snapshot_hash blake3 hex_encode) (get id c.peers)

unfoldable pub get_peer_state :
    SqlCrate → (Bytes → Bytes) → (Bytes → Str) → Str → Cluster → Option PeerInfo
unfolding peer_info
get_peer_state lib blake3 hex_encode id c =
    if is_some (get id c.peers) then peer_info lib blake3 hex_encode id c else none

-- A row in JSON: null for a column without a value.
unfoldable pub row_json : List Str → CrdtRow → BTreeMap Str (Option Str) → BTreeMap Str (Option Str)
unfolding read_cell
row_json [] row obj = obj
row_json (column ∷ columns) row obj =
    row_json columns row (insert column (map_option from_utf8_lossy (read_cell column row)) obj)

-- The visible rows of a table, by their ids.
unfoldable pub table_json : TableState → List (BTreeMap Str (Option Str))
unfolding row_json sort_by OrSet.visible_rows
table_json t =
    map (λ r. row_json (map (λ c. c.name) t.schema.columns) r.1 empty)
      (with_rows t.rows (sort_by (λ id. id) (OrSet.visible_rows t.membership)))

unfoldable pub tables_json :
    List (Str × TableState)
    → BTreeMap Str (List (BTreeMap Str (Option Str)))
    → BTreeMap Str (List (BTreeMap Str (Option Str)))
unfolding table_json
tables_json [] obj = obj
tables_json ((name, t) ∷ tables) obj = tables_json tables (insert name (table_json t) obj)

unfoldable pub snapshot_state :
    Str → Cluster → Option (BTreeMap Str (List (BTreeMap Str (Option Str))))
unfolding tables_json
snapshot_state id c = map_option (λ e. tables_json e.store.tables.entries empty) (get id c.peers)
