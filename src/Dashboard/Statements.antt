-- ===== src/Dashboard/Statements.antt =====
-- src/bin/dashboard_server.rs: the handlers that run SQL on a peer, and what they report of it.
use conflict_free_oltp_v.Base.{
  ℕ, Bool, true, false, ◌&&◌, Option, none, some, List, [], ◌∷◌, ◌++◌, map, zip, length, ◌==◌,
  if◌then◌else◌, beq, map_option, list_ord, nat_ord, Bytes, Str, str, Result, ok, err,
}
use conflict_free_oltp_v.BTree.{BTreeMap, empty, get, insert, values}
use conflict_free_oltp_v.Utf8.{from_utf8_lossy}
use conflict_free_oltp_v.Storage.OpLog.{LogEntry, len}
use conflict_free_oltp_v.Sql.Syntax.{SqlCrate}
use conflict_free_oltp_v.Engine.State.{Engine, snapshot_hash}
use conflict_free_oltp_v.Engine.Statements.{EngineError, execute, query}
use conflict_free_oltp_v.Dashboard.Cluster.{
  Cluster, Reply, done, not_found, failed, is_online, put_peer,
}

-- A parameter in JSON; a number and what else there is by its print.
pub data Param : Type 0 where
  string number other : Str → Param
  null : Param

-- `s.replace('\'', "''")`
unfoldable pub double_quotes : Str → Str
double_quotes [] = []
double_quotes (c ∷ s) = let rest = double_quotes s in if c == b'\'' then c ∷ c ∷ rest else c ∷ rest

-- A parameter as a literal of SQL.
unfoldable pub literal : Param → Str
unfolding double_quotes
literal (string s) = str "'" ++ (double_quotes s ++ str "'")
literal (number n) = n
literal (other s) = str "'" ++ (double_quotes s ++ str "'")
literal null = str "NULL"

-- Each question mark takes the next parameter, NULL once there are none left.
unfoldable pub substitute : List Param → Str → Str
unfolding literal
substitute params [] = []
substitute params (c ∷ s) = elim (c == b'?') [
  | false ↦ c ∷ substitute params s
  | true ↦ elim params [
    | [] ↦ str "NULL" ++ substitute [] s
    | p ∷ rest ↦ literal p ++ substitute rest s
  ]
]

-- A statement without parameters is left as it is.
unfoldable pub exec_sql : List Param → Str → Str
unfolding substitute
exec_sql [] sql = sql
exec_sql (p ∷ params) sql = substitute (p ∷ params) sql

-- What `peer_info` tells of a peer.
pub record PeerInfo : Type 0 where
  pub is_up : Bool
  pub op_count : ℕ
  pub snapshot : Str
  pub user_count : ℕ
  pub order_count : ℕ

module _ (lib : SqlCrate) where
  -- `e.query(sql).unwrap_or_default().len()`
  unfoldable pub count_rows : Str → Engine → ℕ
  unfolding query
  count_rows sql e = elim (query lib sql e) [ ok rows ↦ length rows | err reason ↦ 0 ]

  unfoldable pub peer_info : (Bytes → Bytes) → (Bytes → Str) → Str → Cluster → Option PeerInfo
  unfolding count_rows snapshot_hash
  peer_info blake3 hex_encode id c =
      map_option
        (λ e. record {
          is_up = is_online id c;
          op_count = len e.log;
          snapshot = snapshot_hash blake3 hex_encode e;
          user_count = count_rows (str "SELECT * FROM users") e;
          order_count = count_rows (str "SELECT * FROM orders") e;
        })
        (get id c.peers)

  -- The fields of a row in JSON, by their names.
  unfoldable pub row_object :
      List (Str × Option Bytes) → BTreeMap Str (Option Str) → BTreeMap Str (Option Str)
  row_object [] obj = obj
  row_object ((column, value) ∷ fields) obj =
      row_object fields (insert column (map_option from_utf8_lossy value) obj)

  unfoldable pub query_peer :
      Str → Str → Cluster → Option (Result EngineError (List (BTreeMap Str (Option Str))))
  unfolding query row_object
  query_peer id sql c =
      map_option
        (λ e. elim (query lib sql e) [
          | ok rows ↦ ok (map (λ r. row_object (zip r.columns r.values) empty) rows)
          | err reason ↦ err reason
        ])
        (get id c.peers)

  module _ (hash : LogEntry → Bytes) (wall : ℕ → ℕ) where
    -- `lock!(eng).execute(&sql)`
    unfoldable pub execute_on : Str → Str → Cluster → Cluster × Reply
    unfolding execute put_peer
    execute_on id sql c = elim (get id c.peers) [
      | none ↦ (c, not_found)
      | some e ↦
          let (s, r) = execute hash wall lib sql (record { engine = e; readings = c.readings }) in
          let c' = put_peer id s.engine (record c { readings = s.readings }) in
          elim r [ ok tt ↦ (c', done) | err reason ↦ (c', failed reason) ]
    ]

    unfoldable pub exec_peer : Str → Str → List Param → Cluster → Cluster × Reply
    unfolding execute_on exec_sql
    exec_peer id sql params c = execute_on id (exec_sql params sql) c

    unfoldable pub create_schema : Str → Str → Cluster → Cluster × Reply
    unfolding execute_on
    create_schema id sql c = execute_on id sql c

-- The hashes of all peers, by which `emit_convergence` tells whether they agree.
unfoldable pub all_equal : List Str → Bool
all_equal [] = true
all_equal (h ∷ []) = true
all_equal (h ∷ k ∷ hashes) = beq h k && all_equal (k ∷ hashes)

unfoldable pub converged : (Bytes → Bytes) → (Bytes → Str) → Cluster → Bool
unfolding all_equal snapshot_hash
converged blake3 hex_encode c =
    all_equal (map (λ e. snapshot_hash blake3 hex_encode e) (values c.peers))
