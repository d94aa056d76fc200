-- ===== src/Dashboard/Requests.antt =====
-- The requests to src/bin/dashboard_server.rs that write no data, as steps of a cluster.
use conflict_free_oltp_v.Base.{
  true, some, List, map_option, is_some, ◌≡◌, refl, Bytes, Str, list_ord, nat_ord,
}
use conflict_free_oltp_v.BTree.{get, empty}
use conflict_free_oltp_v.BTree.Each.{Each-empty}
use conflict_free_oltp_v.Crdt.Token.{Token, token_ord}
use conflict_free_oltp_v.Crdt.Merge.{CrdtOp}
use conflict_free_oltp_v.Storage.OpLog.{LogEntry}
use conflict_free_oltp_v.Constraints.ForeignKeys.{cascade}
use conflict_free_oltp_v.Engine.Parts.{IsPart}
use conflict_free_oltp_v.Dashboard.Cluster.{
  Cluster, Reply, add_peer, remove_peer, disconnect_peer, base_peers, reset_cluster, is_online,
}
use conflict_free_oltp_v.Dashboard.Syncing.{
  sync_pair, sync_all_peers, toggle_partition, connect_peer, sync_peer_by_id, bootstrap_peer,
  replay_peer,
}
use conflict_free_oltp_v.Dashboard.Rounds.{IsParts}
use conflict_free_oltp_v.Dashboard.Kept.{open_peers-IsParts}
use conflict_free_oltp_v.Dashboard.Steps.{
  sync_all_peers-IsParts, toggle_partition-IsParts, connect_peer-IsParts, sync_peer_by_id-IsParts,
  sync_pair-IsParts, bootstrap_peer-IsParts, replay_peer-IsParts, remove_peer-IsParts,
  disconnect_peer-IsParts, add_peer-IsParts,
}
use conflict_free_oltp_v.Dashboard.Statements.{converged}
use conflict_free_oltp_v.Dashboard.Walk.{IsOrder}
use conflict_free_oltp_v.Dashboard.Report.{sync_all_peers-converged}

module _ (hash : LogEntry → Bytes) (order : List Str → List Str) where
  -- One request that returns.
  pub data Step (c : Cluster) : Cluster → Type 0 where
    adds : (id : Str) → Step c (add_peer id c).0
    removes : (id : Str) → Step c (remove_peer id c).0
    disconnects : (id : Str) → Step c (disconnect_peer id c).0
    resets : Step c (reset_cluster c).0
    syncs_pair :
        (from to : Str) {c' : Cluster} {r : Reply}
        → sync_pair hash from to c ≡ some (c', r)
        → Step c c'
    syncs_all : {c' : Cluster} {r : Reply} → sync_all_peers hash order c ≡ some (c', r) → Step c c'
    toggles :
        (id : Str) {c' : Cluster} {r : Reply}
        → toggle_partition hash order id c ≡ some (c', r)
        → Step c c'
    connects :
        (id : Str) {c' : Cluster} {r : Reply}
        → connect_peer hash order id c ≡ some (c', r)
        → Step c c'
    syncs_peer :
        (id : Str) {c' : Cluster} {r : Reply}
        → sync_peer_by_id hash order id c ≡ some (c', r)
        → Step c c'
    bootstraps :
        (id from_peer : Str) {c' : Cluster} {r : Reply}
        → bootstrap_peer hash id from_peer c ≡ some (c', r)
        → Step c c'
    replays : (id : Str) {c' : Cluster} {r : Reply} → replay_peer id c ≡ some (c', r) → Step c c'

  pub data Reach (c : Cluster) : Cluster → Type 0 where
    start : Reach c c
    later : {c1 c2 : Cluster} → Reach c c1 → Step c1 c2 → Reach c c2

module _ (hash : LogEntry → Bytes) (history : Token → List CrdtOp)
    (order : List Str → List Str) where
  reset_cluster-IsParts : (c : Cluster) → IsParts hash history cascade (reset_cluster c).0
  unfolding reset_cluster
  reset_cluster-IsParts c =
      open_peers-IsParts hash history cascade base_peers
        (record c { peers = empty; online = empty }) refl
        (Each-empty (λ x e. IsPart hash history cascade e))

  Step-IsParts :
      (c c' : Cluster)
      → Step hash order c c'
      → IsParts hash history cascade c
      → IsParts hash history cascade c'
  Step-IsParts c _ (adds id) h = add_peer-IsParts hash history cascade id c refl h
  Step-IsParts c _ (removes id) h = remove_peer-IsParts hash history cascade id c h
  Step-IsParts c _ (disconnects id) h = disconnect_peer-IsParts hash history cascade id c h
  Step-IsParts c _ resets h = reset_cluster-IsParts c
  Step-IsParts c c' (syncs_pair from to {r} e) h =
      sync_pair-IsParts hash history cascade from to c h c' r e
  Step-IsParts c c' (syncs_all {r} e) h =
      sync_all_peers-IsParts hash history cascade order c h c' r e
  Step-IsParts c c' (toggles id {r} e) h =
      toggle_partition-IsParts hash history cascade order id c h c' r e
  Step-IsParts c c' (connects id {r} e) h =
      connect_peer-IsParts hash history cascade order id c h c' r e
  Step-IsParts c c' (syncs_peer id {r} e) h =
      sync_peer_by_id-IsParts hash history cascade order id c h c' r e
  Step-IsParts c c' (bootstraps id from {r} e) h =
      bootstrap_peer-IsParts hash history cascade id from c h c' r e
  Step-IsParts c c' (replays id {r} e) h = replay_peer-IsParts hash history cascade id c h c' r e

  -- The logs stay parts of the history.
  pub Reach-IsParts :
      (c c' : Cluster)
      → Reach hash order c c'
      → IsParts hash history cascade c
      → IsParts hash history cascade c'
  Reach-IsParts c _ start h = h
  Reach-IsParts c c2 (later {c1} before step) h =
      Step-IsParts c1 c2 step (Reach-IsParts c c1 before h)

  -- Start with a cluster in which the log of every peer is well formed, a part of one history and
  -- without an ill-formed composite name, under the cascade policy; after any sequence of requests
  -- that return and write no data (peers are added, removed, disconnected, connected, toggled,
  -- synced in a pair, one with all or all with all, bootstrapped, replayed, or the cluster is
  -- reset), if every peer is online, then sync_all_peers returns and emit_convergence reports that
  -- the peers have converged: their snapshot hashes are all equal, whatever the hash and its print.
  pub Reach-converged :
      (blake3 : Bytes → Bytes) (hex_encode : Bytes → Str) (c c' : Cluster)
      → IsOrder order
      → IsParts hash history cascade c
      → Reach hash order c c'
      → ((x : Str) → is_some (get x c'.peers) ≡ true → is_online x c' ≡ true)
      → map_option (λ p. converged blake3 hex_encode p.0) (sync_all_peers hash order c') ≡ some true
  Reach-converged blake3 hex_encode c c' ordered h reached on =
      sync_all_peers-converged hash history cascade order ordered blake3 hex_encode c'
        (Reach-IsParts c c' reached h) on
