-- ===== src/Dashboard/Syncing.antt =====
-- src/bin/dashboard_server.rs: the handlers that exchange the logs of peers. `none` is a handler
-- that does not return: a panic, or a lock that its own thread holds. The order in which a HashMap
-- is walked is a parameter.
use conflict_free_oltp_v.Base.{
  true, false, not, ◌&&◌, Option, none, some, List, [], ◌∷◌, is_some, and_then, map_option, beq,
  if◌then◌else◌, list_ord, nat_ord, Bytes, Str,
}
use conflict_free_oltp_v.BTree.{get, keys}
use conflict_free_oltp_v.Storage.OpLog.{LogEntry}
use conflict_free_oltp_v.Engine.Rebuild.{rebuild_store, sync_with, sync_from}
use conflict_free_oltp_v.Dashboard.Cluster.{
  Cluster, Reply, done, not_found, peer_offline, now_online, is_online, set_online, put_peer,
}

module _ (hash : LogEntry → Bytes) where
  -- `if let (Some(fe), Some(te)) = .. { lock!(fe).sync_with(&mut lock!(te)) }`. The second lock of
  -- one peer waits for the first.
  unfoldable pub sync_two : Str → Str → Cluster → Option Cluster
  unfolding sync_with put_peer
  sync_two a b c = elim (get a c.peers) [
    | none ↦ some c
    | some ea ↦ elim (get b c.peers) [
      | none ↦ some c
      | some eb ↦
          if beq a b
          then none
          else map_option (λ p. put_peer b p.1 (put_peer a p.0 c)) (sync_with hash ea eb)
    ]
  ]

  unfoldable pub sync_pair : Str → Str → Cluster → Option (Cluster × Reply)
  unfolding sync_two
  sync_pair from to c =
      if is_online from c && is_online to c
      then map_option (λ c'. (c', done)) (sync_two from to c)
      else some (c, peer_offline)

  -- `if ao && bo { .. }`
  unfoldable pub sync_if_online : Str → Str → Cluster → Option Cluster
  unfolding sync_two
  sync_if_online a b c = if is_online a c && is_online b c then sync_two a b c else some c

  -- `for j in (i+1)..keys.len()`
  unfoldable pub sync_row : Str → List Str → Cluster → Option Cluster
  unfolding sync_if_online
  sync_row a [] c = some c
  sync_row a (b ∷ keys) c = and_then (sync_if_online a b c) (sync_row a keys)

  -- `for i in 0..keys.len()`
  unfoldable pub sync_round : List Str → Cluster → Option Cluster
  unfolding sync_row
  sync_round [] c = some c
  sync_round (a ∷ keys) c = and_then (sync_row a keys c) (sync_round keys)

  -- The other peers that are online, one after the other.
  unfoldable pub sync_with_each : Str → List Str → Cluster → Option Cluster
  unfolding sync_two
  sync_with_each id [] c = some c
  sync_with_each id (pid ∷ pids) c = elim (not (beq pid id) && is_online pid c) [
    | true ↦ and_then (sync_two id pid c) (sync_with_each id pids)
    | false ↦ sync_with_each id pids c
  ]

  module _ (order : List Str → List Str) where
    unfoldable pub sync_all_peers : Cluster → Option (Cluster × Reply)
    unfolding sync_round
    sync_all_peers c =
        map_option (λ c'. (c', done))
          (and_then (sync_round (order (keys c.peers)) c) (λ c1.
            and_then (sync_round (order (keys c1.peers)) c1)
              (λ c2. sync_round (order (keys c2.peers)) c2)))

    -- A peer that comes back is synced with the others; an id without a peer gets a flag too.
    unfoldable pub toggle_partition : Str → Cluster → Option (Cluster × Reply)
    unfolding sync_with_each set_online
    toggle_partition id c =
        let status = not (is_online id c) in
        let c' = set_online id status c in
        if status
        then map_option (λ c2. (c2, now_online status))
            (sync_with_each id (order (keys c'.peers)) c')
        else some (c', now_online status)

    unfoldable pub connect_peer : Str → Cluster → Option (Cluster × Reply)
    unfolding sync_with_each set_online
    connect_peer id c =
        if is_some (get id c.peers)
        then map_option (λ c2. (c2, now_online true))
            (sync_with_each id (order (keys c.peers)) (set_online id true c))
        else some (c, not_found)

    -- Whether the peer itself is online is not asked.
    unfoldable pub sync_peer_by_id : Str → Cluster → Option (Cluster × Reply)
    unfolding sync_with_each
    sync_peer_by_id id c =
        if is_some (get id c.peers)
        then map_option (λ c'. (c', done)) (sync_with_each id (order (keys c.peers)) c)
        else some (c, not_found)

  unfoldable pub bootstrap_peer : Str → Str → Cluster → Option (Cluster × Reply)
  unfolding sync_from put_peer
  bootstrap_peer id from_peer c = elim (get id c.peers) [
    | none ↦ some (c, not_found)
    | some dst ↦ elim (get from_peer c.peers) [
      | none ↦ some (c, not_found)
      | some src ↦
          if beq id from_peer
          then none
          else map_option (λ e. (put_peer id e c, done)) (sync_from hash dst src)
    ]
  ]

unfoldable pub replay_peer : Str → Cluster → Option (Cluster × Reply)
unfolding rebuild_store put_peer
replay_peer id c = elim (get id c.peers) [
  | none ↦ some (c, not_found)
  | some e ↦ map_option (λ e'. (put_peer id e' c, done)) (rebuild_store e)
]
