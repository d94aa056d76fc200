-- ===== src/Dashboard/Steps.antt =====
-- The handlers of src/bin/dashboard_server.rs that write no data, on peers whose logs are parts of
-- one history.
use conflict_free_oltp_v.Base.{
  true, false, ◌&&◌, Option, none, some, List, and_then, map_option, is_some, ◌≡◌, refl, arith, beq,
  Bool-cases, Option-cases, inl, inr, Bytes, Str, list_ord, nat_ord,
}
use conflict_free_oltp_v.BTree.{get, keys}
use conflict_free_oltp_v.BTree.Each.{Each-remove}
use conflict_free_oltp_v.Crdt.Token.{Token, token_ord}
use conflict_free_oltp_v.Crdt.Merge.{CrdtOp}
use conflict_free_oltp_v.Storage.OpLog.{LogEntry}
use conflict_free_oltp_v.Constraints.ForeignKeys.{FkPolicy, cascade}
use conflict_free_oltp_v.Engine.State.{Engine, open_with_policy}
use conflict_free_oltp_v.Engine.Rebuild.{rebuild_store, sync_from}
use conflict_free_oltp_v.Engine.Parts.{IsPart, rebuild_store-IsPart, sync_from-IsPart}
use conflict_free_oltp_v.Dashboard.Cluster.{
  Cluster, done, not_found, peer_offline, now_online, put_peer, set_online, add_peer, remove_peer,
  disconnect_peer, is_online,
}
use conflict_free_oltp_v.Dashboard.Syncing.{
  sync_two, sync_pair, sync_round, sync_with_each, sync_all_peers, toggle_partition, connect_peer,
  sync_peer_by_id, bootstrap_peer, replay_peer,
}
use conflict_free_oltp_v.Dashboard.Rounds.{IsParts}
use conflict_free_oltp_v.Dashboard.Kept.{
  PartOf, Answers, Keeps-then, Answers-some, Answers-map, put_peer-IsParts, new_engine-IsPart,
  sync_two-IsParts, sync_round-IsParts, sync_with_each-IsParts,
}

module _ (hash : LogEntry → Bytes) (history : Token → List CrdtOp) (policy : FkPolicy) where
  module _ (order : List Str → List Str) where
    pub sync_all_peers-IsParts :
        (c : Cluster)
        → IsParts hash history policy c
        → Answers hash history policy (sync_all_peers hash order c)
    unfolding sync_all_peers
    sync_all_peers-IsParts c h =
        Answers-map hash history policy
          (and_then (sync_round hash (order (keys c.peers)) c) (λ c1.
            and_then (sync_round hash (order (keys c1.peers)) c1)
              (λ c2. sync_round hash (order (keys c2.peers)) c2)))
          done
          (Keeps-then hash history policy (sync_round hash (order (keys c.peers)) c) _
            (sync_round-IsParts hash history policy (order (keys c.peers)) c h)
            (λ c1 h1.
              Keeps-then hash history policy (sync_round hash (order (keys c1.peers)) c1) _
                (sync_round-IsParts hash history policy (order (keys c1.peers)) c1 h1)
                (λ c2 h2. sync_round-IsParts hash history policy (order (keys c2.peers)) c2 h2)))

    pub toggle_partition-IsParts :
        (id : Str) (c : Cluster)
        → IsParts hash history policy c
        → Answers hash history policy (toggle_partition hash order id c)
    unfolding toggle_partition set_online
    toggle_partition-IsParts id c h c' r e = elim (Bool-cases (is_online id c)) [
      | inl on ↦
          Answers-some hash history policy (set_online id false c) (now_online false) h c' r
            (ground arith)
      | inr off ↦
          let c1 = set_online id true c in
          Answers-map hash history policy (sync_with_each hash id (order (keys c1.peers)) c1)
            (now_online true)
            (sync_with_each-IsParts hash history policy id (order (keys c1.peers)) c1 h) c' r
            (ground arith)
    ]

    pub connect_peer-IsParts :
        (id : Str) (c : Cluster)
        → IsParts hash history policy c
        → Answers hash history policy (connect_peer hash order id c)
    unfolding connect_peer set_online
    connect_peer-IsParts id c h c' r e = elim (Bool-cases (is_some (get id c.peers))) [
      | inr missing ↦ Answers-some hash history policy c not_found h c' r (ground arith)
      | inl there ↦
          let c1 = set_online id true c in
          Answers-map hash history policy (sync_with_each hash id (order (keys c.peers)) c1)
            (now_online true)
            (sync_with_each-IsParts hash history policy id (order (keys c.peers)) c1 h) c' r
            (ground arith)
    ]

    pub sync_peer_by_id-IsParts :
        (id : Str) (c : Cluster)
        → IsParts hash history policy c
        → Answers hash history policy (sync_peer_by_id hash order id c)
    unfolding sync_peer_by_id
    sync_peer_by_id-IsParts id c h c' r e = elim (Bool-cases (is_some (get id c.peers))) [
      | inr missing ↦ Answers-some hash history policy c not_found h c' r (ground arith)
      | inl there ↦
          Answers-map hash history policy (sync_with_each hash id (order (keys c.peers)) c) done
            (sync_with_each-IsParts hash history policy id (order (keys c.peers)) c h) c' r
            (ground arith)
    ]

  pub sync_pair-IsParts :
      (a b : Str) (c : Cluster)
      → IsParts hash history policy c
      → Answers hash history policy (sync_pair hash a b c)
  unfolding sync_pair
  sync_pair-IsParts a b c h c' r e = elim (Bool-cases (is_online a c && is_online b c)) [
    | inr off ↦ Answers-some hash history policy c peer_offline h c' r (ground arith)
    | inl both ↦
        Answers-map hash history policy (sync_two hash a b c) done
          (sync_two-IsParts hash history policy a b c h) c' r (ground arith)
  ]

  pub put_option-IsParts :
      (id : Str) (run : Option Engine) (c : Cluster)
      → ((e : Engine) → run ≡ some e → IsPart hash history policy e)
      → IsParts hash history policy c
      → Answers hash history policy (map_option (λ e. (put_peer id e c, done)) run)
  put_option-IsParts id none c p h c' r e = absurd (cc)
  put_option-IsParts id (some x) c p h c' r e =
      Answers-some hash history policy (put_peer id x c) done
        (put_peer-IsParts hash history policy id x c (p x refl) h) c' r e

  pub bootstrap_peer-IsParts :
      (id from : Str) (c : Cluster)
      → IsParts hash history policy c
      → Answers hash history policy (bootstrap_peer hash id from c)
  unfolding bootstrap_peer
  bootstrap_peer-IsParts id from c h c' r e = elim (Option-cases (get id c.peers)) [
    | inl missing ↦ Answers-some hash history policy c not_found h c' r (ground arith)
    | inr (dst, at) ↦ elim (Option-cases (get from c.peers)) [
      | inl missing ↦ Answers-some hash history policy c not_found h c' r (ground arith)
      | inr (src, from_at) ↦ elim (Bool-cases (beq id from)) [
        | inl same ↦ absurd (ground arith)
        | inr other ↦
            put_option-IsParts id (sync_from hash dst src) c
              (λ x.
                sync_from-IsPart hash history policy dst src x (h id dst at) (h from src from_at))
              h c' r (ground arith)
      ]
    ]
  ]

  pub replay_peer-IsParts :
      (id : Str) (c : Cluster)
      → IsParts hash history policy c
      → Answers hash history policy (replay_peer id c)
  unfolding replay_peer
  replay_peer-IsParts id c h c' r e = elim (Option-cases (get id c.peers)) [
    | inl missing ↦ Answers-some hash history policy c not_found h c' r (ground arith)
    | inr (x, at) ↦
        put_option-IsParts id (rebuild_store x) c
          (λ y. rebuild_store-IsPart hash history policy x y (h id x at)) h c' r (ground arith)
  ]

  pub remove_peer-IsParts :
      (id : Str) (c : Cluster)
      → IsParts hash history policy c
      → IsParts hash history policy (remove_peer id c).0
  unfolding remove_peer
  remove_peer-IsParts id c h = elim (Bool-cases (is_some (get id c.peers))) [
    | inl there ↦ rw there (Each-remove (PartOf hash history policy) id c.peers h)
    | inr missing ↦ rw missing h
  ]

  pub disconnect_peer-IsParts :
      (id : Str) (c : Cluster)
      → IsParts hash history policy c
      → IsParts hash history policy (disconnect_peer id c).0
  unfolding disconnect_peer set_online
  disconnect_peer-IsParts id c h = elim (Bool-cases (is_some (get id c.peers))) [
    | inl there ↦ rw there h
    | inr missing ↦ rw missing h
  ]

  pub add_peer-IsParts :
      (id : Str) (c : Cluster)
      → policy ≡ cascade
      → IsParts hash history policy c
      → IsParts hash history policy (add_peer id c).0
  unfolding add_peer set_online
  add_peer-IsParts id c same h = elim (Bool-cases (is_some (get id c.peers))) [
    | inl there ↦ rw there h
    | inr missing ↦ rw missing (
        put_peer-IsParts hash history policy id (open_with_policy id cascade) c
          (new_engine-IsPart hash history policy id same) h)
  ]
