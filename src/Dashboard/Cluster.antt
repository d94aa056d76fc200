-- ===== src/Dashboard/Cluster.antt =====
-- src/bin/dashboard_server.rs: the peers of a cluster, which of them are online, and the handlers
-- that add, remove and disconnect them. Events to the browser are not modelled.
use conflict_free_oltp_v.Base.{
  ℕ, Bool, true, false, List, [], ◌∷◌, is_some, unwrap_or, if◌then◌else◌, list_ord, nat_ord, Str,
  str,
}
use conflict_free_oltp_v.BTree.{BTreeMap, empty, get, insert, remove}
use conflict_free_oltp_v.Constraints.ForeignKeys.{FkPolicy, cascade}
use conflict_free_oltp_v.Engine.State.{Engine, open_with_policy}
use conflict_free_oltp_v.Engine.Statements.{EngineError}

-- The maps of `AppState`. The wall clock has been read `readings` times.
pub record Cluster : Type 0 where
  pub peers : BTreeMap Str Engine
  pub online : BTreeMap Str Bool
  pub readings : ℕ

-- The answer of a handler.
pub data Reply : Type 0 where
  done not_found peer_offline peer_exists : Reply
  now_online : Bool → Reply
  failed : EngineError → Reply

-- `*online.get(id).unwrap_or(&true)`
abbrev pub is_online : Str → Cluster → Bool
is_online id c = unwrap_or true (get id c.online)

unfoldable pub set_online : Str → Bool → Cluster → Cluster
set_online id status c = record c { online = insert id status c.online }

unfoldable pub put_peer : Str → Engine → Cluster → Cluster
put_peer id e c = record c { peers = insert id e c.peers }

unfoldable pub add_peer : Str → Cluster → Cluster × Reply
unfolding put_peer set_online
add_peer id c =
    if is_some (get id c.peers)
    then (c, peer_exists)
    else (set_online id true (put_peer id (open_with_policy id cascade) c), done)

unfoldable pub remove_peer : Str → Cluster → Cluster × Reply
remove_peer id c =
    if is_some (get id c.peers)
    then (record c { peers = remove id c.peers; online = remove id c.online }, done)
    else (c, not_found)

unfoldable pub disconnect_peer : Str → Cluster → Cluster × Reply
unfolding set_online
disconnect_peer id c =
    if is_some (get id c.peers) then (set_online id false c, now_online false) else (c, not_found)

-- A peer that is online, under a policy.
abbrev pub open_peer : FkPolicy → Str → Cluster → Cluster
open_peer policy id c = set_online id true (put_peer id (open_with_policy id policy) c)

abbrev pub base_peers : List Str
base_peers = str "P0" ∷ str "P1" ∷ str "P2" ∷ str "P3" ∷ []

unfoldable pub open_peers : List Str → Cluster → Cluster
unfolding set_online put_peer
open_peers [] c = c
open_peers (id ∷ ids) c = open_peers ids (open_peer cascade id c)

-- Every peer is dropped, and the base peers are opened anew, without data.
unfoldable pub reset_cluster : Cluster → Cluster × Reply
unfolding open_peers
reset_cluster c = (open_peers base_peers (record c { peers = empty; online = empty }), done)
