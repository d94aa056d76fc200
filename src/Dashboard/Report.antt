-- ===== src/Dashboard/Report.antt =====
-- `emit_convergence` of src/bin/dashboard_server.rs: what it reports once `sync_all_peers` is over.
use conflict_free_oltp_v.Base.{
  true, false, some, List, [], ◌∷◌, map, is_some, map_option, ◌≡◌, refl, sym, ap, ◌∙◌, arith, beq,
  beq_refl, Bytes, Str, list_ord, nat_ord, Ord,
}
use conflict_free_oltp_v.BTree.{get}
use conflict_free_oltp_v.BTree.Entries.{get_entry_behind, IsSorted, get_entry}
use conflict_free_oltp_v.Crdt.Token.{Token}
use conflict_free_oltp_v.Crdt.Merge.{CrdtOp}
use conflict_free_oltp_v.Storage.OpLog.{LogEntry}
use conflict_free_oltp_v.Constraints.ForeignKeys.{FkPolicy}
use conflict_free_oltp_v.Storage.Snapshots.{compute}
use conflict_free_oltp_v.Engine.State.{snapshot_hash}
use conflict_free_oltp_v.Dashboard.Cluster.{Cluster, is_online}
use conflict_free_oltp_v.Dashboard.Syncing.{sync_all_peers}
use conflict_free_oltp_v.Dashboard.Statements.{all_equal, converged}
use conflict_free_oltp_v.Dashboard.Rounds.{IsParts}
use conflict_free_oltp_v.Dashboard.Walk.{IsOrder}
use conflict_free_oltp_v.Dashboard.Converge.{IsSynced-same, sync_all_peers-IsSynced}

module _ {K : Type 0} {V : Type 0} ⦃o : Ord K⦄ where
  -- If any two entries of sorted entries have the same hash, all have.
  all_equal_entries :
      (f : V → Str) (m : List (K × V))
      → IsSorted m
      → ((j k : K) (w v : V)
          → get_entry j m ≡ some w
          → get_entry k m ≡ some v
          → beq j k ≡ false
          → f w ≡ f v)
      → all_equal (map f (map (λ e. e.1) m)) ≡ true
  unfolding all_equal get_entry
  all_equal_entries f [] s h = refl
  all_equal_entries f ((j, w) ∷ []) s h = refl
  all_equal_entries f ((j, w) ∷ (k, v) ∷ m) s h =
      let same : f w ≡ f v =
        h j k w v (ground (arith, o.cmp_refl j))
          (get_entry_behind j k w v ((k, v) ∷ m) s.0 (ground (arith, o.cmp_refl k)))
          (ground (arith, s.0)) in
      let rest = all_equal_entries f ((k, v) ∷ m) s.1 (λ i l x y p q.
        h i l x y (get_entry_behind j i w x ((k, v) ∷ m) s.0 p)
          (get_entry_behind j l w y ((k, v) ∷ m) s.0 q)) in
      ground (arith, rest, beq_refl (f w))

module _ (hash : LogEntry → Bytes) (history : Token → List CrdtOp) (policy : FkPolicy)
    (order : List Str → List Str) (ordered : IsOrder order) (blake3 : Bytes → Bytes)
    (hex_encode : Bytes → Str) where
  -- If under the same conditions every peer is online, what emit_convergence reports after
  -- sync_all_peers is that the peers have converged: their snapshot hashes are all equal, whatever
  -- the hash and its print.
  pub sync_all_peers-converged :
      (c : Cluster)
      → IsParts hash history policy c
      → ((x : Str) → is_some (get x c.peers) ≡ true → is_online x c ≡ true)
      → map_option (λ p. converged blake3 hex_encode p.0) (sync_all_peers hash order c) ≡ some true
  unfolding converged get snapshot_hash
  sync_all_peers-converged c h on =
      let (c', s) = sync_all_peers-IsSynced hash history policy order ordered c h in
      ap (map_option (λ p. converged blake3 hex_encode p.0)) s.run
      ∙ ap some (
          all_equal_entries (snapshot_hash blake3 hex_encode) c'.peers.entries c'.peers.sorted
            (λ x y a b at_x at_y ne.
              ap (λ k. (compute blake3 hex_encode k).hex)
                (IsSynced-same hash history policy order ordered c c' x y a b s at_x at_y ne
                  (on x (sym (s.there x) ∙ ap is_some at_x))
                  (on y (sym (s.there y) ∙ ap is_some at_y))).0))
