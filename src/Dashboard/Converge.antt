-- ===== src/Dashboard/Converge.antt =====
-- `sync_all_peers` of src/bin/dashboard_server.rs: what its three rounds make of the peers.
use conflict_free_oltp_v.Base.{
  Bool, true, false, some, List, is_some, map_option, unwrap_or, ◌≡◌, sym, ap, ◌∙◌, arith, beq,
  beq_comm, Option-cases, inl, inr, Bytes, Str, list_ord, nat_ord,
}
use conflict_free_oltp_v.BTree.{get, keys}
use conflict_free_oltp_v.BTree.Laws.{any-keys}
use conflict_free_oltp_v.Crdt.OrSet.Rows.{among}
use conflict_free_oltp_v.Crdt.Token.{Token}
use conflict_free_oltp_v.Crdt.Merge.{CrdtOp}
use conflict_free_oltp_v.Storage.OpLog.{LogEntry}
use conflict_free_oltp_v.Constraints.ForeignKeys.{FkPolicy}
use conflict_free_oltp_v.Engine.State.{Engine}
use conflict_free_oltp_v.Engine.Parts.{knows, IsSettled, store_of_knows}
use conflict_free_oltp_v.Dashboard.Cluster.{Cluster, done, is_online}
use conflict_free_oltp_v.Dashboard.Syncing.{sync_round, sync_all_peers}
use conflict_free_oltp_v.Dashboard.Spread.{
  spread_round, heard, spread_round-heard, spread_round-met,
}
use conflict_free_oltp_v.Dashboard.Rounds.{known, live, IsParts, IsSpread, sync_round-IsSpread}
use conflict_free_oltp_v.Dashboard.Walk.{IsOrder, IsNodup-keys, heard-among, heard_const}

module _ (hash : LogEntry → Bytes) (history : Token → List CrdtOp) (policy : FkPolicy)
    (order : List Str → List Str) (ordered : IsOrder order) where
  -- The ids in the order in which the handler walks them.
  abbrev walk : Cluster → List Str
  walk c = order (keys c.peers)

  among-walk : (x : Str) (c : Cluster) → among x (walk c) ≡ is_some (get x c.peers)
  among-walk x c = ordered.each x (keys c.peers) ∙ any-keys x c.peers

  round :
      (c : Cluster)
      → IsParts hash history policy c
      → (c' : Cluster) × (sync_round hash (walk c) c ≡ some c')
        × IsSpread hash history policy (λ join k. spread_round (live c) join (walk c) k) c c'
  round c h =
      sync_round-IsSpread hash history policy (walk c) c
        (ordered.once (keys c.peers) (IsNodup-keys c.peers)) (λ x m. sym (among-walk x c) ∙ m) h

  module _ (c c' : Cluster)
      (p : IsSpread hash history policy
        (λ join k. spread_round (live c) join (walk c) k)
        c
        c') where
    live-round : (x : Str) → live c' x ≡ live c x
    live-round x = ap (λ o. unwrap_or true (get x o)) p.online

    -- After a round a peer that is online knows what one of them knew.
    facts-round :
        (t : Token) (x : Str)
        → is_some (get x c.peers) ≡ true
        → live c x ≡ true
        → known t c' x ≡ heard (live c) (known t c) (walk c)
    facts-round t x m on =
        p.facts t x
        ∙ spread_round-heard (live c) (walk c) (known t c) x
            (ordered.once (keys c.peers) (IsNodup-keys c.peers)) (among-walk x c ∙ m) on

    -- A further round changes nothing of what they know.
    facts-again :
        (t : Token) (x : Str) (fact : Bool)
        → ((y : Str) → is_some (get y c.peers) ≡ true → live c y ≡ true → known t c y ≡ fact)
        → is_some (get x c.peers) ≡ true
        → live c x ≡ true
        → known t c' x ≡ fact
    facts-again t x fact h m on =
        facts-round t x m on
        ∙ heard_const (live c) (known t c) (walk c) x fact (λ y n. h y (sym (among-walk y c) ∙ n))
            (among-walk x c ∙ m) on

    IsSettled-round :
        (x y : Str) (e : Engine)
        → get x c'.peers ≡ some e
        → is_some (get y c.peers) ≡ true
        → beq x y ≡ false
        → live c x ≡ true
        → live c y ≡ true
        → IsSettled hash history policy e
    IsSettled-round x y e at n ne on_x on_y =
        p.settled (λ z. false) (λ z k found marked. absurd (cc)) x e at
          (spread_round-met (live c) (walk c) (λ z. false) x y
            (ordered.once (keys c.peers) (IsNodup-keys c.peers))
            (among-walk x c ∙ (sym (p.there x) ∙ ap is_some at)) (among-walk y c ∙ n) ne on_x on_y)

  -- Three rounds, and what is known once they are over.
  pub record IsSynced (c c' : Cluster) : Type 0 where
    pub run : sync_all_peers hash order c ≡ some (c', done)
    pub parts : IsParts hash history policy c'
    pub there : (x : Str) → is_some (get x c'.peers) ≡ is_some (get x c.peers)
    pub facts :
        (t : Token) (x : Str)
        → is_some (get x c.peers) ≡ true
        → live c x ≡ true
        → known t c' x ≡ heard (live c) (known t c) (walk c)
    pub settled :
        (x y : Str) (e : Engine)
        → get x c'.peers ≡ some e
        → is_some (get y c.peers) ≡ true
        → beq x y ≡ false
        → live c x ≡ true
        → live c y ≡ true
        → IsSettled hash history policy e

  pub sync_all_peers-IsSynced :
      (c : Cluster) → IsParts hash history policy c → (c' : Cluster) × IsSynced c c'
  unfolding sync_all_peers
  sync_all_peers-IsSynced c h =
      let (c1, first, p) = round c h in
      let (c2, second, q) = round c1 p.parts in
      let (c3, third, r) = round c2 q.parts in
      let on1 : (x : Str) → live c x ≡ true → live c1 x ≡ true = λ x on. live-round c c1 p x ∙ on in
      let on2 : (x : Str) → live c x ≡ true → live c2 x ≡ true =
        λ x on. live-round c1 c2 q x ∙ on1 x on in
      let there2 : (x : Str) → is_some (get x c2.peers) ≡ is_some (get x c.peers) =
        λ x. q.there x ∙ p.there x in
      (
        c3,
        record {
          run = ground (arith, first, second, third);
          parts = r.parts;
          there = λ x. r.there x ∙ there2 x;
          facts = λ t x m on.
              let fact = heard (live c) (known t c) (walk c) in
              facts-again c2 c3 r t x fact
                (λ y n live2.
                  facts-again c1 c2 q t y fact
                    (λ z k live1.
                      facts-round c c1 p t z (sym (p.there z) ∙ k)
                        (sym (live-round c c1 p z) ∙ live1))
                    (sym (q.there y) ∙ n) (sym (live-round c1 c2 q y) ∙ live2))
                (there2 x ∙ m) (on2 x on);
          settled = λ x y e at m ne on_x on_y.
              IsSettled-round c2 c3 r x y e at (there2 y ∙ m) ne (on2 x on_x) (on2 y on_y);
        },
      )

  -- If the log of every peer of a cluster is well formed, a part of one history and without an ill-
  -- formed composite name, and all peers are under one foreign key policy, then sync_all_peers
  -- returns, and a peer that is there and online then knows exactly the stamps that some peer that
  -- is online knew before.
  pub sync_all_peers-heard :
      (c : Cluster) (t : Token) (x : Str)
      → IsParts hash history policy c
      → is_some (get x c.peers) ≡ true
      → is_online x c ≡ true
      → map_option (λ p. known t p.0 x) (sync_all_peers hash order c)
        ≡ some (heard (λ y. is_online y c) (known t c) (keys c.peers))
  sync_all_peers-heard c t x h m on =
      let (c', s) = sync_all_peers-IsSynced c h in
      ap (map_option (λ p. known t p.0 x)) s.run
      ∙ ap some (
          s.facts t x m on
          ∙ heard-among (live c) (known t c) (walk c) (keys c.peers)
              (λ y. ordered.each y (keys c.peers)))

  known_at :
      (t : Token) (x : Str) (c : Cluster) (e : Engine)
      → get x c.peers ≡ some e
      → knows t e ≡ known t c x
  known_at t x c e at = ground arith

  -- Two peers that are online then have the same data.
  pub IsSynced-same :
      (c c' : Cluster) (x y : Str) (a b : Engine)
      → IsSynced c c'
      → get x c'.peers ≡ some a
      → get y c'.peers ≡ some b
      → beq x y ≡ false
      → live c x ≡ true
      → live c y ≡ true
      → (a.store ≡ b.store) × (a.uniqueness ≡ b.uniqueness)
  IsSynced-same c c' x y a b s at_x at_y ne on_x on_y =
      let m = sym (s.there x) ∙ ap is_some at_x in
      let n = sym (s.there y) ∙ ap is_some at_y in
      store_of_knows hash history policy a b (s.parts x a at_x) (s.parts y b at_y)
        (s.settled x y a at_x n ne on_x on_y) (s.settled y x b at_y m (beq_comm y x ∙ ne) on_y on_x)
        (λ t.
          known_at t x c' a at_x
          ∙ s.facts t x m on_x
          ∙ sym (s.facts t y n on_y)
          ∙ sym (known_at t y c' b at_y))

  -- If the log of every peer of a cluster is well formed, a part of one history (under each stamp
  -- that it knows it has the operations of the history, in their order) and without an ill-formed
  -- composite name, and all peers are under one foreign key policy, then sync_all_peers returns, in
  -- whatever order it walks the map, and any two peers that are online then have the same store and
  -- the same uniqueness indexes.
  pub sync_all_peers-converges :
      (c : Cluster) (x y : Str)
      → IsParts hash history policy c
      → is_some (get x c.peers) ≡ true
      → is_some (get y c.peers) ≡ true
      → beq x y ≡ false
      → is_online x c ≡ true
      → is_online y c ≡ true
      → (c' : Cluster) × (a : Engine) × (b : Engine) × (sync_all_peers hash order c
          ≡ some (c', done))
        × (get x c'.peers ≡ some a)
        × (get y c'.peers ≡ some b)
        × (a.store ≡ b.store)
        × (a.uniqueness ≡ b.uniqueness)
  sync_all_peers-converges c x y h m n ne on_x on_y =
      let (c', s) = sync_all_peers-IsSynced c h in
      let (a, at_x) = present x c' (s.there x ∙ m) in
      let (b, at_y) = present y c' (s.there y ∙ n) in
      let (stores, indexes) = IsSynced-same c c' x y a b s at_x at_y ne on_x on_y in
      (c', a, b, s.run, at_x, at_y, stores, indexes)
    where
      present :
          (x : Str) (c : Cluster)
          → is_some (get x c.peers) ≡ true
          → (e : Engine) × (get x c.peers ≡ some e)
      present x c h = elim (Option-cases (get x c.peers)) [
        | inl missing ↦ absurd (ground arith)
        | inr (e, at) ↦ (e, at)
      ]
