-- ===== src/Dashboard/Tests.antt =====
-- The two engines of Engine/Tests as a cluster, and a third peer that is off line.
use conflict_free_oltp_v.Base.{
  true, false, ◌||◌, none, some, ap, ◌∙◌, Bytes, List, [], ◌∷◌, is_some, map_option, unwrap_or, ◌≡◌,
  refl, arith, beq, eq_of_beq, Bool-cases, inl, inr, Str, str, list_ord, nat_ord, subst,
}
use conflict_free_oltp_v.BTree.{computes, get, insert, keys, empty}
use conflict_free_oltp_v.BTree.Each.{Each-empty, Each-insert}
use conflict_free_oltp_v.Crdt.Token.{Token, token_ord}
use conflict_free_oltp_v.Crdt.Merge.{CrdtOp, CrdtOp-discrete}
use conflict_free_oltp_v.Storage.OpLog.{append, ops}
use conflict_free_oltp_v.Storage.OpLog.Append.{new-IsLog}
use conflict_free_oltp_v.Constraints.ForeignKeys.{cascade}
use conflict_free_oltp_v.Sync.AntiEntropy.{fingerprint, fingerprints}
use conflict_free_oltp_v.Sync.AntiEntropy.Exchange.{contains-fingerprints}
use conflict_free_oltp_v.Sync.AntiEntropy.Stamps.{stamped}
use conflict_free_oltp_v.Engine.State.{Engine, open_with_policy}
use conflict_free_oltp_v.Engine.Parts.{IsPart}
use conflict_free_oltp_v.Engine.Tests.{
  entry_hash, create_users, ann, ann_mail, bob, bob_mail, engine_a, engine_b, log_a, log_b,
  log_a-IsLog, log_b-IsLog, well_named_a, well_named_b,
}
use conflict_free_oltp_v.Dashboard.Cluster.{
  Cluster, done, is_online, put_peer, set_online, add_peer, remove_peer, disconnect_peer,
}
use conflict_free_oltp_v.Dashboard.Syncing.{sync_all_peers}
use conflict_free_oltp_v.Dashboard.Spread.{heard}
use conflict_free_oltp_v.Dashboard.Rounds.{known, IsParts}
use conflict_free_oltp_v.Dashboard.Converge.{sync_all_peers-heard, sync_all_peers-converges}
use conflict_free_oltp_v.Dashboard.Walk.{IsOrder}
use conflict_free_oltp_v.Dashboard.Statements.{converged, exec_sql, string, number}
use conflict_free_oltp_v.Dashboard.Seeded.{snapshot_state}
use conflict_free_oltp_v.Dashboard.Requests.{Reach, start, later, adds, removes, Reach-converged}
use conflict_free_oltp_v.BTree.Laws.{get-insert}

abbrev history : Token → List CrdtOp
history t = stamped t (create_users ∷ ann ∷ ann_mail ∷ bob ∷ bob_mail ∷ [])

abbrev same_order : List Str → List Str
same_order l = l

same_order-IsOrder : IsOrder same_order
same_order-IsOrder = record { once = λ l d. d; each = λ x l. refl }

abbrev nobody : Cluster
nobody = record { peers = empty; online = empty; readings = 0 }

abbrev cluster : Cluster
cluster =
    (disconnect_peer (str "C")
      (add_peer (str "C") (put_peer (str "B") engine_b (put_peer (str "A") engine_a nobody))).0).0

engine_a-IsPart : IsPart entry_hash history cascade engine_a
unfolding append CrdtOp-discrete computes fingerprints token_ord open_with_policy
engine_a-IsPart = record {
  log = log_a-IsLog;
  part = λ t h. elim (Bool-cases (beq (fingerprint create_users) t)) [
    | inl shared ↦
        subst (λ u. stamped u (ops log_a) ≡ history u)
          (eq_of_beq (fingerprint create_users) t shared) refl
    | inr other ↦
        let known : (beq (fingerprint ann) t || (beq (fingerprint ann_mail) t || false)) ≡ true =
          ground (arith, contains-fingerprints t log_a) in
        subst (λ u. stamped u (ops log_a) ≡ history u)
          (eq_of_beq (fingerprint ann) t (ground arith)) refl
  ];
  named = well_named_a;
  same = refl;
}

engine_b-IsPart : IsPart entry_hash history cascade engine_b
unfolding append CrdtOp-discrete computes fingerprints token_ord open_with_policy
engine_b-IsPart = record {
  log = log_b-IsLog;
  part = λ t h. elim (Bool-cases (beq (fingerprint create_users) t)) [
    | inl shared ↦
        subst (λ u. stamped u (ops log_b) ≡ history u)
          (eq_of_beq (fingerprint create_users) t shared) refl
    | inr other ↦
        let known : (beq (fingerprint bob) t || (beq (fingerprint bob_mail) t || false)) ≡ true =
          ground (arith, contains-fingerprints t log_b) in
        subst (λ u. stamped u (ops log_b) ≡ history u)
          (eq_of_beq (fingerprint bob) t (ground arith)) refl
  ];
  named = well_named_b;
  same = refl;
}

new_engine-IsPart : (id : Str) → IsPart entry_hash history cascade (open_with_policy id cascade)
unfolding open_with_policy computes fingerprints token_ord
new_engine-IsPart id = record {
  log = new-IsLog entry_hash;
  part = λ t h. absurd (ground arith);
  named = refl;
  same = refl;
}

abbrev PartOf : Str → Engine → Type 0
PartOf id e = IsPart entry_hash history cascade e

cluster-IsParts : IsParts entry_hash history cascade cluster
unfolding put_peer set_online add_peer disconnect_peer computes
cluster-IsParts =
    Each-insert PartOf (str "C") (open_with_policy (str "C") cascade)
      (put_peer (str "B") engine_b (put_peer (str "A") engine_a nobody)).peers
      (new_engine-IsPart (str "C"))
      (Each-insert PartOf (str "B") engine_b (put_peer (str "A") engine_a nobody).peers
        engine_b-IsPart
        (Each-insert PartOf (str "A") engine_a empty engine_a-IsPart (Each-empty PartOf)))

there_a : is_some (get (str "A") cluster.peers) ≡ true
unfolding put_peer set_online add_peer disconnect_peer computes
there_a = refl

there_b : is_some (get (str "B") cluster.peers) ≡ true
unfolding put_peer set_online add_peer disconnect_peer computes
there_b = refl

online_a : is_online (str "A") cluster ≡ true
unfolding put_peer set_online add_peer disconnect_peer computes
online_a = refl

online_b : is_online (str "B") cluster ≡ true
unfolding put_peer set_online add_peer disconnect_peer computes
online_b = refl

distinct : beq (str "A") (str "B") ≡ false
unfolding computes
distinct = refl

sync_all_peers-heard_example :
    map_option
      (λ p. known (fingerprint bob) p.0 (str "A"))
      (sync_all_peers entry_hash same_order cluster)
    ≡ some (heard (λ y. is_online y cluster) (known (fingerprint bob) cluster) (keys cluster.peers))
sync_all_peers-heard_example =
    sync_all_peers-heard entry_hash history cascade same_order same_order-IsOrder cluster
      (fingerprint bob) (str "A") cluster-IsParts there_a online_a

sync_all_peers-converges_example :
    (c' : Cluster) × (a : Engine) × (b : Engine) × (sync_all_peers entry_hash same_order cluster
      ≡ some (c', done))
    × (get (str "A") c'.peers ≡ some a)
    × (get (str "B") c'.peers ≡ some b)
    × (a.store ≡ b.store)
    × (a.uniqueness ≡ b.uniqueness)
sync_all_peers-converges_example =
    sync_all_peers-converges entry_hash history cascade same_order same_order-IsOrder cluster
      (str "A") (str "B") cluster-IsParts there_a there_b distinct online_a online_b

abbrev plain : Bytes → Bytes
plain bytes = bytes

-- The peer that is off line is removed, and a new one is added.
abbrev changed : Cluster
changed = (add_peer (str "D") (remove_peer (str "C") cluster).0).0

changed_reached : Reach entry_hash same_order cluster changed
changed_reached = later (later start (removes (str "C"))) (adds (str "D"))

changed_flags : changed.online ≡ insert (str "D") true (remove_peer (str "C") cluster).0.online
unfolding put_peer set_online add_peer disconnect_peer remove_peer computes
changed_flags = refl

no_flags : (x : Str) → get x (remove_peer (str "C") cluster).0.online ≡ none
unfolding put_peer set_online add_peer disconnect_peer remove_peer computes
no_flags x = refl

changed_online : (x : Str) → is_some (get x changed.peers) ≡ true → is_online x changed ≡ true
changed_online x there =
    ap (λ m. unwrap_or true (get x m)) changed_flags
    ∙ ground
        (arith, get-insert (str "D") x true (remove_peer (str "C") cluster).0.online, no_flags x)

Reach-converged_example :
    map_option (λ p. converged plain plain p.0) (sync_all_peers entry_hash same_order changed)
    ≡ some true
Reach-converged_example =
    Reach-converged entry_hash history same_order plain plain cluster changed same_order-IsOrder
      cluster-IsParts changed_reached changed_online

-- A quote is doubled, and a question mark without a parameter is NULL.
placeholders_filled :
    exec_sql (string (str "a'b") ∷ number (str "7") ∷ []) (str "VALUES (?, ?, ?)")
    ≡ str "VALUES ('a''b', 7, NULL)"
unfolding exec_sql
placeholders_filled = refl

-- A peer that is not there has no snapshot.
snapshot_missing : snapshot_state (str "E") cluster ≡ none
unfolding snapshot_state put_peer set_online add_peer disconnect_peer computes
snapshot_missing = refl
