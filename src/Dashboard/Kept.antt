-- ===== src/Dashboard/Kept.antt =====
-- The exchanges of src/bin/dashboard_server.rs on peers whose logs are parts of one history.
use conflict_free_oltp_v.Base.{
  not, ◌&&◌, Option, none, some, List, [], ◌∷◌, and_then, map_option, ◌≡◌, refl, sym, ap, subst,
  arith, beq, Bool-cases, Option-cases, inl, inr, Bytes, Str, list_ord, nat_ord,
}
use conflict_free_oltp_v.BTree.{computes, get}
use conflict_free_oltp_v.BTree.Each.{Each-insert}
use conflict_free_oltp_v.Crdt.Token.{Token, token_ord}
use conflict_free_oltp_v.Crdt.Merge.{CrdtOp}
use conflict_free_oltp_v.Storage.OpLog.{LogEntry}
use conflict_free_oltp_v.Storage.OpLog.Append.{new-IsLog}
use conflict_free_oltp_v.Sync.AntiEntropy.{fingerprints}
use conflict_free_oltp_v.Constraints.ForeignKeys.{FkPolicy, cascade}
use conflict_free_oltp_v.Engine.State.{Engine, open_with_policy}
use conflict_free_oltp_v.Engine.Parts.{IsPart, sync_with-IsMerged}
use conflict_free_oltp_v.Dashboard.Cluster.{
  Cluster, Reply, put_peer, set_online, open_peer, open_peers, is_online,
}
use conflict_free_oltp_v.Dashboard.Syncing.{
  sync_two, sync_if_online, sync_row, sync_round, sync_with_each,
}
use conflict_free_oltp_v.Dashboard.Rounds.{IsParts}

module _ (hash : LogEntry → Bytes) (history : Token → List CrdtOp) (policy : FkPolicy) where
  abbrev pub PartOf : Str → Engine → Type 0
  PartOf id e = IsPart hash history policy e

  -- What a run gives, if it returns, is made of parts of the history.
  abbrev pub Keeps : Option Cluster → Type 0
  Keeps run = (c' : Cluster) → run ≡ some c' → IsParts hash history policy c'

  abbrev pub Answers : Option (Cluster × Reply) → Type 0
  Answers run = (c' : Cluster) (r : Reply) → run ≡ some (c', r) → IsParts hash history policy c'

  pub some-injective : (x y : Cluster) → some x ≡ some y → x ≡ y
  some-injective x y h = cc

  pub Keeps-some : (c : Cluster) → IsParts hash history policy c → Keeps (some c)
  Keeps-some c h c' e = subst (IsParts hash history policy) (some-injective c c' e) h

  pub Keeps-then :
      (run : Option Cluster) (next : Cluster → Option Cluster)
      → Keeps run
      → ((c : Cluster) → IsParts hash history policy c → Keeps (next c))
      → Keeps (and_then run next)
  Keeps-then none next h k c' e = absurd (cc)
  Keeps-then (some c) next h k c' e = k c (h c refl) c' e

  pub Answers-some :
      (c : Cluster) (r : Reply) → IsParts hash history policy c → Answers (some (c, r))
  Answers-some c r h c' r' e =
      subst (IsParts hash history policy) (some-injective c c' (ap (map_option (λ p. p.0)) e)) h

  pub Answers-map :
      (run : Option Cluster) (r : Reply) → Keeps run → Answers (map_option (λ c. (c, r)) run)
  Answers-map none r h c' r' e = absurd (cc)
  Answers-map (some c) r h c' r' e = Answers-some c r (h c refl) c' r' e

  pub put_peer-IsParts :
      (id : Str) (e : Engine) (c : Cluster)
      → IsPart hash history policy e
      → IsParts hash history policy c
      → IsParts hash history policy (put_peer id e c)
  unfolding put_peer
  put_peer-IsParts id e c p h = Each-insert PartOf id e c.peers p h

  pub new_engine-IsPart :
      (id : Str) → policy ≡ cascade → IsPart hash history policy (open_with_policy id cascade)
  unfolding open_with_policy computes fingerprints token_ord
  new_engine-IsPart id same = record {
    log = new-IsLog hash;
    part = λ t h. absurd (ground arith);
    named = refl;
    same = sym same;
  }

  pub sync_two-IsParts :
      (a b : Str) (c : Cluster) → IsParts hash history policy c → Keeps (sync_two hash a b c)
  unfolding sync_two
  sync_two-IsParts a b c h c' e = elim (Option-cases (get a c.peers)) [
    | inl missing ↦ Keeps-some c h c' (ground arith)
    | inr (ea, at_a) ↦ elim (Option-cases (get b c.peers)) [
      | inl missing ↦ Keeps-some c h c' (ground arith)
      | inr (eb, at_b) ↦ elim (Bool-cases (beq a b)) [
        | inl same ↦ absurd (ground arith)
        | inr other ↦
            let (ea', eb', synced, m) =
              sync_with-IsMerged hash history policy ea eb (h a ea at_a) (h b eb at_b) in
            Keeps-some (put_peer b eb' (put_peer a ea' c))
              (put_peer-IsParts b eb' (put_peer a ea' c) m.part_b
                (put_peer-IsParts a ea' c m.part_a h))
              c' (ground arith)
      ]
    ]
  ]

  pub sync_if_online-IsParts :
      (a b : Str) (c : Cluster) → IsParts hash history policy c → Keeps (sync_if_online hash a b c)
  unfolding sync_if_online
  sync_if_online-IsParts a b c h c' e = elim (Bool-cases (is_online a c && is_online b c)) [
    | inl both ↦ sync_two-IsParts a b c h c' (ground arith)
    | inr off ↦ Keeps-some c h c' (ground arith)
  ]

  pub sync_row-IsParts :
      (a : Str) (l : List Str) (c : Cluster)
      → IsParts hash history policy c
      → Keeps (sync_row hash a l c)
  unfolding sync_row
  sync_row-IsParts a [] c h = Keeps-some c h
  sync_row-IsParts a (b ∷ l) c h =
      Keeps-then (sync_if_online hash a b c) (sync_row hash a l) (sync_if_online-IsParts a b c h)
        (sync_row-IsParts a l)

  pub sync_round-IsParts :
      (l : List Str) (c : Cluster) → IsParts hash history policy c → Keeps (sync_round hash l c)
  unfolding sync_round
  sync_round-IsParts [] c h = Keeps-some c h
  sync_round-IsParts (a ∷ l) c h =
      Keeps-then (sync_row hash a l c) (sync_round hash l) (sync_row-IsParts a l c h)
        (sync_round-IsParts l)

  pub sync_with_each-IsParts :
      (id : Str) (l : List Str) (c : Cluster)
      → IsParts hash history policy c
      → Keeps (sync_with_each hash id l c)
  unfolding sync_with_each
  sync_with_each-IsParts id [] c h c' e = Keeps-some c h c' e
  sync_with_each-IsParts id (b ∷ l) c h c' e = elim (Bool-cases (not (beq b id) && is_online b c)) [
    | inl meets ↦
        Keeps-then (sync_two hash id b c) (sync_with_each hash id l) (sync_two-IsParts id b c h)
          (sync_with_each-IsParts id l) c' (ground arith)
    | inr skipped ↦ sync_with_each-IsParts id l c h c' (ground arith)
  ]

  pub open_peers-IsParts :
      (ids : List Str) (c : Cluster)
      → policy ≡ cascade
      → IsParts hash history policy c
      → IsParts hash history policy (open_peers ids c)
  unfolding open_peers put_peer set_online
  open_peers-IsParts [] c same h = h
  open_peers-IsParts (id ∷ ids) c same h =
      open_peers-IsParts ids (open_peer cascade id c) same
        (put_peer-IsParts id (open_with_policy id cascade) c (new_engine-IsPart id same) h)
