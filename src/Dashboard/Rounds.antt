-- ===== src/Dashboard/Rounds.antt =====
-- `sync_all_peers` of src/bin/dashboard_server.rs: what its rounds make of the peers.
use conflict_free_oltp_v.Base.{
  Bool, true, false, ◌&&◌, ◌||◌, none, some, List, [], ◌∷◌, is_some, unwrap_or, ◌≡◌, refl, sym, ap,
  ◌∙◌, subst, fun_ext, arith, beq, beq_refl, beq_comm, eq_of_beq, Bool-cases, Option-cases, inl,
  inr, if◌then◌else◌, Bytes, Str, list_ord, nat_ord,
}
use conflict_free_oltp_v.BTree.{get, insert, keys}
use conflict_free_oltp_v.BTree.Laws.{get-insert}
use conflict_free_oltp_v.BTree.Join.{Each}
use conflict_free_oltp_v.BTree.Each.{Each-insert}
use conflict_free_oltp_v.Crdt.OrSet.Rows.{among}
use conflict_free_oltp_v.Crdt.Token.{Token}
use conflict_free_oltp_v.Crdt.Merge.{CrdtOp}
use conflict_free_oltp_v.Storage.OpLog.{LogEntry}
use conflict_free_oltp_v.Constraints.ForeignKeys.{FkPolicy}
use conflict_free_oltp_v.Engine.State.{Engine}
use conflict_free_oltp_v.Engine.Parts.{knows, IsPart, IsSettled, IsMerged, sync_with-IsMerged}
use conflict_free_oltp_v.Dashboard.Cluster.{Cluster, is_online, put_peer}
use conflict_free_oltp_v.Dashboard.Syncing.{sync_two, sync_if_online, sync_row, sync_round}
use conflict_free_oltp_v.Dashboard.Spread.{
  IsNodup, spread_two, spread_pair, spread_row, spread_round, mark,
}

-- The peer is there and its log knows the stamp.
abbrev pub known : Token → Cluster → Str → Bool
known t c x = elim (get x c.peers) [ none ↦ false | some e ↦ knows t e ]

abbrev pub live : Cluster → Str → Bool
live c x = is_online x c

some_injective : (x y : Engine) → some x ≡ some y → x ≡ y
some_injective x y h = cc

module _ (hash : LogEntry → Bytes) (history : Token → List CrdtOp) (policy : FkPolicy) where
  -- Every peer's log is a part of the history.
  abbrev pub IsParts : Cluster → Type 0
  IsParts c = Each (λ x e. IsPart hash history policy e) c.peers

  -- Each peer that is marked is settled.
  abbrev pub SettledIf : (Str → Bool) → Cluster → Type 0
  SettledIf met c =
      (x : Str) (e : Engine)
      → get x c.peers ≡ some e
      → met x ≡ true
      → IsSettled hash history policy e

  -- From the first cluster to the second, facts spread by `f`, and peers that meet are settled.
  pub record IsSpread (f : (Bool → Bool → Bool) → (Str → Bool) → Str → Bool) (c c' : Cluster)
      : Type 0 where
    pub parts : IsParts c'
    pub online : c'.online ≡ c.online
    pub there : (x : Str) → is_some (get x c'.peers) ≡ is_some (get x c.peers)
    pub facts : (t : Token) (x : Str) → known t c' x ≡ f ◌||◌ (known t c) x
    pub settled : (met : Str → Bool) → SettledIf met c → SettledIf (f mark met) c'

  IsSpread-refl : (c : Cluster) → IsParts c → IsSpread (λ join k. k) c c
  IsSpread-refl c h = record {
    parts = h;
    online = refl;
    there = λ x. refl;
    facts = λ t x. refl;
    settled = λ met s. s;
  }

  IsSpread-trans :
      (f g : (Bool → Bool → Bool) → (Str → Bool) → Str → Bool) (c c1 c2 : Cluster)
      → IsSpread f c c1
      → IsSpread g c1 c2
      → IsSpread (λ join k. g join (f join k)) c c2
  IsSpread-trans f g c c1 c2 p q = record {
    parts = q.parts;
    online = q.online ∙ p.online;
    there = λ x. q.there x ∙ p.there x;
    facts = λ t x. q.facts t x ∙ ap (λ k. g ◌||◌ k x) (fun_ext (p.facts t));
    settled = λ met s. q.settled (f mark met) (p.settled met s);
  }

  module _ (a b : Str) (c : Cluster) (ea eb ea' eb' : Engine) (ne : beq a b ≡ false)
      (at_a : get a c.peers ≡ some ea) (at_b : get b c.peers ≡ some eb) where
    abbrev merged : Cluster
    merged = put_peer b eb' (put_peer a ea' c)

    get-merged :
        (x : Str)
        → get x merged.peers
          ≡ (if beq b x then some eb' else if beq a x then some ea' else get x c.peers)
    unfolding put_peer
    get-merged x =
        get-insert b x eb' (insert a ea' c.peers) ∙ ground (arith, get-insert a x ea' c.peers)

    there-merged : (x : Str) → is_some (get x merged.peers) ≡ is_some (get x c.peers)
    there-merged x = elim (Bool-cases (beq b x)) [
      | inl same ↦ ground (arith, get-merged x, ap (λ i. get i c.peers) (eq_of_beq b x same))
      | inr other ↦ elim (Bool-cases (beq a x)) [
        | inl same ↦ ground (arith, get-merged x, ap (λ i. get i c.peers) (eq_of_beq a x same))
        | inr another ↦ ground (arith, get-merged x)
      ]
    ]

    facts-merged :
        (t : Token) (x : Str)
        → knows t ea' ≡ (knows t ea || knows t eb)
        → knows t eb' ≡ (knows t ea || knows t eb)
        → known t merged x ≡ spread_two ◌||◌ a b (known t c) x
    facts-merged t x h k = elim (Bool-cases (beq b x)) [
      | inl same ↦ ground (arith, get-merged x)
      | inr other ↦ elim (Bool-cases (beq a x)) [
        | inl same ↦ ground (arith, get-merged x)
        | inr another ↦ ground (arith, get-merged x)
      ]
    ]

    IsSettled-merged :
        (met : Str → Bool) (x : Str) (e : Engine)
        → IsSettled hash history policy ea'
        → IsSettled hash history policy eb'
        → SettledIf met c
        → get x merged.peers ≡ some e
        → spread_two mark a b met x ≡ true
        → IsSettled hash history policy e
    IsSettled-merged met x e p q s at marked = elim (Bool-cases (beq b x)) [
      | inl same ↦
          subst (IsSettled hash history policy)
            (some_injective eb' e (ground (arith, get-merged x))) q
      | inr other ↦ elim (Bool-cases (beq a x)) [
        | inl same ↦
            subst (IsSettled hash history policy)
              (some_injective ea' e (ground (arith, get-merged x))) p
        | inr another ↦ s x e (ground (arith, get-merged x)) (ground arith)
      ]
    ]

    merge-IsSpread :
        IsParts c
        → IsMerged hash history policy ea eb ea' eb'
        → IsSpread (λ join k. spread_two join a b k) c merged
    unfolding put_peer
    merge-IsSpread h m = record {
      parts =
          Each-insert (λ x e. IsPart hash history policy e) b eb' (insert a ea' c.peers) m.part_b
            (Each-insert (λ x e. IsPart hash history policy e) a ea' c.peers m.part_a h);
      online = refl;
      there = there-merged;
      facts = λ t x. facts-merged t x (m.knows_a t) (m.knows_b t);
      settled = λ met s x e at marked. IsSettled-merged met x e m.settled_a m.settled_b s at marked;
    }

  sync_two-IsSpread :
      (a b : Str) (c : Cluster)
      → beq a b ≡ false
      → is_some (get a c.peers) ≡ true
      → is_some (get b c.peers) ≡ true
      → IsParts c
      → (c' : Cluster) × (sync_two hash a b c ≡ some c')
        × IsSpread (λ join k. spread_two join a b k) c c'
  unfolding sync_two
  sync_two-IsSpread a b c ne here there h = elim (Option-cases (get a c.peers)) [
    | inl missing ↦ absurd (ground arith)
    | inr (ea, at_a) ↦ elim (Option-cases (get b c.peers)) [
      | inl missing ↦ absurd (ground arith)
      | inr (eb, at_b) ↦
          let (ea', eb', synced, m) =
            sync_with-IsMerged hash history policy ea eb (h a ea at_a) (h b eb at_b) in
          (
            merged a b c ea eb ea' eb' ne at_a at_b,
            ground (arith, synced),
            merge-IsSpread a b c ea eb ea' eb' ne at_a at_b h m,
          )
    ]
  ]

  by_test :
      (a b : Str) (c c' : Cluster) {test : Bool}
      → test ≡ (is_online a c && is_online b c)
      → IsSpread (λ join k. if test then spread_two join a b k else k) c c'
      → IsSpread (λ join k. spread_pair (live c) join a b k) c c'
  by_test a b c c' e =
      subst (λ t. IsSpread (λ join k. if t then spread_two join a b k else k) c c') e

  -- One pair of peers that are there, if both are online.
  sync_if_online-IsSpread :
      (a b : Str) (c : Cluster)
      → beq a b ≡ false
      → is_some (get a c.peers) ≡ true
      → is_some (get b c.peers) ≡ true
      → IsParts c
      → (c' : Cluster) × (sync_if_online hash a b c ≡ some c')
        × IsSpread (λ join k. spread_pair (live c) join a b k) c c'
  unfolding sync_if_online
  sync_if_online-IsSpread a b c ne here there h =
      elim (Bool-cases (is_online a c && is_online b c)) [
        | inr off ↦ (c, ground arith, by_test a b c c (sym off) (IsSpread-refl c h))
        | inl both ↦
            let (c', synced, spread) = sync_two-IsSpread a b c ne here there h in
            (c', ground (arith, synced), by_test a b c c' (sym both) spread)
      ]

  -- One row of a round.
  sync_row-IsSpread :
      (a : Str) (keys : List Str) (c : Cluster)
      → among a keys ≡ false
      → is_some (get a c.peers) ≡ true
      → ((x : Str) → among x keys ≡ true → is_some (get x c.peers) ≡ true)
      → IsParts c
      → (c' : Cluster) × (sync_row hash a keys c ≡ some c')
        × IsSpread (λ join k. spread_row (live c) join a keys k) c c'
  unfolding sync_row spread_row
  sync_row-IsSpread a [] c new here there h = (c, refl, IsSpread-refl c h)
  sync_row-IsSpread a (b ∷ keys) c new here there h =
      let (c1, first, p) =
        sync_if_online-IsSpread a b c (ground (arith, beq_comm a b)) here
          (there b (ground (arith, beq_refl b))) h in
      let (c2, rest, q) =
        sync_row-IsSpread a keys c1 (ground arith) (p.there a ∙ here)
          (λ x m. p.there x ∙ there x (ground arith)) p.parts in
      let q' : IsSpread (λ join k. spread_row (live c) join a keys k) c1 c2 =
        subst
          (λ o. IsSpread (λ join k. spread_row (λ x. unwrap_or true (get x o)) join a keys k) c1 c2)
          p.online q in
      (
        c2,
        ground (arith, first, rest),
        IsSpread-trans (λ join k. spread_pair (live c) join a b k)
            (λ join k. spread_row (live c) join a keys k) c c1 c2 p q',
      )

  pub sync_round-IsSpread :
      (keys : List Str) (c : Cluster)
      → IsNodup keys
      → ((x : Str) → among x keys ≡ true → is_some (get x c.peers) ≡ true)
      → IsParts c
      → (c' : Cluster) × (sync_round hash keys c ≡ some c')
        × IsSpread (λ join k. spread_round (live c) join keys k) c c'
  unfolding sync_round spread_round
  sync_round-IsSpread [] c d there h = (c, refl, IsSpread-refl c h)
  sync_round-IsSpread (a ∷ keys) c d there h =
      let (c1, first, p) =
        sync_row-IsSpread a keys c d.0 (there a (ground (arith, beq_refl a)))
          (λ x m. there x (ground arith)) h in
      let (c2, rest, q) =
        sync_round-IsSpread keys c1 d.1 (λ x m. p.there x ∙ there x (ground arith)) p.parts in
      let q' : IsSpread (λ join k. spread_round (live c) join keys k) c1 c2 =
        subst
          (λ o. IsSpread (λ join k. spread_round (λ x. unwrap_or true (get x o)) join keys k) c1 c2)
          p.online q in
      (
        c2,
        ground (arith, first, rest),
        IsSpread-trans (λ join k. spread_row (live c) join a keys k)
            (λ join k. spread_round (live c) join keys k) c c1 c2 p q',
      )
