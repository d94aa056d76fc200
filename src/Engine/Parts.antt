-- ===== src/Engine/Parts.antt =====
-- `sync_with` of src/api/engine.rs on engines whose logs are parts of one history: under each stamp
-- that a log knows it has the operations issued under it, in the order in which they were issued.
use conflict_free_oltp_v.Base.{
  Bool, true, false, ◌||◌, some, List, any, ◌≡◌, refl, sym, ap, ◌∙◌, subst, arith, beq, Bytes,
  Bool-cases, Option-cases, inl, inr, list_ord, nat_ord,
}
use conflict_free_oltp_v.BTree.{contains}
use conflict_free_oltp_v.Crdt.Token.{Token, token_ord}
use conflict_free_oltp_v.Crdt.Merge.{CrdtOp}
use conflict_free_oltp_v.Storage.OpLog.{LogEntry, ops}
use conflict_free_oltp_v.Storage.OpLog.Append.{IsLog}
use conflict_free_oltp_v.Sync.AntiEntropy.{fingerprint, fingerprints, sync_peers}
use conflict_free_oltp_v.Sync.AntiEntropy.Exchange.{
  received, contains-received, contains-fingerprints, sync_peers-IsLog,
}
use conflict_free_oltp_v.Sync.AntiEntropy.Stamps.{stamped, stamped-received, filter_none}
use conflict_free_oltp_v.Constraints.ForeignKeys.{FkPolicy}
use conflict_free_oltp_v.Engine.State.{Engine}
use conflict_free_oltp_v.Engine.Replay.{Replayed}
use conflict_free_oltp_v.Engine.Rebuild.{
  rebuild_with, rebuilt, rebuild_store, exchange, sync_with, sync_from,
}
use conflict_free_oltp_v.Engine.Total.{is_ill_named, rebuilt-total}
use conflict_free_oltp_v.Engine.Convergence.{replay_order-stamped, exchange-well_named}

-- The log of the engine knows the stamp.
abbrev pub knows : Token → Engine → Bool
knows t e = contains t (fingerprints e.log)

module _ (hash : LogEntry → Bytes) (history : Token → List CrdtOp) (policy : FkPolicy) where
  -- A well-formed log that is a part of the history, without an ill-formed composite name.
  pub record IsPart (e : Engine) : Type 0 where
    pub log : IsLog hash e.log
    pub part : (t : Token) → knows t e ≡ true → stamped t (ops e.log) ≡ history t
    pub named : any is_ill_named (ops e.log) ≡ false
    pub same : e.fk_policy ≡ policy

  -- The store and the uniqueness indexes are those that the log rebuilds to.
  abbrev pub IsSettled : Engine → Type 0
  IsSettled e =
      (r : Replayed) × (rebuilt policy (ops e.log) ≡ some r)
      × (e.store ≡ r.store)
      × (e.uniqueness ≡ r.uniqueness)

  received-part :
      (a b : Engine) (t : Token)
      → IsPart a
      → IsPart b
      → contains t (fingerprints (received hash a.log b.log)) ≡ true
      → stamped t (ops (received hash a.log b.log)) ≡ history t
  received-part a b t p q h =
      stamped-received hash t a.log b.log q.log
      ∙ ground (arith, contains-received hash t a.log b.log, p.part t, q.part t)

  -- One of the two engines after an exchange.
  merged-IsPart :
      (a b e : Engine)
      → IsPart a
      → IsPart b
      → IsLog hash (received hash a.log b.log)
      → any is_ill_named (ops (received hash a.log b.log)) ≡ false
      → e.log ≡ received hash a.log b.log
      → e.fk_policy ≡ policy
      → IsPart e
  merged-IsPart a b e p q log named at same = record {
    log = subst (IsLog hash) (sym at) log;
    part = λ t.
        subst (λ l. contains t (fingerprints l) ≡ true → stamped t (ops l) ≡ history t) (sym at)
          (received-part a b t p q);
    named = ap (λ l. any is_ill_named (ops l)) at ∙ named;
    same = same;
  }

  -- What a sync makes of two engines.
  pub record IsMerged (a b a' b' : Engine) : Type 0 where
    pub part_a : IsPart a'
    pub part_b : IsPart b'
    pub settled_a : IsSettled a'
    pub settled_b : IsSettled b'
    pub knows_a : (t : Token) → knows t a' ≡ (knows t a || knows t b)
    pub knows_b : (t : Token) → knows t b' ≡ (knows t a || knows t b)

  pub sync_with-IsMerged :
      (a b : Engine)
      → IsPart a
      → IsPart b
      → (a' : Engine) × (b' : Engine) × (sync_with hash a b ≡ some (a', b')) × IsMerged a b a' b'
  unfolding sync_with rebuild_store exchange sync_peers received
  sync_with-IsMerged a b p q =
      let s = exchange hash a b in
      let (log_a, log_b) =
        sync_peers-IsLog hash a.log b.log a.peer_id b.peer_id a.sync_cursor b.sync_cursor p.log
          q.log in
      let named_a = exchange-well_named hash a b p.named q.named in
      let named_b = exchange-well_named hash b a q.named p.named in
      let (r_a, here) = rebuilt-total a.fk_policy (ops s.log_a) named_a in
      let (r_b, there) = rebuilt-total b.fk_policy (ops s.log_b) named_b in
      let a' = rebuild_with (record a { log = s.log_a; sync_cursor = s.cursor_a }) r_a in
      let b' = rebuild_with (record b { log = s.log_b; sync_cursor = s.cursor_b }) r_b in
      (
        a',
        b',
        ground (arith, here, there),
        record {
          part_a = merged-IsPart a b a' p q log_a named_a refl p.same;
          part_b = merged-IsPart b a b' q p log_b named_b refl q.same;
          settled_a = (r_a, ap (λ k. rebuilt k (ops s.log_a)) (sym p.same) ∙ here, refl, refl);
          settled_b = (r_b, ap (λ k. rebuilt k (ops s.log_b)) (sym q.same) ∙ there, refl, refl);
          knows_a = λ t. contains-received hash t a.log b.log;
          knows_b = λ t. ground (arith, contains-received hash t b.log a.log);
        },
      )

  pub rebuild_store-IsPart : (e e' : Engine) → IsPart e → rebuild_store e ≡ some e' → IsPart e'
  unfolding rebuild_store
  rebuild_store-IsPart e e' p h = elim (Option-cases (rebuilt e.fk_policy (ops e.log))) [
    | inl panics ↦ absurd (ground arith)
    | inr (r, here) ↦
        subst IsPart (engine_injective (rebuild_with e r) e' (ground arith))
          (record { log = p.log; part = p.part; named = p.named; same = p.same })
  ]
    where
      engine_injective : (x y : Engine) → some x ≡ some y → x ≡ y
      engine_injective x y h = cc

  pub sync_from-IsPart :
      (a b a' : Engine) → IsPart a → IsPart b → sync_from hash a b ≡ some a' → IsPart a'
  unfolding sync_from exchange sync_peers received
  sync_from-IsPart a b a' p q h =
      let (log_a, log_b) =
        sync_peers-IsLog hash a.log b.log a.peer_id b.peer_id a.sync_cursor b.sync_cursor p.log
          q.log in
      rebuild_store-IsPart (record a { log = received hash a.log b.log }) a'
        (merged-IsPart a b (record a { log = received hash a.log b.log }) p q log_a
          (exchange-well_named hash a b p.named q.named) refl p.same)
        h

  -- Settled engines that know the same stamps have the same store and uniqueness indexes.
  pub store_of_knows :
      (a b : Engine)
      → IsPart a
      → IsPart b
      → IsSettled a
      → IsSettled b
      → ((t : Token) → knows t a ≡ knows t b)
      → (a.store ≡ b.store) × (a.uniqueness ≡ b.uniqueness)
  unfolding rebuilt
  store_of_knows a b p q (r, here, store_a, unique_a) (u, there, store_b, unique_b) alike =
      let order = replay_order-stamped (ops a.log) (ops b.log) same_stamped in
      let same : r ≡ u = some_injective r u (sym here ∙ rw order there) in
      (
        store_a ∙ ap (λ x. x.store) same ∙ sym store_b,
        unique_a ∙ ap (λ x. x.uniqueness) same ∙ sym unique_b,
      )
    where
      some_injective : (x y : Replayed) → some x ≡ some y → x ≡ y
      some_injective x y h = cc

      same_stamped : (t : Token) → stamped t (ops a.log) ≡ stamped t (ops b.log)
      same_stamped t = elim (Bool-cases (knows t a)) [
        | inl known ↦ p.part t known ∙ sym (q.part t (sym (alike t) ∙ known))
        | inr new ↦
            filter_none (λ op. beq (fingerprint op) t) (ops a.log)
              (sym (contains-fingerprints t a.log) ∙ new)
            ∙ sym (
                filter_none (λ op. beq (fingerprint op) t) (ops b.log)
                  (sym (contains-fingerprints t b.log) ∙ sym (alike t) ∙ new))
      ]
