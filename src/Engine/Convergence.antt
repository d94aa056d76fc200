-- ===== src/Engine/Convergence.antt =====
-- `sync_with` of src/api/engine.rs, on both engines.
use conflict_free_oltp_v.Base.{
  ℕ, Bool, true, false, not, ◌&&◌, some, List, [], ◌∷◌, filter, any, ◌≡◌, refl, sym, ap, ◌∙◌, beq,
  arith, Bool_ext, Bytes, list_ord, nat_ord, pair_ord, eq_of_beq, beq_refl, subst,
}
use conflict_free_oltp_v.BTree.{contains}
use conflict_free_oltp_v.Sort.Stable.{at_key, sort_by_stable}
use conflict_free_oltp_v.Crdt.Clocks.{HlcTimestamp, stamp_ord}
use conflict_free_oltp_v.Crdt.Token.{Token, token_ord, token, token-injective}
use conflict_free_oltp_v.Crdt.Merge.{CrdtOp, hlc}
use conflict_free_oltp_v.Storage.OpLog.{LogEntry, ops}
use conflict_free_oltp_v.Storage.OpLog.Append.{IsLog}
use conflict_free_oltp_v.Sync.AntiEntropy.{fingerprint, fingerprints, sync_peers}
use conflict_free_oltp_v.Sync.AntiEntropy.Stamps.{stamped, Agree, sync_peers-stamped}
use conflict_free_oltp_v.Constraints.ForeignKeys.{FkPolicy}
use conflict_free_oltp_v.Engine.State.{Engine}
use conflict_free_oltp_v.Engine.Replay.{tier, replay_key, replay_order}
use conflict_free_oltp_v.Engine.Rebuild.{rebuild_with, rebuilt, rebuild_store, exchange, sync_with}
use conflict_free_oltp_v.Engine.Total.{is_ill_named, rebuilt-total}
use conflict_free_oltp_v.Sync.AntiEntropy.Exchange.{received, any-received}

-- Stamps compare as their fingerprints do.
beq-token : (s t : HlcTimestamp) → beq s t ≡ beq (token s) (token t)
beq-token s t = Bool_ext (beq s t) (beq (token s) (token t)) there back
  where
    there : beq s t ≡ true → beq (token s) (token t) ≡ true
    there h = subst (λ u. beq (token s) (token u) ≡ true) (eq_of_beq s t h) (beq_refl (token s))

    back : beq (token s) (token t) ≡ true → beq s t ≡ true
    back h =
        subst (λ u. beq s u ≡ true) (token-injective s t (eq_of_beq (token s) (token t) h))
          (beq_refl s)

at_key-stamped :
    (n : ℕ) (t : HlcTimestamp) (l : List CrdtOp)
    → at_key replay_key (n, t) l ≡ filter (λ op. beq (tier op) n) (stamped (token t) l)
at_key-stamped n t [] = refl
at_key-stamped n t (op ∷ l) = ground (arith, beq-token (hlc op) t, at_key-stamped n t l)

-- Logs with the same operations, in one order, under each stamp are replayed alike.
pub replay_order-stamped :
    (l m : List CrdtOp)
    → ((t : Token) → stamped t l ≡ stamped t m)
    → replay_order l ≡ replay_order m
unfolding replay_order
replay_order-stamped l m h = sort_by_stable replay_key l m same
  where
    same : (k : ℕ × HlcTimestamp) → at_key replay_key k l ≡ at_key replay_key k m
    same (n, t) =
        at_key-stamped n t l
        ∙ ap (filter (λ op. beq (tier op) n)) (h (token t))
        ∙ sym (at_key-stamped n t m)

any_and :
    (p q : CrdtOp → Bool) (l : List CrdtOp) → any p l ≡ false → any (λ x. p x && q x) l ≡ false
any_and p q [] h = refl
any_and p q (x ∷ l) h = ground (arith, any_and p q l)

module _ (hash : LogEntry → Bytes) (a b : Engine) where
  -- After an exchange both logs rebuild to the same, a panic included.
  pub exchange-rebuilt :
      IsLog hash a.log
      → IsLog hash b.log
      → Agree a.log b.log
      → (policy : FkPolicy)
      → let s = exchange hash a b in rebuilt policy (ops s.log_a) ≡ rebuilt policy (ops s.log_b)
  unfolding exchange rebuilt
  exchange-rebuilt p q agree policy =
      let s = exchange hash a b in
      let order = replay_order-stamped (ops s.log_a) (ops s.log_b) (
        sync_peers-stamped hash a.log b.log a.peer_id b.peer_id a.sync_cursor b.sync_cursor p q
          agree) in
      rw order

  -- An exchange brings no ill-formed composite name in.
  pub exchange-well_named :
      any is_ill_named (ops a.log) ≡ false
      → any is_ill_named (ops b.log) ≡ false
      → any is_ill_named (ops (exchange hash a b).log_a) ≡ false
  unfolding exchange sync_peers received
  exchange-well_named p q =
      any-received hash is_ill_named a.log b.log
      ∙ ground (
        arith,
        any_and is_ill_named (λ op. not (contains (fingerprint op) (fingerprints a.log)))
            (ops b.log) q,
      )

  -- Two engines under one foreign key policy, with well-formed logs that agree under the stamps
  -- both know and with no ill-formed composite name, both survive sync_with and end with equal
  -- stores and equal uniqueness indexes.
  pub sync_with-converges :
      IsLog hash a.log
      → IsLog hash b.log
      → Agree a.log b.log
      → a.fk_policy ≡ b.fk_policy
      → any is_ill_named (ops a.log) ≡ false
      → any is_ill_named (ops b.log) ≡ false
      → (a' : Engine) × (b' : Engine) × (sync_with hash a b ≡ some (a', b'))
        × (a'.store ≡ b'.store)
        × (a'.uniqueness ≡ b'.uniqueness)
  unfolding sync_with rebuild_store
  sync_with-converges p q agree same_policy named_a named_b =
      let s = exchange hash a b in
      let (r, here) =
        rebuilt-total a.fk_policy (ops s.log_a) (exchange-well_named named_a named_b) in
      let there : rebuilt b.fk_policy (ops s.log_b) ≡ some r =
        ap (λ policy. rebuilt policy (ops s.log_b)) (sym same_policy)
        ∙ sym (exchange-rebuilt p q agree a.fk_policy)
        ∙ here in
      let a' = rebuild_with (record a { log = s.log_a; sync_cursor = s.cursor_a }) r in
      let b' = rebuild_with (record b { log = s.log_b; sync_cursor = s.cursor_b }) r in
      (a', b', ground (arith, here, there), refl, refl)
