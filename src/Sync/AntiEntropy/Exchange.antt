-- ===== src/Sync/AntiEntropy/Exchange.antt =====
-- `sync_peers` of src/sync/anti_entropy.rs: fingerprints and operations.
use conflict_free_oltp_v.Base.{
  Bool, true, false, not, ◌&&◌, ◌||◌, List, [], ◌∷◌, map, any, ◌≡◌, refl, sym, ap, ◌∙◌, beq, arith,
  Bool-cases, inl, inr, any-map, Bytes, Str, list_ord, nat_ord, eq_of_beq, Bool_ext, subst,
  or_false,
}
use conflict_free_oltp_v.BTree.{BTreeSet, contains}
use conflict_free_oltp_v.BTree.Sets.{contains-add, contains-empty, set_ext}
use conflict_free_oltp_v.Crdt.Token.{Token, token_ord}
use conflict_free_oltp_v.Crdt.Merge.{CrdtOp, same_op, same_op_refl, eq_of_same_op}
use conflict_free_oltp_v.Storage.OpLog.{LogEntry, OpLog, ops, append}
use conflict_free_oltp_v.Storage.OpLog.Append.{
  has_op, IsLog, any_of_has_op, any-append_op, append-IsLog,
}
use conflict_free_oltp_v.Sync.AntiEntropy.{
  SyncCursor, fingerprint, collect_set, fingerprints, missing_from, append_all, sync_peers,
}

contains-collect_set :
    (t : Token) (l : List Token) → contains t (collect_set l) ≡ any (λ s. beq s t) l
unfolding collect_set
contains-collect_set t [] = contains-empty t
contains-collect_set t (s ∷ l) =
    contains-add t s (collect_set l) ∙ ap (◌||◌ (beq s t)) (contains-collect_set t l)

-- A fingerprint is known exactly when some operation of the log has it.
pub contains-fingerprints :
    (t : Token) (log : OpLog)
    → contains t (fingerprints log) ≡ any (λ op. beq (fingerprint op) t) (ops log)
unfolding fingerprints
contains-fingerprints t log =
    contains-collect_set t (map fingerprint (ops log))
    ∙ any-map (λ s. beq s t) fingerprint (ops log)

any-missing_from :
    (p : CrdtOp → Bool) (seen : BTreeSet Token) (l : List CrdtOp)
    → any p (missing_from seen l) ≡ any (λ op. p op && not (contains (fingerprint op) seen)) l
any-missing_from p seen [] = refl
any-missing_from p seen (op ∷ l) = ground (arith, any-missing_from p seen l)

module _ (hash : LogEntry → Bytes) where
  any-append_all :
      (p : CrdtOp → Bool) (l : List CrdtOp) (log : OpLog)
      → any p (ops (append_all hash l log)) ≡ (any p (ops log) || any p l)
  unfolding append_all
  any-append_all p [] log = or_false (any p (ops log))
  any-append_all p (op ∷ l) log =
      any-append_all p l (append hash op log).0 ∙ ground (arith, any-append_op hash p op log)

  pub append_all-IsLog :
      (l : List CrdtOp) (log : OpLog) → IsLog hash log → IsLog hash (append_all hash l log)
  unfolding append_all
  append_all-IsLog [] log h = h
  append_all-IsLog (op ∷ l) log h =
      append_all-IsLog l (append hash op log).0 (append-IsLog hash op log h)

  -- A log after receiving what another has and it lacks, by fingerprint.
  unfoldable pub received : OpLog → OpLog → OpLog
  received log source = append_all hash (missing_from (fingerprints log) (ops source)) log

  pub any-received :
      (p : CrdtOp → Bool) (log source : OpLog)
      → any p (ops (received log source)) ≡ (
          any p (ops log)
          || any (λ op. p op && not (contains (fingerprint op) (fingerprints log))) (ops source))
  unfolding received
  any-received p log source =
      any-append_all p (missing_from (fingerprints log) (ops source)) log
      ∙ ap (◌||◌ (any p (ops log))) (any-missing_from p (fingerprints log) (ops source))

  any-at :
      (t : Token) (seen : BTreeSet Token) (l : List CrdtOp)
      → any (λ op. beq (fingerprint op) t && not (contains (fingerprint op) seen)) l
        ≡ (any (λ op. beq (fingerprint op) t) l && not (contains t seen))
  any-at t seen [] = refl
  any-at t seen (op ∷ l) = elim (Bool-cases (beq (fingerprint op) t)) [
    | inl same ↦
        ground
          (arith, any-at t seen l, ap (λ s. contains s seen) (eq_of_beq (fingerprint op) t same))
    | inr other ↦ ground (arith, any-at t seen l)
  ]

  -- A log that receives from another knows the fingerprints of both.
  pub contains-received :
      (t : Token) (log source : OpLog)
      → contains t (fingerprints (received log source))
        ≡ (contains t (fingerprints log) || contains t (fingerprints source))
  contains-received t log source = ground (
    arith,
    contains-fingerprints t (received log source),
    any-received (λ op. beq (fingerprint op) t) log source,
    any-at t (fingerprints log) (ops source),
    contains-fingerprints t log,
    contains-fingerprints t source,
  )

-- A test that some operation passes is passed by an operation of the list.
pub op_of_any :
    (p : CrdtOp → Bool) (l : List CrdtOp)
    → any p l ≡ true
    → (x : CrdtOp) × (any (λ y. same_op y x) l ≡ true) × (p x ≡ true)
op_of_any p [] h = absurd (cc)
op_of_any p (y ∷ l) h = elim (Bool-cases (p y)) [
  | inl here ↦ (y, ground (arith, same_op_refl y), here)
  | inr there ↦ let (x, at, holds) = op_of_any p l (ground arith) in (x, ground arith, holds)
]

-- Operations of the two logs with one fingerprint are in both logs: no log holds a part only of
-- what was issued under a stamp.
abbrev pub Whole : OpLog → OpLog → Type 0
Whole a b =
    (x y : CrdtOp)
    → has_op x a ≡ true
    → has_op y b ≡ true
    → fingerprint x ≡ fingerprint y
    → (has_op x b ≡ true) × (has_op y a ≡ true)

Whole-sym : (a b : OpLog) → Whole a b → Whole b a
Whole-sym a b h x y p q e = let (u, v) = h y x q p (sym e) in (v, u)

module _ (hash : LogEntry → Bytes) where
  has_op-received :
      (x : CrdtOp) (log source : OpLog)
      → Whole log source
      → has_op x (received hash log source) ≡ (has_op x log || has_op x source)
  has_op-received x log source whole =
      any-received hash (λ y. same_op y x) log source
      ∙ Bool_ext (has_op x log || sent) (has_op x log || has_op x source) there back
    where
      sent : Bool
      sent =
          any (λ op. same_op op x && not (contains (fingerprint op) (fingerprints log)))
            (ops source)

      source_of_sent : sent ≡ true → has_op x source ≡ true
      source_of_sent h =
          let (y, at, holds) =
            op_of_any (λ op. same_op op x && not (contains (fingerprint op) (fingerprints log)))
              (ops source) h in
          subst (λ z. has_op z source ≡ true) (eq_of_same_op y x (ground arith)) at

      there : (has_op x log || sent) ≡ true → (has_op x log || has_op x source) ≡ true
      there h = ground (arith, source_of_sent)

      sent_of_source :
          has_op x source ≡ true → contains (fingerprint x) (fingerprints log) ≡ false → sent ≡ true
      sent_of_source h k =
          any_of_has_op (λ op. same_op op x && not (contains (fingerprint op) (fingerprints log))) x
            (ops source) h (ground (arith, same_op_refl x))

      log_of_source :
          has_op x source ≡ true
          → contains (fingerprint x) (fingerprints log) ≡ true
          → has_op x log ≡ true
      log_of_source h k =
          let (y, at, holds) =
            op_of_any (λ op. beq (fingerprint op) (fingerprint x)) (ops log)
              (sym (contains-fingerprints (fingerprint x) log) ∙ k) in
          (whole y x at h (eq_of_beq (fingerprint y) (fingerprint x) holds)).1

      back : (has_op x log || has_op x source) ≡ true → (has_op x log || sent) ≡ true
      back h = ground (arith, log_of_source, sent_of_source)

module _ (hash : LogEntry → Bytes) (a b : OpLog) (id_a id_b : Str)
    (cursor_a cursor_b : SyncCursor) where
  -- After sync_peers both logs know the same fingerprints, which are those that either log knew
  -- before.
  pub sync_peers-fingerprints :
      let s = sync_peers hash a b id_a id_b cursor_a cursor_b in
      (fingerprints s.log_a ≡ fingerprints s.log_b)
      × ((t : Token)
          → contains t (fingerprints s.log_a)
            ≡ (contains t (fingerprints a) || contains t (fingerprints b)))
  unfolding sync_peers received
  sync_peers-fingerprints = (
    set_ext (fingerprints (received hash a b)) (fingerprints (received hash b a))
        (λ t. ground (arith, contains-received hash t a b, contains-received hash t b a)),
    λ t. contains-received hash t a b,
  )

  -- Both logs end with the operations that either had, if none held a part only of a stamp.
  pub sync_peers-has_op :
      Whole a b
      → (x : CrdtOp)
      → let s = sync_peers hash a b id_a id_b cursor_a cursor_b in
        (has_op x s.log_a ≡ (has_op x a || has_op x b))
        × (has_op x s.log_b ≡ (has_op x a || has_op x b))
  unfolding sync_peers received
  sync_peers-has_op whole x = (
    has_op-received hash x a b whole,
    ground (arith, has_op-received hash x b a (Whole-sym a b whole)),
  )

  -- sync_peers keeps both logs well formed: numbered by position, linked by hash, no operation
  -- twice.
  pub sync_peers-IsLog :
      IsLog hash a
      → IsLog hash b
      → let s = sync_peers hash a b id_a id_b cursor_a cursor_b in
        IsLog hash s.log_a × IsLog hash s.log_b
  unfolding sync_peers
  sync_peers-IsLog p q = (
    append_all-IsLog hash (missing_from (fingerprints a) (ops b)) a p,
    append_all-IsLog hash (missing_from (fingerprints b) (ops a)) b q,
  )
