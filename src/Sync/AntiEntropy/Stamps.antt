-- ===== src/Sync/AntiEntropy/Stamps.antt =====
-- `sync_peers` of src/sync/anti_entropy.rs: the operations under one stamp, and their order.
use conflict_free_oltp_v.Base.{
  Bool, true, false, not, List, [], ◌∷◌, ◌++◌, any, all, filter, ◌≡◌, refl, sym, ap, ◌∙◌, beq,
  arith, Bool-cases, inl, inr, Bytes, Str, if◌then◌else◌, list_ord, nat_ord, eq_of_beq, beq_refl,
}
use conflict_free_oltp_v.BTree.{BTreeSet, contains}
use conflict_free_oltp_v.Sort.Stable.{at_key}
use conflict_free_oltp_v.Crdt.Token.{Token, token_ord}
use conflict_free_oltp_v.Crdt.Merge.{CrdtOp, same_op, same_op_comm}
use conflict_free_oltp_v.Storage.OpLog.{LogEntry, OpLog, ops, append}
use conflict_free_oltp_v.Storage.OpLog.Append.{
  has_op, IsLog, OpsDistinct, any_of_has_op, ops-append, has_op-append,
}
use conflict_free_oltp_v.Sync.AntiEntropy.{
  SyncCursor, fingerprint, fingerprints, missing_from, append_all, sync_peers,
}
use conflict_free_oltp_v.Sync.AntiEntropy.Exchange.{contains-fingerprints, received}

-- The operations issued under a stamp, in their order.
abbrev pub stamped : Token → List CrdtOp → List CrdtOp
stamped t l = at_key fingerprint t l

-- None of the operations is in the log.
abbrev AllNew : List CrdtOp → OpLog → Type 0
AllNew l log = all (λ op. not (has_op op log)) l ≡ true

filter-append :
    (p : CrdtOp → Bool) (l m : List CrdtOp) → filter p (l ++ m) ≡ filter p l ++ filter p m
filter-append p [] m = refl
filter-append p (x ∷ l) m = ground (arith, filter-append p l m)

pub filter_none : (p : CrdtOp → Bool) (l : List CrdtOp) → any p l ≡ false → filter p l ≡ []
filter_none p [] h = refl
filter_none p (x ∷ l) h = ground (arith, filter_none p l)

append_nil : (l : List CrdtOp) → l ++ [] ≡ l
append_nil [] = refl
append_nil (x ∷ l) = ap (◌∷◌ x) (append_nil l)

append_assoc : (l m n : List CrdtOp) → (l ++ m) ++ n ≡ l ++ (m ++ n)
append_assoc [] m n = refl
append_assoc (x ∷ l) m n = ap (◌∷◌ x) (append_assoc l m n)

any-filter : (p q : CrdtOp → Bool) (l : List CrdtOp) → any p l ≡ false → any p (filter q l) ≡ false
any-filter p q [] h = refl
any-filter p q (x ∷ l) h = ground (arith, any-filter p q l)

OpsDistinct-filter :
    (p : CrdtOp → Bool) (l : List CrdtOp) → OpsDistinct l → OpsDistinct (filter p l)
OpsDistinct-filter p [] d = tt
OpsDistinct-filter p (x ∷ l) d =
    ground (arith, any-filter (λ y. same_op y x) p l d.0, OpsDistinct-filter p l d.1)

module _ (hash : LogEntry → Bytes) where
  AllNew-append :
      (op : CrdtOp) (l : List CrdtOp) (log : OpLog)
      → AllNew l log
      → any (λ x. same_op x op) l ≡ false
      → AllNew l (append hash op log).0
  AllNew-append op [] log h d = refl
  AllNew-append op (x ∷ l) log h d =
      ground (arith, has_op-append hash op x log, same_op_comm op x, AllNew-append op l log)

  ops-append_all :
      (l : List CrdtOp) (log : OpLog)
      → OpsDistinct l
      → AllNew l log
      → ops (append_all hash l log) ≡ ops log ++ l
  unfolding append_all
  ops-append_all [] log d h = sym (append_nil (ops log))
  ops-append_all (op ∷ l) log d h =
      let appended : ops (append hash op log).0 ≡ ops log ++ op ∷ [] =
        ops-append hash op log ∙ ground arith in
      ops-append_all l (append hash op log).0 d.1 (AllNew-append op l log (ground arith) d.0)
      ∙ ap (λ m. m ++ l) appended
      ∙ append_assoc (ops log) (op ∷ []) l

  -- A log has no operation whose fingerprint it does not know.
  missing-new : (log : OpLog) (l : List CrdtOp) → AllNew (missing_from (fingerprints log) l) log
  missing-new log [] = refl
  missing-new log (op ∷ l) = ground (
    arith,
    missing-new log l,
    contains-fingerprints (fingerprint op) log,
    any_of_has_op (λ x. beq (fingerprint x) (fingerprint op)) op (ops log),
    beq_refl (fingerprint op),
  )

  stamped-missing_from :
      (t : Token) (seen : BTreeSet Token) (l : List CrdtOp)
      → stamped t (missing_from seen l) ≡ (if contains t seen then [] else stamped t l)
  stamped-missing_from t seen [] = ground arith
  stamped-missing_from t seen (op ∷ l) = elim (Bool-cases (beq (fingerprint op) t)) [
    | inl same ↦ ground (
      arith,
      stamped-missing_from t seen l,
      ap (λ s. contains s seen) (eq_of_beq (fingerprint op) t same),
    )
    | inr other ↦ ground (arith, stamped-missing_from t seen l)
  ]

  -- Under a stamp that it knows, a log keeps its operations; under another it takes the source's.
  pub stamped-received :
      (t : Token) (log source : OpLog)
      → IsLog hash source
      → stamped t (ops (received hash log source))
        ≡ (if contains t (fingerprints log) then stamped t (ops log) else stamped t (ops source))
  unfolding received
  stamped-received t log source h =
      ap (stamped t) (
        ops-append_all (missing_from (fingerprints log) (ops source)) log
          (OpsDistinct-filter (λ op. not (contains (fingerprint op) (fingerprints log)))
            (ops source) h.distinct)
          (missing-new log (ops source)))
      ∙ filter-append (λ op. beq (fingerprint op) t) (ops log)
          (missing_from (fingerprints log) (ops source))
      ∙ ground (
        arith,
        stamped-missing_from t (fingerprints log) (ops source),
        append_nil (stamped t (ops log)),
        contains-fingerprints t log,
        filter_none (λ op. beq (fingerprint op) t) (ops log),
      )

-- Under a stamp that both logs know, both have the same operations in one order.
abbrev pub Agree : OpLog → OpLog → Type 0
Agree a b =
    (t : Token)
    → contains t (fingerprints a) ≡ true
    → contains t (fingerprints b) ≡ true
    → stamped t (ops a) ≡ stamped t (ops b)

module _ (hash : LogEntry → Bytes) (a b : OpLog) (id_a id_b : Str)
    (cursor_a cursor_b : SyncCursor) where
  -- After sync_peers on well-formed logs that agree under the stamps both know, both logs have the
  -- same operations in the same order under each stamp.
  pub sync_peers-stamped :
      IsLog hash a
      → IsLog hash b
      → Agree a b
      → (t : Token)
      → let s = sync_peers hash a b id_a id_b cursor_a cursor_b in
        stamped t (ops s.log_a) ≡ stamped t (ops s.log_b)
  unfolding sync_peers received
  sync_peers-stamped p q agree t =
      stamped-received hash t a b q
      ∙ ground (
        arith,
        agree t,
        contains-fingerprints t a,
        contains-fingerprints t b,
        filter_none (λ op. beq (fingerprint op) t) (ops a),
        filter_none (λ op. beq (fingerprint op) t) (ops b),
      )
      ∙ sym (stamped-received hash t b a p)
