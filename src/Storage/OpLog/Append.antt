-- ===== src/Storage/OpLog/Append.antt =====
-- `append` of src/storage/op_log.rs: the shape of a log, and its operations.
use conflict_free_oltp_v.Base.{
  ℕ, ◌+◌, Bool, true, false, none, some, List, [], ◌∷◌, ◌++◌, map, any, last, length, ◌≡◌, refl,
  sym, ap, ◌∙◌, arith, if◌then◌else◌, Bool-cases, inl, inr, Bytes, any-map, ◌||◌, any-append,
  or_false, last_of_cons, subst,
}
use conflict_free_oltp_v.Crdt.Merge.{CrdtOp, same_op, eq_of_same_op, same_op_comm}
use conflict_free_oltp_v.Storage.OpLog.{LogEntry, OpLog, new, ops, append, last_hash, zero_hash}

-- The operation is in the log.
abbrev pub has_op : CrdtOp → OpLog → Bool
has_op op log = any (λ x. same_op x op) (ops log)

-- No operation of the list stands twice.
abbrev pub OpsDistinct : List CrdtOp → Type 0
OpsDistinct [] = Unit {0}
OpsDistinct (op ∷ l) = (any (λ x. same_op x op) l ≡ false) × OpsDistinct l

pub any_of_has_op :
    (p : CrdtOp → Bool) (op : CrdtOp) (l : List CrdtOp)
    → any (λ x. same_op x op) l ≡ true
    → p op ≡ true
    → any p l ≡ true
any_of_has_op p op [] h k = h
any_of_has_op p op (x ∷ l) h k = elim (Bool-cases (same_op x op)) [
  | inl same ↦ ground (arith, subst (λ y. p y ≡ true) (sym (eq_of_same_op x op same)) k)
  | inr other ↦ ground (arith, any_of_has_op p op l)
]

module _ (hash : LogEntry → Bytes) where
  -- The entries count up from `n`, and the first links to `prev`.
  abbrev pub Linked : Bytes → ℕ → List LogEntry → Type 0
  Linked prev n [] = Unit {0}
  Linked prev n (e ∷ l) = (e.seq ≡ n) × (e.prev_hash ≡ prev) × Linked (hash e) (n + 1) l

  pub record IsLog (log : OpLog) : Type 0 where
    pub linked : Linked zero_hash 0 log.entries
    pub distinct : OpsDistinct (ops log)

  -- What `append` does to the operations: nothing if it is there, else it goes to the end.
  pub ops-append :
      (op : CrdtOp) (log : OpLog)
      → ops (append hash op log).0 ≡ (if has_op op log then ops log else ops log ++ op ∷ [])
  unfolding append
  ops-append op log = elim (Bool-cases (any (λ e. same_op e.op op) log.entries)) [
    | inl there ↦ rw (any-map (λ x. same_op x op) (λ e. e.op) log.entries, there)
    | inr new ↦
        rw (any-map (λ x. same_op x op) (λ e. e.op) log.entries, new)
          (map_snoc log.entries
            (record { seq = length log.entries; op = op; prev_hash = last_hash hash log.entries }))
  ]
    where
      map_snoc :
          (l : List LogEntry) (x : LogEntry)
          → map (λ e. e.op) (l ++ x ∷ []) ≡ map (λ e. e.op) l ++ x.op ∷ []
      map_snoc [] x = refl
      map_snoc (e ∷ l) x = ap (◌∷◌ e.op) (map_snoc l x)

  -- The hash that an entry at the end of `l` links to.
  last_or : Bytes → List LogEntry → Bytes
  last_or prev l = elim (last l) [ none ↦ prev | some e ↦ hash e ]

  last_or-cons :
      (prev : Bytes) (e : LogEntry) (l : List LogEntry) → last_or prev (e ∷ l) ≡ last_or (hash e) l
  unfolding last_or
  last_or-cons prev e [] = refl
  last_or-cons prev e (x ∷ l) = let (z, at) = last_of_cons x l in ground (arith, at)

  Linked-snoc :
      (prev : Bytes) (n : ℕ) (l : List LogEntry) (x : LogEntry)
      → Linked prev n l
      → x.seq ≡ n + length l
      → x.prev_hash ≡ last_or prev l
      → Linked prev n (l ++ x ∷ [])
  Linked-snoc prev n [] x h s q = (omega arith, q ∙ (unfold_last_or prev), tt)
    where
      unfold_last_or : (p : Bytes) → last_or p [] ≡ p
      unfold_last_or p = unfold last_or in refl
  Linked-snoc prev n (e ∷ l) x h s q =
      (h.0, h.1, Linked-snoc (hash e) (n + 1) l x h.2 (omega arith) (q ∙ last_or-cons prev e l))

  OpsDistinct-snoc :
      (l : List CrdtOp) (op : CrdtOp)
      → OpsDistinct l
      → any (λ x. same_op x op) l ≡ false
      → OpsDistinct (l ++ op ∷ [])
  OpsDistinct-snoc [] op d h = (refl, tt)
  OpsDistinct-snoc (y ∷ l) op d h = (
    any-append (λ x. same_op x y) l (op ∷ []) ∙ ground (arith, d.0, same_op_comm op y),
    OpsDistinct-snoc l op d.1 (ground arith),
  )

  -- The empty log is well formed.
  pub new-IsLog : IsLog new
  new-IsLog = record { linked = tt; distinct = tt }

  -- append keeps a log well formed: numbered by position, linked by hash, no operation twice.
  pub append-IsLog : (op : CrdtOp) (log : OpLog) → IsLog log → IsLog (append hash op log).0
  unfolding append last_or
  append-IsLog op log h = elim (Bool-cases (any (λ e. same_op e.op op) log.entries)) [
    | inl there ↦ rw there h
    | inr fresh ↦
        let distinct : OpsDistinct (ops (append hash op log).0) =
          subst OpsDistinct (sym (ops-append op log)) (kept fresh) in
        record {
          linked = rw fresh (
              Linked-snoc zero_hash 0 log.entries
                (record {
                  seq = length log.entries;
                  op = op;
                  prev_hash = last_hash hash log.entries;
                })
                h.linked (omega arith) refl);
          distinct = distinct;
        }
  ]
    where
      kept :
          any (λ e. same_op e.op op) log.entries ≡ false
          → OpsDistinct (if has_op op log then ops log else ops log ++ op ∷ [])
      kept fresh =
          let absent : has_op op log ≡ false =
            any-map (λ x. same_op x op) (λ e. e.op) log.entries ∙ fresh in
          rw absent (OpsDistinct-snoc (ops log) op h.distinct absent)

  -- After an append a test holds of some operation exactly if it held before, or holds of the
  -- operation appended.
  pub any-append_op :
      (p : CrdtOp → Bool) (op : CrdtOp) (log : OpLog)
      → any p (ops (append hash op log).0) ≡ (any p (ops log) || p op)
  any-append_op p op log = ap (any p) (ops-append op log) ∙ split
    where
      split :
          any p (if has_op op log then ops log else ops log ++ op ∷ []) ≡ (any p (ops log) || p op)
      split = elim (Bool-cases (has_op op log)) [
        | inl there ↦ rw there (ground (arith, any_of_has_op p op (ops log) there))
        | inr fresh ↦
            rw fresh (
              any-append p (ops log) (op ∷ [])
              ∙ ap (◌||◌ (any p (ops log))) (sym (or_false (p op))))
      ]

  -- After an append the log has exactly the operations it had and the one appended.
  pub has_op-append :
      (op x : CrdtOp) (log : OpLog)
      → has_op x (append hash op log).0 ≡ (has_op x log || same_op op x)
  has_op-append op x log = any-append_op (λ y. same_op y x) op log
