-- ===== src/Sync/AntiEntropy/Cursor.antt =====
-- The deltas by cursor of src/sync/anti_entropy.rs.
use conflict_free_oltp_v.Base.{
  ℕ, ◌+◌, ◌≤◌, Bool, true, false, not, ◌||◌, Option, none, some, List, [], ◌∷◌, map, any, all,
  filter, last, ltb, leb, ◌≡◌, refl, sym, ap, ◌∙◌, arith, if◌then◌else◌, Bool-cases, inl, inr,
  Bytes, Str, unwrap_or, subst, list_ord, nat_ord, beq_refl, max, last_of_cons,
}
use conflict_free_oltp_v.BTree.Laws.{get-update_entry}
use conflict_free_oltp_v.Crdt.Merge.{CrdtOp, same_op}
use conflict_free_oltp_v.Storage.OpLog.{LogEntry, OpLog, since, zero_hash}
use conflict_free_oltp_v.Storage.OpLog.Append.{IsLog, Linked, OpsDistinct}
use conflict_free_oltp_v.Sync.AntiEntropy.{
  SyncCursor, observe, max_seq_for, is_local, compute_delta,
}

any-sent :
    (p : CrdtOp → Bool) (peer : Str) (n : ℕ) (l : List LogEntry)
    → any p (map (λ e. e.op) l) ≡ false
    → any p (map (λ e. e.op) (filter (is_local peer) (filter (λ e. ltb n e.seq) l))) ≡ false
any-sent p peer n [] h = refl
any-sent p peer n (e ∷ l) h = ground (arith, any-sent p peer n l)

-- The last entry that passes a test has the greatest number of those that do.
abbrev Top : (LogEntry → Bool) → ℕ → List LogEntry → Option LogEntry → Type 0
Top p n l none = all (λ x. not (p x)) l ≡ true
Top p n l (some e) = (n ≤ e.seq) × (all (λ x. not (p x) || leb x.seq e.seq) l ≡ true)

last-cons : (x : LogEntry) (m : List LogEntry) → last (x ∷ m) ≡ some (unwrap_or x (last m))
last-cons x [] = refl
last-cons x (y ∷ m) = let (z, at) = last_of_cons y m in at ∙ ap (λ o. some (unwrap_or x o)) (sym at)

all_or :
    (p q : LogEntry → Bool) (l : List LogEntry) → all p l ≡ true → all (λ x. p x || q x) l ≡ true
all_or p q [] h = refl
all_or p q (x ∷ l) h = ground (arith, all_or p q l)

Top-passes :
    (p : LogEntry → Bool) (n : ℕ) (x : LogEntry) (l : List LogEntry) (o : Option LogEntry)
    → x.seq ≡ n
    → Top p (n + 1) l o
    → Top p n (x ∷ l) (some (unwrap_or x o))
Top-passes p n x l none at t =
    (omega (arith, at), ground (arith, all_or (λ y. not (p y)) (λ y. leb y.seq x.seq) l t))
Top-passes p n x l (some e) at t = (omega (arith, t.0), ground arith)

Top-fails :
    (p : LogEntry → Bool) (n : ℕ) (x : LogEntry) (l : List LogEntry) (o : Option LogEntry)
    → p x ≡ false
    → Top p (n + 1) l o
    → Top p n (x ∷ l) o
Top-fails p n x l none f t = ground arith
Top-fails p n x l (some e) f t = (omega (arith, t.0), ground arith)

module _ (hash : LogEntry → Bytes) where
  -- For a well-formed log with a first entry, no cursor makes a delta that contains the operation
  -- of that entry.
  pub compute_delta-omits_first :
      (peer : Str) (log : OpLog) (cursor : SyncCursor) (e : LogEntry) (l : List LogEntry)
      → IsLog hash log
      → log.entries ≡ e ∷ l
      → any (λ op. same_op op e.op) (compute_delta peer log cursor).ops ≡ false
  unfolding compute_delta
  compute_delta-omits_first peer log cursor e l h at =
      let n = max_seq_for peer cursor in
      let first : e.seq ≡ 0 = (subst (Linked hash zero_hash 0) at h.linked).0 in
      let once : any (λ op. same_op op e.op) (map (λ x. x.op) l) ≡ false =
        (subst (λ m. OpsDistinct (map (λ x. x.op) m)) at h.distinct).0 in
      let none_below : ltb n e.seq ≡ false = ground arith in
      ap
        (λ m.
          any (λ op. same_op op e.op)
            (map (λ x. x.op) (filter (is_local peer) (filter (λ x. ltb n x.seq) m))))
        at
      ∙ ap
          (λ b.
            any (λ op. same_op op e.op)
              (map (λ x. x.op)
                (filter (is_local peer)
                  (if b then e ∷ filter (λ x. ltb n x.seq) l else filter (λ x. ltb n x.seq) l))))
          none_below
      ∙ any-sent (λ op. same_op op e.op) peer n l once

  last-Top :
      (p : LogEntry → Bool) (prev : Bytes) (n : ℕ) (l : List LogEntry)
      → Linked hash prev n l
      → Top p n l (last (filter p l))
  last-Top p prev n [] h = refl
  last-Top p prev n (x ∷ l) h = elim (Bool-cases (p x)) [
    | inl passes ↦
        let found : last (filter p (x ∷ l)) ≡ some (unwrap_or x (last (filter p l))) =
          ap (λ b. last (if b then x ∷ filter p l else filter p l)) passes
          ∙ last-cons x (filter p l) in
        subst (Top p n (x ∷ l)) (sym found)
          (Top-passes p n x l (last (filter p l)) (h.0) (last-Top p (hash x) (n + 1) l h.2))
    | inr fails ↦
        let found : last (filter p (x ∷ l)) ≡ last (filter p l) =
          ap (λ b. last (if b then x ∷ filter p l else filter p l)) fails in
        subst (Top p n (x ∷ l)) (sym found)
          (Top-fails p n x l (last (filter p l)) fails (last-Top p (hash x) (n + 1) l h.2))
  ]

none_above :
    (p : LogEntry → Bool) (k n : ℕ) (l : List LogEntry)
    → n ≤ k
    → all (λ x. not (p x) || leb x.seq n) l ≡ true
    → filter p (filter (λ x. ltb k x.seq) l) ≡ []
none_above p k n [] h a = refl
none_above p k n (x ∷ l) h a = ground (arith, none_above p k n l)

none_passing :
    (p q : LogEntry → Bool) (l : List LogEntry)
    → all (λ x. not (p x)) l ≡ true
    → filter p (filter q l) ≡ []
none_passing p q [] a = refl
none_passing p q (x ∷ l) a = ground (arith, none_passing p q l)

max_seq_for-observe :
    (peer : Str) (n : ℕ) (c : SyncCursor) → n ≤ max_seq_for peer (observe peer n c)
unfolding max_seq_for observe
max_seq_for-observe peer n c =
    ground
      (arith, get-update_entry peer peer (λ old. max (unwrap_or 0 old) n) c.frontier, beq_refl peer)

-- Asked again with the cursor of its last delta, a peer with a well-formed log sends nothing.
pub compute_delta-caught_up :
    (hash : LogEntry → Bytes) (peer : Str) (log : OpLog) (cursor : SyncCursor)
    → IsLog hash log
    → (compute_delta peer log (compute_delta peer log cursor).new_cursor).ops ≡ []
unfolding compute_delta
compute_delta-caught_up hash peer log cursor h = ap (map (λ e. e.op)) (
    after (last (filter (is_local peer) log.entries))
      (last-Top hash (is_local peer) zero_hash 0 log.entries h.linked))
  where
    after :
        (o : Option LogEntry)
        → Top (is_local peer) 0 log.entries o
        → filter (is_local peer) (
            since
              (max_seq_for peer (elim o [ none ↦ cursor | some e ↦ observe peer e.seq cursor ]))
              log)
          ≡ []
    after none t =
        none_passing (is_local peer) (λ x. ltb (max_seq_for peer cursor) x.seq) log.entries t
    after (some e) t =
        none_above (is_local peer) (max_seq_for peer (observe peer e.seq cursor)) e.seq log.entries
          (max_seq_for-observe peer e.seq cursor) t.1
