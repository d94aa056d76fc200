-- ===== src/Storage/OpLog/Index.antt =====
-- The row index of src/storage/op_log.rs against a search of the whole log.
use conflict_free_oltp_v.Base.{
  ℕ, ◌+◌, Bool, false, Option, none, some, List, [], ◌∷◌, ◌++◌, any, filter, length, get_elem?, ◌≡◌,
  refl, sym, ap, ◌∙◌, arith, beq, eq_of_beq, if◌then◌else◌, unwrap_or, Bool-cases, Option-cases,
  inl, inr, Bytes, Str, list_ord, nat_ord, pair_ord, length-append,
}
use conflict_free_oltp_v.BTree.{get}
use conflict_free_oltp_v.BTree.Laws.{get-update_entry, get-empty}
use conflict_free_oltp_v.Crdt.Merge.{CrdtOp, table, same_op}
use conflict_free_oltp_v.Storage.OpLog.{
  LogEntry, OpLog, new, append, row_id_from_op, index_row, entries_at, ops_for_row, last_hash,
}

-- The operation concerns the row.
abbrev pub concerns : Str × Str → CrdtOp → Bool
concerns key op = elim (row_id_from_op op) [
  | none ↦ false
  | some row_id ↦ beq (table op, row_id) key
]

-- The positions, from `n` on, of the entries that concern a row.
pub positions : Str × Str → ℕ → List LogEntry → List ℕ
positions key n [] = []
positions key n (e ∷ l) =
    let rest = positions key (n + 1) l in if concerns key e.op then n ∷ rest else rest

-- The row index holds the positions.
abbrev pub IsIndexed : OpLog → Type 0
IsIndexed log =
    (key : Str × Str) → unwrap_or [] (get key log.row_index) ≡ positions key 0 log.entries

positions-snoc :
    (key : Str × Str) (n : ℕ) (l : List LogEntry) (x : LogEntry)
    → positions key n (l ++ x ∷ [])
      ≡ (if concerns key x.op then positions key n l ++ (n + length l) ∷ [] else positions key n l)
unfolding positions
positions-snoc key n [] x = ground arith
positions-snoc key n (e ∷ l) x = ground (arith, positions-snoc key (n + 1) l x)

get-index_row :
    (key : Str × Str) (op : CrdtOp) (seq : ℕ) (log : OpLog)
    → unwrap_or [] (get key (index_row op seq log.row_index)) ≡ (
        if concerns key op
        then unwrap_or [] (get key log.row_index) ++ seq ∷ []
        else unwrap_or [] (get key log.row_index))
get-index_row key op seq log = elim (Option-cases (row_id_from_op op)) [
  | inl no_row ↦ ground arith
  | inr (row_id, at) ↦ ground (
    arith,
    get-update_entry (table op, row_id) key (λ seqs. unwrap_or [] seqs ++ seq ∷ []) log.row_index,
    eq_of_beq (table op, row_id) key,
  )
]

pub new-IsIndexed : IsIndexed new
unfolding positions
new-IsIndexed key = ap (unwrap_or []) (get-empty {V = List ℕ} key)

-- append keeps the row index equal, for every row, to the positions of the entries that concern it.
pub append-IsIndexed :
    (hash : LogEntry → Bytes) (op : CrdtOp) (log : OpLog)
    → IsIndexed log
    → IsIndexed (append hash op log).0
unfolding append
append-IsIndexed hash op log h key = elim (Bool-cases (any (λ e. same_op e.op op) log.entries)) [
  | inl there ↦ rw there (h key)
  | inr fresh ↦
      let x : LogEntry = record {
        seq = length log.entries;
        op = op;
        prev_hash = last_hash hash log.entries;
      } in
      rw fresh (
        get-index_row key op (length log.entries) log
        ∙ ap (λ l. if concerns key op then l ++ length log.entries ∷ [] else l) (h key)
        ∙ ap
            (λ n.
              if concerns key op
              then positions key 0 log.entries ++ n ∷ []
              else positions key 0 log.entries)
            (zero_add (length log.entries))
        ∙ sym (positions-snoc key 0 log.entries x))
]
  where
    zero_add : (n : ℕ) → n ≡ 0 + n
    zero_add n = omega arith

get_elem?-append :
    (l : List LogEntry) (e : LogEntry) (m : List LogEntry)
    → get_elem? (l ++ e ∷ m) (length l) ≡ some e
get_elem?-append [] e m = refl
get_elem?-append (x ∷ l) e m = get_elem?-append l e m

append_snoc :
    (l : List LogEntry) (e : LogEntry) (m : List LogEntry) → l ++ e ∷ m ≡ (l ++ e ∷ []) ++ m
append_snoc [] e m = refl
append_snoc (x ∷ l) e m = ap (◌∷◌ x) (append_snoc l e m)

entries_at-positions :
    (key : Str × Str) (before l : List LogEntry)
    → entries_at (before ++ l) (positions key (length before) l) ≡ filter (λ e. concerns key e.op) l
unfolding positions
entries_at-positions key before [] = refl
entries_at-positions key before (e ∷ l) = ground (
  arith,
  get_elem?-append before e l,
  ap (λ m. entries_at m (positions key (length before + 1) l)) (append_snoc before e l)
      ∙ ap (λ n. entries_at ((before ++ e ∷ []) ++ l) (positions key n l))
          (sym (length-append before (e ∷ [])))
      ∙ entries_at-positions key (before ++ e ∷ []) l,
)

-- On an indexed log, ops_for_row gives what a search of the whole log for the row gives, in log
-- order.
pub ops_for_row-filter :
    (name row_id : Str) (log : OpLog)
    → IsIndexed log
    → ops_for_row name row_id log ≡ filter (λ e. concerns (name, row_id) e.op) log.entries
unfolding ops_for_row
ops_for_row-filter name row_id log h =
    by_default (get (name, row_id) log.row_index)
    ∙ ap (entries_at log.entries) (h (name, row_id))
    ∙ entries_at-positions (name, row_id) [] log.entries
  where
    by_default :
        (o : Option (List ℕ))
        → elim o [ none ↦ [] | some seqs ↦ entries_at log.entries seqs ]
          ≡ entries_at log.entries (unwrap_or [] o)
    by_default none = refl
    by_default (some seqs) = refl
