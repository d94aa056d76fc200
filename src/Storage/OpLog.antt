-- ===== src/Storage/OpLog.antt =====
-- src/storage/op_log.rs: the append-only operation log. The hash of an entry (bincode and BLAKE3)
-- is code of other crates: a parameter.
pub mod Append
pub mod Index
mod Tests
use conflict_free_oltp_v.Base.{
  ℕ, suc, ◌+◌, ◌-◌, Bool, true, false, Option, none, some, List, [], ◌∷◌, ◌++◌, map, any, filter,
  last, length, get_elem?, ltb, max, list_ord, nat_ord, pair_ord, unwrap_or, if◌then◌else◌, Bytes,
  Str,
}
use conflict_free_oltp_v.BTree.{BTreeMap, empty, get, update_entry}
use conflict_free_oltp_v.Crdt.Clocks.{HlcTimestamp}
use conflict_free_oltp_v.Crdt.Merge.{
  CrdtOp, insert_row, update_cells, delete_row, reserve_unique, create_table, hlc, table, same_op,
}

pub record LogEntry : Type 0 where
  pub seq : ℕ
  pub op : CrdtOp
  pub prev_hash : Bytes

pub record OpLog : Type 0 where
  pub entries : List LogEntry
  pub row_index : BTreeMap (Str × Str) (List ℕ)
  pub peer_frontier : BTreeMap Str ℕ

abbrev pub new : OpLog
new = record { entries = []; row_index = empty; peer_frontier = empty }

abbrev pub row_id_from_op : CrdtOp → Option Str
row_id_from_op (insert_row name row_id t cells) = some row_id
row_id_from_op (update_cells name row_id t cells) = some row_id
row_id_from_op (delete_row name row_id t fk_tombstone) = some row_id
row_id_from_op (reserve_unique name column value row_id t) = some row_id
row_id_from_op (create_table name schema t) = none

-- `iter().map(|e| e.op.clone())`
abbrev pub ops : OpLog → List CrdtOp
ops log = map (λ e. e.op) log.entries

abbrev pub len : OpLog → ℕ
len log = length log.entries

abbrev pub index_row : CrdtOp → ℕ → BTreeMap (Str × Str) (List ℕ) → BTreeMap (Str × Str) (List ℕ)
index_row op seq m = elim (row_id_from_op op) [
  | none ↦ m
  | some row_id ↦ update_entry (table op, row_id) (λ seqs. unwrap_or [] seqs ++ seq ∷ []) m
]

-- `entry(k).or_insert(0)`, raised to `seq`.
abbrev pub raise_entry : Str → ℕ → BTreeMap Str ℕ → BTreeMap Str ℕ
raise_entry k seq m = update_entry k (λ old. max (unwrap_or 0 old) seq) m

-- Thirty-two zero bytes.
abbrev pub zero_hash : Bytes
zero_hash =
    0 ∷ 0 ∷ 0 ∷ 0 ∷ 0 ∷ 0 ∷ 0 ∷ 0 ∷ 0 ∷ 0 ∷ 0 ∷ 0 ∷ 0 ∷ 0 ∷ 0 ∷ 0 ∷ 0 ∷ 0 ∷ 0 ∷ 0 ∷ 0 ∷ 0 ∷ 0 ∷ 0
    ∷ 0 ∷ 0 ∷ 0 ∷ 0 ∷ 0 ∷ 0 ∷ 0 ∷ 0 ∷ []

module _ (hash : LogEntry → Bytes) where
  -- The hash that the next entry links to.
  abbrev pub last_hash : List LogEntry → Bytes
  last_hash entries = elim (last entries) [ none ↦ zero_hash | some e ↦ hash e ]

  unfoldable pub append : CrdtOp → OpLog → OpLog × ℕ
  append op log =
      let seq = len log in
      if any (λ e. same_op e.op op) log.entries then (log, seq - 1) else (
        record {
          entries =
              log.entries ++ record { seq = seq; op = op; prev_hash = last_hash log.entries } ∷ [];
          row_index = index_row op seq log.row_index;
          peer_frontier = raise_entry (hlc op).peer_id seq log.peer_frontier;
        },
        seq,
      )

abbrev pub since : ℕ → OpLog → List LogEntry
since cursor log = filter (λ e. ltb cursor e.seq) log.entries

-- `filter_map(|&seq| self.entries.get(seq))`
abbrev pub entries_at : List LogEntry → List ℕ → List LogEntry
entries_at entries [] = []
entries_at entries (seq ∷ seqs) =
    let rest = entries_at entries seqs in
    elim (get_elem? entries seq) [ none ↦ rest | some e ↦ e ∷ rest ]

unfoldable pub ops_for_row : Str → Str → OpLog → List LogEntry
ops_for_row name row_id log = elim (get (name, row_id) log.row_index) [
  | none ↦ []
  | some seqs ↦ entries_at log.entries seqs
]

abbrev pub max_seq : OpLog → ℕ
max_seq log = len log - 1

-- Nothing is compacted yet.
pub compact_before : ℕ → OpLog → OpLog × ℕ
compact_before safe_seq log = (log, 0)
