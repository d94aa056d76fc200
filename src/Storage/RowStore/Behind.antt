-- ===== src/Storage/RowStore/Behind.antt =====
-- Stores of src/storage/row_store.rs in which no stamp of a row, a tombstone or a cell is later than a given one.
use conflict_free_oltp_v.Base.{
  ◌<◌, ◌≤◌, Bool, true, not, ◌||◌, ◌⊎◌, inl, inr, Option, some, [], ◌∷◌, ◌≡◌, subst, arith, beq,
  eq_of_beq, beq_comm, Bool-cases, Option-cases, Bytes, Str, list_ord, nat_ord, unwrap_or,
}
use conflict_free_oltp_v.BTree.{get, contains, update_entry}
use conflict_free_oltp_v.BTree.Join.{Each}
use conflict_free_oltp_v.BTree.Each.{Each-empty, Each-insert, Each-update_entry, Each-retain}
use conflict_free_oltp_v.BTree.Sets.{contains-add, contains-union, contains-empty}
use conflict_free_oltp_v.Crdt.Clocks.{HlcTimestamp}
use conflict_free_oltp_v.Crdt.Clocks.Monotone.{Later}
use conflict_free_oltp_v.Crdt.Token.{Token, token_ord, token}
use conflict_free_oltp_v.Crdt.Merge.{
  Cells, TableSchema, CrdtOp, insert_row, update_cells, delete_row, reserve_unique, create_table,
}
use conflict_free_oltp_v.Crdt.Merge.{hlc as stamp_of}
use conflict_free_oltp_v.Crdt.MvRegister
use conflict_free_oltp_v.Crdt.MvRegister.{MvEntry, MvRegister}
use conflict_free_oltp_v.Crdt.OrSet
use conflict_free_oltp_v.Crdt.OrSet.{OrMapEntry, OrMap, insert_entry, delete_entry, no_entry}
use conflict_free_oltp_v.Storage.RowStore.{
  CrdtRow, TableState, RowStore, no_row, write_cell, write_cells, insert_table_row, update_row,
  delete_table_row, new_table, create, on_table, apply_op,
}

-- Not later by the clock reading, whatever the peer.
abbrev pub AtMost : Token → HlcTimestamp → Type 0
AtMost k u = (k.0 < u.wall_ms) ⊎ ((k.0 ≡ u.wall_ms) × (k.1 ≤ u.logical))

-- What is at most a stamp is at most a later one.
pub AtMost-Later : (u v : HlcTimestamp) → Later u v → (k : Token) → AtMost k u → AtMost k v
AtMost-Later u v h k a = ground arith

module _ (u : HlcTimestamp) where
  -- An entry of a cell, by its key and by its stamp.
  abbrev pub CellBehind : Token → MvEntry → Type 0
  CellBehind k e = AtMost k u × AtMost (token e.hlc) u

  abbrev pub RegisterBehind : MvRegister → Type 0
  RegisterBehind r = Each CellBehind r.entries

  abbrev pub RowBehind : CrdtRow → Type 0
  RowBehind row = Each (λ column r. RegisterBehind r) row.cells

  -- The tokens of a row, inserted or removed, and its tombstone.
  pub record EntryBehind (e : OrMapEntry) : Type 0 where
    pub tokens : (k : Token) → (contains k e.live || contains k e.removed) ≡ true → AtMost k u
    pub tombstone : (ts : HlcTimestamp) → e.tombstone_ts ≡ some ts → AtMost (token ts) u

  pub record TableBehind (t : TableState) : Type 0 where
    pub rows : Each (λ x row. RowBehind row) t.rows
    pub members : Each (λ x e. EntryBehind e) t.membership.rows

  abbrev pub StoreBehind : RowStore → Type 0
  StoreBehind s = Each (λ name t. TableBehind t) s.tables

  write-RegisterBehind :
      (hlc : HlcTimestamp) (value : Option Bytes) (r : MvRegister)
      → AtMost (token hlc) u
      → RegisterBehind r
      → RegisterBehind (MvRegister.write hlc value r)
  unfolding MvRegister.write
  write-RegisterBehind hlc value r h b =
      Each-insert CellBehind (token hlc) (record { hlc = hlc; value = value }) _ (h, h)
        (Each-retain CellBehind (λ k e. not (beq e.hlc.peer_id hlc.peer_id)) r.entries b)

  write_cells-RowBehind :
      (hlc : HlcTimestamp) (cells : Cells) (row : CrdtRow)
      → AtMost (token hlc) u
      → RowBehind row
      → RowBehind (write_cells hlc cells row)
  unfolding write_cells write_cell MvRegister.new
  write_cells-RowBehind hlc [] row h b = b
  write_cells-RowBehind hlc ((column, value) ∷ cells) row h b =
      write_cells-RowBehind hlc cells (write_cell column hlc value row) h (
        Each-update_entry (λ c r. RegisterBehind r) column
          (λ r. MvRegister.write hlc value (unwrap_or MvRegister.new r)) row.cells
          (write-RegisterBehind hlc value MvRegister.new h (Each-empty CellBehind))
          (λ r k. write-RegisterBehind hlc value r h k) b)

  rows-update :
      (row_id : Str) (hlc : HlcTimestamp) (cells : Cells) (t : TableState)
      → AtMost (token hlc) u
      → TableBehind t
      → Each
          (λ x row. RowBehind row)
          (update_entry row_id (λ r. write_cells hlc cells (unwrap_or no_row r)) t.rows)
  rows-update row_id hlc cells t h b =
      Each-update_entry (λ x row. RowBehind row) row_id
        (λ r. write_cells hlc cells (unwrap_or no_row r)) t.rows
        (write_cells-RowBehind hlc cells no_row h (Each-empty (λ c r. RegisterBehind r)))
        (λ row k. write_cells-RowBehind hlc cells row h k) b.rows

  insert_entry-EntryBehind :
      (hlc : HlcTimestamp) (e : OrMapEntry)
      → AtMost (token hlc) u
      → EntryBehind e
      → EntryBehind (insert_entry hlc (some e))
  insert_entry-EntryBehind hlc e h b = record {
    tokens = λ k found. elim (Bool-cases (beq (token hlc) k)) [
      | inl same ↦ subst (λ j. AtMost j u) (eq_of_beq (token hlc) k same) h
      | inr other ↦
          b.tokens k (ground (arith, contains-add k (token hlc) e.live, beq_comm k (token hlc)))
    ];
    tombstone = λ ts marked. absurd (cc);
  }

  no_entry-EntryBehind : EntryBehind no_entry
  no_entry-EntryBehind = record {
    tokens = λ k found. absurd (ground (arith, contains-empty k));
    tombstone = λ ts marked. absurd (cc);
  }

  some_stamp : (s t : HlcTimestamp) → some s ≡ some t → s ≡ t
  some_stamp s t h = cc

  delete_entry-EntryBehind :
      (hlc : HlcTimestamp) (fk : Bool) (e : OrMapEntry)
      → (fk ≡ true → AtMost (token hlc) u)
      → EntryBehind e
      → EntryBehind (delete_entry hlc fk e)
  delete_entry-EntryBehind hlc fk e h b = record {
    tokens = λ k found. b.tokens k (ground (arith, contains-union k e.removed e.live));
    tombstone = λ ts marked. elim (Bool-cases fk) [
      | inl marks ↦ subst (λ t. AtMost (token t) u) (some_stamp hlc ts (ground arith)) (h marks)
      | inr plain ↦ b.tombstone ts (ground arith)
    ];
  }

  insert_table_row-TableBehind :
      (row_id : Str) (hlc : HlcTimestamp) (cells : Cells) (t : TableState)
      → AtMost (token hlc) u
      → TableBehind t
      → TableBehind (insert_table_row row_id hlc cells t)
  unfolding insert_table_row OrSet.insert_row
  insert_table_row-TableBehind row_id hlc cells t h b = record {
    rows = rows-update row_id hlc cells t h b;
    members =
        Each-update_entry (λ x e. EntryBehind e) row_id (insert_entry hlc) t.membership.rows
          (insert_entry-EntryBehind hlc no_entry h no_entry-EntryBehind)
          (λ e k. insert_entry-EntryBehind hlc e h k) b.members;
  }

  pub update_row-TableBehind :
      (row_id : Str) (hlc : HlcTimestamp) (cells : Cells) (t : TableState)
      → AtMost (token hlc) u
      → TableBehind t
      → TableBehind (update_row row_id hlc cells t)
  unfolding update_row
  update_row-TableBehind row_id hlc cells t h b = record {
    rows = rows-update row_id hlc cells t h b;
    members = b.members;
  }

  delete_row-members :
      (row_id : Str) (hlc : HlcTimestamp) (fk : Bool) (m : OrMap)
      → (fk ≡ true → AtMost (token hlc) u)
      → Each (λ x e. EntryBehind e) m.rows
      → Each (λ x e. EntryBehind e) (OrSet.delete_row row_id hlc fk m).rows
  unfolding OrSet.delete_row
  delete_row-members row_id hlc fk m h b = elim (Option-cases (get row_id m.rows)) [
    | inl missing ↦ rw (missing, OrSet.delete_row) b
    | inr (e, at) ↦
        rw (at, OrSet.delete_row)
          (Each-insert (λ x e. EntryBehind e) row_id (delete_entry hlc fk e) m.rows
            (delete_entry-EntryBehind hlc fk e h (b row_id e at)) b)
  ]

  -- A deletion brings no stamp in but that of its tombstone.
  pub delete_table_row-TableBehind :
      (row_id : Str) (hlc : HlcTimestamp) (fk : Bool) (t : TableState)
      → (fk ≡ true → AtMost (token hlc) u)
      → TableBehind t
      → TableBehind (delete_table_row row_id hlc fk t)
  unfolding delete_table_row
  delete_table_row-TableBehind row_id hlc fk t h b = record {
    rows = b.rows;
    members = delete_row-members row_id hlc fk t.membership h b.members;
  }

  pub on_table-StoreBehind :
      (name : Str) (f : TableState → TableState) (s : RowStore)
      → ((t : TableState) → TableBehind t → TableBehind (f t))
      → StoreBehind s
      → StoreBehind (on_table name f s)
  unfolding on_table
  on_table-StoreBehind name f s step b = elim (Option-cases (get name s.tables)) [
    | inl missing ↦ rw (missing, on_table) b
    | inr (t, at) ↦
        rw (at, on_table)
          (Each-insert (λ n t. TableBehind t) name (f t) s.tables (step t (b name t at)) b)
  ]

  new_table-TableBehind : (schema : TableSchema) → TableBehind (new_table schema)
  unfolding OrSet.new
  new_table-TableBehind schema = record {
    rows = Each-empty (λ x row. RowBehind row);
    members = Each-empty (λ x e. EntryBehind e);
  }

  -- An operation whose stamp is not later keeps the store so.
  pub apply_op-StoreBehind :
      (s : RowStore) (op : CrdtOp)
      → AtMost (token (stamp_of op)) u
      → StoreBehind s
      → StoreBehind (apply_op s op)
  unfolding apply_op create
  apply_op-StoreBehind s (create_table name schema hlc) h b =
      Each-update_entry (λ n t. TableBehind t) schema.name (unwrap_or (new_table schema)) s.tables
        (new_table-TableBehind schema) (λ t k. k) b
  apply_op-StoreBehind s (insert_row name row_id hlc cells) h b =
      on_table-StoreBehind name (insert_table_row row_id hlc cells) s
        (λ t k. insert_table_row-TableBehind row_id hlc cells t h k) b
  apply_op-StoreBehind s (update_cells name row_id hlc cells) h b =
      on_table-StoreBehind name (update_row row_id hlc cells) s
        (λ t k. update_row-TableBehind row_id hlc cells t h k) b
  apply_op-StoreBehind s (delete_row name row_id hlc fk) h b =
      on_table-StoreBehind name (delete_table_row row_id hlc fk) s
        (λ t k. delete_table_row-TableBehind row_id hlc fk t (λ marks. h) k) b
  apply_op-StoreBehind s (reserve_unique name column value row_id hlc) h b = b

-- Behind a stamp, and so behind a later one.
module _ (u v : HlcTimestamp) (later : (k : Token) → AtMost k u → AtMost k v) where
  pub TableBehind-mono : (t : TableState) → TableBehind u t → TableBehind v t
  TableBehind-mono t c = record {
    rows = λ x row here column r there k e found.
        let (key, stamp) = c.rows x row here column r there k e found in
        (later k key, later (token e.hlc) stamp);
    members = λ x e here. record {
      tokens = λ k found. later k ((c.members x e here).tokens k found);
      tombstone = λ ts marked. later (token ts) ((c.members x e here).tombstone ts marked);
    };
  }

  pub StoreBehind-mono : (s : RowStore) → StoreBehind u s → StoreBehind v s
  StoreBehind-mono s b name t at = TableBehind-mono t (b name t at)
