-- ===== src/Storage/RowStore/Lattice.antt =====
-- The merges of src/storage/row_store.rs as joins.
use conflict_free_oltp_v.Base.{
  Option-cases, inl, inr, arith, ◌≡◌, refl, sym, ◌∙◌, Str, list_ord, nat_ord,
}
use conflict_free_oltp_v.BTree.{get, empty, absorb}
use conflict_free_oltp_v.BTree.Join.{IsJoin, Each, absorb-IsJoin}
use conflict_free_oltp_v.BTree.Laws.{get-absorb, get-empty, map_ext}
use conflict_free_oltp_v.Crdt.Token.{Token}
use conflict_free_oltp_v.Crdt.MvRegister
use conflict_free_oltp_v.Crdt.MvRegister.{MvEntry, MvRegister}
use conflict_free_oltp_v.Crdt.MvRegister.Lattice.{IsRegister, IsRegister-IsJoin, new-merge}
use conflict_free_oltp_v.Crdt.OrSet
use conflict_free_oltp_v.Crdt.OrSet.Lattice
use conflict_free_oltp_v.Crdt.Merge.{TableSchema}
use conflict_free_oltp_v.Storage.RowStore.{
  CrdtRow, TableState, RowStore, no_row, new_table, merge_cell, merge_row, merge_row_entry,
  merge_table, merge_table_entry, merge,
}

-- What the stamps of a table stand for, and its schema.
pub record Meaning : Type 0 where
  pub schema : TableSchema
  pub cell : Str → Str → Token → MvEntry

abbrev pub IsRow : (Str → Token → MvEntry) → CrdtRow → Type 0
IsRow h row = Each (λ column. IsRegister (h column)) row.cells

pub record IsTable (h : Meaning) (t : TableState) : Type 0 where
  pub schema : t.schema ≡ h.schema
  pub rows : Each (λ row_id. IsRow (h.cell row_id)) t.rows

abbrev pub IsStore : (Str → Meaning) → RowStore → Type 0
IsStore h s = Each (λ name. IsTable (h name)) s.tables

module _ (h : Str → Token → MvEntry) where
  cells-IsJoin : IsJoin (Each (λ column. IsRegister (h column))) (absorb merge_cell)
  cells-IsJoin =
      absorb-IsJoin (λ column. IsRegister (h column)) MvRegister.merge merge_cell
        (λ column. IsRegister-IsJoin (h column)) (λ column w p. new-merge w p.tight)
        (λ column w v. refl)

  pub IsRow-IsJoin : IsJoin (IsRow h) merge_row
  unfolding merge_row
  IsRow-IsJoin = record {
    closed = λ a b. cells-IsJoin.closed a.cells b.cells;
    comm = λ a b p q. λ i. record { cells = cells-IsJoin.comm a.cells b.cells p q i };
    assoc =
        λ a b c p q r. λ i. record { cells = cells-IsJoin.assoc a.cells b.cells c.cells p q r i };
    idem = λ a p. λ i. record { cells = cells-IsJoin.idem a.cells p i };
  }

-- A row merged into an empty one.
no_row-merge : (h : Str → Token → MvEntry) (w : CrdtRow) → IsRow h w → merge_row no_row w ≡ w
unfolding merge_row
no_row-merge h w p =
    let q = map_ext (absorb merge_cell empty w.cells) w.cells (λ k.
      elim (Option-cases (get k w.cells)) [
        | inl missing ↦
            ground (arith, get-absorb merge_cell k empty w.cells, get-empty {V = MvRegister} k)
        | inr (r, found) ↦ ground (
          arith,
          get-absorb merge_cell k empty w.cells,
          get-empty {V = MvRegister} k,
          new-merge r (p k r found).tight,
        )
      ]) in
    λ i. record { cells = q i }

module _ (h : Meaning) where
  rows-IsJoin : IsJoin (Each (λ row_id. IsRow (h.cell row_id))) (absorb merge_row_entry)
  rows-IsJoin =
      absorb-IsJoin (λ row_id. IsRow (h.cell row_id)) merge_row merge_row_entry
        (λ row_id. IsRow-IsJoin (h.cell row_id)) (λ row_id w p. no_row-merge (h.cell row_id) w p)
        (λ row_id w v. refl)

  pub IsTable-IsJoin : IsJoin (IsTable h) merge_table
  unfolding merge_table
  IsTable-IsJoin = record {
    closed = λ s t p q. record {
      schema = p.schema;
      rows = rows-IsJoin.closed s.rows t.rows p.rows q.rows;
    };
    comm = λ s t p q. λ i. record {
      schema = (p.schema ∙ sym q.schema) i;
      membership = OrSet.Lattice.merge_comm s.membership t.membership i;
      rows = rows-IsJoin.comm s.rows t.rows p.rows q.rows i;
    };
    assoc = λ s t u p q r. λ i. record {
      schema = s.schema;
      membership = OrSet.Lattice.merge_assoc s.membership t.membership u.membership i;
      rows = rows-IsJoin.assoc s.rows t.rows u.rows p.rows q.rows r.rows i;
    };
    idem = λ s p. λ i. record {
      schema = s.schema;
      membership = OrSet.Lattice.merge_idem s.membership i;
      rows = rows-IsJoin.idem s.rows p.rows i;
    };
  }

  -- A table merged into a new one of its schema.
  new_table-merge : (w : TableState) → IsTable h w → merge_table (new_table w.schema) w ≡ w
  unfolding merge_table
  new_table-merge w p =
      let q = map_ext (absorb merge_row_entry empty w.rows) w.rows (λ k.
        elim (Option-cases (get k w.rows)) [
          | inl missing ↦
              ground (arith, get-absorb merge_row_entry k empty w.rows, get-empty {V = CrdtRow} k)
          | inr (r, found) ↦ ground (
            arith,
            get-absorb merge_row_entry k empty w.rows,
            get-empty {V = CrdtRow} k,
            no_row-merge (h.cell k) r (p.rows k r found),
          )
        ]) in
      λ i. record {
        schema = w.schema;
        membership = OrSet.Lattice.new-merge w.membership i;
        rows = q i;
      }

module _ (h : Str → Meaning) where
  tables-IsJoin : IsJoin (Each (λ name. IsTable (h name))) (absorb merge_table_entry)
  tables-IsJoin =
      absorb-IsJoin (λ name. IsTable (h name)) merge_table merge_table_entry
        (λ name. IsTable-IsJoin (h name)) (λ name w p. new_table-merge (h name) w p)
        (λ name w v. refl)

  -- Stores in which each stamp stands for one cell value and each table name for one schema are
  -- closed under merge, which is commutative, associative and idempotent on them.
  pub IsStore-IsJoin : IsJoin (IsStore h) merge
  unfolding merge
  IsStore-IsJoin = record {
    closed = λ s t. tables-IsJoin.closed s.tables t.tables;
    comm = λ s t p q. λ i. record { tables = tables-IsJoin.comm s.tables t.tables p q i };
    assoc = λ s t u p q r.
        λ i. record { tables = tables-IsJoin.assoc s.tables t.tables u.tables p q r i };
    idem = λ s p. λ i. record { tables = tables-IsJoin.idem s.tables p i };
  }
