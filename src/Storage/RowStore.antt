-- ===== src/Storage/RowStore.antt =====
-- src/storage/row_store.rs: the materialised state. A table is an OR-map of row membership beside
-- its rows of registers.
pub mod Lattice
pub mod Rows
pub mod Writes
pub mod Behind
pub mod Reads
mod Tests
use conflict_free_oltp_v.Base.{
  Bool, true, false, Option, none, some, List, [], ◌∷◌, list_ord, nat_ord, and_then, map_option,
  unwrap_or, Bytes, Str,
}
use conflict_free_oltp_v.BTree.{BTreeMap, empty, get, insert, update_entry, absorb}
use conflict_free_oltp_v.Crdt.Clocks.{HlcTimestamp}
use conflict_free_oltp_v.Crdt.MvRegister
use conflict_free_oltp_v.Crdt.MvRegister.{MvRegister}
use conflict_free_oltp_v.Crdt.OrSet
use conflict_free_oltp_v.Crdt.OrSet.{OrMap}
use conflict_free_oltp_v.Crdt.Merge.{
  TableSchema, Cells, CrdtOp, insert_row, update_cells, delete_row, reserve_unique, create_table,
}

pub record CrdtRow : Type 0 where
  pub cells : BTreeMap Str MvRegister

abbrev pub no_row : CrdtRow
no_row = record { cells = empty }

unfoldable pub write_cell : Str → HlcTimestamp → Option Bytes → CrdtRow → CrdtRow
write_cell column hlc value row = record {
  cells =
      update_entry column (λ r. MvRegister.write hlc value (unwrap_or MvRegister.new r)) row.cells;
}

unfoldable pub read_cell : Str → CrdtRow → Option Bytes
read_cell column row = and_then (get column row.cells) MvRegister.read

-- The register of a column after a merge.
abbrev pub merge_cell : Str → MvRegister → Option MvRegister → MvRegister
merge_cell column other r = MvRegister.merge (unwrap_or MvRegister.new r) other

unfoldable pub merge_row : CrdtRow → CrdtRow → CrdtRow
merge_row row other = record { cells = absorb merge_cell row.cells other.cells }

-- `for (col, val) in cells { row.write_cell(&col, hlc, val) }`
unfoldable pub write_cells : HlcTimestamp → Cells → CrdtRow → CrdtRow
write_cells hlc [] row = row
write_cells hlc ((column, value) ∷ cells) row =
    write_cells hlc cells (write_cell column hlc value row)

pub record TableState : Type 0 where
  pub schema : TableSchema
  pub membership : OrMap
  pub rows : BTreeMap Str CrdtRow

abbrev pub new_table : TableSchema → TableState
new_table schema = record { schema = schema; membership = OrSet.new; rows = empty }

unfoldable pub update_row : Str → HlcTimestamp → Cells → TableState → TableState
update_row row_id hlc cells t = record t {
  rows = update_entry row_id (λ r. write_cells hlc cells (unwrap_or no_row r)) t.rows;
}

unfoldable pub insert_table_row : Str → HlcTimestamp → Cells → TableState → TableState
insert_table_row row_id hlc cells t = record t {
  membership = OrSet.insert_row row_id hlc t.membership;
  rows = update_entry row_id (λ r. write_cells hlc cells (unwrap_or no_row r)) t.rows;
}

unfoldable pub delete_table_row : Str → HlcTimestamp → Bool → TableState → TableState
delete_table_row row_id hlc fk_tombstone t = record t {
  membership = OrSet.delete_row row_id hlc fk_tombstone t.membership;
}

-- The row of an id after a merge.
abbrev pub merge_row_entry : Str → CrdtRow → Option CrdtRow → CrdtRow
merge_row_entry row_id other r = merge_row (unwrap_or no_row r) other

unfoldable pub merge_table : TableState → TableState → TableState
merge_table t other = record t {
  membership = OrSet.merge t.membership other.membership;
  rows = absorb merge_row_entry t.rows other.rows;
}

-- The rows that `visible_rows` of the membership names and that have cells.
abbrev pub with_rows : BTreeMap Str CrdtRow → List Str → List (Str × CrdtRow)
with_rows rows [] = []
with_rows rows (id ∷ ids) =
    let rest = with_rows rows ids in
    elim (get id rows) [ none ↦ rest | some row ↦ (id, row) ∷ rest ]

unfoldable pub visible_rows : TableState → List (Str × CrdtRow)
visible_rows t = with_rows t.rows (OrSet.visible_rows t.membership)

abbrev pub exists_for_fk : Str → TableState → Bool
exists_for_fk row_id t = OrSet.exists_for_fk row_id t.membership

pub record RowStore : Type 0 where
  pub tables : BTreeMap Str TableState

abbrev pub new_store : RowStore
new_store = record { tables = empty }

abbrev pub get_table : Str → RowStore → Option TableState
get_table name s = get name s.tables

-- `entry(name).or_insert_with(..)`: a table that is there stays.
unfoldable pub create : TableSchema → RowStore → RowStore
create schema s = record {
  tables = update_entry schema.name (unwrap_or (new_table schema)) s.tables;
}

-- `if let Some(t) = self.tables.get_mut(table) { .. }`
unfoldable pub on_table : Str → (TableState → TableState) → RowStore → RowStore
on_table name f s = elim (get name s.tables) [
  | none ↦ s
  | some t ↦ record { tables = insert name (f t) s.tables }
]

unfoldable pub apply_op : RowStore → CrdtOp → RowStore
unfolding on_table
apply_op s (create_table name schema hlc) = create schema s
apply_op s (insert_row name row_id hlc cells) = on_table name (insert_table_row row_id hlc cells) s
apply_op s (update_cells name row_id hlc cells) = on_table name (update_row row_id hlc cells) s
apply_op s (delete_row name row_id hlc fk_tombstone) =
    on_table name (delete_table_row row_id hlc fk_tombstone) s
apply_op s (reserve_unique name column value row_id hlc) = s

-- The table of a name after a merge.
abbrev pub merge_table_entry : Str → TableState → Option TableState → TableState
merge_table_entry name other t = merge_table (unwrap_or (new_table other.schema) t) other

unfoldable pub merge : RowStore → RowStore → RowStore
merge s other = record { tables = absorb merge_table_entry s.tables other.tables }
