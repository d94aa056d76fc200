-- ===== src/Constraints/ForeignKeys.antt =====
-- src/constraints/fk_resolution.rs: foreign keys under the three policies.
pub mod Cascade
mod Tests
use conflict_free_oltp_v.Base.{
  Bool, false, Option, none, some, List, [], ◌∷◌, ◌++◌, map, any, filter, beq, list_ord, nat_ord,
  option_ord, if◌then◌else◌, Str,
}
use conflict_free_oltp_v.BTree.{keys}
use conflict_free_oltp_v.Crdt.Clocks.{HlcTimestamp}
use conflict_free_oltp_v.Storage.RowStore.{
  CrdtRow, TableState, RowStore, get_table, read_cell, visible_rows, delete_table_row,
  exists_for_fk, on_table,
}

pub data FkPolicy : Type 0 where
  tombstone cascade orphan : FkPolicy

-- The foreign key columns of a table that refer to the parent.
abbrev pub fk_columns : Str → TableState → List Str
fk_columns parent_table t =
    map (λ fk. fk.column) (filter (λ fk. beq fk.ref_table parent_table) t.schema.foreign_keys)

-- Some of the columns holds the parent's id.
abbrev pub refers_to : List Str → Str → CrdtRow → Bool
refers_to columns parent_row_id row =
    any (λ column. beq (read_cell column row) (some parent_row_id)) columns

-- The visible rows of a table that refer to the parent.
unfoldable pub child_ids : Str → Str → TableState → List Str
child_ids parent_table parent_row_id t =
    map (λ e. e.0)
      (filter (λ e. refers_to (fk_columns parent_table t) parent_row_id e.1) (visible_rows t))

unfoldable pub delete_all : HlcTimestamp → List Str → TableState → TableState
delete_all hlc [] t = t
delete_all hlc (id ∷ ids) t = delete_all hlc ids (delete_table_row id hlc false t)

-- The loop over the tables, whose names are taken before it starts.
unfoldable pub cascade_tables :
    List Str → Str → Str → HlcTimestamp → RowStore → RowStore × List (Str × Str)
unfolding on_table child_ids delete_all
cascade_tables [] parent_table parent_row_id hlc s = (s, [])
cascade_tables (name ∷ names) parent_table parent_row_id hlc s =
    let ids : List Str = elim (get_table name s) [
      | none ↦ []
      | some t ↦ child_ids parent_table parent_row_id t
    ] in
    let (s', deleted) =
      cascade_tables names parent_table parent_row_id hlc (on_table name (delete_all hlc ids) s) in
    (s', map (λ id. (name, id)) ids ++ deleted)

unfoldable pub cascade_delete : Str → Str → HlcTimestamp → RowStore → RowStore × List (Str × Str)
unfolding cascade_tables
cascade_delete parent_table parent_row_id hlc s =
    cascade_tables (keys s.tables) parent_table parent_row_id hlc s

unfoldable pub enforce_on_delete :
    FkPolicy → Str → Str → HlcTimestamp → RowStore → RowStore × List (Str × Str)
enforce_on_delete tombstone parent_table parent_row_id hlc s = (s, [])
enforce_on_delete cascade parent_table parent_row_id hlc s =
    cascade_delete parent_table parent_row_id hlc s
enforce_on_delete orphan parent_table parent_row_id hlc s = (s, [])

-- Why an insertion of a child is refused.
pub data FkError : Type 0 where
  no_table : Str → FkError
  no_parent : Str → Str → FkError

-- `none` is `Ok(())`.
unfoldable pub validate_insert : FkPolicy → RowStore → Str → Str → Option FkError
validate_insert policy s child_fk_value parent_table = elim (get_table parent_table s) [
  | none ↦ some (no_table parent_table)
  | some parent ↦ if exists_for_fk child_fk_value parent then none else elim policy [
    | tombstone ↦ some (no_parent child_fk_value parent_table)
    | cascade ↦ some (no_parent child_fk_value parent_table)
    | orphan ↦ none
  ]
]
