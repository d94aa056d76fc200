-- ===== src/Sql/Planner/Row.antt =====
-- src/sql/planner.rs: one row of an INSERT, its checks and its operations.
use conflict_free_oltp_v.Base.{
  Bool, not, ◌&&◌, Option, none, some, List, [], ◌∷◌, ◌++◌, map, any, find, zip, and_then,
  map_option, is_some, if◌then◌else◌, beq, list_ord, nat_ord, Bytes, Str, Result, ok, err, ◌>>=◌,
  ◌>>◌, ok_or,
}
use conflict_free_oltp_v.Utf8.{from_utf8_lossy}
use conflict_free_oltp_v.Crdt.Clocks.{HlcTimestamp}
use conflict_free_oltp_v.Crdt.Merge.{
  TableSchema, ColumnDef, ForeignKeyDef, Cells, CrdtOp, insert_row, reserve_unique,
  composite_key_name, composite_key_value,
}
use conflict_free_oltp_v.Storage.RowStore.{RowStore}
use conflict_free_oltp_v.Constraints.ForeignKeys.{FkPolicy, FkError, validate_insert}
use conflict_free_oltp_v.Sql.Values.{SqlValue, to_bytes_with_params}

pub data PlanError : Type 0 where
  table_not_found : Str → PlanError
  column_not_found : Str → Str → PlanError
  fk_violation : FkError → PlanError
  row_not_found : Str → PlanError
  no_primary_key : Str → PlanError
  null_constraint : Str → PlanError

-- The columns of a row are those named, or those of the schema in order.
unfoldable pub row_cells : TableSchema → List Str → List SqlValue → List SqlValue → Cells
unfolding to_bytes_with_params
row_cells schema columns params row_vals =
    let names : List Str = elim columns [
      | [] ↦ map (λ c. c.name) schema.columns
      | c ∷ cs ↦ c ∷ cs
    ] in
    map (λ p. (p.0, to_bytes_with_params params p.1)) (zip names row_vals)

-- `cells.iter().find(|(c, _)| c == col).and_then(|(_, v)| v.as_ref())`
unfoldable pub cell_value : Str → Cells → Option Bytes
cell_value column cells = and_then (find (λ c. beq c.0 column) cells) (λ c. c.1)

unfoldable pub check_foreign_keys :
    FkPolicy → RowStore → Cells → List ForeignKeyDef → Result PlanError (Unit {0})
unfolding cell_value
check_foreign_keys policy store cells [] = ok tt
check_foreign_keys policy store cells (fk ∷ fks) =
    let rest = check_foreign_keys policy store cells fks in
    elim (cell_value fk.column cells) [
      | none ↦ rest
      | some v ↦ elim (validate_insert policy store (from_utf8_lossy v) fk.ref_table) [
        | none ↦ rest
        | some e ↦ err (fk_violation e)
      ]
    ]

-- The column has a value among the cells.
abbrev pub has_val : Str → Cells → Bool
has_val column cells = any (λ c. beq c.0 column && is_some c.1) cells

unfoldable pub check_not_null : Cells → List ColumnDef → Result PlanError (Unit {0})
check_not_null cells [] = ok tt
check_not_null cells (c ∷ columns) =
    let rest = check_not_null cells columns in
    if c.not_null
      && not c.primary_key
      && (not (has_val c.name cells) && not (is_some c.default_value))
    then err (null_constraint c.name)
    else rest

-- A reservation for each unique column that has a value.
unfoldable pub reserve_columns : Str → Str → HlcTimestamp → Cells → List ColumnDef → List CrdtOp
unfolding cell_value
reserve_columns table row_id t cells [] = []
reserve_columns table row_id t cells (c ∷ columns) =
    let rest = reserve_columns table row_id t cells columns in
    if c.unique
    then elim (cell_value c.name cells) [
      | none ↦ rest
      | some v ↦ reserve_unique table c.name v row_id t ∷ rest
    ]
    else rest

unfoldable pub reserve_composites : Str → Str → HlcTimestamp → Cells → List (List Str) → List CrdtOp
unfolding composite_key_name composite_key_value
reserve_composites table row_id t cells [] = []
reserve_composites table row_id t cells (cols ∷ constraints) =
    let rest = reserve_composites table row_id t cells constraints in
    elim (composite_key_value cols cells) [
      | none ↦ rest
      | some v ↦ reserve_unique table (composite_key_name cols) v row_id t ∷ rest
    ]

-- The operations of a row that has passed the checks.
unfoldable pub row_ops : TableSchema → Str → Str → HlcTimestamp → Cells → List CrdtOp
unfolding reserve_columns reserve_composites
row_ops schema table row_id t cells =
    insert_row table row_id t cells
    ∷ (reserve_columns table row_id t cells schema.columns
        ++ reserve_composites table row_id t cells schema.composite_unique_constraints)

-- The row's id is the text of its primary key.
unfoldable pub plan_row :
    FkPolicy
    → RowStore
    → TableSchema
    → Str
    → Str
    → HlcTimestamp
    → Cells
    → Result PlanError (List CrdtOp)
unfolding cell_value check_foreign_keys check_not_null row_ops
plan_row policy store schema table pk_col t cells = do
  pk_val ←
      ok_or (column_not_found pk_col table) (map_option from_utf8_lossy (cell_value pk_col cells))
  check_foreign_keys policy store cells schema.foreign_keys
  check_not_null cells schema.columns
  ok (row_ops schema table pk_val t cells)
