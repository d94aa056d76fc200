-- ===== src/Sql/Executor.antt =====
-- src/sql/executor.rs: SELECT on the visible rows of a table.
pub mod Selection
pub mod Columns
mod Tests
use conflict_free_oltp_v.Base.{
  ℕ, ◌+◌, ◌*◌, Bool, true, false, Option, none, some, List, [], ◌∷◌, map, filter, length, leb, take,
  get_elem?, position, and_then, unwrap_or, Ord, Ordering, reverse, then, beq, option_ord, list_ord,
  nat_ord, Bytes, Str, ℤ, i64_of_bits, Result, ok, err, ◌>>=◌, ok_or,
}
use conflict_free_oltp_v.Sort.Comparator.{sort_with}
use conflict_free_oltp_v.Utf8.{from_utf8_lossy}
use conflict_free_oltp_v.Crdt.Merge.{TableSchema, primary_key_col}
use conflict_free_oltp_v.Storage.RowStore.{
  CrdtRow, RowStore, TableState, get_table, read_cell, visible_rows,
}
use conflict_free_oltp_v.Sql.Filter.{SqlExpr, matches}
use conflict_free_oltp_v.Sql.Statement.{ParsedStatement, SelectColumns}

pub record ResultRow : Type 0 where
  pub columns : List Str
  pub values : List (Option Bytes)

-- The value of the first column of the name.
unfoldable pub get : Str → ResultRow → Option Bytes
get column r =
    and_then (and_then (position (λ c. beq c column) r.columns) (get_elem? r.values)) (λ v. v)

-- `std::str::from_utf8`: bytes that the lossy conversion keeps.
unfoldable pub get_str : Str → ResultRow → Option Str
unfolding get
get_str column r =
    and_then (get column r) (λ b. elim (beq (from_utf8_lossy b) b) [ true ↦ some b | false ↦ none ])

unfoldable pub from_le_bytes : Bytes → ℕ
from_le_bytes [] = 0
from_le_bytes (b ∷ l) = b + 256 * from_le_bytes l

unfoldable pub get_i64 : Str → ResultRow → Option ℤ
unfolding get from_le_bytes
get_i64 column r = and_then (get column r) (λ b. elim (leb 8 (length b)) [
  | true ↦ some (i64_of_bits (from_le_bytes (take 8 b)))
  | false ↦ none
])

pub data SelectError : Type 0 where
  not_a_select : SelectError
  no_such_table : Str → SelectError

unfoldable pub build_result_row : List Str → CrdtRow → ResultRow
build_result_row columns row = record {
  columns = columns;
  values = map (λ c. read_cell c row) columns;
}

-- Ascending, or descending.
abbrev pub directed : Bool → Ordering → Ordering
directed true o = o
directed false o = reverse o

-- Column by column, then by the first value.
unfoldable pub compare_rows : List (Str × Bool) → ResultRow → ResultRow → Ordering
unfolding get list_ord
compare_rows [] a b =
    let o : Ord (Option (Option Bytes)) = option_ord in
    o.cmp (get_elem? a.values 0) (get_elem? b.values 0)
compare_rows ((column, asc) ∷ order_by) a b =
    then (directed asc (option_ord.cmp (get column a) (get column b))) (compare_rows order_by a b)

-- The column by which rows come that no ORDER BY sorts.
unfoldable pub default_column : TableSchema → List Str → Str
unfolding primary_key_col
default_column schema columns =
    unwrap_or (unwrap_or [] (get_elem? columns 0)) (primary_key_col schema)

-- The order of the result.
unfoldable pub row_order :
    TableSchema → List Str → List (Str × Bool) → ResultRow → ResultRow → Ordering
unfolding compare_rows default_column
row_order schema columns [] a b =
    option_ord.cmp (get (default_column schema columns) a) (get (default_column schema columns) b)
row_order schema columns (o ∷ order_by) a b = compare_rows (o ∷ order_by) a b

abbrev pub output_columns : TableSchema → SelectColumns → List Str
output_columns schema SelectColumns.all = map (λ c. c.name) schema.columns
output_columns schema (SelectColumns.named columns) = columns

-- The rows of a table that the filter selects, in the order that was asked for.
unfoldable pub select_rows :
    TableState → SelectColumns → Option SqlExpr → List (Str × Bool) → List ResultRow
unfolding build_result_row matches row_order
select_rows t selector f order_by =
    let columns = output_columns t.schema selector in
    sort_with (row_order t.schema columns order_by)
      (map (λ r. build_result_row columns r.1) (filter (λ r. matches f r.1) (visible_rows t)))

unfoldable pub execute_select : ParsedStatement → RowStore → Result SelectError (List ResultRow)
unfolding select_rows
execute_select (ParsedStatement.select table selector f order_by) s = do
  t ← ok_or (no_such_table table) (get_table table s)
  ok (select_rows t selector f order_by)
execute_select (ParsedStatement.create_table schema) s = err not_a_select
execute_select (ParsedStatement.create_index name table columns) s = err not_a_select
execute_select (ParsedStatement.insert table columns values) s = err not_a_select
execute_select (ParsedStatement.update table assignments f) s = err not_a_select
execute_select (ParsedStatement.delete table f) s = err not_a_select
