-- ===== src/Sql/Executor/Tests.antt =====
-- SELECT on a table of two rows, and the bytes of integers.
use conflict_free_oltp_v.Base.{
  ℕ, Bool, true, false, ◌&&◌, none, some, List, [], ◌∷◌, map, filter, length, ◌≡◌, refl, arith, Str,
  str, ok, ℤ, pos, negsuc, i64_bits, list_ord, nat_ord, option_ord,
}
use conflict_free_oltp_v.BTree.{computes, insert, empty}
use conflict_free_oltp_v.Crdt.Clocks.{HlcTimestamp}
use conflict_free_oltp_v.Crdt.Merge.{TableSchema, ColumnType, Cells}
use conflict_free_oltp_v.Crdt.MvRegister
use conflict_free_oltp_v.Storage.Snapshots.{le_bytes}
use conflict_free_oltp_v.Storage.RowStore.{
  CrdtRow, RowStore, TableState, get_table, no_row, new_table, insert_table_row, visible_rows,
  write_cell, write_cells, read_cell,
}
use conflict_free_oltp_v.Sql.Values.{SqlValue, to_bytes}
use conflict_free_oltp_v.Sql.Filter.{SqlExpr, evaluate, matches}
use conflict_free_oltp_v.Sql.Statement.{ParsedStatement, SelectColumns}
use conflict_free_oltp_v.Sql.Executor.{get_i64, build_result_row, output_columns, execute_select}
use conflict_free_oltp_v.Sql.Executor.Selection.{InOrder, IsChain, execute_select-InOrder}
use conflict_free_oltp_v.Sql.Executor.Columns.{get_i64-build_result_row}

abbrev users : TableSchema
users = record {
  name = str "users";
  columns =
      record {
        name = str "id";
        col_type = ColumnType.text;
        not_null = true;
        default_value = none;
        primary_key = true;
        unique = false;
      }
      ∷ record {
        name = str "age";
        col_type = ColumnType.integer;
        not_null = false;
        default_value = none;
        primary_key = false;
        unique = false;
      }
      ∷ [];
  foreign_keys = [];
  indexes = [];
  composite_unique_constraints = [];
}

abbrev stamp : ℕ → HlcTimestamp
stamp n = record { wall_ms = n; logical = 0; peer_id = str "a" }

abbrev user : Str → ℤ → Cells
user id age = (str "id", some id) ∷ (str "age", to_bytes (SqlValue.integer age)) ∷ []

abbrev t : TableState
t =
    insert_table_row (str "u2") (stamp 2) (user (str "u2") (pos 256))
      (insert_table_row (str "u1") (stamp 1) (user (str "u1") (pos 2)) (new_table users))

abbrev s : RowStore
s = record { tables = insert (str "users") t empty }

here : get_table (str "users") s ≡ some t
unfolding computes
here = refl

-- ORDER BY age DESC
abbrev by_age : List (Str × Bool)
by_age = (str "age", false) ∷ []

execute_select-InOrder_example :
    (chosen : List (Str × CrdtRow)) × (execute_select
        (ParsedStatement.select (str "users") SelectColumns.all none by_age)
        s
      ≡ ok (map (λ r. build_result_row (output_columns t.schema SelectColumns.all) r.1) chosen))
    × IsChain
        (λ a b. InOrder t.schema (output_columns t.schema SelectColumns.all) by_age a.1 b.1)
        chosen
    × ((p : Str × CrdtRow → Bool)
        → length (filter p chosen)
          ≡ length (filter (λ r. matches none r.1 && p r) (visible_rows t)))
execute_select-InOrder_example =
    execute_select-InOrder s (str "users") t SelectColumns.all none by_age here

abbrev row : CrdtRow
row = write_cells (stamp 1) (user (str "u1") (negsuc 6)) no_row

row_age : read_cell (str "age") row ≡ to_bytes (SqlValue.integer (negsuc 6))
unfolding write_cells write_cell read_cell MvRegister.write MvRegister.read MvRegister.new computes
row_age = refl

get_i64-build_result_row_example :
    get_i64 (str "age") (build_result_row (str "id" ∷ str "age" ∷ []) row) ≡ some (negsuc 6)
get_i64-build_result_row_example =
    get_i64-build_result_row (str "age") (str "id" ∷ str "age" ∷ []) row (negsuc 6)
      (unfold list_ord in refl) (omega arith) row_age

-- 256 is below 2 byte by byte.
bytes_of_256 :
    evaluate
      (λ c. to_bytes (SqlValue.integer (pos 256)))
      (SqlExpr.lt (str "age") (SqlValue.integer (pos 2)))
    ≡ true
unfolding evaluate le_bytes i64_bits list_ord
bytes_of_256 = refl
