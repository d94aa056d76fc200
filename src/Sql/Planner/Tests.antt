-- ===== src/Sql/Planner/Tests.antt =====
-- INSERT of two rows through src/sql/planner.rs.
use conflict_free_oltp_v.Base.{
  ℕ, ◌+◌, ◌<◌, u32_range, true, false, none, some, List, [], ◌∷◌, all, length, ◌≡◌, refl, arith,
  Str, str, ok, is_ok, list_ord, nat_ord,
}
use conflict_free_oltp_v.BTree.{computes, insert, empty}
use conflict_free_oltp_v.Crdt.Clocks.{HlcTimestamp, new_clock}
use conflict_free_oltp_v.Crdt.Clocks.Monotone.{current, Ascends}
use conflict_free_oltp_v.Crdt.Merge.{
  TableSchema, ColumnType, CrdtOp, primary_key_col, insert_row, reserve_unique,
}
use conflict_free_oltp_v.Storage.RowStore.{RowStore, TableState, get_table, new_table}
use conflict_free_oltp_v.Constraints.ForeignKeys.{tombstone}
use conflict_free_oltp_v.Utf8.{from_utf8_lossy}
use conflict_free_oltp_v.Sql.Values.{SqlValue}
use conflict_free_oltp_v.Sql.Planner.{Ticker, row_cells, plan_insert}
use conflict_free_oltp_v.Sql.Planner.Checks.{acceptable, plan_insert-is_ok}
use conflict_free_oltp_v.Sql.Planner.Stamps.{insert_stamps, plan_insert-Ascends}

abbrev users : TableSchema
users = record {
  name = str "users";
  columns =
      record {
        name = str "id";
        col_type = ColumnType.text;
        not_null = true;
        default_value = none;
        primary_key = true;
        unique = false;
      }
      ∷ record {
        name = str "mail";
        col_type = ColumnType.text;
        not_null = true;
        default_value = none;
        primary_key = false;
        unique = true;
      }
      ∷ [];
  foreign_keys = [];
  indexes = [];
  composite_unique_constraints = [];
}

abbrev t : TableState
t = new_table users

abbrev s : RowStore
s = record { tables = insert (str "users") t empty }

here : get_table (str "users") s ≡ some t
unfolding computes
here = refl

key : primary_key_col t.schema ≡ some (str "id")
unfolding primary_key_col
key = refl

abbrev wall : ℕ → ℕ
wall n = 100

abbrev k : Ticker
k = record { clock = new_clock (str "a"); readings = 0 }

abbrev user : Str → SqlValue → List SqlValue
user id mail = SqlValue.text id ∷ mail ∷ []

-- The second row has no mail address.
abbrev one_bad : List (List SqlValue)
one_bad = user (str "u1") (SqlValue.text (str "x")) ∷ user (str "u2") SqlValue.null ∷ []

plan_insert-is_ok_example :
    is_ok (plan_insert wall tombstone s (str "users") [] one_bad [] k).1
    ≡ all (λ row. acceptable tombstone s (row_cells t.schema [] [] row) t.schema (str "id")) one_bad
plan_insert-is_ok_example =
    plan_insert-is_ok wall tombstone s (str "users") [] one_bad [] k t (str "id") here key

abbrev both : List (List SqlValue)
both = user (str "u1") (SqlValue.text (str "x")) ∷ user (str "u2") (SqlValue.text (str "y")) ∷ []

-- The operations of both rows.
abbrev row_ops_at : ℕ → Str → Str → List CrdtOp → List CrdtOp
row_ops_at logical id mail more =
    let hlc : HlcTimestamp = record { wall_ms = 100; logical = logical; peer_id = str "a" } in
    insert_row (str "users") id hlc ((str "id", some id) ∷ (str "mail", some mail) ∷ [])
    ∷ reserve_unique (str "users") (str "mail") mail id hlc
    ∷ more

abbrev planned : List CrdtOp
planned = row_ops_at 0 (str "u1") (str "x") (row_ops_at 1 (str "u2") (str "y") [])

two_rows : (plan_insert wall tombstone s (str "users") [] both [] k).1 ≡ ok planned
unfolding plan_insert computes new_clock primary_key_col from_utf8_lossy
two_rows = refl

clock_room : k.clock.max_logical + length both < u32_range
unfolding new_clock
clock_room = omega arith

plan_insert-Ascends_example :
    Ascends (current k.clock) (insert_stamps planned)
    × (length (insert_stamps planned) ≡ length both)
plan_insert-Ascends_example =
    plan_insert-Ascends wall tombstone s (str "users") [] both [] k t (str "id") planned here key
      clock_room two_rows
