-- ===== src/Engine/Tests/Sql.antt =====
-- SQL on an engine with one table of one row.
use conflict_free_oltp_v.Base.{
  ℕ, ◌+◌, ◌<◌, ◌≤◌, Bool, true, false, Option, none, some, List, [], ◌∷◌, ◌++◌, length, map_option,
  ◌≡◌, refl, arith, Bytes, Str, str, ok, u32_range, list_ord, nat_ord,
}
use conflict_free_oltp_v.BTree.{computes}
use conflict_free_oltp_v.BTree.Each.{Each-empty}
use conflict_free_oltp_v.Crdt.Clocks.{HlcTimestamp, new_clock, observe}
use conflict_free_oltp_v.Crdt.Clocks.Monotone.{current}
use conflict_free_oltp_v.Crdt.Merge.{
  TableSchema, ColumnType, Cells, CrdtOp, create_table, insert_row, delete_row, primary_key_col,
}
use conflict_free_oltp_v.Crdt.OrSet
use conflict_free_oltp_v.Storage.OpLog.{LogEntry}
use conflict_free_oltp_v.Storage.RowStore.{
  TableState, get_table, new_table, insert_table_row, apply_op, create, visible_rows, write_cell,
  write_cells, read_cell,
}
use conflict_free_oltp_v.Storage.RowStore.Behind.{TableBehind}
use conflict_free_oltp_v.Constraints.ForeignKeys.{tombstone}
use conflict_free_oltp_v.Sql.Values.{SqlValue}
use conflict_free_oltp_v.Sql.Filter.{SqlExpr}
use conflict_free_oltp_v.Sql.Statement.{ParsedStatement, SelectColumns}
use conflict_free_oltp_v.Sql.Planner.{matching_rows, assigned_cells, row_cells, cell_value}
use conflict_free_oltp_v.Sql.Planner.Matching.{selects}
use conflict_free_oltp_v.Sql.Planner.Checks.{acceptable}
use conflict_free_oltp_v.Sql.Planner.Deletion.{IsWithout}
use conflict_free_oltp_v.Sql.Planner.Writing.{IsUpdated, IsInserted}
use conflict_free_oltp_v.Sql.Executor.{execute_select}
use conflict_free_oltp_v.Engine.Statements.Effects.{cascades, delete-select}
use conflict_free_oltp_v.Engine.Reads.{update-reads, insert-reads}
use conflict_free_oltp_v.Utf8.{from_utf8_lossy}
use conflict_free_oltp_v.Storage.RowStore.Writes.{IsDistinct}
use conflict_free_oltp_v.Crdt.MvRegister
use conflict_free_oltp_v.Engine.State.{open_with_policy, apply}
use conflict_free_oltp_v.Engine.Ahead.{IsAhead, apply_ops-IsAhead}
use conflict_free_oltp_v.Engine.Statements.{Session, apply_ops, execute_statement}

abbrev hash : LogEntry → Bytes
hash e = []

abbrev wall : ℕ → ℕ
wall n = 100 + n

abbrev users : TableSchema
users = record {
  name = str "users";
  columns =
      record {
        name = str "id";
        col_type = ColumnType.text;
        not_null = true;
        default_value = none;
        primary_key = true;
        unique = false;
      }
      ∷ record {
        name = str "name";
        col_type = ColumnType.text;
        not_null = true;
        default_value = none;
        primary_key = false;
        unique = false;
      }
      ∷ [];
  foreign_keys = [];
  indexes = [];
  composite_unique_constraints = [];
}

abbrev stamp : ℕ → HlcTimestamp
stamp n = record { wall_ms = n; logical = 0; peer_id = str "b" }

abbrev ada : Cells
ada = (str "id", some (str "u1")) ∷ (str "name", some (str "Ada")) ∷ []

-- What another peer did.
abbrev received : List CrdtOp
received =
    create_table (str "users") users (stamp 50)
    ∷ insert_row (str "users") (str "u1") (stamp 60) ada
    ∷ []

abbrev opened : Session
opened = record { engine = open_with_policy (str "a") tombstone; readings = 0 }

opened-IsAhead : IsAhead opened.engine
unfolding open_with_policy
opened-IsAhead = Each-empty (λ name t. TableBehind (current opened.engine.clock) t)

opened_clock : opened.engine.clock.max_logical ≤ 0
unfolding open_with_policy new_clock
opened_clock = omega arith

-- And a deletion with a tombstone.
abbrev deleted_too : List CrdtOp
deleted_too = received ++ delete_row (str "users") (str "u1") (stamp 70) true ∷ []

apply_ops-IsAhead_example : IsAhead (apply_ops hash wall deleted_too opened).engine
apply_ops-IsAhead_example =
    apply_ops-IsAhead hash wall deleted_too opened 0 opened_clock (omega arith) (omega arith)
      opened-IsAhead

-- The engine after it has received them.
abbrev session : Session
session = apply_ops hash wall received opened

abbrev t : TableState
t = insert_table_row (str "u1") (stamp 60) ada (new_table users)

here : get_table (str "users") session.engine.store ≡ some t
unfolding apply_ops apply apply_op create insert_table_row open_with_policy computes
here = refl

key : primary_key_col t.schema ≡ some (str "id")
unfolding insert_table_row primary_key_col
key = refl

all_rows : matching_rows none t ≡ str "u1" ∷ []
unfolding matching_rows visible_rows insert_table_row computes OrSet.visible_rows OrSet.insert_row
    OrSet.is_live
all_rows = refl

session-IsAhead : IsAhead session.engine
session-IsAhead =
    apply_ops-IsAhead hash wall received opened 0 opened_clock (omega arith) (omega arith)
      opened-IsAhead

session_clock : session.engine.clock.max_logical + 1 < u32_range
unfolding apply_ops apply open_with_policy new_clock observe
session_clock = omega arith

-- UPDATE users SET name = 'Eva'
abbrev renamed : List (Str × SqlValue)
renamed = (str "name", SqlValue.text (str "Eva")) ∷ []

renamed-IsDistinct : IsDistinct (assigned_cells [] renamed)
unfolding assigned_cells
renamed-IsDistinct = (refl, tt)

update_room : session.engine.clock.max_logical + length (matching_rows none t) < u32_range
update_room = rw all_rows session_clock

update-reads_example :
    (t' : TableState) × ((execute_statement hash wall
        (ParsedStatement.update (str "users") renamed none)
        []
        session).1
      ≡ ok tt)
    × (get_table
          (str "users")
          (execute_statement hash wall
            (ParsedStatement.update (str "users") renamed none)
            []
            session).0.engine.store
        ≡ some t')
    × IsUpdated (selects none t) (assigned_cells [] renamed) t t'
update-reads_example =
    update-reads hash wall session session-IsAhead (str "users") renamed none [] t (str "id") here
      key renamed-IsDistinct update_room

-- INSERT INTO users VALUES ('u2', 'Bob')
abbrev bob : List SqlValue
bob = SqlValue.text (str "u2") ∷ SqlValue.text (str "Bob") ∷ []

bob_passes :
    acceptable session.engine.fk_resolver session.engine.store
      (row_cells t.schema [] [] bob)
      t.schema
      (str "id")
    ≡ true
unfolding row_cells cell_value insert_table_row list_ord
bob_passes = refl

bob-IsDistinct : IsDistinct (row_cells t.schema [] [] bob)
unfolding row_cells insert_table_row list_ord
bob-IsDistinct = (refl, (refl, tt))

insert-reads_example :
    (row_id : Str) × (t' : TableState) × (map_option from_utf8_lossy
        (cell_value (str "id") (row_cells t.schema [] [] bob))
      ≡ some row_id)
    × ((execute_statement hash wall
          (ParsedStatement.insert (str "users") [] (bob ∷ []))
          []
          session).1
        ≡ ok tt)
    × (get_table
          (str "users")
          (execute_statement hash wall
            (ParsedStatement.insert (str "users") [] (bob ∷ []))
            []
            session).0.engine.store
        ≡ some t')
    × IsInserted row_id (row_cells t.schema [] [] bob) t t'
insert-reads_example =
    insert-reads hash wall session session-IsAhead (str "users") [] bob [] t (str "id") here key
      bob_passes bob-IsDistinct session_clock

-- DELETE FROM users WHERE name = 'Ada'
abbrev is_ada : Option SqlExpr
is_ada = some (SqlExpr.eq (str "name") (SqlValue.text (str "Ada")))

ada_only : matching_rows is_ada t ≡ str "u1" ∷ []
unfolding matching_rows visible_rows insert_table_row computes OrSet.visible_rows OrSet.insert_row
    OrSet.is_live write_cells read_cell MvRegister.write MvRegister.read MvRegister.new write_cell
ada_only = refl

session_policy : cascades session.engine.fk_policy ≡ false
unfolding apply_ops apply open_with_policy
session_policy = refl

delete-select_example :
    (t' : TableState) × ((execute_statement hash wall
        (ParsedStatement.delete (str "users") is_ada)
        []
        session).1
      ≡ ok tt)
    × (get_table
          (str "users")
          (execute_statement hash wall
            (ParsedStatement.delete (str "users") is_ada)
            []
            session).0.engine.store
        ≡ some t')
    × IsWithout (selects is_ada t) t t'
    × ((selector : SelectColumns) (order_by : List (Str × Bool))
        → execute_select
            (ParsedStatement.select (str "users") selector is_ada order_by)
            (execute_statement hash wall
              (ParsedStatement.delete (str "users") is_ada)
              []
              session).0.engine.store
          ≡ ok [])
delete-select_example =
    delete-select hash wall session (str "users") is_ada [] t session_policy here
