-- ===== src/Engine/Reads.antt =====
-- What a query of an engine of src/api/engine.rs sees of its own INSERT and UPDATE.
use mathlib.Core.List.{append-nil}
use conflict_free_oltp_v.Base.{
  ℕ, ◌+◌, ◌<◌, Bool, true, false, any, Option, some, List, [], ◌∷◌, ◌++◌, map_option, length, ◌≡◌,
  refl, ap, ◌∙◌, arith, Bytes, Str, ok, Result-cases, u32_range, inl, inr, Bool-cases, Option-cases,
}
use conflict_free_oltp_v.Utf8.{from_utf8_lossy}
use conflict_free_oltp_v.Crdt.Clocks.Monotone.{current, tick-Later}
use conflict_free_oltp_v.Crdt.Clocks.{HlcTimestamp}
use conflict_free_oltp_v.Crdt.Merge.{TableSchema, ColumnDef, Cells, CrdtOp, primary_key_col}
use conflict_free_oltp_v.Storage.OpLog.{LogEntry}
use conflict_free_oltp_v.Storage.RowStore.{RowStore, TableState, get_table}
use conflict_free_oltp_v.Constraints.ForeignKeys.{FkPolicy}
use conflict_free_oltp_v.Storage.RowStore.Writes.{IsDistinct}
use conflict_free_oltp_v.Sql.Values.{SqlValue}
use conflict_free_oltp_v.Sql.Filter.{SqlExpr}
use conflict_free_oltp_v.Sql.Statement.{ParsedStatement}
use conflict_free_oltp_v.Sql.Planner.{
  Ticker, tick_now, matching_rows, assigned_cells, cell_value, row_cells, reserve_columns, row_ops,
  reserve_composites, update_ops, plan_update, plan_row, plan_rows, plan,
}
use conflict_free_oltp_v.Sql.Planner.Checks.{
  acceptable, plan_row-is_ok, plan_insert-rows, ops_of_plan_row,
}
use conflict_free_oltp_v.Sql.Planner.Matching.{selects, among-matching_rows}
use conflict_free_oltp_v.Sql.Planner.Writing.{
  IsUpdated, IsInserted, update_ops-IsUpdated, row_ops-IsInserted,
}
use conflict_free_oltp_v.Engine.Ahead.{IsAhead}
use conflict_free_oltp_v.Engine.Statements.{Session, execute_statement}
use conflict_free_oltp_v.Engine.Statements.Effects.{is_delete, execute_statement-planned}

any-append_false :
    (p : CrdtOp → Bool) (l m : List CrdtOp)
    → any p l ≡ false
    → any p m ≡ false
    → any p (l ++ m) ≡ false
any-append_false p [] m h k = k
any-append_false p (x ∷ l) m h k = ground (arith, any-append_false p l m)

-- No operation but a planned DELETE deletes.
module _ (table row_id : Str) (t : HlcTimestamp) (cells : Cells) where
  reserve_columns-is_delete :
      (columns : List ColumnDef)
      → any is_delete (reserve_columns table row_id t cells columns) ≡ false
  unfolding reserve_columns
  reserve_columns-is_delete [] = refl
  reserve_columns-is_delete (c ∷ columns) = elim (Bool-cases c.unique) [
    | inl unique ↦ elim (Option-cases (cell_value c.name cells)) [
      | inl missing ↦ ground (arith, reserve_columns-is_delete columns)
      | inr (v, at) ↦ ground (arith, reserve_columns-is_delete columns)
    ]
    | inr free ↦ ground (arith, reserve_columns-is_delete columns)
  ]

  reserve_composites-is_delete :
      (constraints : List (List Str))
      → any is_delete (reserve_composites table row_id t cells constraints) ≡ false
  unfolding reserve_composites
  reserve_composites-is_delete [] = refl
  reserve_composites-is_delete (c ∷ constraints) = reserve_composites-is_delete constraints

  row_ops-is_delete :
      (schema : TableSchema) → any is_delete (row_ops schema table row_id t cells) ≡ false
  unfolding row_ops
  row_ops-is_delete schema =
      any-append_false is_delete (reserve_columns table row_id t cells schema.columns)
        (reserve_composites table row_id t cells schema.composite_unique_constraints)
        (reserve_columns-is_delete schema.columns)
        (reserve_composites-is_delete schema.composite_unique_constraints)

update_ops-is_delete :
    (wall : ℕ → ℕ) (schema : TableSchema) (table : Str) (cells : Cells) (k : Ticker)
    (ids : List Str)
    → any is_delete (update_ops wall schema table cells k ids).1 ≡ false
unfolding update_ops
update_ops-is_delete wall schema table cells k [] = refl
update_ops-is_delete wall schema table cells k (id ∷ ids) =
    let (k', t) = tick_now wall k in
    any-append_false is_delete (reserve_columns table id t cells schema.columns)
      (update_ops wall schema table cells k' ids).1
      (reserve_columns-is_delete table id t cells schema.columns)
      (update_ops-is_delete wall schema table cells k' ids)

-- A plan of one row.
plan_rows-one :
    (wall : ℕ → ℕ) (policy : FkPolicy) (store : RowStore) (schema : TableSchema)
    (table pk_col : Str) (k : Ticker) (cells : Cells) (ops : List CrdtOp)
    → plan_row policy store schema table pk_col (tick_now wall k).1 cells ≡ ok ops
    → (plan_rows wall policy store schema table pk_col k (cells ∷ [])).1 ≡ ok ops
unfolding plan_rows
plan_rows-one wall policy store schema table pk_col k cells ops h =
    rw (h, plan_rows) (ap ok (append-nil ops))

abbrev pub ticker_of : Session → Ticker
ticker_of s = record { clock = s.engine.clock; readings = s.readings }

module _ (hash : LogEntry → Bytes) (wall : ℕ → ℕ) (s : Session) (ahead : IsAhead s.engine) where
  -- On an engine whose clock is ahead of its store and has room in u32, an UPDATE of a table with a
  -- primary key, with no column assigned twice, succeeds: every column of every visible row that
  -- the filter selects then holds what was assigned to it or what it held, and all other rows and
  -- the visibility of all rows are as before.
  pub update-reads :
      (table : Str) (assignments : List (Str × SqlValue)) (f : Option SqlExpr)
      (params : List SqlValue) (t : TableState) (pk_col : Str)
      → get_table table s.engine.store ≡ some t
      → primary_key_col t.schema ≡ some pk_col
      → IsDistinct (assigned_cells params assignments)
      → s.engine.clock.max_logical + length (matching_rows f t) < u32_range
      → (t' : TableState) × ((execute_statement hash wall
            (ParsedStatement.update table assignments f)
            params
            s).1
          ≡ ok tt)
        × (get_table table
              (execute_statement hash wall
                (ParsedStatement.update table assignments f)
                params
                s).0.engine.store
            ≡ some t')
        × IsUpdated (selects f t) (assigned_cells params assignments) t t'
  unfolding plan plan_update
  update-reads table assignments f params t pk_col here key distinct room =
      let cells = assigned_cells params assignments in
      let ids = matching_rows f t in
      let k = ticker_of s in
      let ops = (update_ops wall t.schema table cells k ids).1 in
      let (t', there, w) =
        update_ops-IsUpdated wall table cells distinct t.schema ids k s.engine.store t here
          (ahead table t here) room in
      let (done, store) =
        execute_statement-planned hash wall (ParsedStatement.update table assignments f) params s
          ops (ground (arith, update_ops-is_delete wall t.schema table cells k ids)) cc in
      (
        t',
        done,
        ap (get_table table) store ∙ there,
        record {
          values = λ x column. ground (arith, w.values x column, among-matching_rows x f t);
          membership = w.membership;
          schema = w.schema;
        },
      )

  -- On an engine whose clock is ahead of its store and has room in u32, an INSERT of one acceptable
  -- row with no column given twice, into a table with a primary key, succeeds: the row whose id is
  -- the text of its key becomes visible and holds the values given over those it held, and all
  -- other rows and their visibility are as before.
  pub insert-reads :
      (table : Str) (columns : List Str) (row : List SqlValue) (params : List SqlValue)
      (t : TableState) (pk_col : Str)
      → get_table table s.engine.store ≡ some t
      → primary_key_col t.schema ≡ some pk_col
      → acceptable s.engine.fk_resolver s.engine.store
          (row_cells t.schema columns params row)
          t.schema
          pk_col
        ≡ true
      → IsDistinct (row_cells t.schema columns params row)
      → s.engine.clock.max_logical + 1 < u32_range
      → (row_id : Str) × (t' : TableState) × (map_option from_utf8_lossy
            (cell_value pk_col (row_cells t.schema columns params row))
          ≡ some row_id)
        × ((execute_statement hash wall
              (ParsedStatement.insert table columns (row ∷ []))
              params
              s).1
            ≡ ok tt)
        × (get_table table
              (execute_statement hash wall
                (ParsedStatement.insert table columns (row ∷ []))
                params
                s).0.engine.store
            ≡ some t')
        × IsInserted row_id (row_cells t.schema columns params row) t t'
  unfolding plan
  insert-reads table columns row params t pk_col here key passes distinct room =
      let cells = row_cells t.schema columns params row in
      let k = ticker_of s in
      let (k', hlc) = tick_now wall k in
      elim (Result-cases
        (plan_row s.engine.fk_resolver s.engine.store t.schema table pk_col hlc cells)) [
          | inr (e, failed) ↦ absurd (
              ground (
                arith,
                plan_row-is_ok s.engine.fk_resolver s.engine.store cells t.schema table pk_col hlc,
              ))
          | inl (ops, planned) ↦
              let (row_id, named, made) =
                ops_of_plan_row s.engine.fk_resolver s.engine.store t.schema table pk_col hlc cells
                  ops planned in
              let (t', there, w) =
                row_ops-IsInserted (current k.clock) hlc
                  (tick-Later k.clock (wall k.readings) room).0 t.schema table row_id cells
                  s.engine.store t distinct here (ahead table t here) in
              let (done, store) =
                execute_statement-planned hash wall
                  (ParsedStatement.insert table columns (row ∷ [])) params s
                  (row_ops t.schema table row_id hlc cells)
                  (ground (arith, row_ops-is_delete table row_id hlc cells t.schema))
                  (ap (λ r. r.1)
                      (plan_insert-rows wall s.engine.fk_resolver s.engine.store table columns
                        (row ∷ []) params k t pk_col here key)
                    ∙ plan_rows-one wall s.engine.fk_resolver s.engine.store t.schema table pk_col k
                        cells (row_ops t.schema table row_id hlc cells) (planned ∙ ap ok made)) in
              (row_id, t', named, done, ap (get_table table) store ∙ there, w)
        ]
