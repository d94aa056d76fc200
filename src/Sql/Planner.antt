-- ===== src/Sql/Planner.antt =====
-- src/sql/planner.rs: from a statement to operations. The clock is threaded through, beside the
-- number of times that the wall clock has been read.
mod Row
pub mod Checks
pub mod Stamps
pub mod Writing
pub mod Matching
pub mod Deletion
mod Tests
unfoldable pub use Row.*
use conflict_free_oltp_v.Base.{
  ℕ, ◌+◌, Bool, true, false, not, ◌&&◌, Option, none, some, List, [], ◌∷◌, ◌++◌, map, filter, any,
  find, zip, and_then, map_option, is_some, if◌then◌else◌, beq, list_ord, nat_ord, Bytes, Str,
  Result, ok, err, ◌>>=◌, ◌>>◌, ok_or, map_ok,
}
use conflict_free_oltp_v.Utf8.{from_utf8_lossy}
use conflict_free_oltp_v.Crdt.Clocks.{HlcTimestamp, HlcClock, tick}
use conflict_free_oltp_v.Crdt.Merge.{
  TableSchema, ColumnDef, ForeignKeyDef, Cells, CrdtOp, insert_row, update_cells, delete_row,
  reserve_unique, primary_key_col, composite_key_name, composite_key_value,
}
use conflict_free_oltp_v.Storage.RowStore.{RowStore, TableState, get_table, visible_rows}
use conflict_free_oltp_v.Constraints.ForeignKeys.{
  FkPolicy, tombstone, cascade, orphan, FkError, validate_insert,
}
use conflict_free_oltp_v.Sql.Values.{SqlValue, to_bytes_with_params}
use conflict_free_oltp_v.Sql.Filter.{SqlExpr, matches}
use conflict_free_oltp_v.Sql.Statement.{ParsedStatement}
use conflict_free_oltp_v.Sql.Planner.Row.{
  PlanError, table_not_found, no_primary_key, row_cells, plan_row, reserve_columns,
}

-- The clock of a peer, and how often the wall clock has been read.
pub record Ticker : Type 0 where
  pub clock : HlcClock
  pub readings : ℕ

unfoldable pub tick_now : (ℕ → ℕ) → Ticker → Ticker × HlcTimestamp
unfolding tick
tick_now wall k =
    let (clock, t) = tick k.clock (wall k.readings) in
    (record { clock = clock; readings = k.readings + 1 }, t)

-- The ids of the visible rows that the filter selects.
unfoldable pub matching_rows : Option SqlExpr → TableState → List Str
unfolding matches
matching_rows f t = map (λ r. r.0) (filter (λ r. matches f r.1) (visible_rows t))

-- One tick for each row.
unfoldable pub update_ops :
    (ℕ → ℕ) → TableSchema → Str → Cells → Ticker → List Str → Ticker × List CrdtOp
unfolding tick_now reserve_columns
update_ops wall schema table cells k [] = (k, [])
update_ops wall schema table cells k (row_id ∷ ids) =
    let (k', t) = tick_now wall k in
    let (after, rest) = update_ops wall schema table cells k' ids in
    (
      after,
      update_cells table row_id t cells
          ∷ (reserve_columns table row_id t cells schema.columns ++ rest),
    )

abbrev pub is_tombstone : FkPolicy → Bool
is_tombstone tombstone = true
is_tombstone cascade = false
is_tombstone orphan = false

unfoldable pub delete_ops : (ℕ → ℕ) → Str → Bool → Ticker → List Str → Ticker × List CrdtOp
unfolding tick_now
delete_ops wall table fk_tombstone k [] = (k, [])
delete_ops wall table fk_tombstone k (row_id ∷ ids) =
    let (k', t) = tick_now wall k in
    let (after, rest) = delete_ops wall table fk_tombstone k' ids in
    (after, delete_row table row_id t fk_tombstone ∷ rest)

-- The cells that the assignments write.
unfoldable pub assigned_cells : List SqlValue → List (Str × SqlValue) → Cells
unfolding to_bytes_with_params
assigned_cells params assignments = map (λ a. (a.0, to_bytes_with_params params a.1)) assignments

module _ (wall : ℕ → ℕ) (policy : FkPolicy) (store : RowStore) where
  -- Each row ticks the clock before it is checked.
  unfoldable pub plan_rows :
      TableSchema → Str → Str → Ticker → List Cells → Ticker × Result PlanError (List CrdtOp)
  unfolding tick_now plan_row
  plan_rows schema table pk_col k [] = (k, ok [])
  plan_rows schema table pk_col k (cells ∷ rows) =
      let (k', t) = tick_now wall k in
      elim (plan_row policy store schema table pk_col t cells) [
        | err e ↦ (k', err e)
        | ok ops ↦
            let (after, rest) = plan_rows schema table pk_col k' rows in
            (after, map_ok (λ more. ops ++ more) rest)
      ]

  unfoldable pub plan_insert :
      Str
      → List Str
      → List (List SqlValue)
      → List SqlValue
      → Ticker
      → Ticker × Result PlanError (List CrdtOp)
  unfolding plan_rows row_cells
  plan_insert table columns values params k = elim (get_table table store) [
    | none ↦ (k, err (table_not_found table))
    | some t ↦ elim (primary_key_col t.schema) [
      | none ↦ (k, err (no_primary_key table))
      | some pk_col ↦
          plan_rows t.schema table pk_col k (map (row_cells t.schema columns params) values)
    ]
  ]

  unfoldable pub plan_update :
      Str
      → List (Str × SqlValue)
      → Option SqlExpr
      → List SqlValue
      → Ticker
      → Ticker × Result PlanError (List CrdtOp)
  unfolding matching_rows update_ops assigned_cells
  plan_update table assignments f params k = elim (get_table table store) [
    | none ↦ (k, err (table_not_found table))
    | some t ↦ elim (primary_key_col t.schema) [
      | none ↦ (k, err (no_primary_key table))
      | some pk_col ↦
          let cells = assigned_cells params assignments in
          let (k', ops) = update_ops wall t.schema table cells k (matching_rows f t) in (k', ok ops)
    ]
  ]

  unfoldable pub plan_delete :
      Str → Option SqlExpr → Ticker → Ticker × Result PlanError (List CrdtOp)
  unfolding matching_rows delete_ops
  plan_delete table f k = elim (get_table table store) [
    | none ↦ (k, err (table_not_found table))
    | some t ↦
        let (k', ops) = delete_ops wall table (is_tombstone policy) k (matching_rows f t) in
        (k', ok ops)
  ]

  unfoldable pub plan :
      ParsedStatement → List SqlValue → Ticker → Ticker × Result PlanError (List CrdtOp)
  unfolding plan_insert plan_update plan_delete
  plan (ParsedStatement.create_table schema) params k =
      let (k', t) = tick_now wall k in (k', ok (CrdtOp.create_table schema.name schema t ∷ []))
  plan (ParsedStatement.create_index index_name table columns) params k = (k, ok [])
  plan (ParsedStatement.insert table columns values) params k =
      plan_insert table columns values params k
  plan (ParsedStatement.update table assignments f) params k =
      plan_update table assignments f params k
  plan (ParsedStatement.delete table f) params k = plan_delete table f k
  plan (ParsedStatement.select table columns f order_by) params k = (k, ok [])
