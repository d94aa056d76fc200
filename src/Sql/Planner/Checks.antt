-- ===== src/Sql/Planner/Checks.antt =====
-- The checks of src/sql/planner.rs on the rows of an INSERT.
use conflict_free_oltp_v.Base.{
  ℕ, Bool, true, false, not, ◌&&◌, ◌||◌, none, some, List, [], ◌∷◌, ◌++◌, map, all, is_some,
  map_option, ◌≡◌, refl, ap, ◌∙◌, arith, Str, ok, is_ok, Result-cases, Option-cases, inl, inr,
}
use conflict_free_oltp_v.Utf8.{from_utf8_lossy}
use conflict_free_oltp_v.Crdt.Clocks.{HlcTimestamp}
use conflict_free_oltp_v.Crdt.Merge.{
  TableSchema, ColumnDef, ForeignKeyDef, Cells, CrdtOp, primary_key_col,
}
use conflict_free_oltp_v.Storage.RowStore.{RowStore, TableState, get_table, exists_for_fk}
use conflict_free_oltp_v.Constraints.ForeignKeys.{
  FkPolicy, tombstone, cascade, orphan, validate_insert,
}
use conflict_free_oltp_v.Sql.Values.{SqlValue}
use conflict_free_oltp_v.Sql.Planner.{
  Ticker, tick_now, row_cells, cell_value, has_val, check_foreign_keys, check_not_null, row_ops,
  plan_row, plan_rows, plan_insert,
}

-- Only the orphan policy lets a missing parent pass.
abbrev pub lenient : FkPolicy → Bool
lenient orphan = true
lenient tombstone = false
lenient cascade = false

module _ (policy : FkPolicy) (store : RowStore) (cells : Cells) where
  -- The parent's table is there, and the parent in it unless the policy is lenient; a null refers
  -- to nothing.
  abbrev pub refers_well : ForeignKeyDef → Bool
  refers_well fk = elim (cell_value fk.column cells) [
    | none ↦ true
    | some v ↦ elim (get_table fk.ref_table store) [
      | none ↦ false
      | some parent ↦ exists_for_fk (from_utf8_lossy v) parent || lenient policy
    ]
  ]

  -- A NOT NULL column but the key has a value or a default.
  abbrev pub filled : ColumnDef → Bool
  filled c = not c.not_null || (c.primary_key || (has_val c.name cells || is_some c.default_value))

  -- A row that an INSERT accepts.
  abbrev pub acceptable : TableSchema → Str → Bool
  acceptable schema pk_col =
      is_some (cell_value pk_col cells)
      && (all refers_well schema.foreign_keys && all filled schema.columns)

  check_foreign_keys-is_ok :
      (fks : List ForeignKeyDef)
      → is_ok (check_foreign_keys policy store cells fks) ≡ all refers_well fks
  unfolding check_foreign_keys validate_insert
  check_foreign_keys-is_ok [] = refl
  check_foreign_keys-is_ok (fk ∷ fks) = ground (arith, check_foreign_keys-is_ok fks)

  check_not_null-is_ok :
      (columns : List ColumnDef) → is_ok (check_not_null cells columns) ≡ all filled columns
  unfolding check_not_null
  check_not_null-is_ok [] = refl
  check_not_null-is_ok (c ∷ columns) = ground (arith, check_not_null-is_ok columns)

  pub plan_row-is_ok :
      (schema : TableSchema) (table pk_col : Str) (t : HlcTimestamp)
      → is_ok (plan_row policy store schema table pk_col t cells) ≡ acceptable schema pk_col
  unfolding plan_row
  plan_row-is_ok schema table pk_col t =
      ground
        (arith, check_foreign_keys-is_ok schema.foreign_keys, check_not_null-is_ok schema.columns)

-- The operations of an accepted row, whose id is the text of its key.
pub ops_of_plan_row :
    (policy : FkPolicy) (store : RowStore) (schema : TableSchema) (table pk_col : Str)
    (t : HlcTimestamp) (cells : Cells) (ops : List CrdtOp)
    → plan_row policy store schema table pk_col t cells ≡ ok ops
    → (row_id : Str) × (map_option from_utf8_lossy (cell_value pk_col cells) ≡ some row_id)
      × (ops ≡ row_ops schema table row_id t cells)
unfolding plan_row
ops_of_plan_row policy store schema table pk_col t cells ops h =
    elim (Option-cases (map_option from_utf8_lossy (cell_value pk_col cells))) [
      | inl missing ↦ absurd (ground arith)
      | inr (row_id, at) ↦ (row_id, at, ground arith)
    ]

module _ (wall : ℕ → ℕ) (policy : FkPolicy) (store : RowStore) where
  -- The first row of a plan that succeeds, and the others.
  pub plan_rows-cons :
      (schema : TableSchema) (table pk_col : Str) (k : Ticker) (cells : Cells) (rows : List Cells)
      (ops : List CrdtOp)
      → (plan_rows wall policy store schema table pk_col k (cells ∷ rows)).1 ≡ ok ops
      → (first more : List CrdtOp) × (plan_row policy store schema table pk_col
            (tick_now wall k).1
            cells
          ≡ ok first)
        × ((plan_rows wall policy store schema table pk_col (tick_now wall k).0 rows).1 ≡ ok more)
        × (ops ≡ first ++ more)
  unfolding plan_rows
  plan_rows-cons schema table pk_col k cells rows ops h =
      elim (Result-cases (plan_row policy store schema table pk_col (tick_now wall k).1 cells)) [
        | inr (e, failed) ↦ absurd (ground arith)
        | inl (first, planned) ↦
            elim (Result-cases
              (plan_rows wall policy store schema table pk_col (tick_now wall k).0 rows).1) [
                | inr (e, failed) ↦ absurd (ground arith)
                | inl (more, rest) ↦ (first, more, planned, rest, ground arith)
              ]
      ]

  plan_rows-is_ok :
      (schema : TableSchema) (table pk_col : Str) (k : Ticker) (rows : List Cells)
      → is_ok (plan_rows wall policy store schema table pk_col k rows).1
        ≡ all (λ cells. acceptable policy store cells schema pk_col) rows
  unfolding plan_rows
  plan_rows-is_ok schema table pk_col k [] = refl
  plan_rows-is_ok schema table pk_col k (cells ∷ rows) =
      let (k', t) = tick_now wall k in
      ground (
        arith,
        plan_row-is_ok policy store cells schema table pk_col t,
        plan_rows-is_ok schema table pk_col k' rows,
      )

  -- Where the table is there and has a key, the rows are planned one by one.
  pub plan_insert-rows :
      (table : Str) (columns : List Str) (values : List (List SqlValue)) (params : List SqlValue)
      (k : Ticker) (t : TableState) (pk_col : Str)
      → get_table table store ≡ some t
      → primary_key_col t.schema ≡ some pk_col
      → plan_insert wall policy store table columns values params k
        ≡ plan_rows wall policy store t.schema table pk_col k
            (map (row_cells t.schema columns params) values)
  unfolding plan_insert
  plan_insert-rows table columns values params k t pk_col here key = cc

  -- An INSERT into a table with a primary key is planned without an error exactly if each of its
  -- rows has a value for the key, refers to parents that exist (under the orphan policy: to tables
  -- that exist), and gives each NOT NULL column but the key a value unless it has a default.
  pub plan_insert-is_ok :
      (table : Str) (columns : List Str) (values : List (List SqlValue)) (params : List SqlValue)
      (k : Ticker) (t : TableState) (pk_col : Str)
      → get_table table store ≡ some t
      → primary_key_col t.schema ≡ some pk_col
      → is_ok (plan_insert wall policy store table columns values params k).1
        ≡ all
            (λ row. acceptable policy store (row_cells t.schema columns params row) t.schema pk_col)
            values
  plan_insert-is_ok table columns values params k t pk_col here key =
      ap (λ r. is_ok r.1) (plan_insert-rows table columns values params k t pk_col here key)
      ∙ plan_rows-is_ok t.schema table pk_col k (map (row_cells t.schema columns params) values)
      ∙ all_map values
    where
      all_map :
          (rows : List (List SqlValue))
          → all
              (λ cells. acceptable policy store cells t.schema pk_col)
              (map (row_cells t.schema columns params) rows)
            ≡ all
                (λ row.
                  acceptable policy store (row_cells t.schema columns params row) t.schema pk_col)
                rows
      all_map [] = refl
      all_map (row ∷ rows) =
          ap
            (◌&&◌ (acceptable policy store (row_cells t.schema columns params row) t.schema pk_col))
            (all_map rows)
