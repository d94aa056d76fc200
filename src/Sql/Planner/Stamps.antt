-- ===== src/Sql/Planner/Stamps.antt =====
-- The stamps that src/sql/planner.rs gives to the rows of an INSERT.
use conflict_free_oltp_v.Base.{
  ℕ, suc, ◌+◌, ◌≤◌, ◌<◌, some, List, [], ◌∷◌, ◌++◌, map, length, length-map, ◌≡◌, refl, sym, ap,
  ◌∙◌, arith, Str, Result, ok, u32_range, Option-cases, Bool-cases, inl, inr, subst, list_ord,
  nat_ord,
}
use conflict_free_oltp_v.Crdt.Clocks.{HlcTimestamp, HlcClock, tick}
use conflict_free_oltp_v.Crdt.Clocks.Monotone.{current, Ascends, tick-Later}
use conflict_free_oltp_v.Crdt.Merge.{
  TableSchema, ColumnDef, Cells, CrdtOp, insert_row, update_cells, delete_row, reserve_unique,
  create_table, primary_key_col,
}
use conflict_free_oltp_v.Storage.RowStore.{RowStore, TableState, get_table}
use conflict_free_oltp_v.Constraints.ForeignKeys.{FkPolicy}
use conflict_free_oltp_v.Sql.Values.{SqlValue}
use conflict_free_oltp_v.Sql.Planner.{
  PlanError, Ticker, tick_now, row_cells, reserve_columns, reserve_composites, row_ops, plan_rows,
  plan_insert, cell_value,
}
use conflict_free_oltp_v.Sql.Planner.Checks.{plan_insert-rows, plan_rows-cons, ops_of_plan_row}

-- The stamps of the insertions of rows, in order.
abbrev pub insert_stamps : List CrdtOp → List HlcTimestamp
insert_stamps [] = []
insert_stamps (insert_row table row_id t cells ∷ ops) = t ∷ insert_stamps ops
insert_stamps (update_cells table row_id t cells ∷ ops) = insert_stamps ops
insert_stamps (delete_row table row_id t fk_tombstone ∷ ops) = insert_stamps ops
insert_stamps (reserve_unique table column value row_id t ∷ ops) = insert_stamps ops
insert_stamps (create_table table schema t ∷ ops) = insert_stamps ops

insert_stamps-append :
    (l m : List CrdtOp) → insert_stamps (l ++ m) ≡ insert_stamps l ++ insert_stamps m
insert_stamps-append [] m = refl
insert_stamps-append (insert_row table row_id t cells ∷ l) m = ap (◌∷◌ t) (insert_stamps-append l m)
insert_stamps-append (update_cells table row_id t cells ∷ l) m = insert_stamps-append l m
insert_stamps-append (delete_row table row_id t fk_tombstone ∷ l) m = insert_stamps-append l m
insert_stamps-append (reserve_unique table column value row_id t ∷ l) m = insert_stamps-append l m
insert_stamps-append (create_table table schema t ∷ l) m = insert_stamps-append l m

ok_injective : (l m : List CrdtOp) → ◌≡◌ {A = Result PlanError (List CrdtOp)} (ok l) (ok m) → l ≡ m
ok_injective l m h = cc

module _ (table row_id : Str) (t : HlcTimestamp) (cells : Cells) where
  insert_stamps-reserve_columns :
      (columns : List ColumnDef) → insert_stamps (reserve_columns table row_id t cells columns) ≡ []
  unfolding reserve_columns
  insert_stamps-reserve_columns [] = refl
  insert_stamps-reserve_columns (c ∷ columns) = elim (Bool-cases c.unique) [
    | inl unique ↦ elim (Option-cases (cell_value c.name cells)) [
      | inl missing ↦ ground (arith, insert_stamps-reserve_columns columns)
      | inr (v, at) ↦ ground (arith, insert_stamps-reserve_columns columns)
    ]
    | inr free ↦ ground (arith, insert_stamps-reserve_columns columns)
  ]

  insert_stamps-reserve_composites :
      (constraints : List (List Str))
      → insert_stamps (reserve_composites table row_id t cells constraints) ≡ []
  unfolding reserve_composites
  insert_stamps-reserve_composites [] = refl
  insert_stamps-reserve_composites (c ∷ constraints) = insert_stamps-reserve_composites constraints

  insert_stamps-row_ops :
      (schema : TableSchema) → insert_stamps (row_ops schema table row_id t cells) ≡ t ∷ []
  unfolding row_ops
  insert_stamps-row_ops schema = ap (◌∷◌ t) (
      insert_stamps-append (reserve_columns table row_id t cells schema.columns)
        (reserve_composites table row_id t cells schema.composite_unique_constraints)
      ∙ ap
          (λ l.
            l
            ++ insert_stamps
                (reserve_composites table row_id t cells schema.composite_unique_constraints))
          (insert_stamps-reserve_columns schema.columns)
      ∙ insert_stamps-reserve_composites schema.composite_unique_constraints)

pub tick-bound :
    (c : HlcClock) (w : ℕ)
    → c.max_logical + 1 < u32_range
    → (tick c w).0.max_logical ≤ c.max_logical + 1
unfolding tick
tick-bound c w h = ground arith

module _ (wall : ℕ → ℕ) (policy : FkPolicy) (store : RowStore) where
  plan_rows-Ascends :
      (schema : TableSchema) (table pk_col : Str) (k : Ticker) (rows : List Cells)
      (ops : List CrdtOp)
      → k.clock.max_logical + length rows < u32_range
      → (plan_rows wall policy store schema table pk_col k rows).1 ≡ ok ops
      → Ascends (current k.clock) (insert_stamps ops) × (length (insert_stamps ops) ≡ length rows)
  unfolding plan_rows tick_now
  plan_rows-Ascends schema table pk_col k [] ops h planned =
      subst (λ l. Ascends (current k.clock) (insert_stamps l) × (length (insert_stamps l) ≡ 0))
        (ok_injective [] ops planned) (tt, refl)
  plan_rows-Ascends schema table pk_col k (cells ∷ rows) ops h planned =
      let (k', t) = tick_now wall k in
      let (first, more, row, rest, e) =
        plan_rows-cons wall policy store schema table pk_col k cells rows ops planned in
      let (row_id, key, made) =
        ops_of_plan_row policy store schema table pk_col t cells first row in
      let (later, now) = tick-Later k.clock (wall k.readings) (omega arith) in
      let bound = tick-bound k.clock (wall k.readings) (omega arith) in
      let (ascends, long) = plan_rows-Ascends schema table pk_col k' rows more (omega arith) rest in
      let stamps : insert_stamps ops ≡ t ∷ insert_stamps more =
        ap insert_stamps e
        ∙ insert_stamps-append first more
        ∙ ap (λ l. l ++ insert_stamps more)
            (ap insert_stamps made ∙ insert_stamps-row_ops table row_id t cells schema) in
      subst (λ l. Ascends (current k.clock) l × (length l ≡ suc (length rows))) (sym stamps)
        ((later, subst (λ u. Ascends u (insert_stamps more)) (sym now) ascends), ap suc long)

  -- A planned INSERT into a table with a primary key inserts one row for each row of values, each
  -- under a later stamp than the one before, the first under a later one than the clock had, while
  -- the counter and the number of rows leave room in u32.
  pub plan_insert-Ascends :
      (table : Str) (columns : List Str) (values : List (List SqlValue)) (params : List SqlValue)
      (k : Ticker) (t : TableState) (pk_col : Str) (ops : List CrdtOp)
      → get_table table store ≡ some t
      → primary_key_col t.schema ≡ some pk_col
      → k.clock.max_logical + length values < u32_range
      → (plan_insert wall policy store table columns values params k).1 ≡ ok ops
      → Ascends (current k.clock) (insert_stamps ops) × (length (insert_stamps ops) ≡ length values)
  plan_insert-Ascends table columns values params k t pk_col ops here key room planned =
      let rows = map (row_cells t.schema columns params) values in
      let long : length rows ≡ length values =
        length-map (row_cells t.schema columns params) values in
      let (ascends, n) = plan_rows-Ascends t.schema table pk_col k rows ops (omega arith) (
        ap (λ r. r.1)
          (sym (plan_insert-rows wall policy store table columns values params k t pk_col here key))
        ∙ planned) in
      (ascends, n ∙ long)
