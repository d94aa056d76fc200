-- ===== src/Sql/Planner/Writing.antt =====
-- What the operations of an UPDATE and of an INSERT of src/sql/planner.rs do to a table in which no
-- stamp is later than the clock.
use conflict_free_oltp_v.Base.{
  ℕ, ◌+◌, ◌<◌, Bool, ◌||◌, some, List, [], ◌∷◌, ◌++◌, length, ◌≡◌, refl, ap, ◌∙◌, subst, arith, beq,
  beq_refl, Bool-cases, Option-cases, inl, inr, Str, list_ord, nat_ord, u32_range, if◌then◌else◌,
}
use conflict_free_oltp_v.Crdt.Clocks.{HlcTimestamp}
use conflict_free_oltp_v.Crdt.Clocks.Monotone.{current, Later, tick-Later}
use conflict_free_oltp_v.Crdt.Token.{token}
use conflict_free_oltp_v.Crdt.Merge.{TableSchema, ColumnDef, Cells, CrdtOp}
use conflict_free_oltp_v.Crdt.OrSet.{is_visible}
use conflict_free_oltp_v.Crdt.OrSet.Rows.{among}
use conflict_free_oltp_v.Storage.RowStore.{
  RowStore, TableState, get_table, apply_op, on_table, update_row, insert_table_row,
}
use conflict_free_oltp_v.Storage.RowStore.Rows.{store_after, get_table-on_table}
use conflict_free_oltp_v.Storage.RowStore.Writes.{IsDistinct, overlay}
use conflict_free_oltp_v.Storage.RowStore.Behind.{
  AtMost, AtMost-Later, TableBehind, TableBehind-mono, update_row-TableBehind,
}
use conflict_free_oltp_v.Storage.RowStore.Reads.{
  value_at, overlay_idem, value_at-update_row, value_at-insert_table_row,
  is_visible-insert_table_row,
}
use conflict_free_oltp_v.Sql.Planner.{
  Ticker, tick_now, cell_value, reserve_columns, reserve_composites, row_ops, update_ops,
}
use conflict_free_oltp_v.Sql.Planner.Stamps.{tick-bound}

-- The table `t'` is `t` with the cells written to the rows that change.
pub record IsUpdated (changes : Str → Bool) (cells : Cells) (t t' : TableState) : Type 0 where
  pub values :
      (x column : Str)
      → value_at x column t'
        ≡ (if changes x then overlay column cells (value_at x column t) else value_at x column t)
  pub membership : t'.membership ≡ t.membership
  pub schema : t'.schema ≡ t.schema

module _ (table row_id : Str) (t : HlcTimestamp) (cells : Cells) where
  -- Reservations leave the store alone.
  store_after-reserve_columns :
      (columns : List ColumnDef) (more : List CrdtOp) (s : RowStore)
      → store_after s (reserve_columns table row_id t cells columns ++ more) ≡ store_after s more
  unfolding reserve_columns store_after apply_op
  store_after-reserve_columns [] more s = refl
  store_after-reserve_columns (c ∷ columns) more s = elim (Bool-cases c.unique) [
    | inl unique ↦ elim (Option-cases (cell_value c.name cells)) [
      | inl missing ↦ ground (arith, store_after-reserve_columns columns more s)
      | inr (v, at) ↦ ground (arith, store_after-reserve_columns columns more s)
    ]
    | inr free ↦ ground (arith, store_after-reserve_columns columns more s)
  ]

  store_after-reserve_composites :
      (constraints : List (List Str)) (s : RowStore)
      → store_after s (reserve_composites table row_id t cells constraints) ≡ s
  unfolding reserve_composites store_after apply_op
  store_after-reserve_composites [] s = refl
  store_after-reserve_composites (c ∷ constraints) s = store_after-reserve_composites constraints s

-- What a later stamp writes is not later than that stamp.
behind_now :
    (u hlc v : HlcTimestamp)
    → Later u hlc
    → hlc ≡ v
    → (t t' : TableState)
    → ((w : HlcTimestamp) → AtMost (token hlc) w → TableBehind w t → TableBehind w t')
    → TableBehind u t
    → TableBehind v t'
behind_now u hlc v later now t t' step b =
    subst (λ w. TableBehind w t') now
      (step hlc (omega arith) (TableBehind-mono u hlc (AtMost-Later u hlc later) t b))

module _ (wall : ℕ → ℕ) (table : Str) (cells : Cells) (distinct : IsDistinct cells) where
  IsUpdated-cons :
      (id : Str) (hlc u : HlcTimestamp) (ids : List Str) (t t' : TableState)
      → Later u hlc
      → TableBehind u t
      → IsUpdated (λ x. among x ids) cells (update_row id hlc cells t) t'
      → IsUpdated (λ x. among x (id ∷ ids)) cells t t'
  unfolding update_row
  IsUpdated-cons id hlc u ids t t' later b w = record {
    values = λ x column. ground (
      arith,
      w.values x column,
      value_at-update_row u hlc later id x column cells t distinct b,
      overlay_idem column cells (value_at x column t),
    );
    membership = w.membership;
    schema = w.schema;
  }

  pub update_ops-IsUpdated :
      (schema : TableSchema) (ids : List Str) (k : Ticker) (s : RowStore) (t : TableState)
      → get_table table s ≡ some t
      → TableBehind (current k.clock) t
      → k.clock.max_logical + length ids < u32_range
      → (t' : TableState) × (get_table table
            (store_after s (update_ops wall schema table cells k ids).1)
          ≡ some t')
        × IsUpdated (λ x. among x ids) cells t t'
  unfolding update_ops store_after apply_op tick_now
  update_ops-IsUpdated schema [] k s t here b room =
      (t, here, record { values = λ x column. refl; membership = refl; schema = refl })
  update_ops-IsUpdated schema (id ∷ ids) k s t here b room =
      let (k', hlc) = tick_now wall k in
      let (later, now) = tick-Later k.clock (wall k.readings) (omega arith) in
      let bound = tick-bound k.clock (wall k.readings) (omega arith) in
      let next = update_row id hlc cells t in
      let s' = on_table table (update_row id hlc cells) s in
      let here' : get_table table s' ≡ some next =
        ground
          (arith, get_table-on_table table table (update_row id hlc cells) s, beq_refl table) in
      let (t', there, w) =
        update_ops-IsUpdated schema ids k' s' next here'
          (behind_now (current k.clock) hlc (current k'.clock) later now t next
            (λ v h b'. update_row-TableBehind v id hlc cells t h b') b)
          (omega arith) in
      (
        t',
        ap (get_table table) (
              store_after-reserve_columns table id hlc cells schema.columns
                (update_ops wall schema table cells k' ids).1 s')
            ∙ there,
        IsUpdated-cons id hlc (current k.clock) ids t t' later b w,
      )

-- The table `t'` is `t` with the row inserted, visible, and with the cells written to it.
pub record IsInserted (row_id : Str) (cells : Cells) (t t' : TableState) : Type 0 where
  pub shown : (x : Str) → is_visible x t'.membership ≡ (beq row_id x || is_visible x t.membership)
  pub values :
      (x column : Str)
      → value_at x column t'
        ≡ (if beq row_id x then overlay column cells (value_at x column t) else value_at x column t)
  pub schema : t'.schema ≡ t.schema

module _ (u hlc : HlcTimestamp) (later : Later u hlc) where
  pub row_ops-IsInserted :
      (schema : TableSchema) (table row_id : Str) (cells : Cells) (s : RowStore) (t : TableState)
      → IsDistinct cells
      → get_table table s ≡ some t
      → TableBehind u t
      → (t' : TableState) × (get_table table (store_after s (row_ops schema table row_id hlc cells))
          ≡ some t')
        × IsInserted row_id cells t t'
  unfolding row_ops store_after apply_op
  row_ops-IsInserted schema table row_id cells s t distinct here b =
      let s' = on_table table (insert_table_row row_id hlc cells) s in
      (
        insert_table_row row_id hlc cells t,
        ap (get_table table) (
              store_after-reserve_columns table row_id hlc cells schema.columns
                (reserve_composites table row_id hlc cells schema.composite_unique_constraints) s'
              ∙ store_after-reserve_composites table row_id hlc cells
                  schema.composite_unique_constraints s')
            ∙ ground (
              arith,
              get_table-on_table table table (insert_table_row row_id hlc cells) s,
              beq_refl table,
            ),
        record {
          shown = λ x. is_visible-insert_table_row u hlc later row_id x cells t b;
          values =
              λ x column. value_at-insert_table_row u hlc later row_id x column cells t distinct b;
          schema = unfold insert_table_row in refl;
        },
      )
