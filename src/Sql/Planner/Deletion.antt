-- ===== src/Sql/Planner/Deletion.antt =====
-- What the operations of a DELETE of src/sql/planner.rs do to a store.
use conflict_free_oltp_v.Base.{
  ℕ, Bool, false, not, ◌&&◌, Option, some, List, [], ◌∷◌, ◌≡◌, refl, ap, ◌∙◌, arith, beq_refl, Str,
  list_ord, nat_ord, ok,
}
use conflict_free_oltp_v.Crdt.Clocks.{HlcTimestamp}
use conflict_free_oltp_v.Crdt.Merge.{CrdtOp}
use conflict_free_oltp_v.Crdt.OrSet.{is_visible}
use conflict_free_oltp_v.Crdt.OrSet.Rows.{among}
use conflict_free_oltp_v.Crdt.OrSet.Visibility.{is_visible-delete_row}
use conflict_free_oltp_v.Storage.RowStore.{
  RowStore, TableState, get_table, apply_op, on_table, delete_table_row,
}
use conflict_free_oltp_v.Storage.RowStore.Rows.{
  store_after, row_passes, empty_of_among, get_table-on_table,
}
use conflict_free_oltp_v.Constraints.ForeignKeys.{FkPolicy}
use conflict_free_oltp_v.Sql.Filter.{SqlExpr, matches}
use conflict_free_oltp_v.Sql.Planner.Matching.{selects, among-matching_rows}
use conflict_free_oltp_v.Sql.Planner.{
  Ticker, tick_now, matching_rows, delete_ops, plan_delete, is_tombstone,
}

-- The table `t'` is `t` without the rows that are gone.
pub record IsWithout (gone : Str → Bool) (t t' : TableState) : Type 0 where
  pub hidden : (x : Str) → is_visible x t'.membership ≡ (is_visible x t.membership && not (gone x))
  pub rows : t'.rows ≡ t.rows
  pub schema : t'.schema ≡ t.schema

module _ (wall : ℕ → ℕ) (table : Str) (fk_tombstone : Bool) where
  IsWithout-cons :
      (id : Str) (hlc : HlcTimestamp) (ids : List Str) (t t' : TableState)
      → IsWithout (λ x. among x ids) (delete_table_row id hlc fk_tombstone t) t'
      → IsWithout (λ x. among x (id ∷ ids)) t t'
  unfolding delete_table_row
  IsWithout-cons id hlc ids t t' w = record {
    hidden =
        λ x. ground (arith, w.hidden x, is_visible-delete_row id x hlc fk_tombstone t.membership);
    rows = w.rows;
    schema = w.schema;
  }

  delete_ops-IsWithout :
      (ids : List Str) (k : Ticker) (s : RowStore) (t : TableState)
      → get_table table s ≡ some t
      → (t' : TableState) × (get_table table
            (store_after s (delete_ops wall table fk_tombstone k ids).1)
          ≡ some t')
        × IsWithout (λ x. among x ids) t t'
  unfolding delete_ops store_after apply_op
  delete_ops-IsWithout [] k s t here =
      (t, here, record { hidden = λ x. ground arith; rows = refl; schema = refl })
  delete_ops-IsWithout (id ∷ ids) k s t here =
      let (k', hlc) = tick_now wall k in
      let next = delete_table_row id hlc fk_tombstone t in
      let (t', there, w) =
        delete_ops-IsWithout ids k' (on_table table (delete_table_row id hlc fk_tombstone) s) next (
          ground (
            arith,
            get_table-on_table table table (delete_table_row id hlc fk_tombstone) s,
            beq_refl table,
          )) in
      (t', there, IsWithout-cons id hlc ids t t' w)

-- Without the rows that a filter selects, it selects none.
IsWithout-matching_rows :
    (f : Option SqlExpr) (t t' : TableState)
    → IsWithout (selects f t) t t'
    → matching_rows f t' ≡ []
IsWithout-matching_rows f t t' w = empty_of_among (matching_rows f t') (λ x. absent x)
  where
    absent : (x : Str) → among x (matching_rows f t') ≡ false
    absent x =
        among-matching_rows x f t'
        ∙ ground (arith, ap (λ r. row_passes (matches f) r x) w.rows, w.hidden x)

pub plan_delete-IsWithout :
    (wall : ℕ → ℕ) (policy : FkPolicy) (s : RowStore) (table : Str) (f : Option SqlExpr)
    (k : Ticker) (t : TableState)
    → get_table table s ≡ some t
    → (ops : List CrdtOp) × ((plan_delete wall policy s table f k).1 ≡ ok ops)
      × (t' : TableState) × (get_table table (store_after s ops) ≡ some t')
      × IsWithout (selects f t) t t'
      × (matching_rows f t' ≡ [])
unfolding plan_delete
plan_delete-IsWithout wall policy s table f k t here =
    let ids = matching_rows f t in
    let (t', there, w) = delete_ops-IsWithout wall table (is_tombstone policy) ids k s t here in
    let without : IsWithout (selects f t) t t' = record {
      hidden = λ x. ground (arith, w.hidden x, among-matching_rows x f t);
      rows = w.rows;
      schema = w.schema;
    } in
    (
      (delete_ops wall table (is_tombstone policy) k ids).1,
      cc,
      t',
      there,
      without,
      IsWithout-matching_rows f t t' without,
    )
