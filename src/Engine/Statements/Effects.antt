-- ===== src/Engine/Statements/Effects.antt =====
-- What the statements of src/api/engine.rs do to the store of an engine, and what a query sees of it.
use conflict_free_oltp_v.Base.{
  ℕ, ◌+◌, Bool, true, false, ◌&&◌, any, Option, some, List, [], ◌∷◌, map, filter, ◌≡◌, refl, sym,
  ap, ◌∙◌, arith, Bytes, Str, ok, subst,
}
use conflict_free_oltp_v.Crdt.Merge.{
  CrdtOp, insert_row, update_cells, delete_row, reserve_unique, create_table,
}
use conflict_free_oltp_v.Storage.OpLog.{LogEntry}
use conflict_free_oltp_v.Storage.RowStore.{RowStore, TableState, get_table, apply_op, visible_rows}
use conflict_free_oltp_v.Storage.RowStore.Rows.{store_after}
use conflict_free_oltp_v.Constraints.ForeignKeys.{FkPolicy, tombstone, cascade, orphan}
use conflict_free_oltp_v.Sql.Values.{SqlValue}
use conflict_free_oltp_v.Sql.Filter.{SqlExpr, matches}
use conflict_free_oltp_v.Sql.Statement.{ParsedStatement, SelectColumns}
use conflict_free_oltp_v.Sql.Planner.{plan, matching_rows}
use conflict_free_oltp_v.Sql.Planner.Matching.{selects}
use conflict_free_oltp_v.Sql.Planner.Deletion.{IsWithout, plan_delete-IsWithout}
use conflict_free_oltp_v.Sql.Executor.{execute_select, select_rows}
use conflict_free_oltp_v.Sort.Comparator.{sort_with}
use conflict_free_oltp_v.Engine.State.{Engine, apply}
use conflict_free_oltp_v.Engine.Statements.{Session, apply_ops, execute_statement}

-- Deletions take no children along, in the store of this engine.
abbrev pub cascades : FkPolicy → Bool
cascades cascade = true
cascades tombstone = false
cascades orphan = false

abbrev pub is_delete : CrdtOp → Bool
is_delete (delete_row name row_id t fk) = true
is_delete (insert_row name row_id t cells) = false
is_delete (update_cells name row_id t cells) = false
is_delete (reserve_unique name column value row_id t) = false
is_delete (create_table name schema t) = false

-- The operations take no children along: there is no deletion, or the policy does not cascade.
abbrev pub IsPlain : FkPolicy → List CrdtOp → Type 0
IsPlain policy ops = (cascades policy && any is_delete ops) ≡ false

module _ (hash : LogEntry → Bytes) where
  apply-store :
      (w : ℕ) (op : CrdtOp) (e : Engine)
      → (cascades e.fk_policy && is_delete op) ≡ false
      → ((apply hash w op e).store ≡ apply_op e.store op)
        × ((apply hash w op e).fk_policy ≡ e.fk_policy)
  unfolding apply apply_op
  apply-store w (insert_row name row_id t cells) e h = (refl, refl)
  apply-store w (update_cells name row_id t cells) e h = (refl, refl)
  apply-store w (delete_row name row_id t ft) e h = (ground arith, refl)
  apply-store w (reserve_unique name column value row_id t) e h = (refl, refl)
  apply-store w (create_table name schema t) e h = (refl, refl)

nil_of_map {ℓ κ} : {A : Type ℓ} {B : Type κ} (g : A → B) (l : List A) → map g l ≡ [] → l ≡ []
nil_of_map g [] h = refl
nil_of_map g (x ∷ l) h = absurd (cc)

-- A filter that selects no row gives an empty result.
select-none :
    (table : Str) (t : TableState) (selector : SelectColumns) (f : Option SqlExpr)
    (order_by : List (Str × Bool)) (s : RowStore)
    → matching_rows f t ≡ []
    → get_table table s ≡ some t
    → execute_select (ParsedStatement.select table selector f order_by) s ≡ ok []
unfolding execute_select select_rows matching_rows sort_with
select-none table t selector f order_by s h here =
    let none_left = nil_of_map (λ r. r.0) (filter (λ r. matches f r.1) (visible_rows t)) h in cc

module _ (hash : LogEntry → Bytes) (wall : ℕ → ℕ) where
  pub apply_ops-store :
      (ops : List CrdtOp) (s : Session)
      → IsPlain s.engine.fk_policy ops
      → (apply_ops hash wall ops s).engine.store ≡ store_after s.engine.store ops
  unfolding apply_ops store_after
  apply_ops-store [] s h = refl
  apply_ops-store (op ∷ ops) s h =
      let e = apply hash (wall s.readings) op s.engine in
      let (store, policy) = apply-store hash (wall s.readings) op s.engine (ground arith) in
      apply_ops-store ops (record { engine = e; readings = s.readings + 1 })
        (subst (λ p. IsPlain p ops) (sym policy) (ground arith))
      ∙ ap (λ x. store_after x ops) store

  -- A statement whose operations are planned succeeds, with their effect on the store.
  pub execute_statement-planned :
      (stmt : ParsedStatement) (params : List SqlValue) (s : Session) (ops : List CrdtOp)
      → IsPlain s.engine.fk_policy ops
      → (plan wall s.engine.fk_resolver s.engine.store stmt params
          (record { clock = s.engine.clock; readings = s.readings })).1
        ≡ ok ops
      → ((execute_statement hash wall stmt params s).1 ≡ ok tt)
        × ((execute_statement hash wall stmt params s).0.engine.store
            ≡ store_after s.engine.store ops)
  unfolding execute_statement
  execute_statement-planned stmt params s ops h planned =
      let k =
        (plan wall s.engine.fk_resolver s.engine.store stmt params
          (record { clock = s.engine.clock; readings = s.readings })).0 in
      let s' : Session = record {
        engine = record s.engine { clock = k.clock };
        readings = k.readings;
      } in
      (cc, ground (arith, apply_ops-store ops s' h))

  -- On an engine that does not cascade, a DELETE from a table that is there succeeds: exactly the
  -- visible rows that the filter selects are hidden, the cells of all rows stay, and a SELECT with
  -- the same filter is then empty, whatever its columns and order.
  pub delete-select :
      (s : Session) (table : Str) (f : Option SqlExpr) (params : List SqlValue) (t : TableState)
      → cascades s.engine.fk_policy ≡ false
      → get_table table s.engine.store ≡ some t
      → (t' : TableState) × ((execute_statement hash wall
            (ParsedStatement.delete table f)
            params
            s).1
          ≡ ok tt)
        × (get_table table
              (execute_statement hash wall (ParsedStatement.delete table f) params s).0.engine.store
            ≡ some t')
        × IsWithout (selects f t) t t'
        × ((selector : SelectColumns) (order_by : List (Str × Bool))
            → execute_select
                (ParsedStatement.select table selector f order_by)
                (execute_statement hash wall
                  (ParsedStatement.delete table f)
                  params
                  s).0.engine.store
              ≡ ok [])
  unfolding plan
  delete-select s table f params t h here =
      let (ops, planned, t', there, w, none_left) =
        plan_delete-IsWithout wall s.engine.fk_resolver s.engine.store table f
          (record { clock = s.engine.clock; readings = s.readings }) t here in
      let (done, store) =
        execute_statement-planned (ParsedStatement.delete table f) params s ops (rw h) planned in
      let there' = ap (get_table table) store ∙ there in
      (
        t',
        done,
        there',
        w,
        λ selector order_by. select-none table t' selector f order_by _ none_left there',
      )
