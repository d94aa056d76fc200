-- ===== src/Engine/Ahead.antt =====
-- The clock of an engine of src/api/engine.rs against the stamps in its store.
use conflict_free_oltp_v.Base.{
  ℕ, ◌+◌, ◌<◌, ◌≤◌, false, none, some, List, [], ◌∷◌, ◌≡◌, refl, sym, ap, ◌++◌, str, subst, arith,
  u32_range, length, Bytes, Str, list_ord, nat_ord,
}
use conflict_free_oltp_v.BTree.{keys}
use conflict_free_oltp_v.Crdt.Clocks.{HlcTimestamp, HlcClock, observe}
use conflict_free_oltp_v.Crdt.Clocks.Monotone.{current, Later, observe-Later}
use conflict_free_oltp_v.Crdt.Token.{Token, token}
use conflict_free_oltp_v.Crdt.Merge.{
  CrdtOp, insert_row, update_cells, delete_row, reserve_unique, create_table,
}
use conflict_free_oltp_v.Crdt.Merge.{hlc as stamp_of}
use conflict_free_oltp_v.Storage.OpLog.{LogEntry}
use conflict_free_oltp_v.Storage.RowStore.{
  RowStore, TableState, get_table, apply_op, on_table, delete_table_row,
}
use conflict_free_oltp_v.Storage.RowStore.Behind.{
  AtMost, AtMost-Later, StoreBehind, TableBehind, StoreBehind-mono, apply_op-StoreBehind,
  on_table-StoreBehind, delete_table_row-TableBehind,
}
use conflict_free_oltp_v.Constraints.ForeignKeys.{
  FkPolicy, tombstone, cascade, orphan, child_ids, delete_all, cascade_tables, cascade_delete,
  enforce_on_delete,
}
use conflict_free_oltp_v.Engine.State.{
  Engine, apply, apply_to_state, next_logical, cascade_op, delete_affected,
}
use conflict_free_oltp_v.Engine.Statements.{Session, apply_ops}

-- No stamp of the store is later than what the clock last gave out.
abbrev pub IsAhead : Engine → Type 0
IsAhead e = StoreBehind (current e.clock) e.store

Later-AtMost : (u v : HlcTimestamp) → Later u v → AtMost (token u) v
Later-AtMost u v h = ground arith

-- Every logical counter of the operations is at most `b`.
abbrev pub LogicalLe : ℕ → List CrdtOp → Type 0
LogicalLe b [] = Unit {0}
LogicalLe b (op ∷ ops) = ((stamp_of op).logical ≤ b) × LogicalLe b ops

LogicalLe-suc : (b : ℕ) (ops : List CrdtOp) → LogicalLe b ops → LogicalLe (b + 1) ops
LogicalLe-suc b [] h = tt
LogicalLe-suc b (op ∷ ops) h = (omega arith, LogicalLe-suc b ops h.1)

module _ (u : HlcTimestamp) where
  delete_all-TableBehind :
      (hlc : HlcTimestamp) (ids : List Str) (t : TableState)
      → TableBehind u t
      → TableBehind u (delete_all hlc ids t)
  unfolding delete_all
  delete_all-TableBehind hlc [] t b = b
  delete_all-TableBehind hlc (id ∷ ids) t b =
      delete_all-TableBehind hlc ids (delete_table_row id hlc false t)
        (delete_table_row-TableBehind u id hlc false t (λ marks. absurd (cc)) b)

  cascade_tables-StoreBehind :
      (names : List Str) (table row_id : Str) (hlc : HlcTimestamp) (s : RowStore)
      → StoreBehind u s
      → StoreBehind u (cascade_tables names table row_id hlc s).0
  unfolding cascade_tables
  cascade_tables-StoreBehind [] table row_id hlc s b = b
  cascade_tables-StoreBehind (name ∷ names) table row_id hlc s b =
      let ids : List Str = elim (get_table name s) [
        | none ↦ []
        | some t ↦ child_ids table row_id t
      ] in
      cascade_tables-StoreBehind names table row_id hlc (on_table name (delete_all hlc ids) s) (
        on_table-StoreBehind u name (delete_all hlc ids) s
          (λ t k. delete_all-TableBehind hlc ids t k) b)

  delete_affected-StoreBehind :
      (hlc : HlcTimestamp) (l : List (Str × Str)) (s : RowStore)
      → StoreBehind u s
      → StoreBehind u (delete_affected hlc l s)
  unfolding delete_affected apply_op
  delete_affected-StoreBehind hlc [] s b = b
  delete_affected-StoreBehind hlc ((name, row_id) ∷ l) s b =
      delete_affected-StoreBehind hlc l (on_table name (delete_table_row row_id hlc false) s) (
        on_table-StoreBehind u name (delete_table_row row_id hlc false) s
          (λ t k. delete_table_row-TableBehind u row_id hlc false t (λ marks. absurd (cc)) k) b)

  enforce_on_delete-StoreBehind :
      (policy : FkPolicy) (table row_id : Str) (hlc : HlcTimestamp) (s : RowStore)
      → StoreBehind u s
      → StoreBehind u (enforce_on_delete policy table row_id hlc s).0
  unfolding enforce_on_delete cascade_delete
  enforce_on_delete-StoreBehind tombstone table row_id hlc s b = b
  enforce_on_delete-StoreBehind cascade table row_id hlc s b =
      cascade_tables-StoreBehind (keys s.tables) table row_id hlc s b
  enforce_on_delete-StoreBehind orphan table row_id hlc s b = b

  -- Cascaded deletions bring no stamp in: they set no tombstone.
  cascade_op-StoreBehind :
      (e : Engine) (op : CrdtOp) (s : RowStore)
      → StoreBehind u s
      → StoreBehind u (cascade_op e op s)
  unfolding cascade_op
  cascade_op-StoreBehind e (delete_row name row_id hlc fk) s b =
      let after = enforce_on_delete e.fk_resolver name row_id hlc s in
      let stamp = next_logical hlc (str "__cascade__" ++ hlc.peer_id) in
      elim e.fk_policy
        as (λ p. StoreBehind u (elim p [
          | cascade ↦ delete_affected stamp after.1 after.0
          | tombstone ↦ s
          | orphan ↦ s
        ])) [
          | cascade ↦
              delete_affected-StoreBehind stamp after.1 after.0
                (enforce_on_delete-StoreBehind e.fk_resolver name row_id hlc s b)
          | tombstone ↦ b
          | orphan ↦ b
        ]
  cascade_op-StoreBehind e (insert_row name row_id hlc cells) s b = b
  cascade_op-StoreBehind e (update_cells name row_id hlc cells) s b = b
  cascade_op-StoreBehind e (reserve_unique name column value row_id hlc) s b = b
  cascade_op-StoreBehind e (create_table name schema hlc) s b = b

-- Observing a stamp moves the clock on, past the stamp.
observe-AtMost :
    (c : HlcClock) (wall : ℕ) (remote : HlcTimestamp)
    → c.max_logical + 1 < u32_range
    → remote.logical + 1 < u32_range
    → ((k : Token) → AtMost k (current c) → AtMost k (current (observe c wall remote).0))
      × AtMost (token remote) (current (observe c wall remote).0)
observe-AtMost c wall remote h k =
    let (past, above, now) = observe-Later c wall remote h k in
    (
      λ j a. subst (AtMost j) now (AtMost-Later (current c) (observe c wall remote).1 past j a),
      subst (AtMost (token remote)) now (Later-AtMost remote (observe c wall remote).1 above),
    )

observe-bound :
    (c : HlcClock) (wall : ℕ) (remote : HlcTimestamp) (b : ℕ)
    → c.max_logical ≤ b
    → remote.logical ≤ b
    → b + 1 < u32_range
    → (observe c wall remote).0.max_logical ≤ b + 1
unfolding observe
observe-bound c wall remote b h k l = ground arith

module _ (hash : LogEntry → Bytes) where
  apply_to_state-StoreBehind :
      (u : HlcTimestamp) (op : CrdtOp) (e : Engine)
      → StoreBehind u (apply_op e.store op)
      → StoreBehind u (apply_to_state hash op e).store
  unfolding apply_to_state apply_op
  apply_to_state-StoreBehind u (reserve_unique name column value row_id t) e b = b
  apply_to_state-StoreBehind u (insert_row name row_id t cells) e b = b
  apply_to_state-StoreBehind u (update_cells name row_id t cells) e b = b
  apply_to_state-StoreBehind u (delete_row name row_id t fk) e b =
      cascade_op-StoreBehind u e (delete_row name row_id t fk)
        (apply_op e.store (delete_row name row_id t fk)) b
  apply_to_state-StoreBehind u (create_table name schema t) e b = b

  apply_to_state-clock : (op : CrdtOp) (e : Engine) → (apply_to_state hash op e).clock ≡ e.clock
  unfolding apply_to_state
  apply_to_state-clock (reserve_unique name column value row_id t) e = refl
  apply_to_state-clock (insert_row name row_id t cells) e = refl
  apply_to_state-clock (update_cells name row_id t cells) e = refl
  apply_to_state-clock (delete_row name row_id t fk) e = refl
  apply_to_state-clock (create_table name schema t) e = refl

  -- Any operation, of this peer or another, keeps the clock ahead of the store.
  apply-IsAhead :
      (wall : ℕ) (op : CrdtOp) (e : Engine)
      → e.clock.max_logical + 1 < u32_range
      → (stamp_of op).logical + 1 < u32_range
      → IsAhead e
      → IsAhead (apply hash wall op e)
  unfolding apply
  apply-IsAhead wall op e h k ahead =
      let clock = (observe e.clock wall (stamp_of op)).0 in
      let (later, at_most) = observe-AtMost e.clock wall (stamp_of op) h k in
      let behind = StoreBehind-mono (current e.clock) (current clock) later e.store ahead in
      subst
        (λ c. StoreBehind (current c) (apply_to_state hash op (record e { clock = clock })).store)
        (sym (apply_to_state-clock op (record e { clock = clock })))
        (apply_to_state-StoreBehind (current clock) op (record e { clock = clock })
          (apply_op-StoreBehind (current clock) e.store op at_most behind))

  apply-bound :
      (wall : ℕ) (op : CrdtOp) (e : Engine) (b : ℕ)
      → e.clock.max_logical ≤ b
      → (stamp_of op).logical ≤ b
      → b + 1 < u32_range
      → (apply hash wall op e).clock.max_logical ≤ b + 1
  unfolding apply
  apply-bound wall op e b h k l =
      let clock = (observe e.clock wall (stamp_of op)).0 in
      omega (
        arith,
        ap (λ c. c.max_logical) (apply_to_state-clock op (record e { clock = clock })),
        observe-bound e.clock wall (stamp_of op) b h k l,
      )

  module _ (wall : ℕ → ℕ) where
    -- If no stamp in the store of an engine, of the tokens of a row, inserted or removed, of a
    -- tombstone or of a cell, is later than its clock, that stays so while it applies operations of
    -- any peers, cascades included, whose counters and number leave room in u32.
    pub apply_ops-IsAhead :
        (ops : List CrdtOp) (s : Session) (b : ℕ)
        → s.engine.clock.max_logical ≤ b
        → LogicalLe b ops
        → b + length ops < u32_range
        → IsAhead s.engine
        → IsAhead (apply_ops hash wall ops s).engine
    unfolding apply_ops
    apply_ops-IsAhead [] s b h k l ahead = ahead
    apply_ops-IsAhead (op ∷ ops) s b h k l ahead =
        apply_ops-IsAhead ops
          (record { engine = apply hash (wall s.readings) op s.engine; readings = s.readings + 1 })
          (b + 1) (apply-bound (wall s.readings) op s.engine b h k.0 (omega arith))
          (LogicalLe-suc b ops k.1) (omega arith)
          (apply-IsAhead (wall s.readings) op s.engine (omega arith) (omega arith) ahead)
