-- ===== src/Engine/Replay.antt =====
-- The first half of `rebuild_store` in src/api/engine.rs: the log is replayed in a fixed order, and
-- the losers of the elections lose their values.
use conflict_free_oltp_v.Base.{
  ℕ, Option, none, some, List, [], ◌∷◌, map, nat_ord, pair_ord, list_ord, and_then, if◌then◌else◌,
  Bytes, Str, str,
}
use conflict_free_oltp_v.BTree.{BTreeMap, empty}
use conflict_free_oltp_v.Sort.{sort_by}
use conflict_free_oltp_v.Crdt.Clocks.{HlcTimestamp, stamp_ord}
use conflict_free_oltp_v.Crdt.Merge.{
  CrdtOp, insert_row, update_cells, delete_row, reserve_unique, create_table, hlc,
}
use conflict_free_oltp_v.Crdt.OrSet.{is_visible}
use conflict_free_oltp_v.Storage.RowStore.{
  RowStore, TableState, apply_op, new_store, on_table, update_row,
}
use conflict_free_oltp_v.Constraints.Uniqueness.{TableUniqueness, UniqueIndex, Reservation, is_lost}
use conflict_free_oltp_v.Engine.State.{reservation, reserve_in, next_logical}
use conflict_free_oltp_v.Engine.Columns.{cols_to_null}

-- Tables come before rows, and reservations last.
abbrev pub tier : CrdtOp → ℕ
tier (create_table name schema t) = 0
tier (insert_row name row_id t cells) = 1
tier (update_cells name row_id t cells) = 1
tier (delete_row name row_id t fk_tombstone) = 1
tier (reserve_unique name column value row_id t) = 2

abbrev pub replay_key : CrdtOp → ℕ × HlcTimestamp
replay_key op = (tier op, hlc op)

-- `ops.sort_by(..)`
unfoldable pub replay_order : List CrdtOp → List CrdtOp
unfolding sort_by
replay_order l = sort_by replay_key l

pub record Replayed : Type 0 where
  pub store : RowStore
  pub uniqueness : BTreeMap Str TableUniqueness

unfoldable pub replay_op : CrdtOp → Replayed → Replayed
unfolding reserve_in apply_op
replay_op (reserve_unique name column value row_id t) r = record r {
  uniqueness = reserve_in name column (reservation value row_id t) r.uniqueness;
}
replay_op (insert_row name row_id t cells) r = record r {
  store = apply_op r.store (insert_row name row_id t cells);
}
replay_op (update_cells name row_id t cells) r = record r {
  store = apply_op r.store (update_cells name row_id t cells);
}
replay_op (delete_row name row_id t fk_tombstone) r = record r {
  store = apply_op r.store (delete_row name row_id t fk_tombstone);
}
replay_op (create_table name schema t) r = record r {
  store = apply_op r.store (create_table name schema t);
}

unfoldable pub replay : List CrdtOp → Replayed → Replayed
unfolding replay_op
replay [] r = r
replay (op ∷ l) r = replay l (replay_op op r)

abbrev pub new_replayed : Replayed
new_replayed = record { store = new_store; uniqueness = empty }

-- A loser that is still visible loses the columns, one tick after its reservation.
unfoldable pub null_row : List Str → Reservation → TableState → TableState
unfolding is_visible update_row
null_row columns r t =
    if is_visible r.row_id t.membership
    then update_row r.row_id (next_logical r.hlc (str "__uniqueness_arbiter__"))
        (map (λ column. (column, none)) columns) t
    else t

unfoldable pub null_reservations : Str → List Str → List Reservation → RowStore → RowStore
unfolding on_table null_row
null_reservations name columns [] s = s
null_reservations name columns (r ∷ l) s =
    null_reservations name columns l (if is_lost r then on_table name (null_row columns r) s else s)

unfoldable pub null_values : Str → List Str → List (Bytes × List Reservation) → RowStore → RowStore
unfolding null_reservations
null_values name columns [] s = s
null_values name columns ((value, l) ∷ values) s =
    null_values name columns values (null_reservations name columns l s)

unfoldable pub null_columns : Str → List (Str × UniqueIndex) → RowStore → Option RowStore
unfolding null_values cols_to_null
null_columns name [] s = some s
null_columns name ((column, idx) ∷ l) s =
    and_then (cols_to_null column)
      (λ columns. null_columns name l (null_values name columns idx.reservations.entries s))

-- The loop over the elections of all tables; `none` is a panic.
unfoldable pub null_losers : List (Str × TableUniqueness) → RowStore → Option RowStore
unfolding null_columns
null_losers [] s = some s
null_losers ((name, u) ∷ l) s = and_then (null_columns name u.columns.entries s) (null_losers l)
