-- ===== src/Engine/Total.antt =====
-- When `rebuild_store` of src/api/engine.rs returns.
use conflict_free_oltp_v.Base.{
  Bool, true, false, none, some, List, [], ◌∷◌, any, ◌≡◌, refl, ◌∙◌, arith, Option-cases, inl, inr,
  Str, list_ord, nat_ord, pair_ord, unwrap_or, is_some,
}
use conflict_free_oltp_v.BTree.{BTreeMap, get, update_entry}
use conflict_free_oltp_v.BTree.Every.{Every, Every-insert, get_of_every}
use conflict_free_oltp_v.Sort.{any-sort_by}
use conflict_free_oltp_v.Crdt.Clocks.{stamp_ord}
use conflict_free_oltp_v.Crdt.Merge.{
  CrdtOp, insert_row, update_cells, delete_row, reserve_unique, create_table,
}
use conflict_free_oltp_v.Storage.RowStore.{RowStore}
use conflict_free_oltp_v.Constraints.Uniqueness.{
  TableUniqueness, UniqueIndex, Reservation, on_index, reserve, new_index, new_uniqueness,
}
use conflict_free_oltp_v.Constraints.ForeignKeys.{FkPolicy, tombstone, cascade, orphan}
use conflict_free_oltp_v.Engine.Columns.{cols_to_null}
use conflict_free_oltp_v.Engine.State.{reserve_in, reservation}
use conflict_free_oltp_v.Engine.Replay.{
  Replayed, replay, replay_op, replay_order, replay_key, new_replayed, null_values, null_columns,
  null_losers,
}
use conflict_free_oltp_v.Engine.Termination.{cascade_deletions-NoneLeft}
use conflict_free_oltp_v.Engine.Rebuild.{rebuilt, cascade_if}

-- The slice of the column's name would panic.
abbrev pub is_ill_named : CrdtOp → Bool
is_ill_named (reserve_unique name column value row_id t) = elim (cols_to_null column) [
  | none ↦ true
  | some l ↦ false
]
is_ill_named (insert_row name row_id t cells) = false
is_ill_named (update_cells name row_id t cells) = false
is_ill_named (delete_row name row_id t fk_tombstone) = false
is_ill_named (create_table name schema t) = false

abbrev Named : Str → UniqueIndex → Type 0
Named column idx = is_some (cols_to_null column) ≡ true

abbrev AllNamed : Str → TableUniqueness → Type 0
AllNamed name u = Every Named u.columns.entries

reserve_in-AllNamed :
    (name column : Str) (r : Reservation) (m : BTreeMap Str TableUniqueness)
    → is_some (cols_to_null column) ≡ true
    → Every AllNamed m.entries
    → Every AllNamed (reserve_in name column r m).entries
unfolding reserve_in on_index update_entry
reserve_in-AllNamed name column r m h e =
    Every-insert AllNamed name (on_index column (reserve r) (unwrap_or new_uniqueness (get name m)))
      m
      (Every-insert Named column
        (reserve r
          (unwrap_or new_index (get column (unwrap_or new_uniqueness (get name m)).columns)))
        (unwrap_or new_uniqueness (get name m)).columns h before)
      e
  where
    before : AllNamed name (unwrap_or new_uniqueness (get name m))
    before = elim (Option-cases (get name m)) [
      | inl missing ↦ rw missing tt
      | inr (u, at) ↦ rw at (get_of_every AllNamed name u m e at)
    ]

replay-AllNamed :
    (l : List CrdtOp) (r : Replayed)
    → any is_ill_named l ≡ false
    → Every AllNamed r.uniqueness.entries
    → Every AllNamed (replay l r).uniqueness.entries
unfolding replay replay_op
replay-AllNamed [] r h e = e
replay-AllNamed (insert_row name row_id t cells ∷ l) r h e =
    replay-AllNamed l (replay_op (insert_row name row_id t cells) r) h e
replay-AllNamed (update_cells name row_id t cells ∷ l) r h e =
    replay-AllNamed l (replay_op (update_cells name row_id t cells) r) h e
replay-AllNamed (delete_row name row_id t fk_tombstone ∷ l) r h e =
    replay-AllNamed l (replay_op (delete_row name row_id t fk_tombstone) r) h e
replay-AllNamed (create_table name schema t ∷ l) r h e =
    replay-AllNamed l (replay_op (create_table name schema t) r) h e
replay-AllNamed (reserve_unique name column value row_id t ∷ l) r h e =
    replay-AllNamed l (replay_op (reserve_unique name column value row_id t) r) (ground arith)
      (reserve_in-AllNamed name column (reservation value row_id t) r.uniqueness (ground arith) e)

null_columns-total :
    (name : Str) (l : List (Str × UniqueIndex)) (s : RowStore)
    → Every Named l
    → (s' : RowStore) × (null_columns name l s ≡ some s')
unfolding null_columns
null_columns-total name [] s e = (s, refl)
null_columns-total name ((column, idx) ∷ l) s e = elim (Option-cases (cols_to_null column)) [
  | inl panics ↦ absurd (ground arith)
  | inr (columns, at) ↦
      let (s', done) =
        null_columns-total name l (null_values name columns idx.reservations.entries s) e.1 in
      (s', ground arith)
]

null_losers-total :
    (l : List (Str × TableUniqueness)) (s : RowStore)
    → Every AllNamed l
    → (s' : RowStore) × (null_losers l s ≡ some s')
unfolding null_losers
null_losers-total [] s e = (s, refl)
null_losers-total ((name, u) ∷ l) s e =
    let (s', done) = null_columns-total name u.columns.entries s e.0 in
    let (s'', rest) = null_losers-total l s' e.1 in (s'', ground arith)

cascade_if-total :
    (policy : FkPolicy) (s : RowStore) → (s' : RowStore) × (cascade_if policy s ≡ some s')
unfolding cascade_if
cascade_if-total tombstone s = (s, refl)
cascade_if-total cascade s = let (s', done, clean) = cascade_deletions-NoneLeft s in (s', done)
cascade_if-total orphan s = (s, refl)

-- A rebuild of any list of operations without an ill-formed composite name gives a result, under
-- every policy: it neither panics nor loops.
pub rebuilt-total :
    (policy : FkPolicy) (l : List CrdtOp)
    → any is_ill_named l ≡ false
    → (r : Replayed) × (rebuilt policy l ≡ some r)
unfolding rebuilt replay_order
rebuilt-total policy l h =
    let r = replay (replay_order l) new_replayed in
    let named =
      replay-AllNamed (replay_order l) new_replayed (any-sort_by replay_key is_ill_named l ∙ h)
        tt in
    let (s, nulled) = null_losers-total r.uniqueness.entries r.store named in
    let (s', cascaded) = cascade_if-total policy s in (record r { store = s' }, ground arith)
