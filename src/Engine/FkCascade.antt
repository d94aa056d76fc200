-- ===== src/Engine/FkCascade.antt =====
-- The second half of `rebuild_store` in src/api/engine.rs: under the cascade policy, rows that refer
-- to a deleted parent are deleted, until none is left.
use conflict_free_oltp_v.Base.{
  ℕ, zero, suc, Bool, true, false, Option, none, some, List, [], ◌∷◌, ◌++◌, map, length, last,
  list_ord, nat_ord, and_then, if◌then◌else◌, Str, str,
}
use conflict_free_oltp_v.BTree.{BTreeMap, empty, get, insert, keys}
use conflict_free_oltp_v.BTree.Weight.{weight}
use conflict_free_oltp_v.Crdt.Clocks.{HlcTimestamp}
use conflict_free_oltp_v.Crdt.Token.{token_ord}
use conflict_free_oltp_v.Crdt.OrSet
use conflict_free_oltp_v.Crdt.OrSet.{OrMapEntry, is_live}
use conflict_free_oltp_v.Crdt.Merge.{ForeignKeyDef}
use conflict_free_oltp_v.Storage.RowStore.{
  RowStore, TableState, get_table, on_table, delete_table_row, read_cell,
}
use conflict_free_oltp_v.Utf8.{from_utf8_lossy}
use conflict_free_oltp_v.Engine.State.{next_logical}

-- A foreign key of a table, with the names of the child and the parent table.
pub record FkEdge : Type 0 where
  pub child_table : Str
  pub fk_column : Str
  pub parent_table : Str

abbrev pub edge : Str → ForeignKeyDef → FkEdge
edge child_table fk = record {
  child_table = child_table;
  fk_column = fk.column;
  parent_table = fk.ref_table;
}

unfoldable pub edges_of : List (Str × TableState) → List FkEdge
edges_of [] = []
edges_of ((name, t) ∷ l) = map (edge name) t.schema.foreign_keys ++ edges_of l

unfoldable pub fk_map : RowStore → List FkEdge
unfolding edges_of
fk_map s = edges_of s.tables.entries

-- The stamp of a deletion: the tombstone's, or the greatest token removed.
unfoldable pub deletion_hlc : OrMapEntry → HlcTimestamp
deletion_hlc e = elim e.tombstone_ts [
  | some ts ↦ ts
  | none ↦ elim (last (keys e.removed)) [
    | some t ↦ record { wall_ms = t.0; logical = t.1; peer_id = t.2 }
    | none ↦ record { wall_ms = 0; logical = 0; peer_id = str "__cascade__" }
  ]
]

unfoldable pub collect_deleted :
    List (Str × OrMapEntry) → BTreeMap Str HlcTimestamp → BTreeMap Str HlcTimestamp
unfolding deletion_hlc is_live
collect_deleted [] m = m
collect_deleted ((row_id, e) ∷ l) m =
    collect_deleted l (if is_live e then m else insert row_id (deletion_hlc e) m)

-- The rows of a table that are not live, with the stamps of their deletions.
unfoldable pub deleted_parents : Str → RowStore → BTreeMap Str HlcTimestamp
unfolding collect_deleted
deleted_parents name s = elim (get_table name s) [
  | none ↦ empty
  | some t ↦ collect_deleted t.membership.rows.entries empty
]

-- The parent that the foreign key cell of a row names, if it is deleted.
abbrev pub deleted_parent : Str → BTreeMap Str HlcTimestamp → TableState → Str → Option HlcTimestamp
deleted_parent fk_column deleted t child_id =
    and_then (get child_id t.rows)
      (λ row. and_then (read_cell fk_column row) (λ value. get (from_utf8_lossy value) deleted))

unfoldable pub orphans :
    Str → BTreeMap Str HlcTimestamp → TableState → List Str → List (Str × HlcTimestamp)
orphans fk_column deleted t [] = []
orphans fk_column deleted t (id ∷ ids) =
    let rest = orphans fk_column deleted t ids in
    elim (deleted_parent fk_column deleted t id) [
      | none ↦ rest
      | some ts ↦ (id, next_logical ts (str "__cascade__")) ∷ rest
    ]

-- The visible children of deleted parents along one foreign key. With no deleted parent there are
-- none.
unfoldable pub to_cascade : FkEdge → RowStore → List (Str × HlcTimestamp)
unfolding deleted_parents orphans
to_cascade fk s = elim (get_table fk.child_table s) [
  | none ↦ []
  | some t ↦
      orphans fk.fk_column (deleted_parents fk.parent_table s) t (OrSet.visible_rows t.membership)
]

unfoldable pub delete_rows : List (Str × HlcTimestamp) → TableState → TableState
unfolding delete_table_row
delete_rows [] t = t
delete_rows ((id, hlc) ∷ l) t = delete_rows l (delete_table_row id hlc false t)

abbrev pub cascade_edge : FkEdge → RowStore → RowStore
cascade_edge fk s = on_table fk.child_table (delete_rows (to_cascade fk s)) s

-- One round over the foreign keys, and whether it deleted anything.
unfoldable pub cascade_round : List FkEdge → RowStore → RowStore × Bool
unfolding to_cascade on_table delete_rows
cascade_round [] s = (s, false)
cascade_round (fk ∷ fks) s = elim (to_cascade fk s) [
  | [] ↦ cascade_round fks s
  | x ∷ l ↦ ((cascade_round fks (cascade_edge fk s)).0, true)
]

-- `while changed`, with fuel.
unfoldable pub cascade_rounds : ℕ → List FkEdge → RowStore → Option RowStore
unfolding cascade_round
cascade_rounds zero fks s = none
cascade_rounds (suc fuel) fks s =
    let (s', changed) = cascade_round fks s in
    let rest = cascade_rounds fuel fks s' in if changed then rest else some s'

-- The visible rows of all tables.
unfoldable pub visible_count : RowStore → ℕ
unfolding weight
visible_count s = weight (λ t. length (OrSet.visible_rows t.membership)) s.tables

-- A round that changes something hides a row, so that the visible rows and one are fuel enough.
unfoldable pub cascade_deletions : RowStore → Option RowStore
unfolding cascade_rounds fk_map
cascade_deletions s = cascade_rounds (suc (visible_count s)) (fk_map s) s
