-- ===== src/Engine/Termination.antt =====
-- The rounds of the cascade loop in `rebuild_store` of src/api/engine.rs, by the rows visible.
use conflict_free_oltp_v.Base.{
  ℕ, zero, suc, ◌+◌, ◌≤◌, ◌<◌, true, false, some, List, [], ◌∷◌, map, filter, any, length, ◌≡◌,
  refl, ◌⊎◌, sym, ap, ◌∙◌, arith, Bool-cases, Option-cases, inl, inr, Str, list_ord, nat_ord, beq,
  beq_refl, subst, if◌then◌else◌,
}
use conflict_free_oltp_v.BTree.{BTreeMap, get, insert}
use conflict_free_oltp_v.BTree.Laws.{get-insert}
use conflict_free_oltp_v.BTree.Weight.{weight, weight_of, weight-insert}
use conflict_free_oltp_v.Crdt.Clocks.{HlcTimestamp}
use conflict_free_oltp_v.Crdt.OrSet
use conflict_free_oltp_v.Crdt.OrSet.{
  OrMap, OrMapEntry, is_visible, is_visible_entry, delete_row, delete_entry,
}
use conflict_free_oltp_v.Crdt.OrSet.Rows.{among-visible_rows}
use conflict_free_oltp_v.Crdt.OrSet.Visibility.{is_visible-delete_row}
use conflict_free_oltp_v.Storage.RowStore.{
  RowStore, TableState, get_table, on_table, delete_table_row,
}
use conflict_free_oltp_v.Engine.FkCascade.{
  FkEdge, to_cascade, orphans, deleted_parent, deleted_parents, delete_rows, cascade_edge,
  cascade_round, cascade_rounds, cascade_deletions, visible_count, fk_map,
}

-- What a row counts for.
abbrev counts : OrMapEntry → ℕ
counts e = if is_visible_entry e then 1 else 0

abbrev visible_in : TableState → ℕ
visible_in t = length (OrSet.visible_rows t.membership)

length-filter :
    (l : List (Str × OrMapEntry))
    → length (map (λ e. e.0) (filter (λ e. is_visible_entry e.1) l)) ≡ weight_of counts l
unfolding weight_of
length-filter [] = refl
length-filter ((k, e) ∷ l) = ground (arith, length-filter l)

length-visible_rows : (m : OrMap) → length (OrSet.visible_rows m) ≡ weight counts m.rows
unfolding OrSet.visible_rows weight
length-visible_rows m = length-filter m.rows.entries

-- The entry that a deletion leaves is not visible.
deleted-hidden :
    (row_id : Str) (hlc : HlcTimestamp) (m : OrMap) (e : OrMapEntry)
    → get row_id m.rows ≡ some e
    → is_visible_entry (delete_entry hlc false e) ≡ false
unfolding is_visible delete_row
deleted-hidden row_id hlc m e at = ground (
  arith,
  is_visible-delete_row row_id row_id hlc false m,
  get-insert row_id row_id (delete_entry hlc false e) m.rows,
  beq_refl row_id,
)

-- A deletion takes its row off the visible ones.
length-delete_row :
    (row_id : Str) (hlc : HlcTimestamp) (m : OrMap)
    → length (OrSet.visible_rows (delete_row row_id hlc false m))
        + (if is_visible row_id m then 1 else 0)
      ≡ length (OrSet.visible_rows m)
unfolding is_visible delete_row
length-delete_row row_id hlc m = elim (Option-cases (get row_id m.rows)) [
  | inl missing ↦ ground arith
  | inr (e, at) ↦
      let e' = delete_entry hlc false e in
      ground (
        arith,
        length-visible_rows m,
        length-visible_rows (record { rows = insert row_id e' m.rows }),
        weight-insert counts row_id e e' m.rows at,
        deleted-hidden row_id hlc m e at,
      )
]

delete_rows_le :
    (l : List (Str × HlcTimestamp)) (t : TableState) → visible_in (delete_rows l t) ≤ visible_in t
unfolding delete_rows delete_table_row
delete_rows_le [] t = omega arith
delete_rows_le ((id, hlc) ∷ l) t = omega (
  arith,
  delete_rows_le l (delete_table_row id hlc false t),
  length-delete_row id hlc t.membership,
)

-- The first row of the list of orphans is one of the rows looked at.
first_orphan :
    (fk_column : Str) (deleted : BTreeMap Str HlcTimestamp) (t : TableState) (ids : List Str)
    (x : Str × HlcTimestamp) (l : List (Str × HlcTimestamp))
    → orphans fk_column deleted t ids ≡ x ∷ l
    → any (λ k. beq k x.0) ids ≡ true
unfolding orphans
first_orphan fk_column deleted t [] x l h = absurd (cc)
first_orphan fk_column deleted t (id ∷ ids) x l h =
    elim (Option-cases (deleted_parent fk_column deleted t id)) [
      | inl kept ↦ ground (arith, first_orphan fk_column deleted t ids x l)
      | inr (ts, at) ↦ ground (arith, beq_refl id)
    ]

delete_rows_lt :
    (x : Str × HlcTimestamp) (l : List (Str × HlcTimestamp)) (t : TableState)
    → is_visible x.0 t.membership ≡ true
    → visible_in (delete_rows (x ∷ l) t) < visible_in t
unfolding delete_rows delete_table_row
delete_rows_lt x l t h = ground (
  arith,
  delete_rows_le l (delete_table_row x.0 x.1 false t),
  length-delete_row x.0 x.1 t.membership,
)

on_table-there :
    (name : Str) (f : TableState → TableState) (s : RowStore) (t : TableState)
    → get_table name s ≡ some t
    → on_table name f s ≡ record { tables = insert name (f t) s.tables }
unfolding on_table
on_table-there name f s t h = ground arith

-- A foreign key with orphans hides a row.
cascade_edge_lt :
    (fk : FkEdge) (s : RowStore) (x : Str × HlcTimestamp) (l : List (Str × HlcTimestamp))
    → to_cascade fk s ≡ x ∷ l
    → visible_count (cascade_edge fk s) < visible_count s
unfolding to_cascade visible_count
cascade_edge_lt fk s x l h = elim (Option-cases (get_table fk.child_table s)) [
  | inl missing ↦ absurd (ground arith)
  | inr (t, at) ↦
      let deleted = deleted_parents fk.parent_table s in
      let found : orphans fk.fk_column deleted t (OrSet.visible_rows t.membership) ≡ x ∷ l =
        ground arith in
      let seen =
        sym (among-visible_rows x.0 t.membership)
        ∙ first_orphan fk.fk_column deleted t (OrSet.visible_rows t.membership) x l found in
      let fewer = delete_rows_lt x l t seen in
      let total = weight-insert visible_in fk.child_table t (delete_rows (x ∷ l) t) s.tables at in
      let after : cascade_edge fk s
          ≡ record { tables = insert fk.child_table (delete_rows (x ∷ l) t) s.tables } =
        ap (λ m. on_table fk.child_table (delete_rows m) s) h
        ∙ on_table-there fk.child_table (delete_rows (x ∷ l)) s t at in
      subst (λ z. visible_count z < visible_count s) (sym after) (omega (arith, fewer, total))
]

-- No foreign key of the list has a visible child of a deleted parent.
abbrev pub NoneLeft : List FkEdge → RowStore → Type 0
NoneLeft [] s = Unit {0}
NoneLeft (fk ∷ fks) s = (to_cascade fk s ≡ []) × NoneLeft fks s

cascade_round-count :
    (fks : List FkEdge) (s : RowStore)
    → (visible_count (cascade_round fks s).0 ≤ visible_count s)
      × ((cascade_round fks s).1 ≡ true → visible_count (cascade_round fks s).0 < visible_count s)
unfolding cascade_round
cascade_round-count [] s = (omega arith, λ h. absurd (cc))
cascade_round-count (fk ∷ fks) s = elim (list-cases (to_cascade fk s)) [
  | inl none_left ↦ rw (cascade_round, none_left) (cascade_round-count fks s)
  | inr (x, l, some_left) ↦
      let less = cascade_edge_lt fk s x l some_left in
      let rest = (cascade_round-count fks (cascade_edge fk s)).0 in
      rw (cascade_round, some_left) (omega (arith, less, rest), λ h. omega (arith, less, rest))
]
  where
    list-cases :
        (l : List (Str × HlcTimestamp))
        → (l ≡ []) ⊎ ((x : Str × HlcTimestamp) × (m : List (Str × HlcTimestamp)) × (l ≡ x ∷ m))
    list-cases [] = inl refl
    list-cases (x ∷ m) = inr (x, m, refl)

-- A round that deletes nothing leaves the store as it is, which has no orphans.
cascade_round-unchanged :
    (fks : List FkEdge) (s : RowStore)
    → (cascade_round fks s).1 ≡ false
    → ((cascade_round fks s).0 ≡ s) × NoneLeft fks s
unfolding cascade_round
cascade_round-unchanged [] s h = (refl, tt)
cascade_round-unchanged (fk ∷ fks) s h = ground (arith, cascade_round-unchanged fks s)

cascade_rounds-total :
    (fuel : ℕ) (fks : List FkEdge) (s : RowStore)
    → visible_count s < fuel
    → (s' : RowStore) × (cascade_rounds fuel fks s ≡ some s') × NoneLeft fks s'
unfolding cascade_rounds
cascade_rounds-total zero fks s h = absurd (omega arith)
cascade_rounds-total (suc fuel) fks s h = elim (Bool-cases (cascade_round fks s).1) [
  | inl changed ↦
      let less = (cascade_round-count fks s).1 changed in
      rw changed (cascade_rounds-total fuel fks (cascade_round fks s).0 (omega (arith, less)))
  | inr same ↦
      let (stays, clean) = cascade_round-unchanged fks s same in (s, rw same (ap some stays), clean)
]

-- The cascade loop ends, with nothing left to cascade.
pub cascade_deletions-NoneLeft :
    (s : RowStore) → (s' : RowStore) × (cascade_deletions s ≡ some s') × NoneLeft (fk_map s) s'
unfolding cascade_deletions
cascade_deletions-NoneLeft s =
    cascade_rounds-total (suc (visible_count s)) (fk_map s) s (omega arith)
