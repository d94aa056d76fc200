-- ===== src/Storage/RowStore/Rows.antt =====
-- The visible rows of a table of src/storage/row_store.rs that pass a test, and the table of a name
-- after a change.
use conflict_free_oltp_v.Base.{
  Bool, false, ◌&&◌, none, some, List, [], ◌∷◌, map, filter, ◌≡◌, refl, ap, ◌∙◌, arith, beq,
  beq_refl, eq_of_beq, Bool-cases, Option-cases, inl, inr, Str, list_ord, nat_ord, map_option,
  if◌then◌else◌,
}
use conflict_free_oltp_v.BTree.{BTreeMap, get}
use conflict_free_oltp_v.BTree.Laws.{get-insert}
use conflict_free_oltp_v.Crdt.Merge.{CrdtOp}
use conflict_free_oltp_v.Crdt.OrSet
use conflict_free_oltp_v.Crdt.OrSet.{is_visible}
use conflict_free_oltp_v.Crdt.OrSet.Rows.{among, among-visible_rows}
use conflict_free_oltp_v.Storage.RowStore.{
  apply_op, CrdtRow, TableState, RowStore, get_table, on_table, visible_rows, with_rows,
}

-- The store after a list of operations.
unfoldable pub store_after : RowStore → List CrdtOp → RowStore
store_after s [] = s
store_after s (op ∷ ops) = store_after (apply_op s op) ops

-- The row of an id passes the test.
abbrev pub row_passes : (CrdtRow → Bool) → BTreeMap Str CrdtRow → Str → Bool
row_passes p rows x = elim (get x rows) [ none ↦ false | some row ↦ p row ]

-- The ids of the visible rows that pass the test.
abbrev pub ids_where : (CrdtRow → Bool) → TableState → List Str
ids_where p t = map (λ e. e.0) (filter (λ e. p e.1) (visible_rows t))

among-with_rows :
    (x : Str) (p : CrdtRow → Bool) (rows : BTreeMap Str CrdtRow) (ids : List Str)
    → among x (map (λ e. e.0) (filter (λ e. p e.1) (with_rows rows ids)))
      ≡ (among x ids && row_passes p rows x)
among-with_rows x p rows [] = refl
among-with_rows x p rows (id ∷ ids) = elim (Bool-cases (beq id x)) [
  | inl same ↦
      ground (arith, among-with_rows x p rows ids, ap (λ k. get k rows) (eq_of_beq id x same))
  | inr other ↦ ground (arith, among-with_rows x p rows ids)
]

pub among-ids_where :
    (x : Str) (p : CrdtRow → Bool) (t : TableState)
    → among x (ids_where p t) ≡ (is_visible x t.membership && row_passes p t.rows x)
unfolding visible_rows
among-ids_where x p t =
    among-with_rows x p t.rows (OrSet.visible_rows t.membership)
    ∙ ap (λ b. b && row_passes p t.rows x) (among-visible_rows x t.membership)

pub empty_of_among : (l : List Str) → ((x : Str) → among x l ≡ false) → l ≡ []
empty_of_among [] h = refl
empty_of_among (c ∷ l) h = absurd (ground (arith, h c, beq_refl c))

pub get_table-on_table :
    (name n : Str) (f : TableState → TableState) (s : RowStore)
    → get_table n (on_table name f s)
      ≡ (if beq name n then map_option f (get_table name s) else get_table n s)
unfolding on_table
get_table-on_table name n f s = elim (Option-cases (get_table name s)) [
  | inl missing ↦ ground (arith, eq_of_beq name n)
  | inr (t, at) ↦ ground (arith, get-insert name n (f t) s.tables)
]
