-- ===== src/Storage/RowStore/Reads.antt =====
-- What the rows of a table of src/storage/row_store.rs hold after an insertion or an update under a
-- stamp that is later than all of the table.
use conflict_free_oltp_v.Base.{
  true, false, ◌||◌, Option, none, some, ◌≡◌, sym, ap, ◌∙◌, subst, arith, beq, blt, eq_of_beq,
  Bool-cases, Option-cases, inl, inr, Bytes, Str, list_ord, nat_ord, unwrap_or, if◌then◌else◌, find,
}
use conflict_free_oltp_v.BTree.{get, contains}
use conflict_free_oltp_v.BTree.Laws.{get-update_entry}
use conflict_free_oltp_v.Crdt.Clocks.{HlcTimestamp}
use conflict_free_oltp_v.Crdt.Clocks.Monotone.{Later}
use conflict_free_oltp_v.Crdt.Token.{Token, token_ord, token}
use conflict_free_oltp_v.Crdt.Merge.{Cells}
use conflict_free_oltp_v.Crdt.MvRegister
use conflict_free_oltp_v.Crdt.OrSet
use conflict_free_oltp_v.Crdt.OrSet.{OrMap, is_visible, is_visible_entry, insert_entry}
use conflict_free_oltp_v.Crdt.OrSet.Visibility.{is_visible-insert_row, removed_token}
use conflict_free_oltp_v.Storage.RowStore.{
  CrdtRow, TableState, no_row, write_cells, read_cell, insert_table_row, update_row,
}
use conflict_free_oltp_v.Storage.RowStore.Behind.{
  CellBehind, AtMost, RegisterBehind, RowBehind, TableBehind,
}
use conflict_free_oltp_v.BTree.Each.{Each-empty}
use conflict_free_oltp_v.Storage.RowStore.Writes.{
  register, IsDistinct, overlay, read_cell-write_cells,
}

-- A column of the row of an id, null where there is no row.
abbrev pub value_at : Str → Str → TableState → Option Bytes
value_at x column t = read_cell column (unwrap_or no_row (get x t.rows))

-- A second overlay changes nothing.
pub overlay_idem :
    (column : Str) (cells : Cells) (before : Option Bytes)
    → overlay column cells (overlay column cells before) ≡ overlay column cells before
overlay_idem column cells before = elim (Option-cases (find (λ c. beq c.0 column) cells)) [
  | inl missing ↦ ground arith
  | inr (c, at) ↦ ground arith
]

above : (k : Token) (u hlc : HlcTimestamp) → AtMost k u → Later u hlc → blt (token hlc) k ≡ false
unfolding token_ord list_ord
above k u hlc a h = ground arith

module _ (u hlc : HlcTimestamp) (later : Later u hlc) where
  RowBehind-register :
      (column : Str) (row : CrdtRow) → RowBehind u row → RegisterBehind u (register column row)
  unfolding MvRegister.new
  RowBehind-register column row b = elim (Option-cases (get column row.cells)) [
    | inl missing ↦
        subst (λ o. RegisterBehind u (unwrap_or MvRegister.new o)) (sym missing)
          (Each-empty (CellBehind u))
    | inr (r, at) ↦
        subst (λ o. RegisterBehind u (unwrap_or MvRegister.new o)) (sym at) (b column r at)
  ]

  -- Writing a row of the table: the columns written read what was written.
  read_cell-written :
      (column : Str) (cells : Cells) (row : CrdtRow)
      → IsDistinct cells
      → RowBehind u row
      → read_cell column (write_cells hlc cells row) ≡ overlay column cells (read_cell column row)
  read_cell-written column cells row distinct b =
      read_cell-write_cells hlc column cells row distinct
        (λ k e found. above k u hlc (RowBehind-register column row b k e found).0 later)

  row_behind :
      (x : Str) (t : TableState) → TableBehind u t → RowBehind u (unwrap_or no_row (get x t.rows))
  row_behind x t b = elim (Option-cases (get x t.rows)) [
    | inl missing ↦
        subst (λ o. RowBehind u (unwrap_or no_row o)) (sym missing)
          (Each-empty (λ c r. RegisterBehind u r))
    | inr (row, at) ↦ subst (λ o. RowBehind u (unwrap_or no_row o)) (sym at) (b.rows x row at)
  ]

  -- One row is written over, and the others stay.
  pub value_at-update_row :
      (id x column : Str) (cells : Cells) (t : TableState)
      → IsDistinct cells
      → TableBehind u t
      → value_at x column (update_row id hlc cells t)
        ≡ (if beq id x then overlay column cells (value_at x column t) else value_at x column t)
  unfolding update_row
  value_at-update_row id x column cells t distinct b =
      let written : CrdtRow = write_cells hlc cells (unwrap_or no_row (get id t.rows)) in
      let at : get x (update_row id hlc cells t).rows
          ≡ (if beq id x then some written else get x t.rows) =
        get-update_entry id x (λ r. write_cells hlc cells (unwrap_or no_row r)) t.rows in
      elim (Bool-cases (beq id x)) [
        | inr other ↦ ground (arith, at)
        | inl same ↦ ground (
          arith,
          at,
          read_cell-written column cells (unwrap_or no_row (get id t.rows)) distinct
              (row_behind id t b),
          eq_of_beq id x same,
        )
      ]

  -- An insertion writes as an update does.
  pub value_at-insert_table_row :
      (id x column : Str) (cells : Cells) (t : TableState)
      → IsDistinct cells
      → TableBehind u t
      → value_at x column (insert_table_row id hlc cells t)
        ≡ (if beq id x then overlay column cells (value_at x column t) else value_at x column t)
  unfolding insert_table_row
  value_at-insert_table_row id x column cells t distinct b =
      unfold update_row in value_at-update_row id x column cells t distinct b

  removed-later :
      (id : Str) (t : TableState)
      → TableBehind u t
      → removed_token id t.membership (token hlc) ≡ false
  unfolding removed_token
  removed-later id t b = elim (Option-cases (get id t.membership.rows)) [
    | inl missing ↦ ground arith
    | inr (e, at) ↦ elim (Bool-cases (contains (token hlc) e.removed)) [
      | inr free ↦ ground arith
      | inl removed ↦
          let a = (b.members id e at).tokens (token hlc) (ground arith) in absurd (omega arith)
    ]
  ]

  -- The row becomes visible, and the others are as visible as before.
  pub is_visible-insert_table_row :
      (id x : Str) (cells : Cells) (t : TableState)
      → TableBehind u t
      → is_visible x (insert_table_row id hlc cells t).membership
        ≡ (beq id x || is_visible x t.membership)
  unfolding insert_table_row
  is_visible-insert_table_row id x cells t b = elim (Bool-cases (beq id x)) [
    | inl same ↦ rw same (
        subst (λ i. is_visible i (OrSet.insert_row id hlc t.membership) ≡ true)
          (eq_of_beq id x same) (is_visible-insert_row id hlc t.membership (removed-later id t b)))
    | inr other ↦ rw other (
        unfold is_visible OrSet.insert_row in
        ap (λ o. elim o [ none ↦ false | some e ↦ is_visible_entry e ])
          (get-update_entry id x (insert_entry hlc) t.membership.rows ∙ rw other))
  ]
