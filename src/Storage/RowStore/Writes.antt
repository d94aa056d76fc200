-- ===== src/Storage/RowStore/Writes.antt =====
-- The cells of a row of src/storage/row_store.rs after the writes of an operation.
use conflict_free_oltp_v.Base.{
  Bool, false, Option, none, some, [], ◌∷◌, find, any, unwrap_or, ◌≡◌, refl, sym, ◌∙◌, subst, arith,
  beq, blt, eq_of_beq, Bool-cases, inl, inr, Bytes, Str, list_ord, nat_ord, if◌then◌else◌,
}
use conflict_free_oltp_v.BTree.{get}
use conflict_free_oltp_v.BTree.Laws.{get-update_entry}
use conflict_free_oltp_v.Crdt.Clocks.{HlcTimestamp}
use conflict_free_oltp_v.Crdt.Token.{Token, token_ord, token}
use conflict_free_oltp_v.Crdt.Merge.{Cells}
use conflict_free_oltp_v.Crdt.MvRegister
use conflict_free_oltp_v.Crdt.MvRegister.{MvEntry, MvRegister}
use conflict_free_oltp_v.Crdt.MvRegister.Write.{read-write}
use conflict_free_oltp_v.Storage.RowStore.{CrdtRow, write_cell, write_cells, read_cell}

-- No entry of the register has a later stamp.
abbrev pub NoLater : HlcTimestamp → MvRegister → Type 0
NoLater hlc r = (k : Token) (e : MvEntry) → get k r.entries ≡ some e → blt (token hlc) k ≡ false

-- The register of a column, empty if there is none.
abbrev pub register : Str → CrdtRow → MvRegister
register column row = unwrap_or MvRegister.new (get column row.cells)

-- The column has a cell.
abbrev pub mentions : Str → Cells → Bool
mentions column cells = any (λ c. beq c.0 column) cells

-- No column has two cells.
abbrev pub IsDistinct : Cells → Type 0
IsDistinct [] = Unit {0}
IsDistinct ((column, value) ∷ cells) = (mentions column cells ≡ false) × IsDistinct cells

-- What a column holds once the cells are written over a value.
abbrev pub overlay : Str → Cells → Option Bytes → Option Bytes
overlay column cells before = elim (find (λ c. beq c.0 column) cells) [
  | none ↦ before
  | some c ↦ c.1
]

module _ (hlc : HlcTimestamp) where
  get-write_cell :
      (d column : Str) (value : Option Bytes) (row : CrdtRow)
      → get column (write_cell d hlc value row).cells ≡ (
          if beq d column
          then some (MvRegister.write hlc value (register d row))
          else get column row.cells)
  unfolding write_cell
  get-write_cell d column value row =
      get-update_entry d column (λ r. MvRegister.write hlc value (unwrap_or MvRegister.new r))
        row.cells

  get-write_cells_other :
      (column : Str) (cells : Cells) (row : CrdtRow)
      → mentions column cells ≡ false
      → get column (write_cells hlc cells row).cells ≡ get column row.cells
  unfolding write_cells
  get-write_cells_other column [] row h = refl
  get-write_cells_other column ((d, value) ∷ cells) row h = ground (
    arith,
    get-write_cells_other column cells (write_cell d hlc value row),
    get-write_cell d column value row,
  )

  -- Each column that is written reads the value written, if its register has no later stamp, and
  -- every other column reads as before.
  pub read_cell-write_cells :
      (column : Str) (cells : Cells) (row : CrdtRow)
      → IsDistinct cells
      → NoLater hlc (register column row)
      → read_cell column (write_cells hlc cells row) ≡ overlay column cells (read_cell column row)
  unfolding write_cells read_cell
  read_cell-write_cells column [] row distinct top = refl
  read_cell-write_cells column ((d, value) ∷ cells) row distinct top =
      elim (Bool-cases (beq d column)) [
        | inl same ↦
            let e = eq_of_beq d column same in
            let absent : mentions column cells ≡ false =
              subst (λ c. mentions c cells ≡ false) e distinct.0 in
            let newest : NoLater hlc (register d row) =
              subst (λ c. NoLater hlc (register c row)) (sym e) top in
            ground (
              arith,
              get-write_cells_other column cells (write_cell d hlc value row),
              get-write_cell d column value row,
              read-write hlc value (register d row) newest,
            )
        | inr other ↦
            let kept : get column (write_cell d hlc value row).cells ≡ get column row.cells =
              get-write_cell d column value row ∙ rw other in
            let newest : NoLater hlc (register column (write_cell d hlc value row)) =
              subst (λ o. NoLater hlc (unwrap_or MvRegister.new o)) (sym kept) top in
            ground (
              arith,
              read_cell-write_cells column cells (write_cell d hlc value row) distinct.1 newest,
            )
      ]
