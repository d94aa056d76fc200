-- ===== src/Storage/Snapshots.antt =====
-- src/storage/snapshots.rs: the canonical bytes of a store. BLAKE3 and the hexadecimal print are
-- code of other crates: parameters.
use conflict_free_oltp_v.Base.{
  ℕ, zero, suc, ◌/◌, ◌%◌, Bool, false, Option, none, some, List, [], ◌∷◌, ◌++◌, length, list_ord,
  nat_ord, if◌then◌else◌, Bytes, Str, str,
}
use conflict_free_oltp_v.BTree.{get}
use conflict_free_oltp_v.Crdt.MvRegister
use conflict_free_oltp_v.Crdt.MvRegister.{MvRegister}
use conflict_free_oltp_v.Crdt.OrSet.{OrMap, is_tombstoned, is_visible}
use conflict_free_oltp_v.Crdt.Merge.{ColumnDef}
use conflict_free_oltp_v.Storage.RowStore.{CrdtRow, TableState, RowStore}

-- `to_le_bytes` of `n` bytes.
unfoldable pub le_bytes : ℕ → ℕ → Bytes
le_bytes zero v = []
le_bytes (suc n) v = (v % 256) ∷ le_bytes n (v / 256)

-- A cell by its canonical value: missing, null or present.
unfoldable pub cell_bytes : Option MvRegister → Bytes
unfolding le_bytes MvRegister.read
cell_bytes none = str "EMPTY"
cell_bytes (some r) = elim (MvRegister.read r) [
  | none ↦ 0 ∷ []
  | some v ↦ 1 ∷ (le_bytes 8 (length v) ++ v)
]

unfoldable pub columns_bytes : List ColumnDef → CrdtRow → Bytes
unfolding cell_bytes
columns_bytes [] row = []
columns_bytes (c ∷ columns) row =
    str "C:"
    ++ (c.name
        ++ (str ":"
            ++ (cell_bytes (get c.name row.cells) ++ (str "|" ++ columns_bytes columns row))))

-- Tombstoned, live or deleted.
unfoldable pub state_bytes : Str → OrMap → Bytes
unfolding is_visible
state_bytes row_id m =
    let tombstoned : Bool = elim (get row_id m.rows) [ none ↦ false | some e ↦ is_tombstoned e ] in
    if tombstoned then str "T" else if is_visible row_id m then str "L" else str "D"

-- The rows come in the order of their ids: the sort changes nothing.
unfoldable pub rows_bytes : List ColumnDef → OrMap → List (Str × CrdtRow) → Bytes
unfolding columns_bytes state_bytes
rows_bytes columns m [] = []
rows_bytes columns m ((row_id, row) ∷ l) =
    str "R:"
    ++ (row_id
        ++ (state_bytes row_id m
            ++ (str "|" ++ (columns_bytes columns row ++ rows_bytes columns m l))))

unfoldable pub tables_bytes : List (Str × TableState) → Bytes
unfolding rows_bytes
tables_bytes [] = []
tables_bytes ((name, t) ∷ l) =
    str "T:"
    ++ (name
        ++ (str "|" ++ (rows_bytes t.schema.columns t.membership t.rows.entries ++ tables_bytes l)))

pub record Snapshot : Type 0 where
  pub hash : Bytes
  pub hex : Str

module _ (blake3 : Bytes → Bytes) (hex_encode : Bytes → Str) where
  unfoldable pub compute_snapshot_hash : RowStore → Bytes
  unfolding tables_bytes
  compute_snapshot_hash s = blake3 (tables_bytes s.tables.entries)

  unfoldable pub compute : RowStore → Snapshot
  unfolding compute_snapshot_hash
  compute s = record { hash = compute_snapshot_hash s; hex = hex_encode (compute_snapshot_hash s) }
