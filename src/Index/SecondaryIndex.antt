-- ===== src/Index/SecondaryIndex.antt =====
-- src/index/secondary_index.rs: indexes derived from the visible rows of a table.
pub mod RangeScan
mod Tests
use conflict_free_oltp_v.Base.{
  Bool, true, false, Option, none, some, List, [], ◌∷◌, map, filter, Ord, list_ord, nat_ord,
  option_ord, pair_ord, ord_by, beq, blt, not, ◌&&◌, unwrap_or, map_option, if◌then◌else◌, Bytes,
  Str, ◌≡◌, arith,
}
use conflict_free_oltp_v.BTree.{BTreeMap, empty, get, insert, remove, map_values}
use conflict_free_oltp_v.Crdt.Merge.{primary_key_col}
use conflict_free_oltp_v.Storage.RowStore.{CrdtRow, TableState, read_cell, visible_rows}
use conflict_free_oltp_v.Utf8.{from_utf8_lossy}

abbrev pub KeyParts : Type 0
KeyParts = List (Option Bytes)

pub record IndexKey : Type 0 where
  pub key_parts : KeyParts
  pub pk_value : Str

abbrev pub index_pair : IndexKey → KeyParts × Str
index_pair k = (k.key_parts, k.pk_value)

pub index_pair-injective : (j k : IndexKey) → index_pair j ≡ index_pair k → j ≡ k
index_pair-injective j k e = ground arith

-- The derived order: the indexed values, then the primary key.
instance unfoldable pub index_ord : Ord IndexKey
index_ord = ord_by index_pair index_pair-injective

pub record SecondaryIndex : Type 0 where
  pub index_name : Str
  pub indexed_columns : List Str
  pub entries : BTreeMap IndexKey Str

abbrev pub new_index : Str → List Str → SecondaryIndex
new_index name columns = record { index_name = name; indexed_columns = columns; entries = empty }

-- The key of a row: its indexed cells, and its primary key or else its id.
unfoldable pub key_of : List Str → Str → Str → CrdtRow → IndexKey
key_of columns pk_col row_id row = record {
  key_parts = map (λ column. read_cell column row) columns;
  pk_value = unwrap_or row_id (map_option from_utf8_lossy (read_cell pk_col row));
}

unfoldable pub index_rows :
    List Str → Str → List (Str × CrdtRow) → BTreeMap IndexKey Str → BTreeMap IndexKey Str
unfolding key_of
index_rows columns pk_col [] m = m
index_rows columns pk_col ((row_id, row) ∷ l) m =
    index_rows columns pk_col l (insert (key_of columns pk_col row_id row) row_id m)

unfoldable pub rebuild_from : TableState → SecondaryIndex → SecondaryIndex
unfolding index_rows
rebuild_from t idx = record idx {
  entries = elim (primary_key_col t.schema) [
    | none ↦ empty
    | some pk_col ↦ index_rows idx.indexed_columns pk_col (visible_rows t) empty
  ];
}

unfoldable pub update_row :
    Str → Str → Option KeyParts → Option KeyParts → SecondaryIndex → SecondaryIndex
update_row row_id pk_val old_key_parts new_key_parts idx =
    let cleared : BTreeMap IndexKey Str = elim old_key_parts [
      | none ↦ idx.entries
      | some parts ↦ remove (record { key_parts = parts; pk_value = pk_val }) idx.entries
    ] in
    record idx {
      entries = elim new_key_parts [
        | none ↦ cleared
        | some parts ↦ insert (record { key_parts = parts; pk_value = pk_val }) row_id cleared
      ];
    }

-- `key_parts.starts_with(prefix)`
unfoldable pub starts_with : KeyParts → KeyParts → Bool
starts_with parts [] = true
starts_with [] (p ∷ prefix) = false
starts_with (q ∷ parts) (p ∷ prefix) = beq q p && starts_with parts prefix

-- `iter().take_while(p)`
unfoldable pub take_while {ℓ} : {A : Type ℓ} → (A → Bool) → List A → List A
take_while p [] = []
take_while p (x ∷ l) = let rest = take_while p l in if p x then x ∷ rest else []

-- `entries.range(start..)` from the prefix with an empty primary key, while the prefix fits.
unfoldable pub range_scan : KeyParts → SecondaryIndex → List Str
unfolding take_while starts_with
range_scan prefix idx =
    let start : IndexKey = record { key_parts = prefix; pk_value = [] } in
    map (λ e. e.1)
      (take_while (λ e. starts_with (e.0).key_parts prefix)
        (filter (λ e. not (blt e.0 start)) idx.entries.entries))

pub record TableIndexManager : Type 0 where
  pub indexes : BTreeMap Str SecondaryIndex

abbrev pub new_manager : TableIndexManager
new_manager = record { indexes = empty }

unfoldable pub add_index : SecondaryIndex → TableIndexManager → TableIndexManager
add_index idx m = record { indexes = insert idx.index_name idx m.indexes }

-- `for idx in self.indexes.values_mut() { idx.rebuild_from(table) }`
unfoldable pub rebuild_all : TableState → TableIndexManager → TableIndexManager
rebuild_all t m = record { indexes = map_values (λ name. rebuild_from t) m.indexes }
