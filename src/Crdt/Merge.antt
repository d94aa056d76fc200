-- ===== src/Crdt/Merge.antt =====
-- src/crdt/merge.rs: schemas and the operations that the log records.
mod Composite
mod Tests
unfoldable pub use Composite.*
use native.Mathlib.Decide.{ℕ_discrete}
use mathlib.Core.Bool.{decide}
use conflict_free_oltp_v.Base.{
  ◌∷◌, Bool, true, false, ◌≡◌, arith, not, ◌&&◌, Option, List, map, find, filter, map_option, Bytes,
  Str,
}
use conflict_free_oltp_v.Crdt.Clocks.{HlcTimestamp}

pub data ColumnType : Type 0 where
  text integer real blob boolean : ColumnType

pub record ColumnDef : Type 0 where
  pub name : Str
  pub col_type : ColumnType
  pub not_null : Bool
  pub default_value : Option Bytes
  pub primary_key : Bool
  pub unique : Bool

pub record ForeignKeyDef : Type 0 where
  pub column : Str
  pub ref_table : Str
  pub ref_column : Str

-- The foreign key is one of the list.
pub data IsIn (fk : ForeignKeyDef) : List ForeignKeyDef → Type 0 where
  here : {fks : List ForeignKeyDef} → IsIn fk (fk ∷ fks)
  there : {other : ForeignKeyDef} {fks : List ForeignKeyDef} → IsIn fk fks → IsIn fk (other ∷ fks)

pub record IndexDef : Type 0 where
  pub name : Str
  pub columns : List Str

pub record TableSchema : Type 0 where
  pub name : Str
  pub columns : List ColumnDef
  pub foreign_keys : List ForeignKeyDef
  pub indexes : List IndexDef
  pub composite_unique_constraints : List (List Str)

-- Column names with their values, as an operation carries them.
abbrev pub Cells : Type 0
Cells = List (Str × Option Bytes)

pub data CrdtOp : Type 0 where
  insert_row : Str → Str → HlcTimestamp → Cells → CrdtOp
  update_cells : Str → Str → HlcTimestamp → Cells → CrdtOp
  delete_row : Str → Str → HlcTimestamp → Bool → CrdtOp
  reserve_unique : Str → Str → Bytes → Str → HlcTimestamp → CrdtOp
  create_table : Str → TableSchema → HlcTimestamp → CrdtOp

abbrev pub hlc : CrdtOp → HlcTimestamp
hlc (insert_row table row_id t cells) = t
hlc (update_cells table row_id t cells) = t
hlc (delete_row table row_id t fk_tombstone) = t
hlc (reserve_unique table column value row_id t) = t
hlc (create_table table schema t) = t

abbrev pub table : CrdtOp → Str
table (insert_row name row_id t cells) = name
table (update_cells name row_id t cells) = name
table (delete_row name row_id t fk_tombstone) = name
table (reserve_unique name column value row_id t) = name
table (create_table name schema t) = name

-- `==` on operations, which is derived field by field.
unfoldable pub CrdtOp-discrete : Discrete CrdtOp
unfolding ℕ_discrete
CrdtOp-discrete = hlevel ℕ_discrete

unfoldable pub primary_key_col : TableSchema → Option Str
primary_key_col s = map_option (λ c. c.name) (find (λ c. c.primary_key) s.columns)

unfoldable pub unique_columns : TableSchema → List Str
unique_columns s = map (λ c. c.name) (filter (λ c. c.unique && not c.primary_key) s.columns)

abbrev pub same_op : CrdtOp → CrdtOp → Bool
same_op a b = elim (CrdtOp-discrete a b) [ yes e ↦ true | no e ↦ false ]

pub same_op_refl : (a : CrdtOp) → same_op a a ≡ true
same_op_refl a = ground arith

pub eq_of_same_op : (a b : CrdtOp) → same_op a b ≡ true → a ≡ b
eq_of_same_op a b h = ground arith

pub same_op_comm : (a b : CrdtOp) → same_op a b ≡ same_op b a
same_op_comm a b = ground arith
