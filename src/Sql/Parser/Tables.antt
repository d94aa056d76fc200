-- ===== src/Sql/Parser/Tables.antt =====
-- src/sql/parser.rs: CREATE TABLE, from its columns and constraints to a schema.
use conflict_free_oltp_v.Base.{
  Bool, true, false, Option, none, List, [], ◌∷◌, ◌++◌, get_elem?, unwrap_or, if◌then◌else◌, beq,
  list_ord, nat_ord, Bytes, Str, str,
}
use conflict_free_oltp_v.Crdt.Merge.{TableSchema, ColumnDef, ForeignKeyDef}
use conflict_free_oltp_v.Sql.Values.{to_bytes}
use conflict_free_oltp_v.Sql.Syntax.{Expr, ColumnOption, ColumnSyntax, TableConstraint, SqlCrate}
use conflict_free_oltp_v.Sql.Parser.Literals.{map_data_type, convert_value}

-- The first referred column, `id` by default.
abbrev pub referred : List Str → Str
referred columns = unwrap_or (str "id") (get_elem? columns 0)

-- The variables of the loop over the options of a column, with the foreign keys found so far.
pub record ColumnFlags : Type 0 where
  pub not_null : Bool
  pub primary_key : Bool
  pub unique : Bool
  pub default_value : Option Bytes
  pub foreign_keys : List ForeignKeyDef

module _ (lib : SqlCrate) where
  -- A default that is no literal is passed over.
  unfoldable pub default_of : Expr → Option Bytes → Option Bytes
  unfolding to_bytes convert_value
  default_of (Expr.value v) before = to_bytes (convert_value lib v)
  default_of (Expr.identifier id) before = before
  default_of (Expr.binary_op l o r) before = before
  default_of (Expr.is_null e) before = before
  default_of (Expr.is_not_null e) before = before
  default_of (Expr.other s) before = before

  unfoldable pub read_option : Str → ColumnOption → ColumnFlags → ColumnFlags
  unfolding default_of
  read_option column ColumnOption.not_null f = record f { not_null = true }
  read_option column (ColumnOption.unique is_primary) f =
      if is_primary
      then record f { primary_key = true; not_null = true }
      else record f { unique = true }
  read_option column (ColumnOption.default e) f = record f {
    default_value = default_of e f.default_value;
  }
  read_option column (ColumnOption.foreign_key foreign_table columns) f = record f {
    foreign_keys =
        f.foreign_keys
        ++ record { column = column; ref_table = foreign_table; ref_column = referred columns }
          ∷ [];
  }
  read_option column ColumnOption.other f = f

  unfoldable pub read_options : Str → List ColumnOption → ColumnFlags → ColumnFlags
  unfolding read_option
  read_options column [] f = f
  read_options column (o ∷ options) f = read_options column options (read_option column o f)

  -- The column of a syntax tree, and the foreign keys after it.
  unfoldable pub read_column : ColumnSyntax → List ForeignKeyDef → ColumnDef × List ForeignKeyDef
  unfolding read_options map_data_type
  read_column c fks =
      let start : ColumnFlags = record {
        not_null = false;
        primary_key = false;
        unique = false;
        default_value = none;
        foreign_keys = fks;
      } in
      let f = read_options c.name c.options start in
      (
        record {
          name = c.name;
          col_type = map_data_type c.data_type;
          not_null = f.not_null;
          default_value = f.default_value;
          primary_key = f.primary_key;
          unique = f.unique;
        },
        f.foreign_keys,
      )

  unfoldable pub read_columns :
      List ColumnSyntax → List ForeignKeyDef → List ColumnDef × List ForeignKeyDef
  unfolding read_column
  read_columns [] fks = ([], fks)
  read_columns (c ∷ columns) fks =
      let (def, fks') = read_column c fks in
      let (defs, after) = read_columns columns fks' in (def ∷ defs, after)

-- `col_defs.iter_mut().find(|c| c.name == name)`: the first column of the name becomes unique.
unfoldable pub mark_unique : Str → List ColumnDef → List ColumnDef
mark_unique name [] = []
mark_unique name (c ∷ columns) =
    let rest = mark_unique name columns in
    if beq c.name name then record c { unique = true } ∷ columns else c ∷ rest

-- One table constraint.
unfoldable pub read_constraint : TableConstraint → TableSchema → TableSchema
unfolding mark_unique
read_constraint (TableConstraint.foreign_key fk_cols foreign_table columns) s = record s {
  foreign_keys =
      s.foreign_keys
      ++ record {
        column = unwrap_or [] (get_elem? fk_cols 0);
        ref_table = foreign_table;
        ref_column = referred columns;
      }
        ∷ [];
}
read_constraint (TableConstraint.unique columns) s = elim columns [
  | [] ↦ s
  | col ∷ others ↦ elim others [
    | [] ↦ record s { columns = mark_unique col s.columns }
    | next ∷ more ↦ record s {
      composite_unique_constraints = s.composite_unique_constraints ++ (col ∷ next ∷ more) ∷ [];
    }
  ]
]
read_constraint TableConstraint.other s = s

unfoldable pub read_constraints : List TableConstraint → TableSchema → TableSchema
unfolding read_constraint
read_constraints [] s = s
read_constraints (c ∷ constraints) s = read_constraints constraints (read_constraint c s)

unfoldable pub schema_of : SqlCrate → Str → List ColumnSyntax → List TableConstraint → TableSchema
unfolding read_columns read_constraints
schema_of lib name columns constraints =
    let (defs, fks) = read_columns lib columns [] in
    read_constraints constraints (record {
      name = name;
      columns = defs;
      foreign_keys = fks;
      indexes = [];
      composite_unique_constraints = [];
    })
