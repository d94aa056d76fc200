-- ===== src/Sql/Syntax.antt =====
-- What src/sql/parser.rs reads of the syntax trees of the crate sqlparser: the shapes that its
-- matches tell apart. Names are given by their text, and all else by its print.
use conflict_free_oltp_v.Base.{ℕ, Bool, Option, List, Str, Result}

pub data DataType : Type 0 where
  text varchar char char_varying int integer big_int small_int float double real boolean blob
        bytea :
      DataType
  other : DataType

pub data Value : Type 0 where
  single_quoted double_quoted number placeholder other : Str → Value
  boolean : Bool → Value
  null : Value

pub data BinaryOperator : Type 0 where
  eq not_eq lt gt and or other : BinaryOperator

pub data Expr : Type 0 where
  identifier : Str → Expr
  value : Value → Expr
  binary_op : Expr → BinaryOperator → Expr → Expr
  is_null is_not_null : Expr → Expr
  other : Str → Expr

pub data ColumnOption : Type 0 where
  not_null other : ColumnOption
  unique : Bool → ColumnOption
  default : Expr → ColumnOption
  foreign_key : Str → List Str → ColumnOption

-- `ColumnDef` of the crate.
pub record ColumnSyntax : Type 0 where
  pub name : Str
  pub data_type : DataType
  pub options : List ColumnOption

pub data TableConstraint : Type 0 where
  foreign_key : List Str → Str → List Str → TableConstraint
  unique : List Str → TableConstraint
  other : TableConstraint

pub data TableFactor : Type 0 where
  table other : Str → TableFactor

pub data SelectItem : Type 0 where
  wildcard : SelectItem
  unnamed_expr : Expr → SelectItem
  expr_with_alias : Expr → Str → SelectItem
  other : Str → SelectItem

pub record Select : Type 0 where
  pub from : List TableFactor
  pub projection : List SelectItem
  pub selection : Option Expr

pub data SetExpr : Type 0 where
  values : List (List Expr) → SetExpr
  select : Select → SetExpr
  other : SetExpr

pub data Statement : Type 0 where
  create_table : Str → List ColumnSyntax → List TableConstraint → Statement
  create_index : Option Str → Str → List Expr → Statement
  insert : Str → List Str → Option SetExpr → Statement
  update : TableFactor → List (List Str × Expr) → Option Expr → Statement
  delete : List TableFactor → Option Expr → Statement
  query : SetExpr → List (Expr × Option Bool) → Statement
  other : Str → Statement

-- The crate's parser and prints, and the parser of floats of the standard library, which gives the
-- bits.
pub record SqlCrate : Type 0 where
  pub parse : Str → Result Str (List Statement)
  pub print_expr : Expr → Str
  pub print_item : SelectItem → Str
  pub parse_f64 : Str → Option ℕ
