-- ===== src/Sql/Parser.antt =====
-- src/sql/parser.rs: from the syntax trees of the crate sqlparser to the statements of the engine.
mod Literals
mod Tables
pub mod Schemas
pub mod Decimals
mod Tests
unfoldable pub use Literals.*
unfoldable pub use Tables.*
use conflict_free_oltp_v.Base.{
  ℕ, Bool, true, false, ◌||◌, Option, none, some, List, [], ◌∷◌, ◌++◌, map, any, get_elem?,
  and_then, map_option, unwrap_or, if◌then◌else◌, Str, str, Result, ok, err, ◌>>=◌, ok_or, map_err,
  collect,
}
use conflict_free_oltp_v.Crdt.Merge.{join}
use conflict_free_oltp_v.Sql.Values.{SqlValue}
use conflict_free_oltp_v.Sql.Filter.{SqlExpr}
use conflict_free_oltp_v.Sql.Statement.{ParsedStatement, SelectColumns}
use conflict_free_oltp_v.Sql.Syntax.{
  Expr, TableFactor, SelectItem, Select, SetExpr, Statement, SqlCrate,
}
use conflict_free_oltp_v.Sql.Parser.Literals.{convert_expr, convert_expr_to_sql_expr}
use conflict_free_oltp_v.Sql.Parser.Tables.{schema_of}

pub data ParseError : Type 0 where
  sql_parser unsupported_statement invalid : Str → ParseError

abbrev pub factor_name : TableFactor → Option Str
factor_name (TableFactor.table name) = some name
factor_name (TableFactor.other print) = none

-- The table of the first factor.
abbrev pub first_table : List TableFactor → Option Str
first_table from = and_then (get_elem? from 0) factor_name

abbrev pub is_wildcard : SelectItem → Bool
is_wildcard SelectItem.wildcard = true
is_wildcard (SelectItem.unnamed_expr e) = false
is_wildcard (SelectItem.expr_with_alias e alias) = false
is_wildcard (SelectItem.other s) = false

abbrev pub identifier_of : Expr → Option Str
identifier_of (Expr.identifier id) = some id
identifier_of (Expr.value v) = none
identifier_of (Expr.binary_op l o r) = none
identifier_of (Expr.is_null e) = none
identifier_of (Expr.is_not_null e) = none
identifier_of (Expr.other s) = none

-- The identifiers of ORDER BY, ascending unless it says otherwise; what else stands there is left
-- out.
unfoldable pub order_columns : List (Expr × Option Bool) → List (Str × Bool)
order_columns [] = []
order_columns ((e, asc) ∷ order_by) =
    let rest = order_columns order_by in
    elim (identifier_of e) [ none ↦ rest | some id ↦ (id, unwrap_or true asc) ∷ rest ]

module _ (lib : SqlCrate) where
  -- The name of a column of the projection; an alias is dropped.
  unfoldable pub item_name : SelectItem → Str
  item_name SelectItem.wildcard = lib.print_item SelectItem.wildcard
  item_name (SelectItem.unnamed_expr e) =
      unwrap_or (lib.print_item (SelectItem.unnamed_expr e)) (identifier_of e)
  item_name (SelectItem.expr_with_alias e alias) =
      unwrap_or (lib.print_item (SelectItem.expr_with_alias e alias)) (identifier_of e)
  item_name (SelectItem.other s) = lib.print_item (SelectItem.other s)

  abbrev pub filter_of : Option Expr → Option SqlExpr
  filter_of selection = map_option (convert_expr_to_sql_expr lib) selection

  abbrev pub rows_of : Option SetExpr → List (List SqlValue)
  rows_of none = []
  rows_of (some (SetExpr.values rows)) = map (map (convert_expr lib)) rows
  rows_of (some (SetExpr.select s)) = []
  rows_of (some SetExpr.other) = []

  unfoldable pub convert_select :
      Select → List (Expr × Option Bool) → Result ParseError ParsedStatement
  unfolding item_name order_columns convert_expr_to_sql_expr
  convert_select s order_by = do
    table ← ok_or (invalid (str "SELECT missing FROM")) (first_table s.from)
    let columns =
        if any is_wildcard s.projection
        then SelectColumns.all
        else SelectColumns.named (map item_name s.projection)
    ok (ParsedStatement.select table columns (filter_of s.selection) (order_columns order_by))

  unfoldable pub convert_statement : Statement → Result ParseError ParsedStatement
  unfolding convert_select schema_of convert_expr convert_expr_to_sql_expr
  convert_statement (Statement.create_table name columns constraints) =
      ok (ParsedStatement.create_table (schema_of lib name columns constraints))
  convert_statement (Statement.create_index name table columns) = ok (
      ParsedStatement.create_index (unwrap_or [] name) table
        (map (λ e. unwrap_or (lib.print_expr e) (identifier_of e)) columns))
  convert_statement (Statement.insert table columns source) =
      ok (ParsedStatement.insert table columns (rows_of source))
  convert_statement (Statement.update relation assignments selection) = elim relation [
    | TableFactor.table name ↦ ok (
        ParsedStatement.update name
          (map (λ a. (join (str ".") a.0, convert_expr lib a.1)) assignments) (filter_of selection))
    | TableFactor.other print ↦ err (unsupported_statement (str "table factor: " ++ print))
  ]
  convert_statement (Statement.delete from selection) = do
    table ← ok_or (invalid (str "DELETE missing table")) (first_table from)
    ok (ParsedStatement.delete table (filter_of selection))
  convert_statement (Statement.query body order_by) = elim body [
    | SetExpr.select s ↦ convert_select s order_by
    | SetExpr.values rows ↦ err (unsupported_statement (str "Non-SELECT query"))
    | SetExpr.other ↦ err (unsupported_statement (str "Non-SELECT query"))
  ]
  convert_statement (Statement.other print) = err (unsupported_statement print)

  unfoldable pub parse_sql : Str → Result ParseError (List ParsedStatement)
  unfolding convert_statement
  parse_sql sql = do stmts ← map_err sql_parser (lib.parse sql); collect convert_statement stmts
