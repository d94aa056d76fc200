-- ===== src/Sql/Parser/Tests.antt =====
-- CREATE TABLE, literals and SELECT through src/sql/parser.rs.
use conflict_free_oltp_v.Base.{
  true, false, none, some, List, [], ◌∷◌, ◌≡◌, refl, arith, str, negsuc, pos, ltb, i64_half,
  if◌then◌else◌, ok, err,
}
use conflict_free_oltp_v.Sql.Values.{SqlValue}
use conflict_free_oltp_v.Sql.Filter.{SqlExpr}
use conflict_free_oltp_v.Sql.Statement.{ParsedStatement, SelectColumns}
use conflict_free_oltp_v.Sql.Syntax.{
  DataType, Value, BinaryOperator, Expr, ColumnOption, ColumnSyntax, TableConstraint, TableFactor,
  SelectItem, SetExpr, Statement, SqlCrate,
}
use conflict_free_oltp_v.Sql.Parser.{
  schema_of, convert_value, convert_expr, convert_statement, parse_i64, placeholder_index,
}
use conflict_free_oltp_v.Sql.Parser.Schemas.{IsSchema, schema_of-IsSchema}
use conflict_free_oltp_v.Sql.Parser.Decimals.{
  decimal, convert_value-decimal, convert_value-placeholder,
}

-- A crate that parses nothing and prints a question mark.
abbrev lib : SqlCrate
lib = record {
  parse = λ sql. err sql;
  print_expr = λ e. str "?";
  print_item = λ i. str "?";
  parse_f64 = λ s. none;
}

-- id TEXT PRIMARY KEY, mail TEXT, team BIGINT REFERENCES teams, UNIQUE (mail), UNIQUE (mail, team)
abbrev columns : List ColumnSyntax
columns =
    record { name = str "id"; data_type = DataType.text; options = ColumnOption.unique true ∷ [] }
    ∷ record { name = str "mail"; data_type = DataType.varchar; options = [] }
    ∷ record {
      name = str "team";
      data_type = DataType.big_int;
      options = ColumnOption.foreign_key (str "teams") [] ∷ [];
    }
    ∷ []

abbrev constraints : List TableConstraint
constraints =
    TableConstraint.unique (str "mail" ∷ [])
    ∷ TableConstraint.unique (str "mail" ∷ str "team" ∷ [])
    ∷ []

schema_of-IsSchema_example : IsSchema columns (schema_of lib (str "users") columns constraints)
schema_of-IsSchema_example = schema_of-IsSchema lib (str "users") columns constraints

-- The least number that is not an integer of i64.
convert_value-decimal_example : convert_value lib (Value.number (decimal 9223372036854775808)) ≡ (
    if ltb 9223372036854775808 i64_half
    then SqlValue.integer (pos 9223372036854775808)
    else elim (lib.parse_f64 (decimal 9223372036854775808)) [
      | some bits ↦ SqlValue.float bits
      | none ↦ SqlValue.text (decimal 9223372036854775808)
    ])
convert_value-decimal_example = convert_value-decimal lib 9223372036854775808

-- A negative literal is an operator on a number for the crate: it is read as NULL.
negative : convert_expr lib (Expr.other (str "-5")) ≡ SqlValue.null
unfolding convert_expr
negative = refl

convert_value-placeholder_example :
    convert_value lib (Value.placeholder (b'$' ∷ decimal 12)) ≡ SqlValue.placeholder 11
convert_value-placeholder_example = convert_value-placeholder lib 11 (omega arith)

-- Every anonymous placeholder is the first one.
anonymous : convert_value lib (Value.placeholder (str "?")) ≡ SqlValue.placeholder 0
unfolding convert_value placeholder_index
anonymous = refl

too_large : parse_i64 (str "9223372036854775808") ≡ none
unfolding parse_i64
too_large = refl

least : parse_i64 (str "-9223372036854775808") ≡ some (negsuc 0x7fffffffffffffff)
unfolding parse_i64
least = refl

-- SELECT name FROM users WHERE id = 'u1' ORDER BY name DESC
selects :
    convert_statement lib (
      Statement.query
        (SetExpr.select (record {
          from = TableFactor.table (str "users") ∷ [];
          projection = SelectItem.unnamed_expr (Expr.identifier (str "name")) ∷ [];
          selection = some (
              Expr.binary_op
                (Expr.identifier (str "id"))
                BinaryOperator.eq
                (Expr.value (Value.single_quoted (str "u1"))));
        }))
        ((Expr.identifier (str "name"), some false) ∷ []))
    ≡ ok (
        ParsedStatement.select
          (str "users")
          (SelectColumns.named (str "name" ∷ []))
          (some (SqlExpr.eq (str "id") (SqlValue.text (str "u1"))))
          ((str "name", false) ∷ []))
unfolding convert_statement
selects = refl
