-- ===== src/Sql/Parser/Literals.antt =====
-- src/sql/parser.rs: literals, expressions and conditions; the standard library's parsers of
-- decimal integers.
use conflict_free_oltp_v.Base.{
  ℕ, suc, zero, ◌+◌, ◌*◌, ◌-◌, ◌&&◌, Option, none, some, [], ◌∷◌, ltb, leb, ◌==◌, if◌then◌else◌,
  and_then, unwrap_or, Str, str, u64_range, ℤ, pos, negsuc, i64_half,
}
use conflict_free_oltp_v.Crdt.Merge.{ColumnType}
use conflict_free_oltp_v.Sql.Values.{SqlValue}
use conflict_free_oltp_v.Sql.Filter.{SqlExpr}
use conflict_free_oltp_v.Sql.Syntax.{DataType, Value, BinaryOperator, Expr, SqlCrate}

-- Decimal digits after what has been read.
unfoldable pub digits : ℕ → Str → Option ℕ
digits read [] = some read
digits read (c ∷ s) =
    let rest = digits (read * 10 + (c - b'0')) s in if leb b'0' c && leb c b'9' then rest else none

-- At least one digit.
unfoldable pub unsigned : Str → Option ℕ
unfolding digits
unsigned [] = none
unsigned (c ∷ s) = digits 0 (c ∷ s)

abbrev pub within_i64 : ℕ → Option ℤ
within_i64 n = if ltb n i64_half then some (pos n) else none

-- The negative of a number, down to the least `i64`.
abbrev pub minus : ℕ → Option ℤ
minus zero = some (pos 0)
minus (suc n) = if ltb n i64_half then some (negsuc n) else none

-- `s.parse::<i64>()`
unfoldable pub parse_i64 : Str → Option ℤ
unfolding unsigned
parse_i64 [] = none
parse_i64 (c ∷ s) =
    if c == b'-'
    then and_then (unsigned s) minus
    else and_then (unsigned (if c == b'+' then s else c ∷ s)) within_i64

-- `s.parse::<usize>()`, where `usize` has 64 bits
unfoldable pub parse_usize : Str → Option ℕ
unfolding unsigned
parse_usize [] = none
parse_usize (c ∷ s) =
    and_then (unsigned (if c == b'+' then s else c ∷ s))
      (λ n. if ltb n u64_range then some n else none)

-- `s.trim_start_matches(c)`
unfoldable pub trim_start_matches : ℕ → Str → Str
trim_start_matches c [] = []
trim_start_matches c (d ∷ s) = let rest = trim_start_matches c s in if d == c then rest else d ∷ s

-- `saturating_sub(1)`
unfoldable pub placeholder_index : Str → ℕ
unfolding parse_usize trim_start_matches
placeholder_index p =
    unwrap_or 0 (parse_usize (trim_start_matches b'$' (trim_start_matches b'?' p))) - 1

unfoldable pub map_data_type : DataType → ColumnType
map_data_type DataType.text = ColumnType.text
map_data_type DataType.varchar = ColumnType.text
map_data_type DataType.char = ColumnType.text
map_data_type DataType.char_varying = ColumnType.text
map_data_type DataType.int = ColumnType.integer
map_data_type DataType.integer = ColumnType.integer
map_data_type DataType.big_int = ColumnType.integer
map_data_type DataType.small_int = ColumnType.integer
map_data_type DataType.float = ColumnType.real
map_data_type DataType.double = ColumnType.real
map_data_type DataType.real = ColumnType.real
map_data_type DataType.boolean = ColumnType.boolean
map_data_type DataType.blob = ColumnType.blob
map_data_type DataType.bytea = ColumnType.blob
map_data_type DataType.other = ColumnType.text

-- A condition that is not supported.
abbrev pub unsupported : SqlExpr
unsupported = SqlExpr.eq (str "1") (SqlValue.integer (pos 1))

module _ (lib : SqlCrate) where
  unfoldable pub convert_number : Str → SqlValue
  unfolding parse_i64
  convert_number n = elim (parse_i64 n) [
    | some i ↦ SqlValue.integer i
    | none ↦ elim (lib.parse_f64 n) [ some bits ↦ SqlValue.float bits | none ↦ SqlValue.text n ]
  ]

  unfoldable pub convert_value : Value → SqlValue
  unfolding convert_number placeholder_index
  convert_value (Value.single_quoted s) = SqlValue.text s
  convert_value (Value.double_quoted s) = SqlValue.text s
  convert_value (Value.number n) = convert_number n
  convert_value (Value.boolean b) = SqlValue.boolean b
  convert_value Value.null = SqlValue.null
  convert_value (Value.placeholder p) = SqlValue.placeholder (placeholder_index p)
  convert_value (Value.other s) = SqlValue.text s

  unfoldable pub convert_expr : Expr → SqlValue
  unfolding convert_value
  convert_expr (Expr.value v) = convert_value v
  convert_expr (Expr.identifier id) = SqlValue.text id
  convert_expr (Expr.binary_op l o r) = SqlValue.null
  convert_expr (Expr.is_null e) = SqlValue.null
  convert_expr (Expr.is_not_null e) = SqlValue.null
  convert_expr (Expr.other s) = SqlValue.null

  -- A comparison is supported between a column and a literal.
  unfoldable pub convert_comparison : (Str → SqlValue → SqlExpr) → Expr → Expr → SqlExpr
  unfolding convert_value
  convert_comparison test (Expr.identifier column) r = elim r [
    | Expr.value v ↦ test column (convert_value v)
    | Expr.identifier id ↦ unsupported
    | Expr.binary_op a o b ↦ unsupported
    | Expr.is_null e ↦ unsupported
    | Expr.is_not_null e ↦ unsupported
    | Expr.other s ↦ unsupported
  ]
  convert_comparison test (Expr.value v) r = unsupported
  convert_comparison test (Expr.binary_op a o b) r = unsupported
  convert_comparison test (Expr.is_null e) r = unsupported
  convert_comparison test (Expr.is_not_null e) r = unsupported
  convert_comparison test (Expr.other s) r = unsupported

  -- The column of IS NULL: an identifier, or the print of what stands there.
  unfoldable pub column_of : Expr → Str
  column_of (Expr.identifier column) = column
  column_of (Expr.value v) = lib.print_expr (Expr.value v)
  column_of (Expr.binary_op a o b) = lib.print_expr (Expr.binary_op a o b)
  column_of (Expr.is_null e) = lib.print_expr (Expr.is_null e)
  column_of (Expr.is_not_null e) = lib.print_expr (Expr.is_not_null e)
  column_of (Expr.other s) = lib.print_expr (Expr.other s)

  unfoldable pub convert_expr_to_sql_expr : Expr → SqlExpr
  unfolding convert_comparison column_of
  convert_expr_to_sql_expr (Expr.binary_op l o r) = elim o [
    | BinaryOperator.eq ↦ convert_comparison SqlExpr.eq l r
    | BinaryOperator.not_eq ↦ convert_comparison SqlExpr.neq l r
    | BinaryOperator.lt ↦ convert_comparison SqlExpr.lt l r
    | BinaryOperator.gt ↦ convert_comparison SqlExpr.gt l r
    | BinaryOperator.and ↦ SqlExpr.and (convert_expr_to_sql_expr l) (convert_expr_to_sql_expr r)
    | BinaryOperator.or ↦ SqlExpr.or (convert_expr_to_sql_expr l) (convert_expr_to_sql_expr r)
    | BinaryOperator.other ↦ unsupported
  ]
  convert_expr_to_sql_expr (Expr.is_null e) = SqlExpr.is_null (column_of e)
  convert_expr_to_sql_expr (Expr.is_not_null e) = SqlExpr.is_not_null (column_of e)
  convert_expr_to_sql_expr (Expr.identifier id) = unsupported
  convert_expr_to_sql_expr (Expr.value v) = unsupported
  convert_expr_to_sql_expr (Expr.other s) = unsupported
