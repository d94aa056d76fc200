-- ===== src/Sql/Filter.antt =====
-- src/sql/parser.rs: the conditions of a WHERE clause, evaluated on a row.
use conflict_free_oltp_v.Base.{
  Bool, true, not, ◌&&◌, ◌||◌, Option, none, some, is_some, beq, blt, option_ord, list_ord, nat_ord,
  Bytes, Str,
}
use conflict_free_oltp_v.Sql.Values.{SqlValue, to_bytes}
use conflict_free_oltp_v.Storage.RowStore.{CrdtRow, read_cell}

pub data SqlExpr : Type 0 where
  eq neq lt gt : Str → SqlValue → SqlExpr
  and or : SqlExpr → SqlExpr → SqlExpr
  is_null is_not_null : Str → SqlExpr

-- A missing cell is below every value; values are compared byte by byte.
unfoldable pub evaluate : (Str → Option Bytes) → SqlExpr → Bool
unfolding to_bytes
evaluate read (eq column value) = beq (read column) (to_bytes value)
evaluate read (neq column value) = not (beq (read column) (to_bytes value))
evaluate read (is_null column) = not (is_some (read column))
evaluate read (is_not_null column) = is_some (read column)
evaluate read (and l r) = evaluate read l && evaluate read r
evaluate read (or l r) = evaluate read l || evaluate read r
evaluate read (lt column value) = blt (read column) (to_bytes value)
evaluate read (gt column value) = blt (to_bytes value) (read column)

-- `filter.as_ref().map_or(true, |f| f.evaluate(&|col| row.read_cell(col)))`
unfoldable pub matches : Option SqlExpr → CrdtRow → Bool
unfolding evaluate
matches none row = true
matches (some f) row = evaluate (λ column. read_cell column row) f
