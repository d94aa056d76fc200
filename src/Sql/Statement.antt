-- ===== src/Sql/Statement.antt =====
-- src/sql/parser.rs: the statements that the engine executes.
use conflict_free_oltp_v.Base.{Bool, Option, List, Str}
use conflict_free_oltp_v.Crdt.Merge.{TableSchema}
use conflict_free_oltp_v.Sql.Values.{SqlValue}
use conflict_free_oltp_v.Sql.Filter.{SqlExpr}

pub data SelectColumns : Type 0 where
  all : SelectColumns
  named : List Str → SelectColumns

pub data ParsedStatement : Type 0 where
  create_table : TableSchema → ParsedStatement
  create_index : Str → Str → List Str → ParsedStatement
  insert : Str → List Str → List (List SqlValue) → ParsedStatement
  update : Str → List (Str × SqlValue) → Option SqlExpr → ParsedStatement
  delete : Str → Option SqlExpr → ParsedStatement
  select : Str → SelectColumns → Option SqlExpr → List (Str × Bool) → ParsedStatement
