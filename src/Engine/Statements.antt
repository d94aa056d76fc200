-- ===== src/Engine/Statements.antt =====
-- src/api/engine.rs: the execution of SQL. An engine goes with the number of times that its wall
-- clock has been read.
pub mod Effects
use conflict_free_oltp_v.Base.{
  ℕ, ◌+◌, Bool, true, false, List, [], ◌∷◌, ◌++◌, Bytes, Str, Result, ok, err, ◌>>=◌, map_err,
}
use conflict_free_oltp_v.Crdt.Merge.{CrdtOp}
use conflict_free_oltp_v.Storage.OpLog.{LogEntry}
use conflict_free_oltp_v.Sql.Values.{SqlValue}
use conflict_free_oltp_v.Sql.Statement.{ParsedStatement}
use conflict_free_oltp_v.Sql.Syntax.{SqlCrate}
use conflict_free_oltp_v.Sql.Parser.{ParseError, parse_sql}
use conflict_free_oltp_v.Sql.Planner.{PlanError, Ticker, plan}
use conflict_free_oltp_v.Sql.Executor.{ResultRow, SelectError, execute_select}
use conflict_free_oltp_v.Engine.State.{Engine, apply}

-- The strings of the source by what they tell.
pub data EngineError : Type 0 where
  parse_error : ParseError → EngineError
  plan_error : PlanError → EngineError
  select_error : SelectError → EngineError
  use_query : EngineError

-- An engine, and how often the wall clock has been read.
pub record Session : Type 0 where
  pub engine : Engine
  pub readings : ℕ

abbrev pub is_select : ParsedStatement → Bool
is_select (ParsedStatement.select table columns f order_by) = true
is_select (ParsedStatement.create_table schema) = false
is_select (ParsedStatement.create_index name table columns) = false
is_select (ParsedStatement.insert table columns values) = false
is_select (ParsedStatement.update table assignments f) = false
is_select (ParsedStatement.delete table f) = false

module _ (hash : LogEntry → Bytes) (wall : ℕ → ℕ) where
  -- `for op in ops { self.apply_op(op)? }`, which does not fail.
  unfoldable pub apply_ops : List CrdtOp → Session → Session
  apply_ops [] s = s
  apply_ops (op ∷ ops) s =
      apply_ops ops
        (record { engine = apply hash (wall s.readings) op s.engine; readings = s.readings + 1 })

  -- The planner ticks the engine's own clock, also where it fails.
  unfoldable pub execute_statement :
      ParsedStatement → List SqlValue → Session → Session × Result EngineError (Unit {0})
  unfolding apply_ops plan
  execute_statement stmt params s =
      let e = s.engine in
      let (k, planned) =
        plan wall e.fk_resolver e.store stmt params
          (record { clock = e.clock; readings = s.readings }) in
      let s' : Session = record { engine = record e { clock = k.clock }; readings = k.readings } in
      elim planned [
        | err reason ↦ (s', err (plan_error reason))
        | ok ops ↦ (apply_ops ops s', ok tt)
      ]

  -- What the statements before a failing one did stays done.
  unfoldable pub execute_statements :
      List ParsedStatement → List SqlValue → Session → Session × Result EngineError (Unit {0})
  unfolding execute_statement
  execute_statements [] params s = (s, ok tt)
  execute_statements (stmt ∷ stmts) params s = elim (is_select stmt) [
    | true ↦ (s, err use_query)
    | false ↦
        let (s', r) = execute_statement stmt params s in
        elim r [ err reason ↦ (s', err reason) | ok done ↦ execute_statements stmts params s' ]
  ]

  unfoldable pub execute_with_params :
      SqlCrate → Str → List SqlValue → Session → Session × Result EngineError (Unit {0})
  unfolding execute_statements parse_sql
  execute_with_params lib sql params s = elim (parse_sql lib sql) [
    | err reason ↦ (s, err (parse_error reason))
    | ok stmts ↦ execute_statements stmts params s
  ]

  unfoldable pub execute : SqlCrate → Str → Session → Session × Result EngineError (Unit {0})
  unfolding execute_with_params
  execute lib sql s = execute_with_params lib sql [] s

-- The rows of all SELECT statements; the others are passed over.
unfoldable pub query_statements :
    List ParsedStatement → Engine → Result EngineError (List ResultRow)
unfolding execute_select
query_statements [] e = ok []
query_statements (stmt ∷ stmts) e =
    let rest = query_statements stmts e in
    elim (is_select stmt) [
      | false ↦ rest
      | true ↦ do
        rows ← map_err select_error (execute_select stmt e.store)
        more ← rest
        ok (rows ++ more)
    ]

-- The parameters are not read.
unfoldable pub query_with_params :
    SqlCrate → Str → List SqlValue → Engine → Result EngineError (List ResultRow)
unfolding query_statements parse_sql
query_with_params lib sql params e = do
  stmts ← map_err parse_error (parse_sql lib sql)
  query_statements stmts e

unfoldable pub query : SqlCrate → Str → Engine → Result EngineError (List ResultRow)
unfolding query_with_params
query lib sql e = query_with_params lib sql [] e
