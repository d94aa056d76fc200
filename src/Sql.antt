-- ===== src/Sql.antt =====
-- src/sql: the statements of the parser, the planner that turns them into operations, and the
-- executor of SELECT.
pub mod Values
pub mod Filter
pub mod Statement
pub mod Syntax
pub mod Parser
pub mod Planner
pub mod Executor
