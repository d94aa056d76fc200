-- ===== src/Engine.antt =====
-- src/api/engine.rs: the database of one peer. State holds it with its operations, and the others
-- the replay of its log.
pub mod State
pub mod Statements
pub mod Ahead
pub mod Reads
pub mod Columns
pub mod Names
pub mod Replay
pub mod FkCascade
pub mod Termination
pub mod Orphans
pub mod Settled
pub mod Rebuild
pub mod Total
pub mod Convergence
pub mod Parts
pub mod Tests
