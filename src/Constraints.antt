-- ===== src/Constraints.antt =====
-- src/constraints: the uniqueness protocol and foreign keys.
pub mod Uniqueness
pub mod ForeignKeys
