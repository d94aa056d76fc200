-- ===== src/Index.antt =====
-- src/index: secondary indexes.
pub mod SecondaryIndex
