-- ===== src/Crdt.antt =====
-- src/crdt: the clocks and the replicated data types.
pub mod Clocks
pub mod VersionVector
pub mod Token
pub mod MvRegister
pub mod OrSet
pub mod Merge
