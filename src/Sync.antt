-- ===== src/Sync.antt =====
-- src/sync: the anti-entropy protocol.
pub mod AntiEntropy
