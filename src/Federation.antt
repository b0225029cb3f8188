-- ===== src/Federation.antt =====
-- src/federation: sharded storage among peers.
pub mod Erasure
