-- ===== src/Storage.antt =====
-- crates/noirnet-storage
pub mod Merkle
pub mod State
