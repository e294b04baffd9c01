-- ===== src/Network.antt =====
-- What crates/noirnet-network decides about transactions.
pub mod Dandelion
pub mod P2p
