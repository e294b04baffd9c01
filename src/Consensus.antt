-- ===== src/Consensus.antt =====
-- crates/noirnet-consensus: the rounds of the vote, slashing, epochs, leaders, block download and building.
pub mod Bft
pub mod Slashing
pub mod Epoch
pub mod Leader
pub mod Sync
pub mod Builder
pub mod Engine
