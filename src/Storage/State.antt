-- ===== src/Storage/State.antt =====
-- crates/noirnet-storage: state.rs with the helpers of db.rs, block_store.rs and nullifier_store.rs, and
-- the database writes of merkle.rs. An operation maps the store to the store after it and a result; what was written
-- before an error stays written. `Sled` is the database crate, `Codec` bincode and the hash function.
pub mod Database
pub mod Blocks
pub mod Effects
pub mod Quiet
pub mod Spending
pub mod Chain
pub mod Queries
pub mod Triples
pub mod Readback
pub mod Reliable
pub mod Progress
pub mod Acceptance
pub mod Stability
