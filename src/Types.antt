-- ===== src/Types.antt =====
-- crates/noirnet-types: the data that the components exchange.
pub mod Constants
pub mod Note
pub mod Transaction
pub mod Block
pub mod Validator
pub mod Address
