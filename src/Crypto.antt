-- ===== src/Crypto.antt =====
-- crates/noirnet-crypto. The cipher, the curves and the hash function belong to other crates and are parameters,
-- with what is relied on of each stated with its operations.
pub mod Cipher
pub mod Stealth
pub mod Memo
pub mod Commitments
pub mod Signatures
pub mod Bls
