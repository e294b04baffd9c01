-- ===== src/Contracts.antt =====
-- The contracts of the repository.
pub mod Token
