-- ===== src/Tests.antt =====
-- The theorems at concrete inputs, by the part of the program that they are about.
mod Data
mod TypesTests
mod ConsensusTests
mod StorageTests
mod MempoolTests
mod NetworkTests
mod VmTests
mod WalletTests
mod BuilderTests
mod CryptoTests
mod TransferTests
mod EngineTests
