-- ===== src/Tests/BuilderTests.antt =====
-- The theorem about the block builder of crates/noirnet-consensus at a concrete input.
use noirnet.Prelude.{◌≤◌, ◌≡◌, true, none, [], ◌∷◌, All, Bytes}
use noirnet.Types.Constants.{max_tx_gas}
use noirnet.Types.Transaction.{Transaction}
use noirnet.Types.Block.{BlockHeader, compute_tx_root}
use noirnet.Mempool.Blocks.{gas, IsWithin}
use noirnet.Tests.Data.{toy_hash, tx_a, tx_b}
use noirnet.Consensus.Builder.{build_block}
use noirnet.Consensus.Builder.Limits.{build_block_limits}

abbrev bytes_of : Transaction → Bytes
bytes_of tx = tx.gas_limit ∷ []

abbrev header_bytes : BlockHeader → Bytes
header_bytes header = header.height ∷ []

build_block_limits_example :
    let b =
      build_block toy_hash bytes_of header_bytes 4 true none [] (tx_a ∷ tx_b ∷ []) [] [] 100 1 in
    (b.header.gas_used ≡ gas b.transactions)
    × (b.header.gas_used ≤ b.header.gas_limit)
    × All (λ (tx : Transaction). tx.gas_limit ≤ max_tx_gas) b.transactions
    × IsWithin b.transactions (tx_a ∷ tx_b ∷ [])
    × (b.header.tx_root ≡ compute_tx_root toy_hash bytes_of (tx_a ∷ tx_b ∷ []))
build_block_limits_example =
    build_block_limits toy_hash bytes_of header_bytes 4 true none [] (tx_a ∷ tx_b ∷ []) [] [] 100 1
