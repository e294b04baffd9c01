-- ===== src/Tests/WalletTests.antt =====
-- The theorem about crates/noirnet-wallet at a concrete input.
use noirnet.Prelude.{true, ◌^◌, ◌+◌, ◌<◌, ◌≡◌, some, [], ◌∷◌, arith, replicate}
use noirnet.Types.Block.{CompactBlock}
use noirnet.Tests.Data.{toy_hash, note_a}
use noirnet.Wallet.{WalletSync, Decrypt, new, scan_block, balance}
use noirnet.Wallet.Balance.{unspent_value, spent_value, received, spent_at_once, balance-scan_block}

-- Every output is the wallet's.
abbrev toy_decrypt : Decrypt
toy_decrypt cipher key commitment ivk = some note_a

abbrev block_a : CompactBlock
block_a = record {
  height = 1;
  hash = replicate 32 1;
  compact_outputs =
      record {
        ephemeral_key = [];
        enc_ciphertext_prefix = replicate 52 1;
        note_commitment = replicate 32 5;
        leaf_index = 0;
      }
      ∷ [];
  nullifiers = replicate 32 9 ∷ [];
}

abbrev wallet_a : WalletSync
wallet_a = new (replicate 32 1)

small_a :
    unspent_value wallet_a.notes
      + received toy_hash toy_decrypt (λ o. true) wallet_a.ivk block_a.compact_outputs
    < 2 ^ 64
unfolding new
small_a = omega arith

balance-scan_block_example :
    balance (scan_block toy_hash toy_decrypt block_a wallet_a)
      + (spent_value block_a.nullifiers wallet_a.notes
          + received toy_hash toy_decrypt
              (spent_at_once toy_hash toy_decrypt block_a.nullifiers)
              wallet_a.ivk
              block_a.compact_outputs)
    ≡ balance wallet_a
      + received toy_hash toy_decrypt (λ o. true) wallet_a.ivk block_a.compact_outputs
balance-scan_block_example = balance-scan_block toy_hash toy_decrypt block_a wallet_a small_a
