-- ===== src/Consensus/Builder.antt =====
-- crates/noirnet-consensus/src/block_builder.rs. What the builder reads from the state store comes as
-- arguments: the height of the chain, whether it has blocks, the block at that height, the state root.
pub mod Limits
use noirnet.Prelude.{
  ℕ, ◌+◌, ◌-◌, ◌/◌, Bool, true, false, Option, none, some, List, [], ◌∷◌, ◌++◌, ltb, if◌then◌else◌,
  add_u64, Bytes,
}
use noirnet.Prelude.{codes}
use noirnet.Types.Constants.{max_block_gas, max_tx_gas, devnet_chain_id}
use noirnet.Types.Note.{Hash32, zero_hash, SpendDescription}
use noirnet.Types.Transaction.{Transaction}
use noirnet.Types.Block.{Block, BlockHeader, block_hash, compute_tx_root}

unfoldable pub spend_nullifiers : List SpendDescription → Bytes
spend_nullifiers [] = []
spend_nullifiers (s ∷ ss) = s.nullifier ++ spend_nullifiers ss

unfoldable pub tx_nullifiers : List Transaction → Bytes
unfolding spend_nullifiers
tx_nullifiers [] = []
tx_nullifiers (tx ∷ txs) = spend_nullifiers tx.spends ++ tx_nullifiers txs

abbrev pub push_tx : Transaction → ℕ × List Transaction → ℕ × List Transaction
push_tx tx (gas, txs) = (gas, tx ∷ txs)

-- The loop over the transactions: the gas used, and those that go into the block.
unfoldable pub take_gas : ℕ → List Transaction → ℕ × List Transaction
take_gas gas_used [] = (gas_used, [])
take_gas gas_used (tx ∷ txs) =
    let skip = ltb max_tx_gas tx.gas_limit in
    let more = add_u64 gas_used tx.gas_limit in
    let rest = take_gas (if skip then gas_used else more) txs in
    if skip then rest else if ltb max_block_gas more then (gas_used, []) else push_tx tx rest

-- `has_blocks` with the parent that was found.
abbrev pub parent_hash_of : (Block → Hash32) → Bool → Option Block → Hash32
parent_hash_of hash false parent = zero_hash
parent_hash_of hash true none = zero_hash
parent_hash_of hash true (some b) = hash b

module _ (blake3 : Bytes → Bytes) (serialize : Transaction → Bytes)
    (serialize_header : BlockHeader → Bytes) where
  unfoldable pub build_block :
      (parent_height : ℕ) (has_blocks : Bool) (parent : Option Block) (state_root : Hash32)
      → List Transaction
      → Bytes
      → Bytes
      → ℕ
      → ℕ
      → Block
  unfolding tx_nullifiers take_gas
  build_block parent_height has_blocks parent state_root txs proposer vrf_output timestamp epoch =
      let (gas_used, valid_txs) = take_gas 0 txs in
      record {
        header = record {
          height = if has_blocks then add_u64 parent_height 1 else 0;
          parent_hash = parent_hash_of (block_hash blake3 serialize_header) has_blocks parent;
          state_root = state_root;
          tx_root = compute_tx_root blake3 serialize txs;
          nullifier_root = blake3 (codes "NoirNet_NullifierRoot_v1" ++ tx_nullifiers txs);
          timestamp = timestamp;
          epoch = epoch;
          vrf_output = vrf_output;
          proposer = proposer;
          chain_id = devnet_chain_id;
          gas_used = gas_used;
          gas_limit = max_block_gas;
        };
        transactions = valid_txs;
        aggregate_proof = [];
        bls_aggregate_sig = [];
        validator_bitfield = 0;
      }
