-- ===== src/Types/Block.antt =====
-- crates/noirnet-types/src/block.rs. `serialize` stands for `bincode::serialize` of a header.
pub mod Reward
use noirnet.Prelude.{
  ℕ, ◌+◌, ◌-◌, ◌/◌, ◌^◌, max, List, [], ◌∷◌, ◌++◌, leb, ◌==◌, if◌then◌else◌, is_empty, Bytes,
}
use noirnet.Types.Constants.{initial_block_reward, halving_interval, tail_emission}
use noirnet.Types.Note.{Hash32, zero_hash}
use noirnet.Types.Transaction.{Transaction, tx_id}

pub record BlockHeader : Type 0 where
  pub height : ℕ
  pub parent_hash : Hash32
  pub state_root : Hash32
  pub tx_root : Hash32
  pub nullifier_root : Hash32
  pub timestamp : ℕ
  pub epoch : ℕ
  pub vrf_output : Bytes
  pub proposer : Bytes
  pub chain_id : ℕ
  pub gas_used : ℕ
  pub gas_limit : ℕ

pub record Block : Type 0 where
  pub header : BlockHeader
  pub transactions : List Transaction
  pub aggregate_proof : Bytes
  pub bls_aggregate_sig : Bytes
  pub validator_bitfield : ℕ

unfoldable pub header_hash : (Bytes → Bytes) → (BlockHeader → Bytes) → BlockHeader → Hash32
header_hash blake3 serialize header = blake3 (serialize header)

unfoldable pub block_hash : (Bytes → Bytes) → (BlockHeader → Bytes) → Block → Hash32
unfolding header_hash
block_hash blake3 serialize block = header_hash blake3 serialize block.header

unfoldable pub tx_id_bytes : (Bytes → Bytes) → (Transaction → Bytes) → List Transaction → Bytes
unfolding tx_id
tx_id_bytes blake3 serialize [] = []
tx_id_bytes blake3 serialize (tx ∷ txs) =
    tx_id blake3 serialize tx ++ tx_id_bytes blake3 serialize txs

unfoldable pub compute_tx_root : (Bytes → Bytes) → (Transaction → Bytes) → List Transaction → Hash32
unfolding tx_id_bytes
compute_tx_root blake3 serialize txs =
    if is_empty txs then zero_hash else blake3 (tx_id_bytes blake3 serialize txs)

pub record CompactOutput : Type 0 where
  pub ephemeral_key : Bytes
  pub enc_ciphertext_prefix : Bytes
  pub note_commitment : Hash32
  pub leaf_index : ℕ

pub record CompactBlock : Type 0 where
  pub height : ℕ
  pub hash : Hash32
  pub compact_outputs : List CompactOutput
  pub nullifiers : List Hash32

pub record SyncRequest : Type 0 where
  pub start_height : ℕ
  pub limit : ℕ

pub record SyncResponse : Type 0 where
  pub blocks : List Block

unfoldable pub compute_block_reward : ℕ → ℕ
compute_block_reward height =
    if height == 0
    then 0
    else let halvings = height / halving_interval in
      if leb 64 halvings
      then tail_emission
      else max (initial_block_reward / 2 ^ halvings) tail_emission
