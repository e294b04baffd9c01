-- ===== src/Types/Transaction.antt =====
-- crates/noirnet-types/src/transaction.rs. Texts are their UTF-8 bytes. `serialize` stands for
-- `bincode::serialize`, `serialized_size` for `bincode::serialized_size` (`none` is its error),
-- `blake3` for the hash function.
pub mod Format
pub mod Signing
use noirnet.Prelude.{
  ℕ, ◌+◌, ◌-◌, ◌*◌, ◌/◌, ◌%◌, Bool, false, not, ◌&&◌, ◌||◌, Option, none, some, List, [], ◌∷◌, ◌++◌,
  ltb, ◌==◌, if◌then◌else◌, is_none, unwrap_or, length, is_empty, Result, ok, ◌>>=◌, ◌>>◌,
  reject_if, u32_mod, u64_max, Bytes, to_le_bytes,
}
use noirnet.Prelude.{codes}
use noirnet.Types.Constants.{
  max_spends_per_tx, max_outputs_per_tx, fee_tiers, max_tx_gas, max_contract_size,
  max_p2p_message_size,
}
use noirnet.Types.Note.{Hash32, zero_hash, OutputDescription, SpendDescription, EncryptedMemo}

pub record ContractCall : Type 0 where
  pub contract_id : Hash32
  pub method : Bytes
  pub args : Bytes
  pub gas_limit : ℕ
  pub caller_commitment : Bytes

pub record Transaction : Type 0 where
  pub version : ℕ
  pub chain_id : ℕ
  pub spends : List SpendDescription
  pub outputs : List OutputDescription
  pub fee : ℕ
  pub gas_limit : ℕ
  pub memo : Option EncryptedMemo
  pub contract_call : Option ContractCall
  pub deploy_contract : Option Bytes
  pub binding_sig : Bytes
  pub timestamp : ℕ
  pub aggregate_spend_proof : Bytes

pub data TxFormatError : Type 0 where
  unsupported_version : ℕ → TxFormatError
  no_inputs no_outputs fee_too_low gas_limit_too_high too_large contract_too_large : TxFormatError
  invalid_nullifier duplicate_nullifier invalid_timestamp : TxFormatError
  too_many_spends too_many_outputs invalid_fee_tier : TxFormatError

-- `now` is the system clock in seconds.
unfoldable pub now_obfuscated : ℕ → ℕ
now_obfuscated now = (now / 900) * 900

unfoldable pub tx_id : (Bytes → Bytes) → (Transaction → Bytes) → Transaction → Hash32
tx_id blake3 serialize tx = blake3 (serialize tx)

-- `slice::contains`
unfoldable pub contains : List ℕ → ℕ → Bool
contains [] x = false
contains (y ∷ ys) x = y == x || contains ys x

abbrev pub contract_too_big : Option Bytes → Bool
contract_too_big none = false
contract_too_big (some code) = ltb max_contract_size (length code)

unfoldable pub validate_format :
    (Transaction → Option ℕ) → Transaction → Result (Unit {0}) TxFormatError
unfolding contains
validate_format serialized_size tx = do
  reject_if (not (tx.version == 1)) (unsupported_version tx.version)
  reject_if (is_empty tx.spends && is_none tx.contract_call && is_none tx.deploy_contract) no_inputs
  reject_if (is_empty tx.outputs && is_none tx.contract_call && is_none tx.deploy_contract)
      no_outputs
  reject_if (ltb max_spends_per_tx (length tx.spends)) too_many_spends
  reject_if (ltb max_outputs_per_tx (length tx.outputs)) too_many_outputs
  reject_if (not (contains fee_tiers tx.fee)) invalid_fee_tier
  reject_if (ltb max_tx_gas tx.gas_limit) gas_limit_too_high
  reject_if (not (tx.timestamp % 900 == 0)) invalid_timestamp
  reject_if (contract_too_big tx.deploy_contract) contract_too_large
  reject_if (ltb max_p2p_message_size (unwrap_or (serialized_size tx) u64_max)) too_large
  ok tt

unfoldable pub spend_bytes : List SpendDescription → Bytes
spend_bytes [] = []
spend_bytes (s ∷ ss) = s.nullifier ++ s.cv ++ spend_bytes ss

unfoldable pub output_bytes : List OutputDescription → Bytes
output_bytes [] = []
output_bytes (o ∷ os) = o.note_commitment ++ o.cv ++ output_bytes os

unfoldable pub call_bytes : Option ContractCall → Bytes
call_bytes none = []
call_bytes (some call) = call.contract_id ++ call.method ++ call.args

unfoldable pub signing_bytes : Transaction → Bytes
unfolding spend_bytes output_bytes call_bytes
signing_bytes tx =
    to_le_bytes 1 tx.version
    ++ to_le_bytes 4 tx.chain_id
    ++ to_le_bytes 8 tx.fee
    ++ to_le_bytes 8 tx.timestamp
    ++ spend_bytes tx.spends
    ++ output_bytes tx.outputs
    ++ call_bytes tx.contract_call
    ++ unwrap_or tx.deploy_contract []

pub record PrunedTxIndex : Type 0 where
  pub tx_hash : Bytes
  pub block_height : ℕ
  pub num_spends : ℕ
  pub num_outputs : ℕ
  pub commitments_blake3 : Bytes

unfoldable pub commitment_bytes : List OutputDescription → Bytes
commitment_bytes [] = []
commitment_bytes (o ∷ os) = o.note_commitment ++ commitment_bytes os

unfoldable pub to_pruned_index :
    (Bytes → Bytes) → (Transaction → Bytes) → Transaction → ℕ → PrunedTxIndex
unfolding commitment_bytes tx_id
to_pruned_index blake3 serialize tx block_height = record {
  tx_hash = tx_id blake3 serialize tx;
  block_height = block_height;
  num_spends = length tx.spends % u32_mod;
  num_outputs = length tx.outputs % u32_mod;
  commitments_blake3 = blake3 (codes "NoirNet_PrunedTx_v2" ++ commitment_bytes tx.outputs);
}

unfoldable pub tx_id_from_raw : (Bytes → Bytes) → Bytes → Hash32
tx_id_from_raw blake3 bytes =
    if ltb max_p2p_message_size (length bytes) then zero_hash else blake3 bytes
