-- ===== src/Types/Transaction/Format.antt =====
-- What `validate_format` of crates/noirnet-types/src/transaction.rs accepts.
use noirnet.Prelude.{
  ℕ, ◌%◌, ◌≤◌, ◌≡◌, ◌≢◌, ◌↔◌, ◌⊎◌, true, Option, some, [], arith, is_some, unwrap_or, length, ok,
}
use noirnet.Types.Transaction.{Transaction, validate_format}

-- A well-formed transaction, field by field.
pub record IsWellFormed (serialized_size : Transaction → Option ℕ) (tx : Transaction) : Type 0 where
  pub version_one : tx.version ≡ 1
  pub has_input :
      (tx.spends ≢ []) ⊎ (is_some tx.contract_call ≡ true) ⊎ (is_some tx.deploy_contract ≡ true)
  pub has_output :
      (tx.outputs ≢ []) ⊎ (is_some tx.contract_call ≡ true) ⊎ (is_some tx.deploy_contract ≡ true)
  pub spends_bounded : length tx.spends ≤ 16
  pub outputs_bounded : length tx.outputs ≤ 16
  pub fee_tier : (tx.fee ≡ 10_000) ⊎ (tx.fee ≡ 100_000) ⊎ (tx.fee ≡ 1_000_000)
  pub gas_bounded : tx.gas_limit ≤ 10_000_000
  pub rounded : tx.timestamp % 900 ≡ 0
  pub code_bounded : length (unwrap_or tx.deploy_contract []) ≤ 1_048_576
  pub size_bounded : (n : ℕ) × (serialized_size tx ≡ some n) × (n ≤ 10_485_760)

pub validate_format-IsWellFormed :
    (serialized_size : Transaction → Option ℕ) (tx : Transaction)
    → validate_format serialized_size tx ≡ ok tt
    → IsWellFormed serialized_size tx
unfolding validate_format
validate_format-IsWellFormed serialized_size tx h = record {
  version_one = ground arith;
  has_input = ground arith;
  has_output = ground arith;
  spends_bounded = ground arith;
  outputs_bounded = ground arith;
  fee_tier = ground arith;
  gas_bounded = ground arith;
  rounded = ground arith;
  code_bounded = ground arith;
  size_bounded = ground arith;
}

pub IsWellFormed-validate_format :
    (serialized_size : Transaction → Option ℕ) (tx : Transaction)
    → IsWellFormed serialized_size tx
    → validate_format serialized_size tx ≡ ok tt
unfolding validate_format
IsWellFormed-validate_format serialized_size tx w = ground arith

-- `validate_format` accepts a transaction exactly when it is well formed: version 1, at least one
-- input and one output unless it calls or deploys a contract, at most 16 of each, a fee of one of
-- the three tiers, at most ten million gas, a time on a quarter of an hour, contract code of at most
-- a mebibyte, and a serialized size that can be computed and is at most ten mebibytes.
pub validate_format_iff :
    (serialized_size : Transaction → Option ℕ) (tx : Transaction)
    → (validate_format serialized_size tx ≡ ok tt) ↔ IsWellFormed serialized_size tx
validate_format_iff serialized_size tx = (
  validate_format-IsWellFormed serialized_size tx,
  IsWellFormed-validate_format serialized_size tx,
)
