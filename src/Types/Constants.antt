-- ===== src/Types/Constants.antt =====
-- crates/noirnet-types/src/constants.rs
use noirnet.Prelude.{ℕ, List, [], ◌∷◌}

abbrev pub devnet_chain_id : ℕ
devnet_chain_id = 42

abbrev pub epoch_blocks : ℕ
epoch_blocks = 100

abbrev pub max_block_gas : ℕ
max_block_gas = 100_000_000

abbrev pub max_tx_gas : ℕ
max_tx_gas = 10_000_000

abbrev pub base_tx_gas : ℕ
base_tx_gas = 10_000

abbrev pub min_fee : ℕ
min_fee = 10_000

abbrev pub max_mempool_size : ℕ
max_mempool_size = 10_000

abbrev pub halving_interval : ℕ
halving_interval = 40_320_000

abbrev pub initial_block_reward : ℕ
initial_block_reward = 40_000_000_000

abbrev pub tail_emission : ℕ
tail_emission = 10_000_000

abbrev pub max_supply : ℕ
max_supply = 21_000_000_000_000_000

abbrev pub fee_tiers : List ℕ
fee_tiers = 10_000 ∷ 100_000 ∷ 1_000_000 ∷ []

abbrev pub max_p2p_message_size : ℕ
max_p2p_message_size = 10_485_760

abbrev pub max_contract_size : ℕ
max_contract_size = 1_048_576

abbrev pub max_memo_size : ℕ
max_memo_size = 512

abbrev pub max_spends_per_tx : ℕ
max_spends_per_tx = 16

abbrev pub max_outputs_per_tx : ℕ
max_outputs_per_tx = 16

abbrev pub note_commitment_tree_depth : ℕ
note_commitment_tree_depth = 32

abbrev pub anchor_expiry_blocks : ℕ
anchor_expiry_blocks = 100
