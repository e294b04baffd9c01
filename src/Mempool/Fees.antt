-- ===== src/Mempool/Fees.antt =====
-- How crates/noirnet-mempool/src/fee_market.rs splits a fee.
use noirnet.Prelude.{ℕ, ◌+◌, ◌*◌, ◌<◌, min, ◌≡◌, arith, u64_mod}
use noirnet.Mempool.{FeeMarket, split_fee}

-- The two parts make up the fee exactly. Where the cost of the gas fits 64 bits, what is burnt is
-- that cost, or the whole fee if it does not cover the cost.
pub split_fee_lem :
    (market : FeeMarket) (total_fee gas_used : ℕ)
    → let (burn, tip) = split_fee market total_fee gas_used in
      (burn + tip ≡ total_fee)
      × (market.base_fee * gas_used < u64_mod → burn ≡ min total_fee (market.base_fee * gas_used))
unfolding split_fee
split_fee_lem market total_fee gas_used = (ground arith, λ fits. ground arith)
