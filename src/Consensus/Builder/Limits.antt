-- ===== src/Consensus/Builder/Limits.antt =====
-- The limits that the builder of crates/noirnet-consensus/src/block_builder.rs keeps.
use noirnet.Prelude.{
  ℕ, ◌+◌, ◌≤◌, ◌≡◌, refl, inl, inr, Bool, Option, List, [], ◌∷◌, arith, ltb, ltb-false, Bool-cases,
  All, add_u64, Bytes,
}
use noirnet.Types.Constants.{max_block_gas, max_tx_gas}
use noirnet.Types.Note.{Hash32}
use noirnet.Types.Transaction.{Transaction}
use noirnet.Types.Block.{Block, BlockHeader, compute_tx_root}
use noirnet.Mempool.Blocks.{gas, IsWithin, ended, taken, passed}
use noirnet.Consensus.Builder.{take_gas, build_block}

-- What the loop yields, from the gas used before it.
pub record IsTaken (used : ℕ) (txs : List Transaction) (r : ℕ × List Transaction) : Type 0 where
  pub counted : r.0 ≡ used + gas r.1
  pub block_bounded : r.0 ≤ max_block_gas
  pub each_bounded : All (λ (tx : Transaction). tx.gas_limit ≤ max_tx_gas) r.1
  pub within : IsWithin r.1 txs

take_gas-IsTaken :
    (used : ℕ) (txs : List Transaction)
    → used ≤ max_block_gas
    → IsTaken used txs (take_gas used txs)
unfolding take_gas
take_gas-IsTaken used [] h = record {
  counted = omega arith;
  block_bounded = h;
  each_bounded = tt;
  within = ended;
}
take_gas-IsTaken used (tx ∷ txs) h = elim (Bool-cases (ltb max_tx_gas tx.gas_limit)) [
  | inl skip ↦
      let ih = take_gas-IsTaken used txs h in
      rw skip (record {
        counted = ih.counted;
        block_bounded = ih.block_bounded;
        each_bounded = ih.each_bounded;
        within = passed tx ih.within;
      })
  | inr small ↦
      let bounded : tx.gas_limit ≤ max_tx_gas = ltb-false _ _ small in
      let sum : add_u64 used tx.gas_limit ≡ used + tx.gas_limit = omega (arith, bounded, h) in
      elim (Bool-cases (ltb max_block_gas (used + tx.gas_limit))) [
        | inl full ↦
            rw (small, sum, full)
              (record {
                counted = omega arith;
                block_bounded = h;
                each_bounded = tt;
                within = ended;
              })
        | inr room ↦
            let ih = take_gas-IsTaken (used + tx.gas_limit) txs (ltb-false _ _ room) in
            rw (small, sum, room)
              (record {
                counted = omega (arith, ih.counted);
                block_bounded = ih.block_bounded;
                each_bounded = (bounded, ih.each_bounded);
                within = taken tx ih.within;
              })
      ]
]

module _ (blake3 : Bytes → Bytes) (serialize : Transaction → Bytes)
    (serialize_header : BlockHeader → Bytes) where
  -- A built block states the gas of its transactions, which is at most its gas limit; each of them is
  -- within the limit for one transaction; they are the given ones, in their order, with some left out.
  -- Its transaction root is that of all given transactions, also of those that were left out.
  pub build_block_limits :
      (parent_height : ℕ) (has_blocks : Bool) (parent : Option Block) (state_root : Hash32)
      (txs : List Transaction) (proposer vrf_output : Bytes) (timestamp epoch : ℕ)
      → let b =
          build_block blake3 serialize serialize_header parent_height has_blocks parent state_root
            txs proposer vrf_output timestamp epoch in
        (b.header.gas_used ≡ gas b.transactions)
        × (b.header.gas_used ≤ b.header.gas_limit)
        × All (λ (tx : Transaction). tx.gas_limit ≤ max_tx_gas) b.transactions
        × IsWithin b.transactions txs
        × (b.header.tx_root ≡ compute_tx_root blake3 serialize txs)
  unfolding build_block
  build_block_limits parent_height has_blocks parent state_root txs proposer vrf_output timestamp
        epoch =
      let t = take_gas-IsTaken 0 txs (omega arith) in
      (omega (arith, t.counted), t.block_bounded, t.each_bounded, t.within, refl)
