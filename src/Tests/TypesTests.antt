-- ===== src/Tests/TypesTests.antt =====
-- The theorems about crates/noirnet-types at concrete inputs.
use noirnet.Prelude.{suc, ◌%◌, ◌<◌, ◌≡◌, refl, ◌↔◌, some, arith, take, replicate, ok, from_le_bytes}
use noirnet.Tests.Data.{note_a, tx_a, tx_b, entries_a}
use noirnet.Prelude.Sorting.{sort_by}
use noirnet.Prelude.Weighted.{FallsTo}
use noirnet.Types.Constants.{initial_block_reward, max_supply}
use noirnet.Types.Note.{IsNote}
use noirnet.Types.Transaction.{validate_format, signing_bytes}
use noirnet.Types.Transaction.Format.{IsWellFormed, validate_format_iff}
use noirnet.Types.Transaction.Signing.{InRange, signing_bytes-fields}
use noirnet.Types.Block.{compute_block_reward}
use noirnet.Types.Block.Reward.{total_emission, total_emission-exceeds-max_supply}
use noirnet.Types.Validator.{StakeEntry, new, elect_leader, entry_stake}
use noirnet.Types.Validator.Election.{stake, elect_leader-FallsTo}

note_a-IsNote : IsNote note_a
note_a-IsNote = record {
  value_u64 = omega arith;
  rcm_length = refl;
  rho_length = refl;
  diversifier_length = refl;
}

validate_format_iff_example :
    (validate_format (λ tx. some 300) tx_a ≡ ok tt) ↔ IsWellFormed (λ tx. some 300) tx_a
validate_format_iff_example = validate_format_iff (λ tx. some 300) tx_a

tx_a-InRange : InRange tx_a
tx_a-InRange = record {
  version_u8 = omega arith;
  chain_id_u32 = omega arith;
  fee_u64 = omega arith;
  timestamp_u64 = omega arith;
}

tx_b-InRange : InRange tx_b
tx_b-InRange = record {
  version_u8 = omega arith;
  chain_id_u32 = omega arith;
  fee_u64 = omega arith;
  timestamp_u64 = omega arith;
}

same_signed : signing_bytes tx_a ≡ signing_bytes tx_b
unfolding signing_bytes
same_signed = refl

signing_bytes-fields_example :
    (tx_a.version ≡ tx_b.version)
    × (tx_a.chain_id ≡ tx_b.chain_id)
    × (tx_a.fee ≡ tx_b.fee)
    × (tx_a.timestamp ≡ tx_b.timestamp)
signing_bytes-fields_example = signing_bytes-fields tx_a tx_b tx_a-InRange tx_b-InRange same_signed

total_emission-exceeds-max_supply_example :
    (max_supply < total_emission 600_000)
    × (compute_block_reward (suc 600_000) ≡ initial_block_reward)
total_emission-exceeds-max_supply_example =
    total_emission-exceeds-max_supply 600_000 (omega arith) (omega arith)

stake_a : stake (new 1 entries_a).validators ≡ 40
unfolding new sort_by
stake_a = refl

elect_leader-FallsTo_example :
    (v : StakeEntry) × (elect_leader (new 1 entries_a) (replicate 32 1) ≡ some v)
    × FallsTo entry_stake 0
        (from_le_bytes (take 16 (replicate 32 1)) % stake (new 1 entries_a).validators)
        v
        (new 1 entries_a).validators
elect_leader-FallsTo_example =
    elect_leader-FallsTo 1 entries_a (replicate 32 1) (omega (arith, stake_a))
      (omega (arith, stake_a))
