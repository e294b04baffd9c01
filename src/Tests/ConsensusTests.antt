-- ===== src/Tests/ConsensusTests.antt =====
-- The theorems about crates/noirnet-consensus at concrete inputs.
use noirnet.Prelude.{
  ◌%◌, ◌^◌, ◌*◌, ◌/◌, ◌-◌, ℕ, ◌+◌, min, ◌≡◌, refl, ◌≢◌, ◌⊎◌, true, false, List, [], ◌∷◌, arith,
  ◌==◌, ok, is_ok, Bytes, bytes_eq, bytes_eq_iff,
}
use noirnet.Prelude.Maps.{member, lookup, insert, add_member}
use noirnet.Prelude.Counting.{Within}
use noirnet.Types.Validator.{VoteType, default_slash_params, tombstoned}
use noirnet.Tests.Data.{validator, evidence_a, vote_of, four_ids}
use noirnet.Consensus.Bft.{
  BftRoundState, RoundEvent, vote, advance, new, run, add_vote, voters, try_advance_phase,
  record_vote, has_quorum_prevote,
}
use noirnet.Consensus.Bft.Votes.{ballots}
use noirnet.Consensus.Bft.Phases.{Extends, Rests, run-Extends, run-new-Rests}
use noirnet.Consensus.Bft.Agreement.{has_quorum, quorum_agreement}
use noirnet.Consensus.Slashing.{apply_double_sign_evidence}
use noirnet.Consensus.Slashing.Amounts.{
  apply_double_sign_evidence_lem, slash_times, IsSlashedBy, slash_times-IsSlashedBy,
}
use noirnet.Consensus.Sync
use noirnet.Consensus.Sync.Invariant.{IsConsistent, run-new-IsConsistent}

-- Three of four validators vote for one block, a fourth for another, and the round moves on.
abbrev events : List RoundEvent
events =
    advance (5 ∷ [])
    ∷ vote (vote_of 1 5 VoteType.prevote)
    ∷ vote (vote_of 2 5 VoteType.prevote)
    ∷ vote (vote_of 4 6 VoteType.prevote)
    ∷ vote (vote_of 3 5 VoteType.prevote)
    ∷ advance (5 ∷ [])
    ∷ []

abbrev block_five : Bytes
block_five = 5 ∷ []

abbrev round_a : BftRoundState
round_a = run events (new 1 0 4)

run-Extends_example : Extends (new 1 0 4) (run events (new 1 0 4))
run-Extends_example = run-Extends events (new 1 0 4)

run-new-Rests_example : Rests (run events (new 1 0 4)).phase (run events (new 1 0 4))
run-new-Rests_example = run-new-Rests 1 0 4 events

for_five : voters (5 ∷ []) (ballots VoteType.prevote round_a) ≡ (3 ∷ []) ∷ (2 ∷ []) ∷ (1 ∷ []) ∷ []
unfolding run new try_advance_phase add_vote record_vote lookup insert add_member member bytes_eq
for_five = refl

within : Within (voters (5 ∷ []) (ballots VoteType.prevote round_a)) four_ids
unfolding member bytes_eq
within = rw for_five (refl, (refl, (refl, tt)))

quorum_a : has_quorum VoteType.prevote round_a (5 ∷ []) ≡ true
unfolding run new try_advance_phase add_vote record_vote lookup insert add_member member bytes_eq
    has_quorum_prevote
quorum_a = refl

quorum_agreement_example : block_five ≡ block_five
quorum_agreement_example =
    quorum_agreement VoteType.prevote 1 0 events four_ids (5 ∷ []) (5 ∷ []) ((4 ∷ []) ∷ [])
      (omega arith) (λ id apart m n. absurd (apart refl)) within within quorum_a quorum_a

apply_double_sign_evidence_lem_example :
    let v = validator 1 12_345 in
    let stake = (v.own_stake + v.delegated_stake) % 2 ^ 128 in
    let amount = min (stake * default_slash_params.double_sign_bps) (2 ^ 128 - 1) / 10_000 in
    let (w, result) = apply_double_sign_evidence v evidence_a default_slash_params in
    ((v.registration.bls_pubkey ≡ evidence_a.validator_id)
      × (evidence_a.block_hash_1 ≢ evidence_a.block_hash_2)
      × (result
          ≡ ok (record {
            validator_id = v.registration.bls_pubkey;
            amount = amount;
            tombstoned = true;
          }))
      × (w ≡ record v {
        total_slashed = min (v.total_slashed + amount) (2 ^ 128 - 1);
        status = tombstoned;
      }))
    ⊎ (((v.registration.bls_pubkey ≢ evidence_a.validator_id)
          ⊎ (evidence_a.block_hash_1 ≡ evidence_a.block_hash_2))
        × (is_ok result ≡ false)
        × (w ≡ v))
apply_double_sign_evidence_lem_example =
    apply_double_sign_evidence_lem (validator 1 12_345) evidence_a default_slash_params

two_blocks : evidence_a.block_hash_1 ≢ evidence_a.block_hash_2
two_blocks e = ground (arith, bytes_eq_iff evidence_a.block_hash_1 evidence_a.block_hash_2)

slash_times-IsSlashedBy_example :
    IsSlashedBy 3
      (validator 1 12_345)
      (slash_times 3 (validator 1 12_345) evidence_a default_slash_params)
      default_slash_params
slash_times-IsSlashedBy_example =
    slash_times-IsSlashedBy 3 (validator 1 12_345) evidence_a default_slash_params refl two_blocks
      (omega arith)

-- Peers as numbers.
abbrev calls : List (Sync.SyncEvent ℕ)
calls = Sync.peer_at 1 100 3 ∷ Sync.check 50 ∷ Sync.peer_at 2 200 60 ∷ Sync.check 100 ∷ []

run-new-IsConsistent_example : IsConsistent ◌==◌ (Sync.run ◌==◌ calls Sync.new)
run-new-IsConsistent_example = run-new-IsConsistent ◌==◌ calls
