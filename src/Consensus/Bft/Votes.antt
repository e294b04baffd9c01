-- ===== src/Consensus/Bft/Votes.antt =====
-- `add_vote` of crates/noirnet-consensus/src/bft.rs: who is counted, and how often.
use noirnet.Prelude.{
  ℕ, ◌≡◌, Bool, true, false, not, ◌&&◌, ◌||◌, List, [], ◌∷◌, arith, ◌==◌, if◌then◌else◌, All, Bytes,
  bytes_eq, bytes_eq_iff,
}
use noirnet.Prelude.Maps.{
  lookup, insert, member, add_member, Distinct, lookup-insert, member-add_member,
  add_member-Distinct, All-remove,
}
use noirnet.Types.Note.{Hash32}
use noirnet.Types.Validator.{Vote, VoteType, prevote, precommit}
use noirnet.Consensus.Bft.{
  BftRoundState, VoteMap, RoundEvent, vote, advance, new, voters, record_vote, add_vote,
  try_advance_phase, step, run,
}

voters-record_vote :
    (hash other : Hash32) (id : Bytes) (m : VoteMap)
    → voters other (record_vote hash id m)
      ≡ (if bytes_eq hash other then add_member id (voters hash m) else voters other m)
unfolding record_vote
voters-record_vote hash other id m =
    ground (arith, lookup-insert hash other (add_member id (voters hash m)) m)

abbrev pub ballots : VoteType → BftRoundState → VoteMap
ballots prevote s = s.prevotes
ballots precommit s = s.precommits

abbrev pub same_type : VoteType → VoteType → Bool
same_type prevote prevote = true
same_type precommit precommit = true
same_type _ _ = false

-- After `add_vote` somebody is counted for a hash exactly if they were before, or the vote is of this
-- height and round and is theirs, for that hash, of that kind.
pub member-add_vote :
    (v : Vote) (s : BftRoundState) (kind : VoteType) (hash : Hash32) (id : Bytes)
    → member id (voters hash (ballots kind (add_vote v s).0)) ≡ (
        (v.height == s.height
          && v.round == s.round
          && same_type v.vote_type kind
          && bytes_eq v.block_hash hash
          && bytes_eq v.validator_id id)
        || member id (voters hash (ballots kind s)))
unfolding add_vote
member-add_vote v s prevote hash id = ground (
  arith,
  voters-record_vote v.block_hash hash v.validator_id s.prevotes,
  member-add_member v.validator_id id (voters v.block_hash s.prevotes),
  bytes_eq_iff v.block_hash hash,
)
member-add_vote v s precommit hash id = ground (
  arith,
  voters-record_vote v.block_hash hash v.validator_id s.precommits,
  member-add_member v.validator_id id (voters v.block_hash s.precommits),
  bytes_eq_iff v.block_hash hash,
)

-- `add_vote` answers true exactly when it adds somebody: the vote is of this height and round, and
-- its sender was not counted for that hash and kind before.
pub add_vote_new :
    (v : Vote) (s : BftRoundState)
    → (add_vote v s).1 ≡ (
        v.height == s.height
        && v.round == s.round
        && not (member v.validator_id (voters v.block_hash (ballots v.vote_type s))))
unfolding add_vote
add_vote_new v s = ground arith

-- Nobody is counted twice for one hash.
abbrev pub IsCounted : VoteMap → Type 0
IsCounted = All (λ entry. Distinct entry.1)

lookup-Distinct : (hash : Hash32) (m : VoteMap) → IsCounted m → Distinct (voters hash m)
unfolding lookup
lookup-Distinct hash [] h = tt
lookup-Distinct hash ((k, ids) ∷ m) h = ground (arith, lookup-Distinct hash m h.1)

record_vote-IsCounted :
    (hash : Hash32) (id : Bytes) (m : VoteMap) → IsCounted m → IsCounted (record_vote hash id m)
unfolding record_vote insert
record_vote-IsCounted hash id m h = (
  add_member-Distinct id (voters hash m) (lookup-Distinct hash m h),
  All-remove (λ entry. Distinct entry.1) hash m h,
)

pub record IsTallied (s : BftRoundState) : Type 0 where
  pub prevotes_counted : IsCounted s.prevotes
  pub precommits_counted : IsCounted s.precommits

step-IsTallied : (e : RoundEvent) (s : BftRoundState) → IsTallied s → IsTallied (step e s)
unfolding step add_vote try_advance_phase
step-IsTallied (vote v) s h = ground (
  arith,
  record_vote-IsCounted v.block_hash v.validator_id s.prevotes h.prevotes_counted,
  record_vote-IsCounted v.block_hash v.validator_id s.precommits h.precommits_counted,
)
step-IsTallied (advance hash) s h = ground arith

run-IsTallied : (es : List RoundEvent) (s : BftRoundState) → IsTallied s → IsTallied (run es s)
unfolding run
run-IsTallied [] s h = h
run-IsTallied (e ∷ es) s h = run-IsTallied es (step e s) (step-IsTallied e s h)

-- In a round that has seen any votes and attempts to advance, each hash has each voter at most once,
-- of either kind.
pub run-Distinct :
    (height round total : ℕ) (es : List RoundEvent) (hash : Hash32)
    → Distinct (voters hash (run es (new height round total)).prevotes)
      × Distinct (voters hash (run es (new height round total)).precommits)
unfolding new
run-Distinct height round total es hash =
    let t =
      run-IsTallied es (new height round total)
        (record { prevotes_counted = tt; precommits_counted = tt }) in
    (lookup-Distinct hash _ t.prevotes_counted, lookup-Distinct hash _ t.precommits_counted)
