-- ===== src/Consensus/Bft.antt =====
-- crates/noirnet-consensus/src/bft.rs. The vote counts are small, so `len() * 3` does not wrap.
pub mod Votes
pub mod Phases
pub mod Agreement
use noirnet.Prelude.{
  ℕ, ◌-◌, ◌*◌, ◌/◌, Bool, true, false, not, ◌&&◌, ◌||◌, Option, none, some, List, [], ◌∷◌, ltb,
  ◌==◌, if◌then◌else◌, unwrap_or, length, ◌>>=◌, ◌>>◌, Bytes,
}
use noirnet.Prelude.Maps.{lookup, insert, member, add_member}
use noirnet.Types.Note.{Hash32}
use noirnet.Types.Validator.{Vote, VoteType}

pub data BftPhase : Type 0 where
  propose prevote precommit commit : BftPhase

-- A block hash, and the ids of those who voted for it.
abbrev pub VoteMap : Type 0
VoteMap = List (Hash32 × List Bytes)

pub record BftRoundState : Type 0 where
  pub height : ℕ
  pub round : ℕ
  pub phase : BftPhase
  pub prevotes : VoteMap
  pub precommits : VoteMap
  pub total_validators : ℕ

unfoldable pub new : ℕ → ℕ → ℕ → BftRoundState
new height round total_validators = record {
  height = height;
  round = round;
  phase = propose;
  prevotes = [];
  precommits = [];
  total_validators = total_validators;
}

-- `entry(hash).or_insert_with(HashSet::new)`, read.
abbrev pub voters : Hash32 → VoteMap → List Bytes
voters hash m = unwrap_or (lookup hash m) []

unfoldable pub record_vote : Hash32 → Bytes → VoteMap → VoteMap
record_vote hash id m = insert hash (add_member id (voters hash m)) m

abbrev pub vote_of_type : VoteType → Vote → BftRoundState → BftRoundState × Bool
vote_of_type VoteType.prevote v s = (
  record s { prevotes = record_vote v.block_hash v.validator_id s.prevotes },
  not (member v.validator_id (voters v.block_hash s.prevotes)),
)
vote_of_type VoteType.precommit v s = (
  record s { precommits = record_vote v.block_hash v.validator_id s.precommits },
  not (member v.validator_id (voters v.block_hash s.precommits)),
)

unfoldable pub add_vote : Vote → BftRoundState → BftRoundState × Bool
add_vote v s =
    if not (v.height == s.height) || not (v.round == s.round)
    then (s, false)
    else vote_of_type v.vote_type v s

abbrev pub quorum_in : VoteMap → ℕ → Hash32 → Bool
quorum_in m total hash = elim (lookup hash m) [
  | none ↦ false
  | some ids ↦ ltb (total * 2) (length ids * 3)
]

unfoldable pub has_quorum_prevote : BftRoundState → Hash32 → Bool
has_quorum_prevote s hash = quorum_in s.prevotes s.total_validators hash

unfoldable pub has_quorum_precommit : BftRoundState → Hash32 → Bool
has_quorum_precommit s hash = quorum_in s.precommits s.total_validators hash

abbrev pub phase_eq : BftPhase → BftPhase → Bool
phase_eq propose propose = true
phase_eq prevote prevote = true
phase_eq precommit precommit = true
phase_eq commit commit = true
phase_eq _ _ = false

unfoldable pub try_advance_phase : Hash32 → BftRoundState → BftRoundState × Option BftPhase
unfolding has_quorum_prevote has_quorum_precommit
try_advance_phase hash s =
    if phase_eq s.phase propose
    then (record s { phase = prevote }, some prevote)
    else if phase_eq s.phase prevote && has_quorum_prevote s hash
    then (record s { phase = precommit }, some precommit)
    else if phase_eq s.phase precommit && has_quorum_precommit s hash
    then (record s { phase = commit }, some commit)
    else (s, none)

-- What happens to a round: votes come in, and the engine tries to advance.
pub data RoundEvent : Type 0 where
  vote : Vote → RoundEvent
  advance : Hash32 → RoundEvent

unfoldable pub step : RoundEvent → BftRoundState → BftRoundState
step (vote v) s = (add_vote v s).0
step (advance hash) s = (try_advance_phase hash s).0

unfoldable pub run : List RoundEvent → BftRoundState → BftRoundState
unfolding step
run [] s = s
run (e ∷ es) s = run es (step e s)
