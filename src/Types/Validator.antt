-- ===== src/Types/Validator.antt =====
-- crates/noirnet-types/src/validator.rs. Ids are the first 32 bytes of a BLS key of 48 bytes.
-- `voting_power` returns a float and is left out; `u128` sums wrap.
pub mod Quorum
pub mod Election
use noirnet.Prelude.{
  ℕ, ◌+◌, ◌-◌, ◌*◌, ◌/◌, ◌%◌, max, Bool, true, false, Option, none, some, List, [], ◌∷◌, ltb, leb,
  ◌==◌, if◌then◌else◌, length, is_empty, take, retain, find, ◌>>=◌, ◌>>◌, add_u128, mul_u128, Bytes,
  bytes_eq, from_le_bytes,
}
use noirnet.Prelude.Sorting.{sort_by}
use noirnet.Prelude.Weighted.{sum_from, pick}
use noirnet.Types.Note.{Hash32}

pub data VoteType : Type 0 where
  prevote precommit : VoteType

pub record Vote : Type 0 where
  pub height : ℕ
  pub round : ℕ
  pub block_hash : Hash32
  pub vote_type : VoteType
  pub validator_id : Bytes
  pub signature : Bytes

pub data ValidatorStatus : Type 0 where
  active waiting tombstoned : ValidatorStatus
  jailed : ℕ → ValidatorStatus

-- `status == ValidatorStatus::Active`
abbrev pub status_is_active : ValidatorStatus → Bool
status_is_active active = true
status_is_active _ = false

pub record ValidatorRegistration : Type 0 where
  pub bls_pubkey : Bytes
  pub network_pubkey : Bytes
  pub stake : ℕ
  pub commission_bps : ℕ
  pub epoch : ℕ
  pub signature : Bytes

pub record ValidatorState : Type 0 where
  pub registration : ValidatorRegistration
  pub status : ValidatorStatus
  pub own_stake : ℕ
  pub delegated_stake : ℕ
  pub consecutive_misses : ℕ
  pub last_signed_height : ℕ
  pub pending_rewards : ℕ
  pub total_slashed : ℕ

-- `ValidatorId` wraps the BLS key.
abbrev pub validator_id : ValidatorRegistration → Bytes
validator_id r = r.bls_pubkey

abbrev pub validator_total_stake : ValidatorState → ℕ
validator_total_stake v = add_u128 v.own_stake v.delegated_stake

abbrev pub validator_is_active : ValidatorState → Bool
validator_is_active v = status_is_active v.status

pub record DoubleSignEvidence : Type 0 where
  pub validator_id : Bytes
  pub height : ℕ
  pub block_hash_1 : Hash32
  pub block_hash_2 : Hash32
  pub sig_1 : Bytes
  pub sig_2 : Bytes

pub record SlashParams : Type 0 where
  pub double_sign_bps : ℕ
  pub downtime_bps : ℕ
  pub invalid_proof_bps : ℕ

abbrev pub default_slash_params : SlashParams
default_slash_params = record { double_sign_bps = 500; downtime_bps = 50; invalid_proof_bps = 200 }

pub record StakeEntry : Type 0 where
  pub bls_pubkey : Bytes
  pub network_pubkey : Bytes
  pub total_stake : ℕ
  pub status : ValidatorStatus
  pub epoch_joined : ℕ

abbrev pub id : StakeEntry → Bytes
id v = take 32 v.bls_pubkey

pub record ValidatorSet : Type 0 where
  pub epoch : ℕ
  pub validators : List StakeEntry
  pub total_stake : ℕ
  pub quorum_threshold : ℕ

abbrev pub default_set : ValidatorSet
default_set = record { epoch = 0; validators = []; total_stake = 0; quorum_threshold = 0 }

abbrev pub entry_stake : StakeEntry → ℕ
entry_stake v = v.total_stake

-- `b.total_stake.cmp(&a.total_stake)` is `Less`.
abbrev pub more_stake : StakeEntry → StakeEntry → Bool
more_stake a b = ltb b.total_stake a.total_stake

unfoldable pub new : ℕ → List StakeEntry → ValidatorSet
unfolding sum_from
new epoch validators =
    let kept = sort_by more_stake (retain (λ v. status_is_active v.status) validators) in
    record {
      epoch = epoch;
      validators = kept;
      total_stake = sum_from entry_stake 0 kept;
      quorum_threshold = (length kept * 2) / 3 + 1;
    }

unfoldable pub get_by_id : ValidatorSet → Bytes → Option StakeEntry
get_by_id s wanted = find (λ v. bytes_eq (id v) wanted) s.validators

unfoldable pub has_quorum : ValidatorSet → ℕ → Bool
has_quorum s signed_count = leb s.quorum_threshold signed_count

unfoldable pub has_stake_quorum : ValidatorSet → ℕ → Bool
has_stake_quorum s signed_stake = ltb (mul_u128 s.total_stake 2) (mul_u128 signed_stake 3)

abbrev pub first : List StakeEntry → Option StakeEntry
first [] = none
first (v ∷ vs) = some v

abbrev pub or_else {ℓ} : {A : Type ℓ} → Option A → Option A → Option A
or_else none b = b
or_else (some a) b = some a

unfoldable pub elect_leader : ValidatorSet → Bytes → Option StakeEntry
unfolding pick
elect_leader s vrf_output =
    let threshold = from_le_bytes (take 16 vrf_output) % max s.total_stake 1 in
    if is_empty s.validators
    then none
    else or_else (pick entry_stake threshold 0 s.validators) (first s.validators)
