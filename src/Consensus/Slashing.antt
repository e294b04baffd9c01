-- ===== src/Consensus/Slashing.antt =====
-- crates/noirnet-consensus/src/slashing.rs, and the error type of its lib.rs.
pub mod Amounts
use noirnet.Prelude.{
  ℕ, ◌-◌, ◌/◌, Bool, true, not, if◌then◌else◌, Result, ok, err, ◌>>=◌, ◌>>◌, saturating_add_u128,
  saturating_mul_u128, Bytes, bytes_eq,
}
use Prim.Native.String.{String}
use noirnet.Types.Validator.{
  ValidatorState, ValidatorStatus, DoubleSignEvidence, SlashParams, validator_id,
  validator_total_stake, tombstoned,
}

pub data ConsensusError : Type 0 where
  not_leader : ConsensusError
  invalid_proposal : String → ConsensusError
  invalid_aggregate_proof insufficient_precommits double_sign : ConsensusError

pub record SlashOutcome : Type 0 where
  pub validator_id : Bytes
  pub amount : ℕ
  pub tombstoned : Bool

unfoldable pub calculate_slash : ℕ → ℕ → ℕ
calculate_slash stake slash_bps = saturating_mul_u128 stake slash_bps / 10_000

-- The validator comes back beside the result, as the code changes it in place.
unfoldable pub apply_double_sign_evidence :
    ValidatorState
    → DoubleSignEvidence
    → SlashParams
    → ValidatorState × Result SlashOutcome ConsensusError
unfolding calculate_slash
apply_double_sign_evidence v evidence params =
    if not (bytes_eq (validator_id v.registration) evidence.validator_id)
    then (v, err (invalid_proposal "evidence validator does not match validator state"))
    else if bytes_eq evidence.block_hash_1 evidence.block_hash_2
    then (v, err (invalid_proposal "double-sign evidence must contain two different block hashes"))
    else let amount = calculate_slash (validator_total_stake v) params.double_sign_bps in
      (
        record v {
          total_slashed = saturating_add_u128 v.total_slashed amount;
          status = tombstoned;
        },
        ok (record { validator_id = evidence.validator_id; amount = amount; tombstoned = true }),
      )
