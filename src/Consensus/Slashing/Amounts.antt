-- ===== src/Consensus/Slashing/Amounts.antt =====
-- How much crates/noirnet-consensus/src/slashing.rs takes.
use noirnet.Prelude.{
  ℕ, zero, suc, ◌+◌, ◌-◌, ◌*◌, ◌/◌, ◌%◌, ◌^◌, ◌≤◌, ◌<◌, min, ◌≡◌, refl, ap, ◌∙◌, ◌≢◌, ◌⊎◌, inl, inr,
  true, false, arith, Bool-cases, ok, is_ok, u128_max, add_u128, bytes_eq, bytes_eq_iff,
  bytes_eq→eq,
}
use mathlib.Core.Path.{ap₂}
use noirnet.Types.Validator.{
  ValidatorState, DoubleSignEvidence, SlashParams, validator_id, validator_total_stake, tombstoned,
}
use noirnet.Consensus.Slashing.{calculate_slash, apply_double_sign_evidence}

-- With a rate of at most 100 %, a slash is at most the stake, saturated or not. Where the product
-- fits 128 bits it is the exact share, rounded down.
pub calculate_slash_bounds :
    (stake bps : ℕ)
    → bps ≤ 10_000
    → (calculate_slash stake bps ≤ stake)
      × (stake * bps ≤ u128_max
          → (calculate_slash stake bps * 10_000 ≤ stake * bps)
            × (stake * bps < calculate_slash stake bps * 10_000 + 10_000))
unfolding calculate_slash
calculate_slash_bounds stake bps h = (grind arith, λ fits. (omega arith, omega arith))

-- What the code does with evidence, by its own amount of a slash.
evidence_cases :
    (v : ValidatorState) (evidence : DoubleSignEvidence) (params : SlashParams)
    → let amount = calculate_slash (validator_total_stake v) params.double_sign_bps in
      let (w, result) = apply_double_sign_evidence v evidence params in
      ((validator_id v.registration ≡ evidence.validator_id)
        × (evidence.block_hash_1 ≢ evidence.block_hash_2)
        × (result
            ≡ ok (record {
              validator_id = validator_id v.registration;
              amount = amount;
              tombstoned = true;
            }))
        × (w ≡ record v {
          total_slashed = min (v.total_slashed + amount) u128_max;
          status = tombstoned;
        }))
      ⊎ (((validator_id v.registration ≢ evidence.validator_id)
            ⊎ (evidence.block_hash_1 ≡ evidence.block_hash_2))
          × (is_ok result ≡ false)
          × (w ≡ v))
unfolding apply_double_sign_evidence
evidence_cases v evidence params =
    elim (Bool-cases (bytes_eq (validator_id v.registration) evidence.validator_id)) [
      | inr other ↦ inr (
        inl (λ e. ground (arith, bytes_eq_iff (validator_id v.registration) evidence.validator_id)),
        ground arith,
        ground arith,
      )
      | inl same ↦ elim (Bool-cases (bytes_eq evidence.block_hash_1 evidence.block_hash_2)) [
        | inl equal ↦ inr (inr (bytes_eq→eq _ _ equal), ground arith, ground arith)
        | inr two ↦ inl (
          bytes_eq→eq _ _ same,
          λ e. ground (arith, bytes_eq_iff evidence.block_hash_1 evidence.block_hash_2),
          ground (arith, bytes_eq_iff (validator_id v.registration) evidence.validator_id),
          ground arith,
        )
      ]
    ]

-- Evidence is accepted exactly when it names the key of this validator and two different blocks. Then the slash is the given
-- share, in hundredths of a percent and rounded down, of the validator's own and delegated stake, where the sum wraps and the
-- product saturates at 128 bits; the validator is tombstoned and its slashed total grows by the slash, up to the largest
-- number; its stakes and the rest stay. Evidence that is refused changes nothing.
pub apply_double_sign_evidence_lem :
    (v : ValidatorState) (evidence : DoubleSignEvidence) (params : SlashParams)
    → let stake = (v.own_stake + v.delegated_stake) % 2 ^ 128 in
      let amount = min (stake * params.double_sign_bps) (2 ^ 128 - 1) / 10_000 in
      let (w, result) = apply_double_sign_evidence v evidence params in
      ((v.registration.bls_pubkey ≡ evidence.validator_id)
        × (evidence.block_hash_1 ≢ evidence.block_hash_2)
        × (result
            ≡ ok (record {
              validator_id = v.registration.bls_pubkey;
              amount = amount;
              tombstoned = true;
            }))
        × (w ≡ record v {
          total_slashed = min (v.total_slashed + amount) (2 ^ 128 - 1);
          status = tombstoned;
        }))
      ⊎ (((v.registration.bls_pubkey ≢ evidence.validator_id)
            ⊎ (evidence.block_hash_1 ≡ evidence.block_hash_2))
          × (is_ok result ≡ false)
          × (w ≡ v))
unfolding calculate_slash
apply_double_sign_evidence_lem v evidence params = evidence_cases v evidence params

accepted :
    (v : ValidatorState) (evidence : DoubleSignEvidence) (params : SlashParams)
    → validator_id v.registration ≡ evidence.validator_id
    → evidence.block_hash_1 ≢ evidence.block_hash_2
    → (apply_double_sign_evidence v evidence params).0 ≡ record v {
      total_slashed =
          min
            (v.total_slashed + calculate_slash (validator_total_stake v) params.double_sign_bps)
            u128_max;
      status = tombstoned;
    }
accepted v evidence params same two = elim (evidence_cases v evidence params) [
  | inl (_, _, _, e) ↦ e
  | inr (inl other, _, _) ↦ absurd (other same)
  | inr (inr equal, _, _) ↦ absurd (two equal)
]

-- The same evidence handed in `n` times.
abbrev pub slash_times : ℕ → ValidatorState → DoubleSignEvidence → SlashParams → ValidatorState
slash_times zero v evidence params = v
slash_times (suc n) v evidence params =
    (apply_double_sign_evidence (slash_times n v evidence params) evidence params).0

-- What the repetition leaves alone, and the total that it reaches.
pub record IsSlashedBy (n : ℕ) (v w : ValidatorState) (params : SlashParams) : Type 0 where
  pub registration : w.registration ≡ v.registration
  pub own_stake : w.own_stake ≡ v.own_stake
  pub delegated_stake : w.delegated_stake ≡ v.delegated_stake
  pub total :
      w.total_slashed
      ≡ min
          (v.total_slashed + n * calculate_slash (validator_total_stake v) params.double_sign_bps)
          u128_max

-- Evidence against a validator for two different blocks, applied any number of times, takes the
-- whole slash each time, computed from the same stake, up to the largest number, as long as the
-- total slashed before fits 128 bits; the registration and the stakes stay.
pub slash_times-IsSlashedBy :
    (n : ℕ) (v : ValidatorState) (evidence : DoubleSignEvidence) (params : SlashParams)
    → validator_id v.registration ≡ evidence.validator_id
    → evidence.block_hash_1 ≢ evidence.block_hash_2
    → v.total_slashed ≤ u128_max
    → IsSlashedBy n v (slash_times n v evidence params) params
slash_times-IsSlashedBy zero v evidence params same two fits = record {
  registration = refl;
  own_stake = refl;
  delegated_stake = refl;
  total = omega arith;
}
slash_times-IsSlashedBy (suc n) v evidence params same two fits =
    let w = slash_times n v evidence params in
    let ih = slash_times-IsSlashedBy n v evidence params same two fits in
    let e = accepted w evidence params (ap validator_id ih.registration ∙ same) two in
    let stake : validator_total_stake w ≡ validator_total_stake v =
      ap₂ add_u128 ih.own_stake ih.delegated_stake in
    record {
      registration = ap (λ (x : ValidatorState). x.registration) e ∙ ih.registration;
      own_stake = ap (λ (x : ValidatorState). x.own_stake) e ∙ ih.own_stake;
      delegated_stake = ap (λ (x : ValidatorState). x.delegated_stake) e ∙ ih.delegated_stake;
      total =
          ap (λ (x : ValidatorState). x.total_slashed) e
          ∙ omega (arith, ih.total, ap (λ t. calculate_slash t params.double_sign_bps) stake);
    }
