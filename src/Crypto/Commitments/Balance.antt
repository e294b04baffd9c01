-- ===== src/Crypto/Commitments/Balance.antt =====
-- `check_value_balance` of crates/noirnet-crypto/src/commitment.rs against the sums of the values.
use noirnet.Prelude.{ℕ, ◌+◌, ◌%◌, ◌^◌, ◌<◌, ◌≡◌, ◌↔◌, true, List, [], ◌∷◌, arith, sum, Bytes}
use noirnet.Crypto.Commitments.{sum_u64, check_value_balance}

sum_u64_lem : (acc : ℕ) (vs : List ℕ) → acc < 2 ^ 64 → sum_u64 acc vs ≡ (acc + sum vs) % 2 ^ 64
unfolding sum_u64
sum_u64_lem acc [] h = omega arith
sum_u64_lem acc (v ∷ vs) h = omega (arith, sum_u64_lem ((acc + v) % 2 ^ 64) vs (omega arith))

-- The check accepts exactly when what comes in is what goes out and the fee, modulo 2 ^ 64: whatever the
-- value commitments are, and also for values that do not balance but differ by a multiple of 2 ^ 64.
pub check_value_balance_iff :
    (spend_cvs output_cvs : List Bytes) (fee : ℕ) (spend_values output_values : List ℕ)
    → (check_value_balance spend_cvs output_cvs fee spend_values output_values ≡ true)
      ↔ (sum spend_values % 2 ^ 64 ≡ (sum output_values + fee) % 2 ^ 64)
unfolding check_value_balance
check_value_balance_iff spend_cvs output_cvs fee spend_values output_values =
    let ins = sum_u64_lem 0 spend_values (omega arith) in
    let outs = sum_u64_lem 0 output_values (omega arith) in
    (λ h. ground (arith, ins, outs, h), λ h. ground (arith, ins, outs, h))
