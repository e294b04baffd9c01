-- ===== src/Types/Block/Reward.antt =====
-- The emission schedule of crates/noirnet-types/src/block.rs.
use noirnet.Prelude.{ℕ, zero, suc, ◌+◌, ◌*◌, ◌/◌, ◌^◌, ◌≤◌, ◌<◌, ◌≡◌, arith}
use native.Mathlib.Nat.{pow-le-pow_right, one-le-pow, div-le_self}
use noirnet.Types.Constants.{initial_block_reward, halving_interval, tail_emission, max_supply}
use noirnet.Types.Block.{compute_block_reward}

div-le_div : (a b c : ℕ) → 0 < b → b ≤ c → a / c ≤ a / b
div-le_div a b c h k = grind arith

-- A positive height is rewarded with at least the tail emission and at most the initial reward.
pub compute_block_reward_bounds :
    (height : ℕ)
    → 0 < height
    → (tail_emission ≤ compute_block_reward height)
      × (compute_block_reward height ≤ initial_block_reward)
unfolding compute_block_reward
compute_block_reward_bounds height h =
    ground (arith, div_le initial_block_reward (2 ^ (height / halving_interval)))
  where
    div_le : (a b : ℕ) → a / b ≤ a
    div_le a b = omega arith

shift_antitone : (a i j : ℕ) → i ≤ j → a / 2 ^ j ≤ a / 2 ^ i
shift_antitone a i j h =
    div-le_div a (2 ^ i) (2 ^ j) (one-le-pow i 2 (omega arith)) (pow-le-pow_right (omega arith) h)

-- The reward never rises with the height: a later block earns at most what an earlier one did.
pub compute_block_reward_antitone :
    (height later : ℕ)
    → 0 < height
    → height ≤ later
    → compute_block_reward later ≤ compute_block_reward height
unfolding compute_block_reward
compute_block_reward_antitone height later h k = ground (
  arith,
  shift_antitone initial_block_reward (height / halving_interval) (later / halving_interval)
      (omega arith),
  div-le_self initial_block_reward (2 ^ (height / halving_interval)),
)

-- What the blocks up to a height earn together.
abbrev pub total_emission : ℕ → ℕ
total_emission zero = 0
total_emission (suc n) = compute_block_reward (suc n) + total_emission n

first_era : (n : ℕ) → suc n < halving_interval → compute_block_reward (suc n) ≡ initial_block_reward
unfolding compute_block_reward
first_era n h =
    let none_yet : suc n / halving_interval ≡ 0 = omega arith in rw none_yet (ground arith)

-- In the first era the emission is linear in the height.
total_emission-first_era :
    (n : ℕ) → n < halving_interval → total_emission n ≡ n * initial_block_reward
total_emission-first_era zero h = omega arith
total_emission-first_era (suc n) h =
    omega (arith, first_era n h, total_emission-first_era n (omega arith))

-- Each height from 525,001 on, within the first era, has an emission above the declared maximum
-- supply, while the reward of the next block is still the full initial reward.
pub total_emission-exceeds-max_supply :
    (n : ℕ)
    → 525_000 < n
    → suc n < halving_interval
    → (max_supply < total_emission n) × (compute_block_reward (suc n) ≡ initial_block_reward)
total_emission-exceeds-max_supply n h k =
    (omega (arith, total_emission-first_era n (omega arith)), first_era n k)
