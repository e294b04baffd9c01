-- ===== src/Consensus/Epoch.antt =====
-- crates/noirnet-consensus/src/epoch.rs
use noirnet.Prelude.{
  ℕ, ◌+◌, ◌*◌, ◌/◌, ◌%◌, ◌≤◌, ◌<◌, min, max, ◌≡◌, ◌↔◌, Bool, true, ◌&&◌, List, arith, ltb, ◌==◌,
  retain, u64_max, saturating_mul_u64,
}
use native.Mathlib.Nat.{div-mul-le_self, lt-div-mul-add, div-eq_of_lt-le, div-add-mod'}
use noirnet.Types.Validator.{ValidatorState, validator_is_active}

pub record EpochSchedule : Type 0 where
  pub epoch_length : ℕ

abbrev pub default_epoch_length : ℕ
default_epoch_length = 1_000

abbrev pub default_schedule : EpochSchedule
default_schedule = record { epoch_length = default_epoch_length }

unfoldable pub epoch_at_height : EpochSchedule → ℕ → ℕ
epoch_at_height s height = height / max s.epoch_length 1

unfoldable pub first_height : EpochSchedule → ℕ → ℕ
first_height s epoch = saturating_mul_u64 epoch (max s.epoch_length 1)

unfoldable pub is_epoch_boundary : EpochSchedule → ℕ → Bool
is_epoch_boundary s height = ltb 0 height && height % max s.epoch_length 1 == 0

unfoldable pub active_validators : List ValidatorState → List ValidatorState
active_validators validators = retain (λ v. validator_is_active v) validators

div_iff : (n d q : ℕ) → 0 < d → (n / d ≡ q) ↔ ((q * d ≤ n) × (n < (q + 1) * d))
div_iff n d q h = (
  λ e. (rw (← e) (div-mul-le_self n d), rw (← e) (omega (arith, lt-div-mul-add {a = n} {b = d} h))),
  λ b. div-eq_of_lt-le d b.0 b.1,
)

-- A height lies in an epoch exactly when it is at or past the first height of that epoch and before
-- that of the next, as long as the first height of the next fits 64 bits.
pub epoch_at_height_iff :
    (s : EpochSchedule) (height epoch : ℕ)
    → (epoch + 1) * max s.epoch_length 1 ≤ u64_max
    → (epoch_at_height s height ≡ epoch)
      ↔ ((first_height s epoch ≤ height) × (height < first_height s (epoch + 1)))
unfolding epoch_at_height first_height
epoch_at_height_iff s height epoch fits =
    let d = max s.epoch_length 1 in
    let here : min (epoch * d) u64_max ≡ epoch * d = omega arith in
    let next : min ((epoch + 1) * d) u64_max ≡ (epoch + 1) * d = omega arith in
    rw (here, next) (div_iff height d epoch (omega arith))

-- A height is a boundary exactly when it is positive and the first height of its own epoch.
pub is_epoch_boundary_iff :
    (s : EpochSchedule) (height : ℕ)
    → height ≤ u64_max
    → (is_epoch_boundary s height ≡ true)
      ↔ ((0 < height) × (first_height s (epoch_at_height s height) ≡ height))
unfolding is_epoch_boundary first_height epoch_at_height
is_epoch_boundary_iff s height fits =
    let d = max s.epoch_length 1 in
    let e = div-add-mod' height d in
    let below = div-mul-le_self height d in
    let first : min (height / d * d) u64_max ≡ height / d * d = omega arith in
    rw first (λ h. (ground arith, ground arith), λ h. ground arith)
