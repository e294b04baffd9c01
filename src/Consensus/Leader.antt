-- ===== src/Consensus/Leader.antt =====
-- crates/noirnet-consensus/src/leader.rs. `none` stands for the panic on an empty list.
pub mod Selection
use noirnet.Prelude.{
  ℕ, ◌+◌, ◌-◌, ◌/◌, ◌%◌, Bool, Option, none, some, List, [], ◌∷◌, ◌++◌, ◌==◌, if◌then◌else◌, length,
  is_empty, get_elem?, take, ◌>>=◌, ◌>>◌, Bytes, bytes_lt, to_le_bytes, from_le_bytes,
}
use noirnet.Prelude.{codes}
use noirnet.Prelude.Sorting.{sort_by}
use noirnet.Prelude.Weighted.{sum_from, pick}
use noirnet.Types.Validator.{ValidatorState, validator_id, validator_total_stake}

pub record LeaderSelector : Type 0 where
  pub active_validators : List ValidatorState

abbrev pub id_less : ValidatorState → ValidatorState → Bool
id_less a b = bytes_lt (validator_id a.registration) (validator_id b.registration)

unfoldable pub new : List ValidatorState → LeaderSelector
new validators = record { active_validators = sort_by id_less validators }

abbrev pub last : List ValidatorState → Option ValidatorState
last [] = none
last (v ∷ []) = some v
last (v ∷ w ∷ vs) = last (w ∷ vs)

abbrev pub or_last : Option ValidatorState → List ValidatorState → Option ValidatorState
or_last none vs = last vs
or_last (some v) vs = some v

-- The choice, once the seed is drawn: at random by the first four bytes where there is no stake, else
-- by stake.
unfoldable pub choose : Bytes → List ValidatorState → Option ValidatorState
choose seed validators =
    let total_stake = sum_from validator_total_stake 0 validators in
    let idx = from_le_bytes (take 4 seed) % length validators in
    let target = from_le_bytes (take 16 seed) % total_stake in
    if is_empty validators
    then none
    else if total_stake == 0
    then get_elem? validators idx
    else or_last (pick validator_total_stake target 0 validators) validators

abbrev id_of : Option ValidatorState → Option Bytes
id_of none = none
id_of (some v) = some (validator_id v.registration)

unfoldable pub select_leader : (Bytes → Bytes) → LeaderSelector → Bytes → ℕ → Option Bytes
unfolding choose
select_leader blake3 s entropy round = id_of (
    choose (blake3 (codes "NoirNet_leader_selection_v1" ++ entropy ++ to_le_bytes 4 round))
      s.active_validators)
