-- ===== src/Types/Validator/Quorum.antt =====
-- Who is in a validator set of crates/noirnet-types/src/validator.rs, and its quorums.
use noirnet.Prelude.{
  ℕ, ◌*◌, ◌<◌, ◌≡◌, ◌↔◌, true, false, List, arith, length, retain, All, All-retain_self,
}
use noirnet.Prelude.Sorting.{IsSorted, sort_by-IsSorted, sort_by-All, sort_by-perm}
use mathlib.Core.List.{Perm}
use noirnet.Types.Validator.{StakeEntry, new, has_quorum, more_stake, status_is_active}

-- In a set that `new` builds, a count of signatures reaches the quorum exactly when it is more than
-- two thirds of the validators.
pub has_quorum-new :
    (epoch : ℕ) (entries : List StakeEntry) (signed : ℕ)
    → (has_quorum (new epoch entries) signed ≡ true)
      ↔ (length (new epoch entries).validators * 2 < signed * 3)
unfolding has_quorum new
has_quorum-new epoch entries signed = ground arith

more_stake_asymm : (x y : StakeEntry) → more_stake x y ≡ true → more_stake y x ≡ false
more_stake_asymm x y h = ground arith

-- `new` keeps exactly the active entries, each as often as it was given, and orders them by falling
-- stake.
pub new-validators :
    (epoch : ℕ) (entries : List StakeEntry)
    → Perm (new epoch entries).validators (retain (λ v. status_is_active v.status) entries)
      × IsSorted more_stake (new epoch entries).validators
      × All (λ v. status_is_active v.status ≡ true) (new epoch entries).validators
unfolding new
new-validators epoch entries =
    let kept = retain (λ (v : StakeEntry). status_is_active v.status) entries in
    (
      sort_by-perm more_stake kept,
      sort_by-IsSorted more_stake more_stake_asymm kept,
      sort_by-All more_stake (λ v. status_is_active v.status ≡ true) kept
          (All-retain_self (λ v. status_is_active v.status) entries),
    )
