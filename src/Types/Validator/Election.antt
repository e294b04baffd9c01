-- ===== src/Types/Validator/Election.antt =====
-- Whom `elect_leader` of crates/noirnet-types/src/validator.rs chooses.
use noirnet.Prelude.{
  ℕ, ◌%◌, ◌<◌, max, ◌≡◌, refl, ◌∙◌, ◌⊎◌, inl, inr, none, some, List, [], ◌∷◌, arith, take, u128_mod,
  Bytes, from_le_bytes,
}
use mathlib.Core.List.{Mem, mem-cons_self}
use native.Mathlib.Nat.{mod-lt}
use noirnet.Prelude.Weighted.{total, pick, sum_from-total, FallsTo, pick-FallsTo, pick-mem}
use noirnet.Types.Validator.{StakeEntry, ValidatorSet, new, elect_leader, entry_stake}

abbrev pub stake : List StakeEntry → ℕ
stake = total entry_stake

new-total :
    (epoch : ℕ) (entries : List StakeEntry)
    → stake (new epoch entries).validators < u128_mod
    → (new epoch entries).total_stake ≡ stake (new epoch entries).validators
unfolding new
new-total epoch entries h =
    sum_from-total entry_stake 0 (new epoch entries).validators (omega arith) ∙ omega arith

elect_leader-pick :
    (s : ValidatorSet) (vrf_output : Bytes) (t : ℕ) (v : StakeEntry)
    → 0 < s.total_stake
    → from_le_bytes (take 16 vrf_output) % s.total_stake ≡ t
    → pick entry_stake t 0 s.validators ≡ some v
    → elect_leader s vrf_output ≡ some v
unfolding elect_leader pick
elect_leader-pick s vrf_output t v pos e found =
    let one : max s.total_stake 1 ≡ s.total_stake = omega arith in
    rw (one, e) (ground (arith, found))

-- In a set that `new` builds, whose stakes together are positive and fit 128 bits, the election
-- yields the entry to whose share of the stakes the random number, taken modulo the total stake,
-- falls.
pub elect_leader-FallsTo :
    (epoch : ℕ) (entries : List StakeEntry) (vrf_output : Bytes)
    → let s = new epoch entries in
      0 < stake s.validators
      → stake s.validators < u128_mod
      → (v : StakeEntry) × (elect_leader s vrf_output ≡ some v)
        × FallsTo entry_stake 0
            (from_le_bytes (take 16 vrf_output) % stake s.validators)
            v
            s.validators
elect_leader-FallsTo epoch entries vrf_output pos fits =
    let s = new epoch entries in
    let t = from_le_bytes (take 16 vrf_output) % stake s.validators in
    let (v, found, f) =
      pick-FallsTo entry_stake t 0 s.validators (omega arith)
        (omega (arith, mod-lt (from_le_bytes (take 16 vrf_output)) pos)) (omega arith) in
    (v, elected v found, f)
  where
    total : (new epoch entries).total_stake ≡ stake (new epoch entries).validators
    total = new-total epoch entries fits

    elected :
        (v : StakeEntry)
        → pick entry_stake
            (from_le_bytes (take 16 vrf_output) % stake (new epoch entries).validators)
            0
            (new epoch entries).validators
          ≡ some v
        → elect_leader (new epoch entries) vrf_output ≡ some v
    elected v found =
        elect_leader-pick (new epoch entries) vrf_output _ v (omega (arith, total)) (rw total) found

elected_from :
    (s : ValidatorSet) (vrf_output : Bytes) (vs : List StakeEntry)
    → s.validators ≡ vs
    → ((elect_leader s vrf_output ≡ none) × (s.validators ≡ []))
      ⊎ ((v : StakeEntry) × (elect_leader s vrf_output ≡ some v) × Mem v s.validators)
unfolding elect_leader
elected_from s vrf_output [] e = inl (ground arith, e)
elected_from s vrf_output (v ∷ vs) e =
    let t = from_le_bytes (take 16 vrf_output) % max s.total_stake 1 in
    elim (pick-mem entry_stake t 0 (v ∷ vs)) [
      | inl gone ↦ inr (v, ground (arith, gone), rw e mem-cons_self)
      | inr (w, found, m) ↦ inr (w, ground (arith, found), rw e m)
    ]

-- A set with no validator elects nobody, and any other elects one of its validators.
pub elect_leader-mem :
    (s : ValidatorSet) (vrf_output : Bytes)
    → ((elect_leader s vrf_output ≡ none) × (s.validators ≡ []))
      ⊎ ((v : StakeEntry) × (elect_leader s vrf_output ≡ some v) × Mem v s.validators)
elect_leader-mem s vrf_output = elected_from s vrf_output s.validators refl
