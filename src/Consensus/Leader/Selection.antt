-- ===== src/Consensus/Leader/Selection.antt =====
-- Whom `select_leader` of crates/noirnet-consensus/src/leader.rs chooses.
use noirnet.Prelude.{
  ℕ, zero, suc, ◌%◌, ◌<◌, ◌≡◌, refl, sym, ◌⊎◌, inl, inr, true, false, none, some, List, [], ◌∷◌,
  ◌++◌, arith, ◌==◌, Bool-cases, length, get_elem?, take, Bytes, bytes_lt_asymm, to_le_bytes,
  from_le_bytes,
}
use noirnet.Prelude.{codes}
use mathlib.Core.List.{Mem, mem-cons_self, mem-cons_of_mem, Perm}
use mathlib.Core.List.Perm
use noirnet.Prelude.Sorting.{IsSorted, sort_by-perm, sort_by-IsSorted}
use noirnet.Prelude.Weighted.{sum_from, pick-mem}
use noirnet.Types.Validator.{ValidatorState, validator_id, validator_total_stake}
use noirnet.Consensus.Leader.{new, select_leader, choose, id_less, last}

get_elem-mem :
    (vs : List ValidatorState) (i : ℕ)
    → i < length vs
    → (v : ValidatorState) × (get_elem? vs i ≡ some v) × Mem v vs
get_elem-mem [] i h = absurd (omega arith)
get_elem-mem (v ∷ vs) zero h = (v, refl, mem-cons_self)
get_elem-mem (v ∷ vs) (suc i) h =
    let (w, e, m) = get_elem-mem vs i (omega arith) in (w, e, mem-cons_of_mem v m)

last-mem :
    (v : ValidatorState) (vs : List ValidatorState)
    → (w : ValidatorState) × (last (v ∷ vs) ≡ some w) × Mem w (v ∷ vs)
last-mem v [] = (v, refl, mem-cons_self)
last-mem v (w ∷ vs) = let (u, e, m) = last-mem w vs in (u, e, mem-cons_of_mem v m)

choose-mem :
    (seed : Bytes) (v : ValidatorState) (vs : List ValidatorState)
    → (w : ValidatorState) × (choose seed (v ∷ vs) ≡ some w) × Mem w (v ∷ vs)
unfolding choose
choose-mem seed v vs =
    let total_stake = sum_from validator_total_stake 0 (v ∷ vs) in
    let target = from_le_bytes (take 16 seed) % total_stake in
    elim (Bool-cases (total_stake == 0)) [
      | inl none_staked ↦
          let (w, e, m) =
            get_elem-mem (v ∷ vs) (from_le_bytes (take 4 seed) % length (v ∷ vs)) (omega arith) in
          (w, ground (arith, e), m)
      | inr staked ↦ elim (pick-mem validator_total_stake target 0 (v ∷ vs)) [
        | inl gone ↦ let (w, e, m) = last-mem v vs in (w, ground (arith, gone, e), m)
        | inr (w, e, m) ↦ (w, ground (arith, e), m)
      ]
    ]

new-active :
    (blake3 : Bytes → Bytes) (validators sorted : List ValidatorState) (entropy : Bytes) (round : ℕ)
    → (new validators).active_validators ≡ sorted
    → ((select_leader blake3 (new validators) entropy round ≡ none) × (sorted ≡ []))
      ⊎ ((v : ValidatorState) × (select_leader blake3 (new validators) entropy round
            ≡ some (validator_id v.registration))
          × Mem v sorted)
unfolding select_leader
new-active blake3 validators [] entropy round e = inl (ground arith, refl)
new-active blake3 validators (w ∷ ws) entropy round e =
    let (v, found, m) =
      choose-mem (blake3 (codes "NoirNet_leader_selection_v1" ++ entropy ++ to_le_bytes 4 round)) w
        ws in
    inr (v, ground (arith, found), m)

id_less_asymm : (x y : ValidatorState) → id_less x y ≡ true → id_less y x ≡ false
id_less_asymm x y h = bytes_lt_asymm (validator_id x.registration) (validator_id y.registration) h

-- The selector holds the given validators, in the order of their ids.
pub new-active_validators :
    (validators : List ValidatorState)
    → Perm (new validators).active_validators validators
      × IsSorted id_less (new validators).active_validators
unfolding new
new-active_validators validators =
    (sort_by-perm id_less validators, sort_by-IsSorted id_less id_less_asymm validators)

-- For each entropy and round, and whatever the stakes, the selector made of some validators chooses
-- one of them, also when all stakes are zero; only with no validator at all it panics.
pub select_leader-mem :
    (blake3 : Bytes → Bytes) (validators : List ValidatorState) (entropy : Bytes) (round : ℕ)
    → ((select_leader blake3 (new validators) entropy round ≡ none) × (validators ≡ []))
      ⊎ ((v : ValidatorState) × (select_leader blake3 (new validators) entropy round
            ≡ some (validator_id v.registration))
          × Mem v validators)
select_leader-mem blake3 validators entropy round =
    let p = (new-active_validators validators).0 in
    elim (new-active blake3 validators (new validators).active_validators entropy round refl) [
      | inl (e, nil) ↦ inl (e, sym (Perm.nil-eq (rw nil at p)))
      | inr (v, e, m) ↦ inr (v, e, (Perm.mem_iff p).0 m)
    ]
