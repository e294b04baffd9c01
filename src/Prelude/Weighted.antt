-- ===== src/Prelude/Weighted.antt =====
-- The walk over stakes by which crates/noirnet-types/src/validator.rs and
-- crates/noirnet-consensus/src/leader.rs choose a leader: sums of `u128` that wrap, and the first
-- entry whose cumulative weight passes a threshold.
use mathlib.Core.List.{Mem, mem-cons_self, mem-cons_of_mem}
use mathlib.Core.Path.{◌≡◌, refl, ap, ◌∙◌}
use mathlib.Core.Option.{Option, none, some}
use mathlib.Core.List.{List, [], ◌∷◌, ◌++◌}
use mathlib.Core.Logic.{◌⊎◌, inl, inr}
use Prim.Native.Nat.{ℕ, ◌+◌, ◌%◌, ◌≤◌, ◌<◌}
use native.Mathlib.Omega.{arith}
use noirnet.Prelude.Tests.{ltb, ltb→lt, ltb-false, if◌then◌else◌, Bool-cases}
use noirnet.Prelude.Words.{add_u128, u128_mod}

module _ {ℓ} {A : Type ℓ} (weight : A → ℕ) where
  -- `.map(weight).sum::<u128>()`
  unfoldable pub sum_from : ℕ → List A → ℕ
  sum_from acc [] = acc
  sum_from acc (v ∷ vs) = sum_from (add_u128 acc (weight v)) vs

  -- The first entry whose cumulative weight passes the threshold.
  unfoldable pub pick : ℕ → ℕ → List A → Option A
  pick threshold cumulative [] = none
  pick threshold cumulative (v ∷ vs) =
      let next = add_u128 cumulative (weight v) in
      let rest = pick threshold next vs in if ltb threshold next then some v else rest

  -- The sum with no wrap.
  abbrev pub total : List A → ℕ
  total [] = 0
  total (v ∷ vs) = weight v + total vs

  pub sum_from-total :
      (acc : ℕ) (vs : List A) → acc + total vs < u128_mod → sum_from acc vs ≡ acc + total vs
  unfolding sum_from
  sum_from-total acc [] h = omega arith
  sum_from-total acc (v ∷ vs) h =
      let plain : (acc + weight v) % u128_mod ≡ acc + weight v = omega arith in
      rw plain (sum_from-total (acc + weight v) vs (omega arith) ∙ omega arith)

  -- The number `t` falls to `v`: counted on from `c`, the weights before `v` do not pass it, and
  -- with the weight of `v` they do.
  pub record FallsTo (c t : ℕ) (v : A) (vs : List A) : Type ℓ where
    pub before : List A
    pub after : List A
    pub split : vs ≡ before ++ (v ∷ after)
    pub reached : c + total before ≤ t
    pub passed : t < c + total before + weight v

  pub pick-FallsTo :
      (t c : ℕ) (vs : List A)
      → c ≤ t
      → t < c + total vs
      → c + total vs < u128_mod
      → (v : A) × (pick t c vs ≡ some v) × FallsTo c t v vs
  unfolding pick
  pick-FallsTo t c [] lo hi fits = absurd (omega arith)
  pick-FallsTo t c (v ∷ vs) lo hi fits =
      let plain : (c + weight v) % u128_mod ≡ c + weight v = omega arith in
      elim (Bool-cases (ltb t (c + weight v))) [
        | inl hit ↦ (
          v,
          ground arith,
          record {
            before = [];
            after = vs;
            split = refl;
            reached = omega arith;
            passed = omega (arith, ltb→lt _ _ hit);
          },
        )
        | inr miss ↦
            let (w, found, f) =
              pick-FallsTo t (c + weight v) vs (ltb-false _ _ miss) (omega arith) (omega arith) in
            (
              w,
              ground (arith, found),
              record {
                before = v ∷ f.before;
                after = f.after;
                split = ap (◌∷◌ v) f.split;
                reached = omega (arith, f.reached);
                passed = omega (arith, f.passed);
              },
            )
      ]

  pub pick-mem :
      (t c : ℕ) (vs : List A) → (pick t c vs ≡ none) ⊎ ((v : A) × (pick t c vs ≡ some v) × Mem v vs)
  unfolding pick
  pick-mem t c [] = inl refl
  pick-mem t c (v ∷ vs) = elim (Bool-cases (ltb t (add_u128 c (weight v)))) [
    | inl hit ↦ inr (v, ground arith, mem-cons_self)
    | inr miss ↦ elim (pick-mem t (add_u128 c (weight v)) vs) [
      | inl gone ↦ inl (ground (arith, gone))
      | inr (w, found, m) ↦ inr (w, ground (arith, found), mem-cons_of_mem v m)
    ]
  ]
