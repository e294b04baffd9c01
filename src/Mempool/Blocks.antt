-- ===== src/Mempool/Blocks.antt =====
-- The blocks that the pool of crates/noirnet-mempool/src/pool.rs proposes.
use noirnet.Prelude.{
  ℕ, ◌+◌, ◌≤◌, ◌<◌, ◌≡◌, ◌⊎◌, ◌^◌, ok, inl, inr, Bool, true, false, Option, List, [], ◌∷◌, arith,
  ltb, leb, Bool-cases, length, retain, All, All-retain_self, is_ok, u64_mod, add_u64, Bytes,
}
use mathlib.Core.Logic.Or
use mathlib.Core.Bool.{Bool-set}
use mathlib.Core.List.{Perm, Mem, mem-cons, not-mem-nil, mem-cons_self, mem-cons_of_mem}
use mathlib.Core.List.Perm
use noirnet.Prelude.Sorting.{sort_by, sort_by-perm, IsSorted, sort_by-IsSorted}
use noirnet.Prelude.{Result-cases}
use noirnet.Types.Transaction.{Transaction, validate_format}
use noirnet.Types.Transaction.Format.{validate_format-IsWellFormed}
use noirnet.Mempool.{PrivateMempool, fill, more_fee, select_for_block, get_all_transactions}

abbrev pub gas : List Transaction → ℕ
gas [] = 0
gas (tx ∷ txs) = tx.gas_limit + gas txs

-- The first list is the second with some of its members left out.
pub data IsWithin : List Transaction → List Transaction → Type 0 where
  ended : {ys : List Transaction} → IsWithin [] ys
  taken : {xs ys : List Transaction} (x : Transaction) → IsWithin xs ys → IsWithin (x ∷ xs) (x ∷ ys)
  passed : {xs ys : List Transaction} (y : Transaction) → IsWithin xs ys → IsWithin xs (y ∷ ys)

fill-IsWithin :
    (max_txs max_gas count total : ℕ) (txs : List Transaction)
    → IsWithin (fill max_txs max_gas count total txs) txs
unfolding fill
fill-IsWithin max_txs max_gas count total [] = ended
fill-IsWithin max_txs max_gas count total (tx ∷ txs) = elim (Bool-cases (leb max_txs count)) [
  | inl full ↦ rw full ended
  | inr room ↦ elim (Bool-cases (ltb max_gas (add_u64 total tx.gas_limit))) [
    | inl skip ↦ rw (room, skip) (passed tx (fill-IsWithin max_txs max_gas count total txs))
    | inr fit ↦
        rw (room, fit)
          (taken tx (fill-IsWithin max_txs max_gas (count + 1) (add_u64 total tx.gas_limit) txs))
  ]
]

length-fill :
    (max_txs max_gas count total : ℕ) (txs : List Transaction)
    → count ≤ max_txs
    → count + length (fill max_txs max_gas count total txs) ≤ max_txs
unfolding fill
length-fill max_txs max_gas count total [] h = omega arith
length-fill max_txs max_gas count total (tx ∷ txs) h = ground (
  arith,
  length-fill max_txs max_gas count total txs,
  length-fill max_txs max_gas (count + 1) (add_u64 total tx.gas_limit) txs,
)

-- Gas limits that `validate_format` lets through do not make the sum wrap.
gas-fill :
    (max_txs max_gas count total : ℕ) (txs : List Transaction)
    → max_gas + 10_000_000 < u64_mod
    → total ≤ max_gas
    → All (λ (tx : Transaction). tx.gas_limit ≤ 10_000_000) txs
    → total + gas (fill max_txs max_gas count total txs) ≤ max_gas
unfolding fill
gas-fill max_txs max_gas count total [] small below w = omega arith
gas-fill max_txs max_gas count total (tx ∷ txs) small below w =
    let no_wrap : add_u64 total tx.gas_limit ≡ total + tx.gas_limit = omega (arith, w.0) in
    elim (Bool-cases (leb max_txs count)) [
      | inl full ↦ rw full (omega (arith, below))
      | inr room ↦ elim (Bool-cases (ltb max_gas (total + tx.gas_limit))) [
        | inl skip ↦
            rw (room, no_wrap, skip) (gas-fill max_txs max_gas count total txs small below w.1)
        | inr fit ↦
            let fits : total + tx.gas_limit ≤ max_gas = ground arith in
            let ih =
              gas-fill max_txs max_gas (count + 1) (total + tx.gas_limit) txs small fits w.1 in
            rw (room, no_wrap, fit) (omega (arith, ih))
      ]
    ]

All-IsWithin {κ} :
    (P : Transaction → Type κ) {xs ys : List Transaction} → IsWithin xs ys → All P ys → All P xs
All-IsWithin P ended h = tt
All-IsWithin P (taken x i) h = (h.0, All-IsWithin P i h.1)
All-IsWithin P (passed y i) h = All-IsWithin P i h.1

-- No transaction pays more than the one before it.
abbrev pub HasFallingFees : List Transaction → Type 0
HasFallingFees [] = Unit {0}
HasFallingFees (x ∷ []) = Unit {0}
HasFallingFees (x ∷ y ∷ ys) = (y.fee ≤ x.fee) × HasFallingFees (y ∷ ys)

IsSorted-HasFallingFees : (txs : List Transaction) → IsSorted more_fee txs → HasFallingFees txs
IsSorted-HasFallingFees [] h = tt
IsSorted-HasFallingFees (x ∷ []) h = tt
IsSorted-HasFallingFees (x ∷ y ∷ ys) h = (ground (arith, h.0), IsSorted-HasFallingFees (y ∷ ys) h.1)

more_fee_asymm : (x y : Transaction) → more_fee x y ≡ true → more_fee y x ≡ false
more_fee_asymm x y h = ground arith

module _ (blake3 : Bytes → Bytes) (serialize : Transaction → Bytes)
    (serialized_size : Transaction → Option ℕ) where
  abbrev pub valid : Transaction → Bool
  valid tx = is_ok (validate_format serialized_size tx)

  valid-gas : (tx : Transaction) → valid tx ≡ true → tx.gas_limit ≤ 10_000_000
  valid-gas tx h = elim (Result-cases (validate_format serialized_size tx)) [
    | inl good ↦ (validate_format-IsWellFormed serialized_size tx good).gas_bounded
    | inr (e, bad) ↦ cc (rw bad at h)
  ]

  each_gas :
      (txs : List Transaction)
      → All (λ tx. valid tx ≡ true) txs
      → All (λ (tx : Transaction). tx.gas_limit ≤ 10_000_000) txs
  each_gas [] h = tt
  each_gas (tx ∷ txs) h = (valid-gas tx h.0, each_gas txs h.1)

  valid-mem :
      (tx : Transaction) (txs : List Transaction)
      → All (λ tx. valid tx ≡ true) txs
      → Mem tx txs
      → valid tx ≡ true
  valid-mem tx [] h m = absurd (not-mem-nil m)
  valid-mem tx (ty ∷ txs) h m =
      Or.elim (Bool-set (valid tx) true) (mem-cons.0 m) (λ e. rw e h.0) (valid-mem tx txs h.1)

  each_ok :
      (txs : List Transaction)
      → All (λ tx. valid tx ≡ true) txs
      → All (λ tx. validate_format serialized_size tx ≡ ok tt) txs
  each_ok [] h = tt
  each_ok (tx ∷ txs) h = (
    elim (Result-cases (validate_format serialized_size tx)) [
      | inl good ↦ good
      | inr (e, bad) ↦ cc (rw bad at h.0)
    ],
    each_ok txs h.1,
  )

  each_valid :
      (txs : List Transaction)
      → ((tx : Transaction) → Mem tx txs → valid tx ≡ true)
      → All (λ tx. valid tx ≡ true) txs
  each_valid [] h = tt
  each_valid (tx ∷ txs) h =
      (h tx mem-cons_self, each_valid txs (λ ty m. h ty (mem-cons_of_mem tx m)))

  -- Whatever the order in which the pool is read, the selection has at most the given number of
  -- transactions and, unless the gas limit is within ten million of the 64-bit range, at most the
  -- given gas; all are well formed; and it is made from the well-formed transactions of the pool, in
  -- the order of falling fees, by leaving some out.
  pub select_for_block_lem :
      (shuffle : List Transaction → List Transaction) (max_txs max_gas : ℕ) (s : PrivateMempool)
      → ((txs : List Transaction) → Perm (shuffle txs) txs)
      → let selected =
          select_for_block blake3 serialize serialized_size shuffle max_txs max_gas s in
        (length selected ≤ max_txs)
        × ((gas selected ≤ max_gas) ⊎ (2 ^ 64 ≤ max_gas + 10_000_000))
        × All (λ tx. validate_format serialized_size tx ≡ ok tt) selected
        × ((candidates : List Transaction) × Perm candidates (retain valid (get_all_transactions s))
            × HasFallingFees candidates
            × IsWithin selected candidates)
  unfolding select_for_block
  select_for_block_lem shuffle max_txs max_gas s perm =
      let kept = retain valid (get_all_transactions s) in
      let sorted = sort_by more_fee (shuffle kept) in
      let p : Perm sorted kept = Perm.trans (sort_by-perm more_fee (shuffle kept)) (perm kept) in
      let good = each_valid sorted (λ tx m.
        valid-mem tx kept (All-retain_self valid (get_all_transactions s))
          ((Perm.mem_iff p).0 m)) in
      (
        omega (arith, length-fill max_txs max_gas 0 0 sorted (omega arith)),
        elim (Bool-cases (ltb (max_gas + 10_000_000) u64_mod)) [
          | inl small ↦ inl (
              omega (
                arith,
                gas-fill max_txs max_gas 0 0 sorted (ground (arith, small)) (omega arith)
                    (each_gas sorted good),
              ))
          | inr big ↦ inr (ground (arith, big))
        ],
        each_ok (fill max_txs max_gas 0 0 sorted)
            (All-IsWithin (λ tx. valid tx ≡ true) (fill-IsWithin max_txs max_gas 0 0 sorted) good),
        (
          sorted,
          p,
          IsSorted-HasFallingFees sorted (sort_by-IsSorted more_fee more_fee_asymm (shuffle kept)),
          fill-IsWithin max_txs max_gas 0 0 sorted,
        ),
      )
