-- ===== src/Storage/State/Progress.antt =====
-- Which blocks `apply_block` of crates/noirnet-storage/src/state.rs applies.
use noirnet.Prelude.{
  ℕ, ◌≡◌, refl, ap, ◌∙◌, false, ◌||◌, Option, List, [], ◌∷◌, ◌++◌, arith, if◌then◌else◌, is_some,
  All, ok, add_u64, Bytes, bytes_eq_iff, to_le_bytes,
}
use noirnet.Prelude.{codes}
use noirnet.Prelude.Maps.{member, Distinct}
use noirnet.Types.Note.{Hash32, SpendDescription}
use noirnet.Types.Transaction.{Transaction}
use noirnet.Storage.State.Database.{
  Sled, Codec, StateStore, Op, ◌>>◌, reject_when, double_spend, tree_insert,
}
use noirnet.Storage.State.Blocks.{
  contains_nullifier, apply_spends, apply_outputs, apply_txs, height_of,
}
use noirnet.Storage.State.Effects.{is_spent, Effect, member-append}
use noirnet.Storage.State.Spending.{
  nullifiers_of, commitments_of, block_nullifiers, spends-insert, spends-apply_spends,
  grows-apply_outputs,
}
use noirnet.Storage.State.Reliable.{
  ok-then, Reliable, Works-insert, contains_nullifier-is_spent, Works-apply_outputs,
}

member-false-append :
    (x : Hash32) (xs ys : List Hash32)
    → member x (xs ++ ys) ≡ false
    → (member x xs ≡ false) × (member x ys ≡ false)
member-false-append x xs ys h = ground (arith, member-append x xs ys)

module _ {Db : Type 0} (sled : Sled Db) (codec : Codec) where
  -- The nullifiers are not spent yet, and no two of them are equal.
  abbrev pub Ready : List Hash32 → StateStore Db → Type 0
  Ready ns s = All (λ n. is_spent sled codec n s ≡ false) ns × Distinct ns

  -- The height that the next block needs.
  abbrev pub next_height : Option Bytes → ℕ
  next_height found = if is_some found then add_u64 (height_of found) 1 else 0

  abbrev pub stored_height : StateStore Db → Option Bytes
  stored_height s = sled.content (codes "meta") (codes "chain_height") s.db

  fresh_after :
      (xs ys : List Hash32) (s t : StateStore Db)
      → ((j : Hash32) → is_spent sled codec j t ≡ (member j xs || is_spent sled codec j s))
      → All (λ n. is_spent sled codec n s ≡ false) ys
      → All (λ n. member n xs ≡ false) ys
      → All (λ n. is_spent sled codec n t ≡ false) ys
  fresh_after xs [] s t e h k = tt
  fresh_after xs (y ∷ ys) s t e h k =
      (ground (arith, e y, h.0, k.0), fresh_after xs ys s t e h.1 k.1)

  apart_cons :
      (x : Hash32) (xs ys : List Hash32)
      → member x ys ≡ false
      → All (λ n. member n xs ≡ false) ys
      → All (λ n. member n (x ∷ xs) ≡ false) ys
  unfolding member
  apart_cons x xs [] h k = tt
  apart_cons x xs (y ∷ ys) h k = (
    ground (arith, h, k.0, bytes_eq_iff x y, bytes_eq_iff y x),
    apart_cons x xs ys (ground (arith, h)) k.1,
  )

  apart :
      (xs ys : List Hash32) → Distinct (xs ++ ys) → All (λ n. member n xs ≡ false) ys × Distinct ys
  unfolding member
  apart [] [] d = (tt, tt)
  apart [] (y ∷ ys) d = ((refl, (apart [] ys d.1).0), d)
  apart (x ∷ xs) ys d =
      let (a, b) = apart xs ys d.1 in (apart_cons x xs ys (member-false-append x xs ys d.0).1 a, b)

  All-second :
      (xs ys : List Hash32) (s : StateStore Db)
      → All (λ n. is_spent sled codec n s ≡ false) (xs ++ ys)
      → All (λ n. is_spent sled codec n s ≡ false) ys
  All-second [] ys s h = h
  All-second (x ∷ xs) ys s h = All-second xs ys s h.1

  Ready-after :
      (xs ys cs : List Hash32) (s t : StateStore Db)
      → Effect sled codec xs cs s t
      → Ready (xs ++ ys) s
      → Ready ys t
  Ready-after xs ys cs s t e r =
      let (a, d) = apart xs ys r.1 in (fresh_after xs ys s t e.spent (All-second xs ys s r.0) a, d)

  All-first :
      (xs ys : List Hash32) (s : StateStore Db)
      → All (λ n. is_spent sled codec n s ≡ false) (xs ++ ys)
      → All (λ n. is_spent sled codec n s ≡ false) xs
  All-first [] ys s h = tt
  All-first (x ∷ xs) ys s h = (h.0, All-first xs ys s h.1)

  Distinct-first : (xs ys : List Hash32) → Distinct (xs ++ ys) → Distinct xs
  Distinct-first [] ys d = tt
  Distinct-first (x ∷ xs) ys d = ((member-false-append x xs ys d.0).0, Distinct-first xs ys d.1)

  module _ (w : Reliable sled codec) where
    apply_spends-ok :
        (height : ℕ) (spends : List SpendDescription) (s : StateStore Db)
        → Ready (nullifiers_of sled codec spends) s
        → (t : StateStore Db) × (apply_spends sled codec height spends s ≡ (t, ok tt))
    unfolding apply_spends
    apply_spends-ok height [] s r = (s, refl)
    apply_spends-ok height (spend ∷ spends) s r =
        let n = spend.nullifier in
        let value = to_le_bytes 8 height in
        let rest : Op Db (Unit {0}) = apply_spends sled codec height spends in
        let (u, tt, put) = (Works-insert sled codec w (codes "nullifiers") n value).result s in
        let one : Effect sled codec (n ∷ []) [] s u =
          spends-insert sled codec n value s u tt r.0.0 put in
        let (t, e) =
          apply_spends-ok height spends u
            (Ready-after (n ∷ []) (nullifiers_of sled codec spends) [] s u one r) in
        let looked : contains_nullifier sled codec n s ≡ (s, ok false) =
          contains_nullifier-is_spent sled codec w n s ∙ ap (λ b. (s, ok b)) r.0.0 in
        (
          t,
          ok-then (contains_nullifier sled codec n)
              (λ seen.
                reject_when seen double_spend
                >> (tree_insert sled (codes "nullifiers") n value >> rest))
              looked (ok-then (tree_insert sled (codes "nullifiers") n value) (λ _. rest) put e),
        )

    pub apply_txs-ok :
        (height : ℕ) (txs : List Transaction) (s : StateStore Db)
        → Ready (block_nullifiers sled codec txs) s
        → (t : StateStore Db) × (apply_txs sled codec height txs s ≡ (t, ok tt))
    unfolding apply_txs
    apply_txs-ok height [] s r = (s, refl)
    apply_txs-ok height (tx ∷ txs) s r =
        let xs = nullifiers_of sled codec tx.spends in
        let ys = block_nullifiers sled codec txs in
        let rest : Op Db (Unit {0}) = apply_txs sled codec height txs in
        let (u, spent) =
          apply_spends-ok height tx.spends s (All-first xs ys s r.0, Distinct-first xs ys r.1) in
        let (v, tt, put) = (Works-apply_outputs sled codec w tx.outputs).result u in
        let first = spends-apply_spends sled codec height tx.spends s u tt spent in
        let second = grows-apply_outputs sled codec tx.outputs u v tt put in
        let (t, e) = apply_txs-ok height txs v (
          Ready-after [] ys (commitments_of sled codec tx.outputs) u v second
            (Ready-after xs ys [] s u first r)) in
        (
          t,
          ok-then (apply_spends sled codec height tx.spends)
              (λ _. apply_outputs sled codec tx.outputs >> rest) spent
              (ok-then (apply_outputs sled codec tx.outputs) (λ _. rest) put e),
        )
