-- ===== src/Storage/Merkle/Spec.antt =====
-- The Merkle root of a list of leaves, level by level, with empty subtrees to the right of them, and
-- the frontier that belongs to a list: what the tree of crates/noirnet-storage/src/merkle.rs is to hold.
use noirnet.Prelude.{
  ℕ, zero, suc, ◌/◌, ◌%◌, ◌≡◌, refl, ap, ◌∙◌, inl, inr, Option, none, some, List, [], ◌∷◌, ◌++◌,
  arith, ◌==◌, Option-cases, is_some, length, Bytes,
}
use mathlib.Core.List.{append-nil}
use noirnet.Types.Note.{Hash32, zero_hash}
use noirnet.Storage.Merkle.{Frontier, hash_pair}

module _ (blake3 : Bytes → Bytes) where
  -- One level up; `e` is the empty node of this level.
  abbrev pub pair_up : Hash32 → List Hash32 → List Hash32
  pair_up e [] = []
  pair_up e (x ∷ []) = hash_pair blake3 x e ∷ []
  pair_up e (x ∷ y ∷ xs) = hash_pair blake3 x y ∷ pair_up e xs

  abbrev pub first_or : Hash32 → List Hash32 → Hash32
  first_or e [] = e
  first_or e (x ∷ xs) = x

  unfoldable pub merkle_from : ℕ → Hash32 → List Hash32 → Hash32
  merkle_from zero e xs = first_or e xs
  merkle_from (suc d) e xs = merkle_from d (hash_pair blake3 e e) (pair_up e xs)

  -- The root of a tree of depth `d` with these leaves and zeros behind them.
  abbrev pub merkle_root : ℕ → List Hash32 → Hash32
  merkle_root d xs = merkle_from d zero_hash xs

  abbrev pub full_pairs : List Hash32 → List Hash32
  full_pairs [] = []
  full_pairs (x ∷ []) = []
  full_pairs (x ∷ y ∷ xs) = hash_pair blake3 x y ∷ full_pairs xs

  abbrev pub odd_last : List Hash32 → Option Hash32
  odd_last [] = none
  odd_last (x ∷ []) = some x
  odd_last (x ∷ y ∷ xs) = odd_last xs

  unfoldable pub frontier_of : ℕ → List Hash32 → Frontier
  frontier_of zero xs = []
  frontier_of (suc d) xs = odd_last xs ∷ frontier_of d (full_pairs xs)

  -- How a further entry changes the two parts, and the level above it.
  abbrev pub merged : Option Hash32 → Hash32 → List Hash32
  merged none c = []
  merged (some l) c = hash_pair blake3 l c ∷ []

  abbrev pub waiting : Option Hash32 → Hash32 → Option Hash32
  waiting none c = some c
  waiting (some l) c = none

  abbrev pub topped : Option Hash32 → Hash32 → Hash32 → Hash32
  topped none c e = hash_pair blake3 c e
  topped (some l) c e = hash_pair blake3 l c

  pub odd_last-append :
      (xs : List Hash32) (c : Hash32) → odd_last (xs ++ c ∷ []) ≡ waiting (odd_last xs) c
  odd_last-append [] c = refl
  odd_last-append (x ∷ []) c = refl
  odd_last-append (x ∷ y ∷ xs) c = odd_last-append xs c

  pub full_pairs-append :
      (xs : List Hash32) (c : Hash32)
      → full_pairs (xs ++ c ∷ []) ≡ full_pairs xs ++ merged (odd_last xs) c
  full_pairs-append [] c = refl
  full_pairs-append (x ∷ []) c = refl
  full_pairs-append (x ∷ y ∷ xs) c = ap (◌∷◌ (hash_pair blake3 x y)) (full_pairs-append xs c)

  pub pair_up-append :
      (e : Hash32) (xs : List Hash32) (c : Hash32)
      → pair_up e (xs ++ c ∷ []) ≡ full_pairs xs ++ topped (odd_last xs) c e ∷ []
  pair_up-append e [] c = refl
  pair_up-append e (x ∷ []) c = refl
  pair_up-append e (x ∷ y ∷ xs) c = ap (◌∷◌ (hash_pair blake3 x y)) (pair_up-append e xs c)

  -- Filling up with the empty node of the level changes nothing but the padding.
  abbrev padding : Option Hash32 → Hash32 → List Hash32
  padding none e = hash_pair blake3 e e ∷ []
  padding (some l) e = []

  pair_up-pad :
      (e : Hash32) (xs : List Hash32)
      → pair_up e (xs ++ e ∷ []) ≡ pair_up e xs ++ padding (odd_last xs) e
  pair_up-pad e [] = refl
  pair_up-pad e (x ∷ []) = refl
  pair_up-pad e (x ∷ y ∷ xs) = ap (◌∷◌ (hash_pair blake3 x y)) (pair_up-pad e xs)

  pub merkle_from-pad :
      (d : ℕ) (e : Hash32) (xs : List Hash32) → merkle_from d e (xs ++ e ∷ []) ≡ merkle_from d e xs
  unfolding merkle_from
  merkle_from-pad zero e [] = refl
  merkle_from-pad zero e (x ∷ xs) = refl
  merkle_from-pad (suc d) e xs = elim (Option-cases (odd_last xs)) [
    | inl even ↦ rw (pair_up-pad, even) (merkle_from-pad d (hash_pair blake3 e e) (pair_up e xs))
    | inr (l, odd) ↦ rw (pair_up-pad, odd, append-nil) refl
  ]

  pub length-full_pairs : (xs : List Hash32) → length (full_pairs xs) ≡ length xs / 2
  length-full_pairs [] = omega arith
  length-full_pairs (x ∷ []) = omega arith
  length-full_pairs (x ∷ y ∷ xs) = omega (arith, length-full_pairs xs)

  pub odd_last-parity : (xs : List Hash32) → (length xs % 2 == 1) ≡ is_some (odd_last xs)
  odd_last-parity [] = ground arith
  odd_last-parity (x ∷ []) = ground arith
  odd_last-parity (x ∷ y ∷ xs) =
      let same : length (x ∷ y ∷ xs) % 2 ≡ length xs % 2 = omega arith in
      ap (λ t. t == 1) same ∙ odd_last-parity xs
