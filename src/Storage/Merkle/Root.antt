-- ===== src/Storage/Merkle/Root.antt =====
-- The tree of crates/noirnet-storage/src/merkle.rs beside the Merkle root of a list.
use noirnet.Prelude.{
  ℕ, zero, suc, ◌/◌, ◌%◌, ◌^◌, ◌≤◌, ◌<◌, ◌≡◌, refl, sym, ap, ◌∙◌, inl, inr, List, [], ◌∷◌, ◌++◌,
  arith, ◌==◌, if◌then◌else◌, Option-cases, unwrap_or, length, length-append, add_u64, Bytes,
}
use mathlib.Core.List.{append-nil}
use native.Mathlib.Nat.{div-div-eq-div-mul, pow-suc}
use mathlib.Core.List.{append_assoc}
use noirnet.Types.Constants.{note_commitment_tree_depth}
use noirnet.Types.Note.{Hash32, zero_hash}
use noirnet.Storage.Merkle.{
  NoteCommitmentTree, empty_tree, hash_pair, push, append_leaf, empty_root, climb, root, append_all,
}
use noirnet.Storage.Merkle.Spec.{
  merkle_from, merkle_root, full_pairs, odd_last, frontier_of, odd_last-append, full_pairs-append,
  pair_up-append, merkle_from-pad, length-full_pairs, odd_last-parity, topped,
}

module _ (blake3 : Bytes → Bytes) where
  -- Pushing an entry onto the frontier of a list gives the frontier of the longer list.
  pub push-frontier_of :
      (d : ℕ) (xs : List Hash32) (c : Hash32)
      → push blake3 d c (frontier_of blake3 d xs) ≡ frontier_of blake3 d (xs ++ c ∷ [])
  unfolding push frontier_of
  push-frontier_of zero xs c = refl
  push-frontier_of (suc d) xs c = elim (Option-cases (odd_last blake3 xs)) [
    | inl even ↦ ground (
      arith,
      even,
      odd_last-append blake3 xs c,
      full_pairs-append blake3 xs c,
      append-nil (full_pairs blake3 xs),
    )
    | inr (l, odd) ↦ ground (
      arith,
      odd,
      odd_last-append blake3 xs c,
      full_pairs-append blake3 xs c,
      push-frontier_of d (full_pairs blake3 xs) (hash_pair blake3 l c),
    )
  ]

  -- Each turn of the loop does what one level of the tree does.
  climb_step :
      (xs : List Hash32) (c e : Hash32)
      → (if length xs % 2 == 1
          then hash_pair blake3 (unwrap_or (odd_last blake3 xs) e) c
          else hash_pair blake3 c (unwrap_or (odd_last blake3 xs) e))
        ≡ topped blake3 (odd_last blake3 xs) c e
  climb_step xs c e = elim (Option-cases (odd_last blake3 xs)) [
    | inl even ↦ ground (arith, even, odd_last-parity blake3 xs)
    | inr (l, odd) ↦ ground (arith, odd, odd_last-parity blake3 xs)
  ]

  climb-merkle_from :
      (d i size : ℕ) (xs : List Hash32) (c : Hash32)
      → size / 2 ^ i ≡ length xs
      → length xs < 2 ^ d
      → climb blake3 d i size c (frontier_of blake3 d xs)
        ≡ merkle_from blake3 d (empty_root blake3 i) (xs ++ c ∷ [])
  unfolding climb frontier_of merkle_from empty_root
  climb-merkle_from zero i size [] c size_i small = refl
  climb-merkle_from zero i size (x ∷ xs) c size_i small = absurd (omega (arith, small))
  climb-merkle_from (suc d) i size xs c size_i small =
      let halved : size / 2 ^ suc i ≡ length (full_pairs blake3 xs) =
        ap (λ p. size / p) (pow-suc 2 i)
        ∙ sym (div-div-eq-div-mul size (2 ^ i) 2)
        ∙ ap (λ t. t / 2) size_i
        ∙ sym (length-full_pairs blake3 xs) in
      let smaller : length (full_pairs blake3 xs) < 2 ^ d =
        omega (arith, small, pow-suc 2 d, length-full_pairs blake3 xs) in
      let node : (if (size / 2 ^ i) % 2 == 1
            then hash_pair blake3 (unwrap_or (odd_last blake3 xs) (empty_root blake3 i)) c
            else hash_pair blake3 c (unwrap_or (odd_last blake3 xs) (empty_root blake3 i)))
          ≡ topped blake3 (odd_last blake3 xs) c (empty_root blake3 i) =
        ap
          (λ t.
            if t % 2 == 1
            then hash_pair blake3 (unwrap_or (odd_last blake3 xs) (empty_root blake3 i)) c
            else hash_pair blake3 c (unwrap_or (odd_last blake3 xs) (empty_root blake3 i)))
          size_i
        ∙ climb_step xs c (empty_root blake3 i) in
      ap (λ t. climb blake3 d (suc i) size t (frontier_of blake3 d (full_pairs blake3 xs))) node
      ∙ climb-merkle_from d (suc i) size (full_pairs blake3 xs)
          (topped blake3 (odd_last blake3 xs) c (empty_root blake3 i)) halved smaller
      ∙ ap (merkle_from blake3 d (empty_root blake3 (suc i)))
          (sym (pair_up-append blake3 (empty_root blake3 i) xs c))

  -- The tree that holds the leaves `xs`.
  abbrev pub tree_of : List Hash32 → NoteCommitmentTree
  tree_of xs = record {
    frontier = frontier_of blake3 note_commitment_tree_depth xs;
    size = length xs;
  }

  append_leaf-tree_of :
      (xs : List Hash32) (c : Hash32)
      → length xs < 2 ^ 32
      → append_leaf blake3 c (tree_of xs) ≡ tree_of (xs ++ c ∷ [])
  unfolding append_leaf
  append_leaf-tree_of xs c small =
      let counted : add_u64 (length xs) 1 ≡ length (xs ++ c ∷ []) =
        omega (arith, small, length-append xs (c ∷ [])) in
      ap (λ f. record { frontier = f; size = add_u64 (length xs) 1 })
        (push-frontier_of note_commitment_tree_depth xs c)
      ∙ ap
          (λ n. record {
            frontier = frontier_of blake3 note_commitment_tree_depth (xs ++ c ∷ []);
            size = n;
          })
          counted

  append_all-tree_of :
      (xs ys : List Hash32)
      → length (xs ++ ys) ≤ 2 ^ 32
      → append_all blake3 ys (tree_of xs) ≡ tree_of (xs ++ ys)
  unfolding append_all
  append_all-tree_of xs [] small = ap tree_of (sym (append-nil xs))
  append_all-tree_of xs (y ∷ ys) small =
      let shifted : (xs ++ y ∷ []) ++ ys ≡ xs ++ y ∷ ys = append_assoc xs (y ∷ []) ys in
      let shorter : length xs < 2 ^ 32 = omega (arith, small, length-append xs (y ∷ ys)) in
      let same : length ((xs ++ y ∷ []) ++ ys) ≡ length (xs ++ y ∷ ys) = ap length shifted in
      ap (append_all blake3 ys) (append_leaf-tree_of xs y shorter)
      ∙ append_all-tree_of (xs ++ y ∷ []) ys (omega (arith, small, same))
      ∙ ap tree_of shifted

  empty_tree-tree_of : empty_tree ≡ tree_of []
  unfolding empty_tree frontier_of
  empty_tree-tree_of = refl

  -- After appending any list of fewer than 2 ^ 32 leaves to the empty tree, `root` is the Merkle root
  -- of depth 32 of that list, with zero leaves behind it.
  pub root-append_all :
      (xs : List Hash32)
      → length xs < 2 ^ 32
      → root blake3 (append_all blake3 xs empty_tree)
        ≡ merkle_root blake3 note_commitment_tree_depth xs
  unfolding root empty_root
  root-append_all xs small =
      let halves : length xs / 2 ^ 0 ≡ length xs = omega arith in
      ap (λ t. root blake3 (append_all blake3 xs t)) empty_tree-tree_of
      ∙ ap (root blake3) (append_all-tree_of [] xs (omega (arith, small)))
      ∙ climb-merkle_from note_commitment_tree_depth 0 (length xs) xs zero_hash halves small
      ∙ merkle_from-pad blake3 note_commitment_tree_depth zero_hash xs
