-- ===== src/Storage/Merkle.antt =====
-- The tree of note commitments in crates/noirnet-storage/src/merkle.rs, without its database: the
-- frontier holds at place `i` the root of a full subtree of height `i` that waits for a right sibling.
-- The loops are recursions on the rounds left, over any depth; where the code would panic on a frontier
-- that is shorter than the depth, they stop. The frontiers built from `empty_tree` have its length.
pub mod Spec
pub mod Root
use noirnet.Prelude.{
  ℕ, zero, suc, ◌+◌, ◌-◌, ◌/◌, ◌%◌, ◌^◌, Bool, Option, none, some, List, [], ◌∷◌, ◌++◌, ◌==◌,
  if◌then◌else◌, unwrap_or, length, replicate, add_u64, Bytes,
}
use noirnet.Prelude.{codes}
use noirnet.Types.Constants.{note_commitment_tree_depth}
use noirnet.Types.Note.{Hash32, zero_hash}

pub record MerklePath : Type 0 where
  pub auth_path : List (Bytes × Bool)
  pub position : ℕ

abbrev pub Frontier : Type 0
Frontier = List (Option Hash32)

pub record NoteCommitmentTree : Type 0 where
  pub frontier : Frontier
  pub size : ℕ

unfoldable pub empty_tree : NoteCommitmentTree
empty_tree = record { frontier = replicate note_commitment_tree_depth none; size = 0 }

unfoldable pub hash_pair : (Bytes → Bytes) → Hash32 → Hash32 → Hash32
hash_pair blake3 left right = blake3 (codes "NoirNet_tree_node_v1" ++ left ++ right)

module _ (blake3 : Bytes → Bytes) where
  -- The loop of `append`: fill the first free place, merging with what stands below it.
  unfoldable pub push : ℕ → Hash32 → Frontier → Frontier
  push zero current fs = fs
  push (suc n) current [] = []
  push (suc n) current (some left ∷ fs) = none ∷ push n (hash_pair blake3 left current) fs
  push (suc n) current (none ∷ fs) = some current ∷ fs

  unfoldable pub append_leaf : Hash32 → NoteCommitmentTree → NoteCommitmentTree
  unfolding push
  append_leaf commitment t = record {
    frontier = push note_commitment_tree_depth commitment t.frontier;
    size = add_u64 t.size 1;
  }

  unfoldable pub empty_root : ℕ → Hash32
  empty_root zero = zero_hash
  empty_root (suc depth) = let node = empty_root depth in hash_pair blake3 node node

  -- The loop of `root`, from level `i` on.
  unfoldable pub climb : ℕ → ℕ → ℕ → Hash32 → Frontier → Hash32
  climb zero i size current fs = current
  climb (suc n) i size current [] = current
  climb (suc n) i size current (f ∷ fs) =
      let sibling = unwrap_or f (empty_root i) in
      climb n (suc i) size
        (if (size / 2 ^ i) % 2 == 1
          then hash_pair blake3 sibling current
          else hash_pair blake3 current sibling)
        fs

  unfoldable pub root : NoteCommitmentTree → Hash32
  unfolding climb
  root t = climb note_commitment_tree_depth 0 t.size (empty_root 0) t.frontier

  unfoldable pub append_all : List Hash32 → NoteCommitmentTree → NoteCommitmentTree
  unfolding append_leaf
  append_all [] t = t
  append_all (c ∷ cs) t = append_all cs (append_leaf c t)
