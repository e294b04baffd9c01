-- ===== src/Storage/State/Chain.antt =====
-- Whole chains of blocks on the store of crates/noirnet-storage/src/state.rs.
use noirnet.Prelude.{
  ◌^◌, ◌<◌, ◌≡◌, ap, ◌∙◌, true, false, ◌||◌, List, [], ◌∷◌, ◌++◌, arith, length, All, ok, Bytes,
  bytes_eq_self,
}
use noirnet.Prelude.Maps.{member, Distinct}
use noirnet.Types.Constants.{note_commitment_tree_depth}
use noirnet.Types.Note.{Hash32}
use noirnet.Types.Block.{Block}
use noirnet.Storage.Merkle.{root, empty_tree, append_all}
use noirnet.Storage.Merkle.Spec.{merkle_root}
use noirnet.Storage.Merkle.Root.{root-append_all}
use noirnet.Storage.State.Database.{Sled, Codec, StateStore, Op, ◌>>=◌, done}
use noirnet.Storage.State.Blocks.{apply_block}
use noirnet.Storage.State.Effects.{is_spent, Has, Has-bind}
use noirnet.Storage.State.Quiet.{quiet-done}
use noirnet.Storage.State.Spending.{block_nullifiers, block_commitments, apply_block-Effect}

member-cons :
    (x : Hash32) (xs ys : List Hash32)
    → All (λ y. member y xs ≡ true) ys
    → All (λ y. member y (x ∷ xs) ≡ true) ys
unfolding member
member-cons x xs [] h = tt
member-cons x xs (y ∷ ys) h = (ground (arith, h.0), member-cons x xs ys h.1)

members : (xs : List Hash32) → All (λ y. member y xs ≡ true) xs
unfolding member
members [] = tt
members (x ∷ xs) = (ground (arith, bytes_eq_self x), member-cons x xs xs (members xs))

-- A block, with the contract state that it changes and the contracts that it deploys.
pub record Entry : Type 0 where
  pub block : Block
  pub changes : List (Bytes × Bytes)
  pub contracts : List (Hash32 × Bytes)

module _ {Db : Type 0} (sled : Sled Db) (codec : Codec) where
  -- The blocks one after the other, up to the first error.
  unfoldable pub apply_chain : List Entry → Op Db (Unit {0})
  unfolding apply_block
  apply_chain [] = done tt
  apply_chain (e ∷ es) = do _ ← apply_block sled codec e.block e.changes e.contracts; apply_chain es

  abbrev pub chain_nullifiers : List Entry → List Hash32
  chain_nullifiers [] = []
  chain_nullifiers (e ∷ es) =
      block_nullifiers sled codec e.block.transactions ++ chain_nullifiers es

  abbrev pub chain_commitments : List Entry → List Hash32
  chain_commitments [] = []
  chain_commitments (e ∷ es) =
      block_commitments sled codec e.block.transactions ++ chain_commitments es

  Has-apply_chain :
      (es : List Entry)
      → Has sled codec (chain_nullifiers es) (chain_commitments es) (apply_chain es)
  unfolding apply_chain
  Has-apply_chain [] = quiet-done sled codec tt
  Has-apply_chain (e ∷ es) =
      Has-bind sled codec (block_nullifiers sled codec e.block.transactions)
        (block_commitments sled codec e.block.transactions) (chain_nullifiers es)
        (chain_commitments es) (apply_block sled codec e.block e.changes e.contracts)
        (λ _. apply_chain es) (apply_block-Effect sled codec e.block e.changes e.contracts)
        (λ _. Has-apply_chain es)

  spent_after :
      (ns ys : List Hash32) (s t : StateStore Db)
      → ((j : Hash32) → is_spent sled codec j t ≡ (member j ns || is_spent sled codec j s))
      → All (λ y. member y ns ≡ true) ys
      → All (λ y. is_spent sled codec y t ≡ true) ys
  spent_after ns [] s t e h = tt
  spent_after ns (y ∷ ys) s t e h = (ground (arith, e y, h.0), spent_after ns ys s t e h.1)

  -- In a chain of blocks that are all applied with success, no nullifier occurs twice, in one
  -- transaction, one block or different blocks, none was spent before the first block, and all are
  -- spent at the end.
  pub apply_chain-Distinct :
      (es : List Entry) (s t : StateStore Db)
      → apply_chain es s ≡ (t, ok tt)
      → Distinct (chain_nullifiers es)
        × All (λ n. is_spent sled codec n s ≡ false) (chain_nullifiers es)
        × All (λ n. is_spent sled codec n t ≡ true) (chain_nullifiers es)
  apply_chain-Distinct es s t h =
      let e = Has-apply_chain es s t tt h in
      (
        e.distinct,
        e.fresh,
        spent_after (chain_nullifiers es) (chain_nullifiers es) s t e.spent
            (members (chain_nullifiers es)),
      )

  -- The state root after a chain of successful blocks on an empty tree is the Merkle root, of depth 32,
  -- of the commitments of all outputs in their order, as long as they are fewer than 2 ^ 32.
  pub apply_chain-merkle_root :
      (es : List Entry) (s t : StateStore Db)
      → s.tree ≡ empty_tree
      → length (chain_commitments es) < 2 ^ 32
      → apply_chain es s ≡ (t, ok tt)
      → root codec.blake3 t.tree
        ≡ merkle_root codec.blake3 note_commitment_tree_depth (chain_commitments es)
  apply_chain-merkle_root es s t empty small h =
      ap (root codec.blake3) (
        (Has-apply_chain es s t tt h).grown
        ∙ ap (append_all codec.blake3 (chain_commitments es)) empty)
      ∙ root-append_all codec.blake3 (chain_commitments es) small
