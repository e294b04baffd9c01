-- ===== src/Storage/State/Acceptance.antt =====
-- Exactly which blocks `apply_block` of crates/noirnet-storage/src/state.rs applies.
use noirnet.Prelude.{
  ◌≡◌, refl, sym, ap, ◌∙◌, ◌↔◌, inl, inr, true, not, List, [], arith, ◌==◌, Bool-cases, is_some,
  Result, ok, add_u64, Bytes, to_le_bytes,
}
use noirnet.Prelude.{codes}
use noirnet.Types.Constants.{anchor_expiry_blocks}
use noirnet.Types.Note.{Hash32}
use noirnet.Types.Block.{Block, block_hash}
use noirnet.Storage.Merkle.{root, append_all}
use noirnet.Storage.State.Database.{
  StorageError, Sled, Codec, StateStore, Op, after, ◌>>◌, reject_when, invalid_transition,
  open_tree,
}
use noirnet.Storage.State.Blocks.{
  get_chain_height, has_blocks, apply_txs, apply_block, height_of, height_key,
}
use noirnet.Storage.State.Spending.{
  block_nullifiers, block_commitments, Has-apply_txs, finish, apply_block-Effect,
}
use noirnet.Storage.State.Reliable.{
  Yields-bind, Yields-done, Reliable, Works-open, Works-insert, cf_get-content, Works-insert_all,
  Works-put_block,
}
use noirnet.Storage.State.Progress.{Ready, next_height, stored_height, apply_txs-ok}

same_result :
    {Db : Type 0} {s t : StateStore Db} {a b : Hash32}
    → Path (StateStore Db × Result Hash32 StorageError) (s, ok a) (t, ok b)
    → a ≡ b
same_result h = ground (arith, h)

module _ {Db : Type 0} (sled : Sled Db) (codec : Codec) (w : Reliable sled codec) where
  get_chain_height-stored :
      (s : StateStore Db)
      → get_chain_height sled codec s ≡ (s, ok (height_of (stored_height sled codec s)))
  unfolding get_chain_height
  get_chain_height-stored s =
      rw (cf_get-content sled codec w (codes "meta") (codes "chain_height") s) refl

  has_blocks-stored :
      (s : StateStore Db) → has_blocks sled codec s ≡ (s, ok (is_some (stored_height sled codec s)))
  unfolding has_blocks
  has_blocks-stored s =
      rw (cf_get-content sled codec w (codes "meta") (codes "chain_height") s) refl

  -- What comes after the check of the height.
  body : Block → List (Bytes × Bytes) → List (Hash32 × Bytes) → Op Db Hash32
  unfolding finish
  body block changes contracts = do
    open_tree sled (codes "nullifiers")
    open_tree sled (codes "commitments")
    open_tree sled (codes "anchors")
    apply_txs sled codec block.header.height block.transactions
    finish sled codec block changes contracts

  -- The check of the height, computed.
  apply_block-body :
      (block : Block) (changes : List (Bytes × Bytes)) (contracts : List (Hash32 × Bytes))
      (s : StateStore Db)
      → apply_block sled codec block changes contracts s
        ≡ after
            (reject_when
              (not (block.header.height == next_height sled codec (stored_height sled codec s)))
              (invalid_transition [])
              s)
            (λ _. body block changes contracts)
  unfolding apply_block body finish
  apply_block-body block changes contracts s =
      rw (get_chain_height-stored s, has_blocks-stored s) refl

  finish-ok :
      (block : Block) (changes : List (Bytes × Bytes)) (contracts : List (Hash32 × Bytes))
      (s : StateStore Db)
      → (t : StateStore Db) × (finish sled codec block changes contracts s
          ≡ (t, ok (root codec.blake3 s.tree)))
  unfolding finish
  finish-ok block changes contracts s =
      (Yields-bind
          (Works-insert sled codec w (codes "anchors") (root codec.blake3 s.tree)
            (to_le_bytes 8 (add_u64 block.header.height anchor_expiry_blocks)))
          (λ _. Yields-bind (Works-open sled codec w (codes "contracts")) (λ _.
            Yields-bind (Works-insert_all sled codec w (codes "contracts") contracts) (λ _.
              Yields-bind (Works-open sled codec w (codes "contract_state")) (λ _.
                Yields-bind (Works-insert_all sled codec w (codes "contract_state") changes) (λ _.
                  Yields-bind (Works-put_block sled codec w block) (λ _.
                    Yields-bind (Works-open sled codec w (codes "meta")) (λ _.
                      Yields-bind
                        (Works-insert sled codec w (codes "meta") (codes "chain_height")
                          (to_le_bytes 8 block.header.height))
                        (λ _.
                          Yields-bind
                            (Works-insert sled codec w (codes "meta")
                              (height_key block.header.height)
                              (block_hash codec.blake3 codec.serialize_header block))
                            (λ _. Yields-done (root codec.blake3 s.tree))))))))))).result
        s

  body-ok :
      (block : Block) (changes : List (Bytes × Bytes)) (contracts : List (Hash32 × Bytes))
      (s : StateStore Db)
      → Ready sled codec (block_nullifiers sled codec block.transactions) s
      → (t : StateStore Db) × (body block changes contracts s ≡ (
        t,
        ok (
            root codec.blake3
              (append_all codec.blake3 (block_commitments sled codec block.transactions) s.tree)),
      ))
  unfolding body open_tree
  body-ok block changes contracts s r =
      let (u, applied) = apply_txs-ok sled codec w block.header.height block.transactions s r in
      let (t, closed) = finish-ok block changes contracts u in
      let grown =
        (Has-apply_txs sled codec block.header.height block.transactions s u tt applied).grown in
      (
        t,
        rw
            (
              w.opens (codes "nullifiers") s.db,
              w.opens (codes "commitments") s.db,
              w.opens (codes "anchors") s.db,
              applied,
              closed,
              grown,
            )
            refl,
      )

  good_height :
      (block : Block) (changes : List (Bytes × Bytes)) (contracts : List (Hash32 × Bytes))
      (s t : StateStore Db) (a : Hash32)
      → apply_block sled codec block changes contracts s ≡ (t, ok a)
      → block.header.height ≡ next_height sled codec (stored_height sled codec s)
  good_height block changes contracts s t a h =
      elim (Bool-cases
        (block.header.height == next_height sled codec (stored_height sled codec s))) [
          | inl same ↦ ground (arith, same)
          | inr other ↦
              absurd cc (rw other at (sym (apply_block-body block changes contracts s) ∙ h))
        ]

  applied :
      (block : Block) (changes : List (Bytes × Bytes)) (contracts : List (Hash32 × Bytes))
      (s : StateStore Db)
      → block.header.height ≡ next_height sled codec (stored_height sled codec s)
      → Ready sled codec (block_nullifiers sled codec block.transactions) s
      → (t : StateStore Db) × (apply_block sled codec block changes contracts s ≡ (
        t,
        ok (
            root codec.blake3
              (append_all codec.blake3 (block_commitments sled codec block.transactions) s.tree)),
      ))
  applied block changes contracts s height r =
      let (t, e) = body-ok block changes contracts s r in
      let test : (block.header.height == next_height sled codec (stored_height sled codec s))
          ≡ true =
        ground (arith, height) in
      (t, apply_block-body block changes contracts s ∙ rw test e)

  -- On a database and a serialization without errors, a block is applied exactly when its height is 0 on an empty store and the
  -- next one otherwise, none of its nullifiers is spent, and no two of them are equal; the result is then the root of
  -- the tree with the commitments of its outputs appended.
  pub apply_block_iff :
      (block : Block) (changes : List (Bytes × Bytes)) (contracts : List (Hash32 × Bytes))
      (s : StateStore Db) (state_root : Hash32)
      → ((t : StateStore Db) × (apply_block sled codec block changes contracts s
            ≡ (t, ok state_root)))
        ↔ ((block.header.height ≡ next_height sled codec (stored_height sled codec s))
            × Ready sled codec (block_nullifiers sled codec block.transactions) s
            × (state_root
                ≡ root codec.blake3 (
                    append_all codec.blake3
                      (block_commitments sled codec block.transactions)
                      s.tree)))
  apply_block_iff block changes contracts s state_root = (
    λ h.
        let e = apply_block-Effect sled codec block changes contracts s h.0 state_root h.1 in
        let height = good_height block changes contracts s h.0 state_root h.1 in
        let (t, f) = applied block changes contracts s height (e.fresh, e.distinct) in
        (height, (e.fresh, e.distinct), same_result (sym h.1 ∙ f)),
    λ h.
        let (t, e) = applied block changes contracts s h.0 h.1 in
        (t, e ∙ ap (λ r. (t, ok r)) (sym h.2)),
  )
