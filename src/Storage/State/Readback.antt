-- ===== src/Storage/State/Readback.antt =====
-- Reading a block back that `apply_block` of crates/noirnet-storage/src/state.rs has written.
use noirnet.Prelude.{
  ◌^◌, ◌<◌, ◌≡◌, refl, ◌∙◌, ◌⊎◌, inl, inr, true, not, some, List, [], ◌∷◌, arith, ◌==◌,
  if◌then◌else◌, length, ok, err, add_u64, Bytes, bytes_eq, to_le_bytes, from_le_bytes-to_le_bytes,
  length-to_le_bytes,
}
use noirnet.Prelude.{codes, Result-split}
use noirnet.Types.Constants.{anchor_expiry_blocks}
use noirnet.Types.Note.{Hash32}
use noirnet.Types.Transaction.{Transaction, tx_id}
use noirnet.Types.Block.{Block, block_hash, header_hash}
use noirnet.Storage.Merkle.{root}
use noirnet.Storage.State.Database.{
  sled_error, Sled, Codec, StateStore, Op, ◌>>◌, done, reject_when, invalid_transition, open_tree,
  tree_insert, cf_get, tree_get,
}
use noirnet.Storage.State.Blocks.{
  height_key, has_blocks, apply_txs, insert_all, current_tree, put_txs, put_block, apply_block,
  u64_of, get_chain_height,
}
use noirnet.Storage.State.Queries.{get_block, block_at, get_block_by_height}
use noirnet.Storage.State.Triples.{
  Triple, Anything, Triple-bind, Triple-skip, Triple-and, Triple-with, Triple-some, Triple-encoding,
  Triple-done, Stored, Triple-stores, Triple-keeps, Triple-open, Triple-encoded, Triple-put,
  Triple-put_keeps,
}

module _ {Db : Type 0} (sled : Sled Db) (codec : Codec) where
  abbrev pub hash_of : Block → Hash32
  hash_of block = block_hash codec.blake3 codec.serialize_header block

  BlockStored : Block → StateStore Db → Type 0
  BlockStored block s =
      (bytes : Bytes) × (codec.encode_block block ≡ some bytes)
      × Stored sled codec (codes "blocks") (hash_of block) bytes s

  put_txs-keeps :
      {k v : Bytes} (txs : List Transaction)
      → Triple
          (Stored sled codec (codes "blocks") k v)
          (put_txs sled codec txs)
          (Stored sled codec (codes "blocks") k v)
  unfolding put_txs bytes_eq
  put_txs-keeps [] = Triple-done tt
  put_txs-keeps (tx ∷ txs) = Triple-bind (Triple-encoded sled codec (codec.encode_tx tx)) (λ bytes.
      Triple-bind
        (Triple-put_keeps sled codec (codes "txs") (tx_id codec.blake3 codec.serialize_tx tx) bytes
          refl)
        (λ _. put_txs-keeps txs))

  put_block-BlockStored :
      (block : Block) → Triple Anything (put_block sled codec block) (BlockStored block)
  unfolding put_block BlockStored
  put_block-BlockStored block = Triple-encoding (codec.encode_block block) (λ bytes e.
      Triple-bind (Triple-put sled codec (codes "blocks") (hash_of block) bytes) (λ _. record {
        runs = λ s t a p h. (bytes, e, (put_txs-keeps block.transactions).runs s t a p h);
      }))

  -- What the block store and the table of heights hold.
  abbrev Written : Block → StateStore Db → Type 0
  Written block s =
      (BlockStored block s
        × Stored sled codec (codes "meta") (codes "chain_height")
            (to_le_bytes 8 block.header.height) s)
      × Stored sled codec (codes "meta") (height_key block.header.height) (hash_of block) s

  close_block : Block → Hash32 → Op Db Hash32
  close_block block state_root = do
    put_block sled codec block
    open_tree sled (codes "meta")
    tree_insert sled (codes "meta") (codes "chain_height") (to_le_bytes 8 block.header.height)
    tree_insert sled (codes "meta") (height_key block.header.height) (hash_of block)
    done state_root

  BlockStored-insert :
      (block : Block) (key value : Bytes)
      → Triple (BlockStored block) (tree_insert sled (codes "meta") key value) (BlockStored block)
  unfolding BlockStored bytes_eq
  BlockStored-insert block key value =
      Triple-some (λ bytes. Triple-keeps sled codec (codes "meta") key value refl)

  close_block-Written :
      (block : Block) (state_root : Hash32)
      → Triple Anything (close_block block state_root) (Written block)
  unfolding close_block bytes_eq
  close_block-Written block state_root = Triple-bind (put_block-BlockStored block) (λ _.
      Triple-bind (Triple-open sled codec (codes "meta")) (λ _.
        Triple-bind
          (Triple-with
            (BlockStored-insert block (codes "chain_height") (to_le_bytes 8 block.header.height))
            (Triple-stores sled codec (codes "meta") (codes "chain_height")
              (to_le_bytes 8 block.header.height)))
          (λ _.
            Triple-bind
              (Triple-with
                (Triple-and
                  (BlockStored-insert block (height_key block.header.height) (hash_of block))
                  (Triple-keeps sled codec (codes "meta") (height_key block.header.height)
                    (hash_of block) refl))
                (Triple-stores sled codec (codes "meta") (height_key block.header.height)
                  (hash_of block)))
              (λ _. Triple-done state_root))))

  apply_block-Written :
      (block : Block) (changes : List (Bytes × Bytes)) (contracts : List (Hash32 × Bytes))
      → Triple Anything (apply_block sled codec block changes contracts) (Written block)
  unfolding apply_block close_block
  apply_block-Written block changes contracts = Triple-skip (get_chain_height sled codec) (λ height.
      Triple-skip (has_blocks sled codec) (λ has.
        Triple-skip
          (reject_when (not (block.header.height == (if has then add_u64 height 1 else 0)))
            (invalid_transition []))
          (λ _. Triple-skip (open_tree sled (codes "nullifiers")) (λ _.
            Triple-skip (open_tree sled (codes "commitments")) (λ _.
              Triple-skip (open_tree sled (codes "anchors")) (λ _.
                Triple-skip (apply_txs sled codec block.header.height block.transactions) (λ _.
                  Triple-skip (current_tree sled codec) (λ tree.
                    Triple-skip
                      (tree_insert sled (codes "anchors") (root codec.blake3 tree)
                        (to_le_bytes 8 (add_u64 block.header.height anchor_expiry_blocks)))
                      (λ _. Triple-skip (open_tree sled (codes "contracts")) (λ _.
                        Triple-skip (insert_all sled codec (codes "contracts") contracts) (λ _.
                          Triple-skip (open_tree sled (codes "contract_state")) (λ _.
                            Triple-skip (insert_all sled codec (codes "contract_state") changes)
                              (λ _. close_block-Written block (root codec.blake3 tree))))))))))))))

  -- Reading a key answers with its value, or with an error of the database.
  cf_get-cases :
      (name key value : Bytes) (s : StateStore Db)
      → Stored sled codec name key value s
      → (cf_get sled name key s ≡ (s, ok (some value)))
        ⊎ ((e : Bytes) × (cf_get sled name key s ≡ (s, err (sled_error e))))
  unfolding cf_get open_tree tree_get
  cf_get-cases name key value s stored = elim (Result-split (sled.open_tree name s.db)) [
    | inr (e, failed) ↦ inr (e, rw failed refl)
    | inl (tt, opened) ↦ elim (Result-split (sled.get name key s.db)) [
      | inr (e, failed) ↦ inr (e, rw (opened, failed) refl)
      | inl (found, read) ↦
          let same : found ≡ some value = sled.get-content name key s.db found read ∙ stored in
          inl (rw (opened, read, same) refl)
    ]
  ]

  length-hash_of :
      (block : Block)
      → ((bytes : Bytes) → length (codec.blake3 bytes) ≡ 32)
      → length (hash_of block) ≡ 32
  unfolding block_hash header_hash
  length-hash_of block wide = wide (codec.serialize_header block.header)

  -- After a block was applied with success, its height reads back as that block, and the height of the chain as its height,
  -- if it fits 64 bits, or the database reports an error; the hash function yields 32 bytes.
  pub get_block_by_height-apply_block :
      (block : Block) (changes : List (Bytes × Bytes)) (contracts : List (Hash32 × Bytes))
      (s t : StateStore Db) (state_root : Hash32)
      → ((bytes : Bytes) → length (codec.blake3 bytes) ≡ 32)
      → ((bytes : Bytes)
          → codec.encode_block block ≡ some bytes
          → codec.decode_block bytes ≡ some block)
      → block.header.height < 2 ^ 64
      → apply_block sled codec block changes contracts s ≡ (t, ok state_root)
      → (((get_block_by_height sled codec block.header.height t).1 ≡ ok (some (some block)))
          ⊎ ((e : Bytes) × ((get_block_by_height sled codec block.header.height t).1
                ≡ err (sled_error e))))
        × (((get_chain_height sled codec t).1 ≡ ok block.header.height)
            ⊎ ((e : Bytes) × ((get_chain_height sled codec t).1 ≡ err (sled_error e))))
  unfolding get_block_by_height block_at get_block get_chain_height BlockStored u64_of
  get_block_by_height-apply_block block changes contracts s t state_root wide decodes small h =
      let (((bytes, e, here), chain_height), hash) =
        (apply_block-Written block changes contracts).runs s t state_root tt h in
      let thirty_two : (length (hash_of block) == 32) ≡ true =
        ground (arith, length-hash_of block wide) in
      (
        elim (cf_get-cases (codes "meta") (height_key block.header.height) (hash_of block) t hash) [
          | inr (x, failed) ↦ inr (x, rw failed refl)
          | inl found ↦ elim (cf_get-cases (codes "blocks") (hash_of block) bytes t here) [
            | inr (x, failed) ↦ inr (x, rw (found, thirty_two, failed) refl)
            | inl read ↦ inl (rw (found, thirty_two, read, decodes bytes e) refl)
          ]
        ],
        elim (cf_get-cases (codes "meta") (codes "chain_height") (to_le_bytes 8 block.header.height)
            t chain_height) [
              | inr (x, failed) ↦ inr (x, rw failed refl)
              | inl found ↦ inl (
                  rw found (
                    ground (
                      arith,
                      length-to_le_bytes 8 block.header.height,
                      from_le_bytes-to_le_bytes 8 block.header.height small,
                    )))
            ],
      )
