-- ===== src/Storage/State/Stability.antt =====
-- What `apply_block` of crates/noirnet-storage/src/state.rs keeps whether it ends well or with an error: a predicate on the store that
-- the writes of the database and the appending of leaves keep.
use noirnet.Prelude.{
  ℕ, ◌≡◌, ap, ◌∙◌, Bool, true, false, Option, none, some, List, [], ◌∷◌, ◌++◌, arith, Result, ok,
  err, Bytes, to_le_bytes, is_some,
}
use noirnet.Prelude.{codes}
use noirnet.Types.Note.{Hash32, SpendDescription, OutputDescription}
use noirnet.Types.Transaction.{Transaction, tx_id}
use noirnet.Types.Block.{Block, block_hash}
use noirnet.Storage.Merkle.{root, append_leaf, append_all}
use noirnet.Storage.State.Database.{
  StorageError, double_spend, invalid_transition, Sled, Codec, StateStore, Op, after, ◌>>=◌, done,
  reject_when, encoded, open_tree, tree_get, tree_insert, cf_get, cf_put,
}
use noirnet.Storage.State.Blocks.{
  get_chain_height, has_blocks, contains_nullifier, grow_tree, tree_size, current_tree,
  append_commitment, apply_spends, apply_outputs, apply_txs, insert_all, put_txs, put_block,
  apply_block, to_be_bytes, height_key,
}
use noirnet.Storage.State.Spending.{finish}
use noirnet.Storage.State.Effects.{is_spent, append_all-append}

module _ {Db : Type 0} (P : StateStore Db → Type 0) where
  pub record Stable {ℓ} {A : Type ℓ} (m : Op Db A) : Type ℓ where
    pub keeps : (s : StateStore Db) → P s → P (m s).0

  after-keeps {ℓ κ} :
      {A : Type ℓ} {B : Type κ} (r : StateStore Db × Result A StorageError) (f : A → Op Db B)
      → ((a : A) → Stable (f a))
      → P r.0
      → P (after r f).0
  after-keeps (s, ok a) f h w = (h a).keeps s w
  after-keeps (s, err e) f h w = w

  pub Stable-bind {ℓ κ} :
      {A : Type ℓ} {B : Type κ} {m : Op Db A} {f : A → Op Db B}
      → Stable m
      → ((a : A) → Stable (f a))
      → Stable (m >>= f)
  Stable-bind {m = m} {f} hm hf = record { keeps = λ s w. after-keeps (m s) f hf (hm.keeps s w) }

  pub Stable-done {ℓ} : {A : Type ℓ} (a : A) → Stable (done {Db = Db} a)
  Stable-done a = record { keeps = λ s w. w }

  Stable-reject_when : (b : Bool) (e : StorageError) → Stable (reject_when {Db = Db} b e)
  Stable-reject_when true e = record { keeps = λ s w. w }
  Stable-reject_when false e = record { keeps = λ s w. w }

  Stable-encoded : (o : Option Bytes) → Stable (encoded {Db = Db} o)
  Stable-encoded none = record { keeps = λ s w. w }
  Stable-encoded (some bytes) = record { keeps = λ s w. w }

module _ {Db : Type 0} (sled : Sled Db) (codec : Codec) (P : StateStore Db → Type 0)
    (inserts : (name key value : Bytes) → Stable P (tree_insert sled name key value))
    (grows : (c : Hash32) → Stable P (grow_tree sled codec c)) where
  Stable-open : (name : Bytes) → Stable P (open_tree sled name)
  Stable-open name = record { keeps = λ s w. unfold open_tree in w }

  Stable-cf_get : (name key : Bytes) → Stable P (cf_get sled name key)
  unfolding cf_get tree_get
  Stable-cf_get name key = Stable-bind P (Stable-open name) (λ _. record { keeps = λ s w. w })

  Stable-cf_put : (name key value : Bytes) → Stable P (cf_put sled name key value)
  unfolding cf_put
  Stable-cf_put name key value = Stable-bind P (Stable-open name) (λ _. inserts name key value)

  Stable-tree_size : Stable P (tree_size sled codec)
  Stable-tree_size = record { keeps = λ s w. w }

  Stable-current_tree : Stable P (current_tree sled codec)
  Stable-current_tree = record { keeps = λ s w. w }

  Stable-append_commitment : (c : Hash32) → Stable P (append_commitment sled codec c)
  unfolding append_commitment
  Stable-append_commitment c = Stable-bind P Stable-tree_size (λ leaf.
      Stable-bind P (Stable-cf_put (codes "commitments") (to_be_bytes 8 leaf) c) (λ _.
        Stable-bind P (grows c) (λ _. Stable-bind P Stable-current_tree (λ tree.
          Stable-bind P (Stable-encoded P (codec.encode_frontier tree.frontier)) (λ bytes.
            Stable-bind P (Stable-cf_put (codes "tree") (codes "frontier") bytes) (λ _.
              Stable-bind P (Stable-cf_put (codes "tree") (codes "size") (to_le_bytes 8 tree.size))
                (λ _. Stable-done P leaf)))))))

  Stable-apply_spends :
      (height : ℕ) (spends : List SpendDescription)
      → Stable P (apply_spends sled codec height spends)
  unfolding apply_spends contains_nullifier
  Stable-apply_spends height [] = Stable-done P tt
  Stable-apply_spends height (spend ∷ spends) =
      Stable-bind P
        (Stable-bind P (Stable-cf_get (codes "nullifiers") spend.nullifier)
          (λ found. Stable-done P (is_some found)))
        (λ seen. Stable-bind P (Stable-reject_when P seen double_spend) (λ _.
          Stable-bind P (inserts (codes "nullifiers") spend.nullifier (to_le_bytes 8 height))
            (λ _. Stable-apply_spends height spends)))

  Stable-apply_outputs : (outs : List OutputDescription) → Stable P (apply_outputs sled codec outs)
  unfolding apply_outputs
  Stable-apply_outputs [] = Stable-done P tt
  Stable-apply_outputs (out ∷ outs) = Stable-bind P Stable-tree_size (λ leaf.
      Stable-bind P (Stable-append_commitment out.note_commitment) (λ _.
        Stable-bind P (inserts (codes "commitments") (to_be_bytes 8 leaf) out.note_commitment)
          (λ _. Stable-apply_outputs outs)))

  Stable-apply_txs :
      (height : ℕ) (txs : List Transaction) → Stable P (apply_txs sled codec height txs)
  unfolding apply_txs
  Stable-apply_txs height [] = Stable-done P tt
  Stable-apply_txs height (tx ∷ txs) =
      Stable-bind P (Stable-apply_spends height tx.spends)
        (λ _. Stable-bind P (Stable-apply_outputs tx.outputs) (λ _. Stable-apply_txs height txs))

  Stable-insert_all :
      (name : Bytes) (entries : List (Bytes × Bytes))
      → Stable P (insert_all sled codec name entries)
  unfolding insert_all
  Stable-insert_all name [] = Stable-done P tt
  Stable-insert_all name ((key, value) ∷ rest) =
      Stable-bind P (inserts name key value) (λ _. Stable-insert_all name rest)

  Stable-put_txs : (txs : List Transaction) → Stable P (put_txs sled codec txs)
  unfolding put_txs
  Stable-put_txs [] = Stable-done P tt
  Stable-put_txs (tx ∷ txs) = Stable-bind P (Stable-encoded P (codec.encode_tx tx)) (λ bytes.
      Stable-bind P (Stable-cf_put (codes "txs") (tx_id codec.blake3 codec.serialize_tx tx) bytes)
        (λ _. Stable-put_txs txs))

  Stable-put_block : (block : Block) → Stable P (put_block sled codec block)
  unfolding put_block
  Stable-put_block block = Stable-bind P (Stable-encoded P (codec.encode_block block)) (λ bytes.
      Stable-bind P
        (Stable-cf_put (codes "blocks") (block_hash codec.blake3 codec.serialize_header block)
          bytes)
        (λ _. Stable-put_txs block.transactions))

  Stable-finish :
      (block : Block) (changes : List (Bytes × Bytes)) (contracts : List (Hash32 × Bytes))
      → Stable P (finish sled codec block changes contracts)
  unfolding finish
  Stable-finish block changes contracts = Stable-bind P Stable-current_tree (λ tree.
      Stable-bind P (inserts (codes "anchors") _ _) (λ _.
        Stable-bind P (Stable-open (codes "contracts")) (λ _.
          Stable-bind P (Stable-insert_all (codes "contracts") contracts) (λ _.
            Stable-bind P (Stable-open (codes "contract_state")) (λ _.
              Stable-bind P (Stable-insert_all (codes "contract_state") changes) (λ _.
                Stable-bind P (Stable-put_block block) (λ _.
                  Stable-bind P (Stable-open (codes "meta")) (λ _.
                    Stable-bind P (inserts (codes "meta") (codes "chain_height") _) (λ _.
                      Stable-bind P (inserts (codes "meta") (height_key block.header.height) _)
                        (λ _. Stable-done P (root codec.blake3 tree)))))))))))

  -- What every write of a block keeps, `apply_block` keeps, also if it ends with an error.
  pub Stable-apply_block :
      (block : Block) (changes : List (Bytes × Bytes)) (contracts : List (Hash32 × Bytes))
      → Stable P (apply_block sled codec block changes contracts)
  unfolding apply_block get_chain_height has_blocks finish
  Stable-apply_block block changes contracts =
      let reads = Stable-cf_get (codes "meta") (codes "chain_height") in
      Stable-bind P (Stable-bind P reads (λ found. Stable-done P _)) (λ current.
        Stable-bind P (Stable-bind P reads (λ found. Stable-done P _)) (λ has.
          Stable-bind P (Stable-reject_when P _ (invalid_transition [])) (λ _.
            Stable-bind P (Stable-open (codes "nullifiers")) (λ _.
              Stable-bind P (Stable-open (codes "commitments")) (λ _.
                Stable-bind P (Stable-open (codes "anchors")) (λ _.
                  Stable-bind P (Stable-apply_txs block.header.height block.transactions)
                    (λ _. Stable-finish block changes contracts)))))))

module _ {Db : Type 0} (sled : Sled Db) (codec : Codec) where
  -- The leaves of the tree are those of `s` and more after them.
  abbrev pub Grown : StateStore Db → StateStore Db → Type 0
  Grown s t = (cs : List Hash32) × (t.tree ≡ append_all codec.blake3 cs s.tree)

  -- Whether a block is applied or not, its leaves are appended to those before.
  pub apply_block-Grown :
      (block : Block) (changes : List (Bytes × Bytes)) (contracts : List (Hash32 × Bytes))
      (s t : StateStore Db)
      → Grown s t
      → Grown s (apply_block sled codec block changes contracts t).0
  apply_block-Grown block changes contracts s t w =
      (Stable-apply_block sled codec (Grown s)
          (λ name key value. record { keeps = λ u v. unfold tree_insert in v })
          (λ c. record {
            keeps = λ u v. (
              v.0 ++ c ∷ [],
              unfold append_all in
                  ap (append_leaf codec.blake3 c) v.1
                  ∙ append_all-append codec.blake3 v.0 (c ∷ []) s.tree,
            );
          })
          block changes contracts).keeps
        t w

  -- Where no write of the database fails, a spent nullifier stays spent, whether a block is applied or not.
  pub apply_block-spent :
      (writes : (name key value : Bytes) (db : Db) → (sled.insert name key value db).1 ≡ ok tt)
      (n : Hash32) (block : Block) (changes : List (Bytes × Bytes))
      (contracts : List (Hash32 × Bytes)) (s : StateStore Db)
      → is_spent sled codec n s ≡ true
      → is_spent sled codec n (apply_block sled codec block changes contracts s).0 ≡ true
  apply_block-spent writes n block changes contracts s w =
      (Stable-apply_block sled codec (λ u. is_spent sled codec n u ≡ true)
          (λ name key value. record {
            keeps = λ u v.
                unfold tree_insert in
                ground (
                  arith,
                  v,
                  sled.insert-content name key value (codes "nullifiers") n u.db
                      (writes name key value u.db),
                );
          })
          (λ c. record { keeps = λ u v. v }) block changes contracts).keeps
        s w
