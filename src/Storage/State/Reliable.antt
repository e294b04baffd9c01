-- ===== src/Storage/State/Reliable.antt =====
-- The operations of crates/noirnet-storage/src/state.rs on a database and a serialization that report no errors.
use noirnet.Prelude.{
  ◌≡◌, refl, true, Option, none, some, List, [], ◌∷◌, arith, is_some, ok, Bytes, to_le_bytes,
}
use noirnet.Prelude.{codes}
use noirnet.Types.Note.{Hash32, OutputDescription}
use noirnet.Types.Transaction.{Transaction, tx_id}
use noirnet.Types.Block.{Block, block_hash}
use noirnet.Storage.Merkle.{Frontier}
use noirnet.Storage.State.Database.{
  Sled, Codec, StateStore, Op, after, ◌>>=◌, done, encoded, open_tree, tree_get, tree_insert,
  cf_get, cf_put,
}
use noirnet.Storage.State.Blocks.{
  contains_nullifier, grow_tree, tree_size, current_tree, append_commitment, apply_outputs,
  insert_all, put_txs, put_block, to_be_bytes,
}
use noirnet.Storage.State.Effects.{is_spent}

-- One operation after the other.
pub ok-then {ℓ κ} :
    {Db : Type 0} {A : Type ℓ} {B : Type κ} (m : Op Db A) (f : A → Op Db B) {s u t : StateStore Db}
    {a : A} {b : B}
    → m s ≡ (u, ok a)
    → f a u ≡ (t, ok b)
    → after (m s) f ≡ (t, ok b)
ok-then m f first second = rw first second

pub record Works {ℓ} {Db : Type 0} {A : Type ℓ} (m : Op Db A) : Type ℓ where
  pub result : (s : StateStore Db) → (t : StateStore Db) × (a : A) × (m s ≡ (t, ok a))

pub Works-bind {ℓ κ} :
    {Db : Type 0} {A : Type ℓ} {B : Type κ} {m : Op Db A} {f : A → Op Db B}
    → Works m
    → ((a : A) → Works (f a))
    → Works (m >>= f)
Works-bind {m = m} {f} hm hf = record {
  result = λ s.
      let (u, a, e) = hm.result s in let (t, b, g) = (hf a).result u in (t, b, ok-then m f e g);
}

-- No call of the database fails, and everything can be serialized.
pub record Reliable {Db : Type 0} (sled : Sled Db) (codec : Codec) : Type 0 where
  pub opens : (name : Bytes) (db : Db) → sled.open_tree name db ≡ ok tt
  pub gets : (name key : Bytes) (db : Db) → sled.get name key db ≡ ok (sled.content name key db)
  pub inserts : (name key value : Bytes) (db : Db) → (sled.insert name key value db).1 ≡ ok tt
  pub encodes_block : (block : Block) → is_some (codec.encode_block block) ≡ true
  pub encodes_tx : (tx : Transaction) → is_some (codec.encode_tx tx) ≡ true
  pub encodes_frontier : (frontier : Frontier) → is_some (codec.encode_frontier frontier) ≡ true

module _ {Db : Type 0} (sled : Sled Db) (codec : Codec) (w : Reliable sled codec) where
  pub Works-done {ℓ} : {A : Type ℓ} (a : A) → Works (done {Db = Db} a)
  Works-done a = record { result = λ s. (s, a, refl) }

  pub Works-open : (name : Bytes) → Works (open_tree sled name)
  Works-open name = record {
    result = λ s. (s, tt, unfold open_tree in rw (w.opens name s.db) refl);
  }

  pub Works-insert : (name key value : Bytes) → Works (tree_insert sled name key value)
  Works-insert name key value = record {
    result = λ s. (
      record s { db = (sled.insert name key value s.db).0 },
      tt,
      unfold tree_insert in rw (w.inserts name key value s.db) refl,
    );
  }

  pub cf_get-content :
      (name key : Bytes) (s : StateStore Db)
      → cf_get sled name key s ≡ (s, ok (sled.content name key s.db))
  unfolding cf_get open_tree tree_get
  cf_get-content name key s = rw (w.opens name s.db, w.gets name key s.db) refl

  pub Works-put : (name key value : Bytes) → Works (cf_put sled name key value)
  unfolding cf_put
  Works-put name key value = Works-bind (Works-open name) (λ _. Works-insert name key value)

  pub Works-encoded : (o : Option Bytes) → is_some o ≡ true → Works (encoded {Db = Db} o)
  Works-encoded none h = absurd (ground arith)
  Works-encoded (some bytes) h = Works-done bytes

  pub contains_nullifier-is_spent :
      (n : Hash32) (s : StateStore Db)
      → contains_nullifier sled codec n s ≡ (s, ok (is_spent sled codec n s))
  unfolding contains_nullifier
  contains_nullifier-is_spent n s = rw (cf_get-content (codes "nullifiers") n s) refl

  Works-append_commitment : (c : Hash32) → Works (append_commitment sled codec c)
  unfolding append_commitment
  Works-append_commitment c =
      Works-bind {m = tree_size sled codec} (record { result = λ s. (s, s.tree.size, refl) })
        (λ index. Works-bind (Works-put (codes "commitments") (to_be_bytes 8 index) c) (λ _.
          Works-bind {m = grow_tree sled codec c}
            (record { result = λ s. ((grow_tree sled codec c s).0, tt, refl) })
            (λ _.
              Works-bind {m = current_tree sled codec} (record { result = λ s. (s, s.tree, refl) })
                (λ tree.
                  Works-bind
                    (Works-encoded (codec.encode_frontier tree.frontier)
                      (w.encodes_frontier tree.frontier))
                    (λ bytes. Works-bind (Works-put (codes "tree") (codes "frontier") bytes) (λ _.
                      Works-bind (Works-put (codes "tree") (codes "size") (to_le_bytes 8 tree.size))
                        (λ _. Works-done index)))))))

  pub Works-apply_outputs : (outs : List OutputDescription) → Works (apply_outputs sled codec outs)
  unfolding apply_outputs
  Works-apply_outputs [] = Works-done tt
  Works-apply_outputs (out ∷ outs) =
      Works-bind {m = tree_size sled codec} (record { result = λ s. (s, s.tree.size, refl) })
        (λ index. Works-bind (Works-append_commitment out.note_commitment) (λ _.
          Works-bind (Works-insert (codes "commitments") (to_be_bytes 8 index) out.note_commitment)
            (λ _. Works-apply_outputs outs)))

  pub Works-insert_all :
      (name : Bytes) (entries : List (Bytes × Bytes)) → Works (insert_all sled codec name entries)
  unfolding insert_all
  Works-insert_all name [] = Works-done tt
  Works-insert_all name ((key, value) ∷ rest) =
      Works-bind (Works-insert name key value) (λ _. Works-insert_all name rest)

  Works-put_txs : (txs : List Transaction) → Works (put_txs sled codec txs)
  unfolding put_txs
  Works-put_txs [] = Works-done tt
  Works-put_txs (tx ∷ txs) =
      Works-bind (Works-encoded (codec.encode_tx tx) (w.encodes_tx tx)) (λ bytes.
        Works-bind (Works-put (codes "txs") (tx_id codec.blake3 codec.serialize_tx tx) bytes)
          (λ _. Works-put_txs txs))

  pub Works-put_block : (block : Block) → Works (put_block sled codec block)
  unfolding put_block
  Works-put_block block =
      Works-bind (Works-encoded (codec.encode_block block) (w.encodes_block block)) (λ bytes.
        Works-bind
          (Works-put (codes "blocks") (block_hash codec.blake3 codec.serialize_header block) bytes)
          (λ _. Works-put_txs block.transactions))

-- An operation that succeeds from every store, always with this value.
pub record Yields {ℓ} {Db : Type 0} {A : Type ℓ} (a : A) (m : Op Db A) : Type ℓ where
  pub result : (s : StateStore Db) → (t : StateStore Db) × (m s ≡ (t, ok a))

pub Yields-bind {ℓ κ} :
    {Db : Type 0} {A : Type ℓ} {B : Type κ} {m : Op Db A} {f : A → Op Db B} {b : B}
    → Works m
    → ((a : A) → Yields b (f a))
    → Yields b (m >>= f)
Yields-bind {m = m} {f} hm hf = record {
  result = λ s. let (u, a, e) = hm.result s in let (t, g) = (hf a).result u in (t, ok-then m f e g);
}

pub Yields-done {ℓ} : {Db : Type 0} {A : Type ℓ} (a : A) → Yields a (done {Db = Db} a)
Yields-done a = record { result = λ s. (s, refl) }
