-- ===== src/Storage/State/Quiet.antt =====
-- The operations of crates/noirnet-storage/src/state.rs that spend nothing.
use noirnet.Prelude.{
  ◌≡◌, refl, sym, ap, ◌∙◌, Bool, true, false, ◌&&◌, Option, none, some, List, [], ◌∷◌, ◌++◌, arith,
  if◌then◌else◌, is_some, Result, ok, err, Bytes, bytes_eq, to_le_bytes,
}
use mathlib.Core.Path.{subst}
use mathlib.Core.List.{append-nil}
use noirnet.Prelude.{codes}
use noirnet.Prelude.Maps.{member}
use noirnet.Types.Note.{Hash32}
use noirnet.Types.Transaction.{Transaction, tx_id}
use noirnet.Types.Block.{Block, block_hash}
use noirnet.Storage.Merkle.{append_leaf, append_all}
use noirnet.Storage.State.Database.{
  StorageError, Sled, Codec, StateStore, Op, ◌>>=◌, done, reject_when, encoded, sled_result,
  open_tree, tree_get, tree_insert, cf_get, cf_put,
}
use noirnet.Storage.State.Blocks.{
  get_chain_height, has_blocks, grow_tree, tree_size, current_tree, append_commitment, insert_all,
  put_txs, put_block, height_of, to_be_bytes,
}
use noirnet.Storage.State.Effects.{is_spent, Effect, Has, Has-bind, Effect-none}

pub sled_result-ok {ℓ} : {A : Type ℓ} (r : Result A Bytes) (a : A) → sled_result r ≡ ok a → r ≡ ok a
sled_result-ok (ok b) a h = cc
sled_result-ok (err e) a h = cc

module _ {Db : Type 0} (sled : Sled Db) (codec : Codec) where
  -- An operation that leaves the store as it is.
  pub still {ℓ} :
      {A : Type ℓ} (m : Op Db A) → ((s : StateStore Db) → (m s).0 ≡ s) → Has sled codec [] [] m
  still {A = A} m same s t a h =
      let e : t ≡ s = sym (ap (λ (x : StateStore Db × Result A StorageError). x.0) h) ∙ same s in
      Effect-none sled codec s t (ap (λ (x : StateStore Db). x.tree) e)
        (λ j. ap (is_spent sled codec j) e)

  pub quiet-done {ℓ} : {A : Type ℓ} (a : A) → Has sled codec [] [] (done {Db = Db} a)
  quiet-done a = still (done a) (λ s. refl)

  pub quiet-open : (name : Bytes) → Has sled codec [] [] (open_tree sled name)
  quiet-open name = still (open_tree sled name) (λ s. unfold open_tree in refl)

  pub quiet-get : (name key : Bytes) → Has sled codec [] [] (tree_get sled name key)
  quiet-get name key = still (tree_get sled name key) (λ s. unfold tree_get in refl)

  pub quiet-encoded : (o : Option Bytes) → Has sled codec [] [] (encoded {Db = Db} o)
  quiet-encoded none = still (encoded none) (λ s. refl)
  quiet-encoded (some bytes) = still (encoded (some bytes)) (λ s. refl)

  pub quiet-reject :
      (b : Bool) (e : StorageError) → Has sled codec [] [] (reject_when {Db = Db} b e)
  quiet-reject true e = still (reject_when true e) (λ s. refl)
  quiet-reject false e = still (reject_when false e) (λ s. refl)

  pub tree_insert-ok :
      (name key value : Bytes) (s t : StateStore Db) (u : Unit {0})
      → tree_insert sled name key value s ≡ (t, ok u)
      → (t.tree ≡ s.tree)
        × ((other k : Bytes)
            → sled.content other k t.db ≡ (
                if bytes_eq name other && bytes_eq key k
                then some value
                else sled.content other k s.db))
  unfolding tree_insert
  tree_insert-ok name key value s t u h =
      let written = sled.insert name key value s.db in
      let e : t ≡ record s { db = written.0 } =
        sym (ap (λ (x : StateStore Db × Result (Unit {0}) StorageError). x.0) h) in
      let good : written.1 ≡ ok tt =
        sled_result-ok written.1 tt
          (ap (λ (x : StateStore Db × Result (Unit {0}) StorageError). x.1) h) in
      (
        ap (λ (x : StateStore Db). x.tree) e,
        λ other k.
            ap (λ (x : StateStore Db). sled.content other k x.db) e
            ∙ sled.insert-content name key value other k s.db good,
      )

  pub quiet-insert :
      (name key value : Bytes)
      → bytes_eq name (codes "nullifiers") ≡ false
      → Has sled codec [] [] (tree_insert sled name key value)
  quiet-insert name key value other s t u h =
      let (same, view) = tree_insert-ok name key value s t u h in
      Effect-none sled codec s t same (λ j. ground (arith, view (codes "nullifiers") j, other))

  pub quiet {ℓ κ} :
      {A : Type ℓ} {B : Type κ} {ys ds : List Hash32} {m : Op Db A} {f : A → Op Db B}
      → Has sled codec [] [] m
      → ((a : A) → Has sled codec ys ds (f a))
      → Has sled codec ys ds (m >>= f)
  quiet {ys = ys} {ds} {m} {f} = Has-bind sled codec [] [] ys ds m f

  pub quiet-put :
      (name key value : Bytes)
      → bytes_eq name (codes "nullifiers") ≡ false
      → Has sled codec [] [] (cf_put sled name key value)
  unfolding cf_put
  quiet-put name key value other = quiet (quiet-open name) (λ _. quiet-insert name key value other)

  pub grows-grow_tree : (c : Hash32) → Has sled codec [] (c ∷ []) (grow_tree sled codec c)
  unfolding append_all member
  grows-grow_tree c s t a h =
      let e : t ≡ record s { tree = append_leaf codec.blake3 c s.tree } =
        sym (ap (λ (x : StateStore Db × Result (Unit {0}) StorageError). x.0) h) in
      record {
        grown = ap (λ (x : StateStore Db). x.tree) e;
        fresh = tt;
        distinct = tt;
        spent = λ j. ap (is_spent sled codec j) e;
      }

  pub grows-append_commitment :
      (c : Hash32) → Has sled codec [] (c ∷ []) (append_commitment sled codec c)
  unfolding append_commitment bytes_eq
  grows-append_commitment c = quiet (still (tree_size sled codec) (λ s. refl)) (λ index.
      quiet (quiet-put (codes "commitments") (to_be_bytes 8 index) c refl) (λ _.
        Has-bind sled codec [] (c ∷ []) [] [] _ _ (grows-grow_tree c) (λ _.
          quiet (still (current_tree sled codec) (λ s. refl)) (λ tree.
            quiet (quiet-encoded (codec.encode_frontier tree.frontier)) (λ bytes.
              quiet (quiet-put (codes "tree") (codes "frontier") bytes refl) (λ _.
                quiet (quiet-put (codes "tree") (codes "size") (to_le_bytes 8 tree.size) refl)
                  (λ _. quiet-done index)))))))

  pub quiet-insert_all :
      (name : Bytes) (entries : List (Bytes × Bytes))
      → bytes_eq name (codes "nullifiers") ≡ false
      → Has sled codec [] [] (insert_all sled codec name entries)
  unfolding insert_all
  quiet-insert_all name [] other = quiet-done tt
  quiet-insert_all name ((key, value) ∷ rest) other =
      quiet (quiet-insert name key value other) (λ _. quiet-insert_all name rest other)

  pub quiet-put_txs : (txs : List Transaction) → Has sled codec [] [] (put_txs sled codec txs)
  unfolding put_txs bytes_eq
  quiet-put_txs [] = quiet-done tt
  quiet-put_txs (tx ∷ txs) = quiet (quiet-encoded (codec.encode_tx tx)) (λ bytes.
      quiet (quiet-put (codes "txs") (tx_id codec.blake3 codec.serialize_tx tx) bytes refl)
        (λ _. quiet-put_txs txs))

  pub quiet-put_block : (block : Block) → Has sled codec [] [] (put_block sled codec block)
  unfolding put_block bytes_eq
  quiet-put_block block = quiet (quiet-encoded (codec.encode_block block)) (λ bytes.
      quiet
        (quiet-put (codes "blocks") (block_hash codec.blake3 codec.serialize_header block) bytes
          refl)
        (λ _. quiet-put_txs block.transactions))

  pub quiet-cf_get : (name key : Bytes) → Has sled codec [] [] (cf_get sled name key)
  unfolding cf_get
  quiet-cf_get name key = quiet (quiet-open name) (λ _. quiet-get name key)

  pub quiet-get_chain_height : Has sled codec [] [] (get_chain_height sled codec)
  unfolding get_chain_height
  quiet-get_chain_height =
      quiet (quiet-cf_get (codes "meta") (codes "chain_height"))
        (λ found. quiet-done (height_of found))

  pub quiet-has_blocks : Has sled codec [] [] (has_blocks sled codec)
  unfolding has_blocks
  quiet-has_blocks =
      quiet (quiet-cf_get (codes "meta") (codes "chain_height"))
        (λ found. quiet-done (is_some found))

  -- What follows leaves the effect as it is.
  pub quietly {ℓ κ} :
      {A : Type ℓ} {B : Type κ} {xs cs : List Hash32} {m : Op Db A} {f : A → Op Db B}
      → Has sled codec xs cs m
      → ((a : A) → Has sled codec [] [] (f a))
      → Has sled codec xs cs (m >>= f)
  quietly {xs = xs} {cs} {m} {f} hm hf s t b h =
      subst (λ ys. Effect sled codec ys cs s t) (append-nil xs)
        (subst (λ ds. Effect sled codec (xs ++ []) ds s t) (append-nil cs)
          (Has-bind sled codec xs cs [] [] m f hm hf s t b h))
