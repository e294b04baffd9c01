-- ===== src/Storage/State/Spending.antt =====
-- `apply_block` of crates/noirnet-storage/src/state.rs: the notes that a block spends, and its commitments.
use noirnet.Prelude.{
  ℕ, ◌≡◌, refl, sym, ap, ◌∙◌, Bool, true, false, not, Option, List, [], ◌∷◌, ◌++◌, arith, ◌==◌,
  if◌then◌else◌, is_some, Result, ok, add_u64, Bytes, bytes_eq, bytes_eq_self, to_le_bytes,
}
use mathlib.Core.Path.{subst}
use noirnet.Types.Constants.{anchor_expiry_blocks}
use noirnet.Prelude.{codes}
use noirnet.Prelude.Maps.{member}
use noirnet.Types.Note.{Hash32, SpendDescription, OutputDescription}
use noirnet.Types.Transaction.{Transaction}
use noirnet.Types.Block.{Block, block_hash}
use noirnet.Storage.Merkle.{append_all, root}
use noirnet.Storage.State.Database.{
  StorageError, Sled, Codec, StateStore, Op, ◌>>=◌, ◌>>◌, done, reject_when, open_tree, tree_get,
  tree_insert, cf_get, double_spend, invalid_transition,
}
use noirnet.Storage.State.Blocks.{
  contains_nullifier, tree_size, current_tree, append_commitment, apply_spends, apply_outputs,
  apply_txs, insert_all, put_block, apply_block, to_be_bytes, height_key,
}
use noirnet.Storage.State.Effects.{after-ok, is_spent, Effect, Effect-trans, Has, Has-bind}
use noirnet.Storage.State.Quiet.{
  sled_result-ok, grows-append_commitment, quiet, quiet-done, quiet-get_chain_height,
  quiet-has_blocks, quiet-insert, quiet-insert_all, quiet-open, quiet-put_block, quiet-reject,
  quietly, still, tree_insert-ok,
}

module _ {Db : Type 0} (sled : Sled Db) (codec : Codec) where
  cf_get-ok :
      (name key : Bytes) (s t : StateStore Db) (found : Option Bytes)
      → cf_get sled name key s ≡ (t, ok found)
      → (t ≡ s) × (found ≡ sled.content name key s.db)
  unfolding cf_get open_tree tree_get
  cf_get-ok name key s t found h =
      let (u, x, e, g) = after-ok (open_tree sled name s) (λ _. tree_get sled name key) t found h in
      let same : u ≡ s = sym (ap (λ (x : StateStore Db × Result (Unit {0}) StorageError). x.0) e) in
      let read : sled.get name key u.db ≡ ok found =
        sled_result-ok (sled.get name key u.db) found
          (ap (λ (x : StateStore Db × Result (Option Bytes) StorageError). x.1) g) in
      (
        sym (ap (λ (x : StateStore Db × Result (Option Bytes) StorageError). x.0) g) ∙ same,
        sled.get-content name key u.db found read
            ∙ ap (λ (x : StateStore Db). sled.content name key x.db) same,
      )

  contains_nullifier-ok :
      (n : Hash32) (s t : StateStore Db) (b : Bool)
      → contains_nullifier sled codec n s ≡ (t, ok b)
      → (t ≡ s) × (b ≡ is_spent sled codec n s)
  unfolding contains_nullifier
  contains_nullifier-ok n s t b h =
      let (u, found, e, g) =
        after-ok (cf_get sled (codes "nullifiers") n s) (λ found. done (is_some found)) t b h in
      let (same, read) = cf_get-ok (codes "nullifiers") n s u found e in
      let left : u ≡ t = ap (λ (x : StateStore Db × Result Bool StorageError). x.0) g in
      (sym left ∙ same, ground (arith, g, read))

  reject_when-ok :
      (b : Bool) (e : StorageError) (s t : StateStore Db) (u : Unit {0})
      → reject_when b e s ≡ (t, ok u)
      → (b ≡ false) × (t ≡ s)
  reject_when-ok true e s t u h = cc
  reject_when-ok false e s t u h =
      (refl, sym (ap (λ (x : StateStore Db × Result (Unit {0}) StorageError). x.0) h))

  abbrev pub nullifiers_of : List SpendDescription → List Hash32
  nullifiers_of [] = []
  nullifiers_of (spend ∷ spends) = spend.nullifier ∷ nullifiers_of spends

  -- A nullifier that was not there, put there.
  pub spends-insert :
      (n value : Bytes) (s t : StateStore Db) (u : Unit {0})
      → is_spent sled codec n s ≡ false
      → tree_insert sled (codes "nullifiers") n value s ≡ (t, ok u)
      → Effect sled codec (n ∷ []) [] s t
  unfolding member append_all
  spends-insert n value s t u new h =
      let (same, view) = tree_insert-ok sled codec (codes "nullifiers") n value s t u h in
      record {
        grown = same;
        fresh = (new, tt);
        distinct = (refl, tt);
        spent =
            λ j. ground (arith, view (codes "nullifiers") j, bytes_eq_self (codes "nullifiers"));
      }

  pub spends-apply_spends :
      (height : ℕ) (spends : List SpendDescription)
      → Has sled codec (nullifiers_of spends) [] (apply_spends sled codec height spends)
  unfolding apply_spends
  spends-apply_spends height [] s t a h = quiet-done sled codec tt s t a h
  spends-apply_spends height (spend ∷ spends) s t a h =
      let n = spend.nullifier in
      let value = to_le_bytes 8 height in
      let rest : Op Db (Unit {0}) = apply_spends sled codec height spends in
      let insert_it : Op Db (Unit {0}) = tree_insert sled (codes "nullifiers") n value >> rest in
      let (u, seen, e, f) =
        after-ok (contains_nullifier sled codec n s)
          (λ seen. reject_when seen double_spend >> insert_it) t a h in
      let (v, x, g, k) = after-ok (reject_when seen double_spend u) (λ _. insert_it) t a f in
      let (w, y, l, m) =
        after-ok (tree_insert sled (codes "nullifiers") n value v) (λ _. rest) t a k in
      let (same, known) = contains_nullifier-ok n s u seen e in
      let (unseen, kept) = reject_when-ok seen double_spend u v x g in
      let back : v ≡ s = kept ∙ same in
      let new : is_spent sled codec n v ≡ false =
        ap (is_spent sled codec n) back ∙ sym known ∙ unseen in
      let one : Effect sled codec (n ∷ []) [] s w =
        subst (λ z. Effect sled codec (n ∷ []) [] z w) back (spends-insert n value v w y new l) in
      Effect-trans sled codec s w t one (spends-apply_spends height spends w t a m)

  abbrev pub commitments_of : List OutputDescription → List Hash32
  commitments_of [] = []
  commitments_of (out ∷ outs) = out.note_commitment ∷ commitments_of outs

  pub grows-apply_outputs :
      (outs : List OutputDescription)
      → Has sled codec [] (commitments_of outs) (apply_outputs sled codec outs)
  unfolding apply_outputs bytes_eq
  grows-apply_outputs [] = quiet-done sled codec tt
  grows-apply_outputs (out ∷ outs) =
      let c = out.note_commitment in
      quiet sled codec (still sled codec (tree_size sled codec) (λ s. refl)) (λ index.
        Has-bind sled codec [] (c ∷ []) [] (commitments_of outs) (append_commitment sled codec c)
          (λ _.
            tree_insert sled (codes "commitments") (to_be_bytes 8 index) c
            >> apply_outputs sled codec outs)
          (grows-append_commitment sled codec c)
          (λ _.
            quiet sled codec
              (quiet-insert sled codec (codes "commitments") (to_be_bytes 8 index) c refl)
              (λ _. grows-apply_outputs outs)))

  -- The nullifiers and the commitments of a block, in its order.
  abbrev pub block_nullifiers : List Transaction → List Hash32
  block_nullifiers [] = []
  block_nullifiers (tx ∷ txs) = nullifiers_of tx.spends ++ block_nullifiers txs

  abbrev pub block_commitments : List Transaction → List Hash32
  block_commitments [] = []
  block_commitments (tx ∷ txs) = commitments_of tx.outputs ++ block_commitments txs

  pub Has-apply_txs :
      (height : ℕ) (txs : List Transaction)
      → Has sled codec
          (block_nullifiers txs)
          (block_commitments txs)
          (apply_txs sled codec height txs)
  unfolding apply_txs
  Has-apply_txs height [] = quiet-done sled codec tt
  Has-apply_txs height (tx ∷ txs) =
      let rest : Op Db (Unit {0}) = apply_txs sled codec height txs in
      Has-bind sled codec (nullifiers_of tx.spends) [] (block_nullifiers txs)
        (block_commitments (tx ∷ txs)) (apply_spends sled codec height tx.spends)
        (λ _. apply_outputs sled codec tx.outputs >> rest) (spends-apply_spends height tx.spends)
        (λ _.
          Has-bind sled codec [] (commitments_of tx.outputs) (block_nullifiers txs)
            (block_commitments txs) (apply_outputs sled codec tx.outputs) (λ _. rest)
            (grows-apply_outputs tx.outputs) (λ _. Has-apply_txs height txs))

  unfoldable pub finish : Block → List (Bytes × Bytes) → List (Hash32 × Bytes) → Op Db Hash32
  finish block contract_state_changes new_contracts = do
    tree ← current_tree sled codec
    tree_insert sled (codes "anchors") (root codec.blake3 tree)
        (to_le_bytes 8 (add_u64 block.header.height anchor_expiry_blocks))
    open_tree sled (codes "contracts")
    insert_all sled codec (codes "contracts") new_contracts
    open_tree sled (codes "contract_state")
    insert_all sled codec (codes "contract_state") contract_state_changes
    put_block sled codec block
    open_tree sled (codes "meta")
    tree_insert sled (codes "meta") (codes "chain_height") (to_le_bytes 8 block.header.height)
    tree_insert sled (codes "meta") (height_key block.header.height)
        (block_hash codec.blake3 codec.serialize_header block)
    done (root codec.blake3 tree)

  quiet-finish :
      (block : Block) (changes : List (Bytes × Bytes)) (contracts : List (Hash32 × Bytes))
      → Has sled codec [] [] (finish block changes contracts)
  unfolding finish bytes_eq
  quiet-finish block changes contracts =
      quiet sled codec (still sled codec (current_tree sled codec) (λ s. refl)) (λ tree.
        quiet sled codec
          (quiet-insert sled codec (codes "anchors") (root codec.blake3 tree)
            (to_le_bytes 8 (add_u64 block.header.height anchor_expiry_blocks)) refl)
          (λ _. quiet sled codec (quiet-open sled codec (codes "contracts")) (λ _.
            quiet sled codec (quiet-insert_all sled codec (codes "contracts") contracts refl) (λ _.
              quiet sled codec (quiet-open sled codec (codes "contract_state")) (λ _.
                quiet sled codec (quiet-insert_all sled codec (codes "contract_state") changes refl)
                  (λ _. quiet sled codec (quiet-put_block sled codec block) (λ _.
                    quiet sled codec (quiet-open sled codec (codes "meta")) (λ _.
                      quiet sled codec
                        (quiet-insert sled codec (codes "meta") (codes "chain_height")
                          (to_le_bytes 8 block.header.height) refl)
                        (λ _.
                          quiet sled codec
                            (quiet-insert sled codec (codes "meta") (height_key block.header.height)
                              (block_hash codec.blake3 codec.serialize_header block) refl)
                            (λ _. quiet-done sled codec (root codec.blake3 tree)))))))))))

  -- When a block is applied with success, none of the nullifiers of its transactions was spent before,
  -- no two of them are equal, afterwards exactly they are spent in addition, and the tree has grown by
  -- the commitments of its outputs, in the order of the block.
  pub apply_block-Effect :
      (block : Block) (changes : List (Bytes × Bytes)) (contracts : List (Hash32 × Bytes))
      (s t : StateStore Db) (state_root : Hash32)
      → apply_block sled codec block changes contracts s ≡ (t, ok state_root)
      → Effect sled codec
          (block_nullifiers block.transactions)
          (block_commitments block.transactions)
          s
          t
  unfolding apply_block finish
  apply_block-Effect block changes contracts =
      quiet sled codec (quiet-get_chain_height sled codec) (λ height.
        quiet sled codec (quiet-has_blocks sled codec) (λ has.
          quiet sled codec
            (quiet-reject sled codec
              (not (block.header.height == (if has then add_u64 height 1 else 0)))
              (invalid_transition []))
            (λ _. quiet sled codec (quiet-open sled codec (codes "nullifiers")) (λ _.
              quiet sled codec (quiet-open sled codec (codes "commitments")) (λ _.
                quiet sled codec (quiet-open sled codec (codes "anchors")) (λ _.
                  quietly sled codec (Has-apply_txs block.header.height block.transactions)
                    (λ _. quiet-finish block changes contracts)))))))
