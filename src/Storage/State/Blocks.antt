-- ===== src/Storage/State/Blocks.antt =====
-- The operations of crates/noirnet-storage/src/state.rs, block_store.rs and nullifier_store.rs.
use noirnet.Prelude.{
  ℕ, Bool, false, not, Option, none, some, List, [], ◌∷◌, ◌++◌, leb, ◌==◌, if◌then◌else◌, is_some,
  length, ok, add_u64, Bytes, to_le_bytes, from_le_bytes,
}
use noirnet.Prelude.{codes}
use noirnet.Types.Constants.{anchor_expiry_blocks}
use noirnet.Types.Note.{Hash32, SpendDescription, OutputDescription}
use noirnet.Types.Transaction.{Transaction, tx_id}
use noirnet.Types.Block.{Block, block_hash}
use noirnet.Storage.Merkle.{NoteCommitmentTree, append_leaf, root}
use noirnet.Storage.State.Database.{
  double_spend, invalid_transition, Sled, Codec, Op, ◌>>=◌, ◌>>◌, done, reject_when, encoded,
  open_tree, tree_insert, cf_get, cf_put,
}

abbrev pub reverse : Bytes → Bytes
reverse [] = []
reverse (b ∷ bs) = reverse bs ++ b ∷ []

abbrev pub to_be_bytes : ℕ → ℕ → Bytes
to_be_bytes n v = reverse (to_le_bytes n v)

-- `u64::from_le_bytes(bytes.try_into().unwrap_or([0; 8]))`
unfoldable pub u64_of : Bytes → ℕ
u64_of bytes = if length bytes == 8 then from_le_bytes bytes else 0

abbrev pub height_key : ℕ → Bytes
height_key height = codes "height_hash_" ++ to_le_bytes 8 height

abbrev pub height_of : Option Bytes → ℕ
height_of none = 0
height_of (some bytes) = u64_of bytes

module _ {Db : Type 0} (sled : Sled Db) (codec : Codec) where
  unfoldable pub get_chain_height : Op Db ℕ
  unfolding cf_get
  get_chain_height = do
    found ← cf_get sled (codes "meta") (codes "chain_height")
    done (height_of found)

  unfoldable pub has_blocks : Op Db Bool
  unfolding cf_get
  has_blocks = do found ← cf_get sled (codes "meta") (codes "chain_height"); done (is_some found)

  -- `NullifierStore::contains`
  unfoldable pub contains_nullifier : Hash32 → Op Db Bool
  unfolding cf_get
  contains_nullifier n = do found ← cf_get sled (codes "nullifiers") n; done (is_some found)

  abbrev pub grow_tree : Hash32 → Op Db (Unit {0})
  grow_tree commitment =
      λ s. (record s { tree = append_leaf codec.blake3 commitment s.tree }, ok tt)

  abbrev pub tree_size : Op Db ℕ
  tree_size = λ s. (s, ok s.tree.size)

  abbrev pub current_tree : Op Db NoteCommitmentTree
  current_tree = λ s. (s, ok s.tree)

  -- `NoteCommitmentTree::append`, with its writes.
  unfoldable pub append_commitment : Hash32 → Op Db ℕ
  unfolding cf_put
  append_commitment commitment = do
    leaf_index ← tree_size
    cf_put sled (codes "commitments") (to_be_bytes 8 leaf_index) commitment
    grow_tree commitment
    tree ← current_tree
    bytes ← encoded (codec.encode_frontier tree.frontier)
    cf_put sled (codes "tree") (codes "frontier") bytes
    cf_put sled (codes "tree") (codes "size") (to_le_bytes 8 tree.size)
    done leaf_index

  unfoldable pub apply_spends : ℕ → List SpendDescription → Op Db (Unit {0})
  unfolding contains_nullifier tree_insert
  apply_spends height [] = done tt
  apply_spends height (spend ∷ spends) = do
    seen ← contains_nullifier spend.nullifier
    reject_when seen double_spend
    tree_insert sled (codes "nullifiers") spend.nullifier (to_le_bytes 8 height)
    apply_spends height spends

  unfoldable pub apply_outputs : List OutputDescription → Op Db (Unit {0})
  unfolding append_commitment tree_insert
  apply_outputs [] = done tt
  apply_outputs (out ∷ outs) = do
    leaf_idx ← tree_size
    _ ← append_commitment out.note_commitment
    tree_insert sled (codes "commitments") (to_be_bytes 8 leaf_idx) out.note_commitment
    apply_outputs outs

  unfoldable pub apply_txs : ℕ → List Transaction → Op Db (Unit {0})
  unfolding apply_spends apply_outputs
  apply_txs height [] = done tt
  apply_txs height (tx ∷ txs) = do
    apply_spends height tx.spends
    apply_outputs tx.outputs
    apply_txs height txs

  unfoldable pub insert_all : Bytes → List (Bytes × Bytes) → Op Db (Unit {0})
  unfolding tree_insert
  insert_all name [] = done tt
  insert_all name ((key, value) ∷ rest) = do tree_insert sled name key value; insert_all name rest

  unfoldable pub put_txs : List Transaction → Op Db (Unit {0})
  unfolding cf_put
  put_txs [] = done tt
  put_txs (tx ∷ txs) = do
    bytes ← encoded (codec.encode_tx tx)
    cf_put sled (codes "txs") (tx_id codec.blake3 codec.serialize_tx tx) bytes
    put_txs txs

  unfoldable pub put_block : Block → Op Db (Unit {0})
  unfolding cf_put put_txs
  put_block block = do
    bytes ← encoded (codec.encode_block block)
    cf_put sled (codes "blocks") (block_hash codec.blake3 codec.serialize_header block) bytes
    put_txs block.transactions

  unfoldable pub apply_block : Block → List (Bytes × Bytes) → List (Hash32 × Bytes) → Op Db Hash32
  unfolding get_chain_height has_blocks open_tree apply_txs tree_insert insert_all put_block
  apply_block block contract_state_changes new_contracts = do
    current_height ← get_chain_height
    has ← has_blocks
    reject_when (not (block.header.height == (if has then add_u64 current_height 1 else 0)))
        (invalid_transition [])
    open_tree sled (codes "nullifiers")
    open_tree sled (codes "commitments")
    open_tree sled (codes "anchors")
    apply_txs block.header.height block.transactions
    tree ← current_tree
    tree_insert sled (codes "anchors") (root codec.blake3 tree)
        (to_le_bytes 8 (add_u64 block.header.height anchor_expiry_blocks))
    open_tree sled (codes "contracts")
    insert_all (codes "contracts") new_contracts
    open_tree sled (codes "contract_state")
    insert_all (codes "contract_state") contract_state_changes
    put_block block
    open_tree sled (codes "meta")
    tree_insert sled (codes "meta") (codes "chain_height") (to_le_bytes 8 block.header.height)
    tree_insert sled (codes "meta") (height_key block.header.height)
        (block_hash codec.blake3 codec.serialize_header block)
    done (root codec.blake3 tree)

  -- `is_valid_anchor`
  abbrev pub unexpired : ℕ → Option Bytes → Bool
  unexpired current_height none = false
  unexpired current_height (some bytes) = leb current_height (u64_of bytes)

  unfoldable pub is_valid_anchor : Hash32 → ℕ → Op Db Bool
  unfolding cf_get
  is_valid_anchor anchor current_height = do
    found ← cf_get sled (codes "anchors") anchor
    done (unexpired current_height found)

  unfoldable pub get_contract_code : Hash32 → Op Db (Option Bytes)
  unfolding cf_get
  get_contract_code contract_id = cf_get sled (codes "contracts") contract_id

  unfoldable pub get_contract_state : Hash32 → Bytes → Op Db (Option Bytes)
  unfolding cf_get
  get_contract_state contract_id key = cf_get sled (codes "contract_state") (contract_id ++ key)
