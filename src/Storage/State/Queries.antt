-- ===== src/Storage/State/Queries.antt =====
-- The reads of crates/noirnet-storage/src/state.rs, block_store.rs and merkle.rs, what prunes blocks, and
-- `NullifierStore::insert`. Where a hash of another length than 32 makes the code panic, the result is `none`.
use noirnet.Prelude.{
  ℕ, zero, suc, ◌+◌, ◌-◌, Option, none, some, List, [], ◌∷◌, map, leb, ◌==◌, if◌then◌else◌, length,
  drop, replicate, retain, Result, ok, err, Bytes, to_le_bytes,
}
use noirnet.Prelude.{codes}
use noirnet.Prelude.Maps.{insert}
use noirnet.Types.Constants.{note_commitment_tree_depth}
use noirnet.Types.Note.{Hash32}
use noirnet.Types.Transaction.{Transaction, tx_id}
use noirnet.Types.Block.{Block}
use noirnet.Types.Validator.{ValidatorState, StakeEntry, ValidatorSet, validator_total_stake, new}
use noirnet.Storage.Merkle.{NoteCommitmentTree, Frontier}
use noirnet.Storage.State.Database.{
  double_spend, Sled, Codec, Op, ◌>>=◌, ◌>>◌, done, reject_when, decoded, sled_result, open_tree,
  tree_remove, cf_get, cf_put,
}
use noirnet.Storage.State.Blocks.{
  u64_of, height_key, to_be_bytes, get_chain_height, contains_nullifier,
}

-- The entries of a prefix, with the first 32 bytes of the keys cut off, into a map.
unfoldable pub collect_state :
    List (Result (Bytes × Bytes) Bytes) → List (Bytes × Bytes) → Result (List (Bytes × Bytes)) Bytes
collect_state [] found = ok found
collect_state (err e ∷ items) found = err e
collect_state (ok (key, value) ∷ items) found =
    collect_state items (if leb 32 (length key) then insert (drop 32 key) value found else found)

abbrev pub stake_entry : ValidatorState → StakeEntry
stake_entry v = record {
  bls_pubkey = v.registration.bls_pubkey;
  network_pubkey = v.registration.network_pubkey;
  total_stake = validator_total_stake v;
  status = v.status;
  epoch_joined = v.registration.epoch;
}

abbrev pub registered : ℕ → List ValidatorState → List StakeEntry
registered epoch all = map stake_entry (retain (λ v. leb v.registration.epoch epoch) all)

module _ {Db : Type 0} (sled : Sled Db) (codec : Codec) where
  abbrev pub decoded_block : Option Bytes → Op Db (Option Block)
  decoded_block none = done none
  decoded_block (some bytes) = do block ← decoded (codec.decode_block bytes); done (some block)

  unfoldable pub get_block : Hash32 → Op Db (Option Block)
  unfolding cf_get
  get_block hash = do found ← cf_get sled (codes "blocks") hash; decoded_block found

  abbrev pub decoded_tx : Option Bytes → Op Db (Option Transaction)
  decoded_tx none = done none
  decoded_tx (some bytes) = do tx ← decoded (codec.decode_tx bytes); done (some tx)

  unfoldable pub get_transaction : Hash32 → Op Db (Option Transaction)
  unfolding cf_get
  get_transaction txid = do found ← cf_get sled (codes "txs") txid; decoded_tx found

  unfoldable pub block_at : Option Bytes → Op Db (Option (Option Block))
  unfolding get_block
  block_at none = done (some none)
  block_at (some hash) =
      if length hash == 32 then (do found ← get_block hash; done (some found)) else done none

  unfoldable pub get_block_by_height : ℕ → Op Db (Option (Option Block))
  unfolding cf_get block_at
  get_block_by_height height = do
    hash ← cf_get sled (codes "meta") (height_key height)
    block_at hash

  unfoldable pub remove_txs : List Transaction → Op Db (Unit {0})
  unfolding tree_remove
  remove_txs [] = done tt
  remove_txs (tx ∷ txs) = do
    _ ← tree_remove sled (codes "txs") (tx_id codec.blake3 codec.serialize_tx tx)
    remove_txs txs

  unfoldable pub delete_found : Hash32 → Option Block → Op Db (Unit {0})
  unfolding remove_txs tree_remove
  delete_found hash none = done tt
  delete_found hash (some block) = do
    open_tree sled (codes "txs")
    remove_txs block.transactions
    open_tree sled (codes "blocks")
    _ ← tree_remove sled (codes "blocks") hash
    done tt

  unfoldable pub delete_block : Hash32 → Op Db (Unit {0})
  unfolding get_block delete_found
  delete_block hash = do found ← get_block hash; delete_found hash found

  -- One height of the loop: whether a block was pruned.
  unfoldable pub prune_found : Option Bytes → Op Db (Option ℕ)
  unfolding delete_block
  prune_found none = done (some 0)
  prune_found (some hash) =
      if length hash == 32 then (do delete_block hash; done (some 1)) else done none

  abbrev pub counted : ℕ → Option ℕ → Option ℕ
  counted n none = none
  counted n (some m) = some (n + m)

  -- The heights from `h` on, `n` of them.
  unfoldable pub prune_heights : ℕ → ℕ → Op Db (Option ℕ)
  unfolding tree_remove prune_found
  prune_heights h zero = done (some 0)
  prune_heights h (suc n) = do
    hash ← tree_remove sled (codes "meta") (height_key h)
    pruned ← prune_found hash
    elim pruned [
      | none ↦ done none
      | some count ↦ do rest ← prune_heights (h + 1) n; done (counted count rest)
    ]

  unfoldable pub prune_history : ℕ → Op Db (Option ℕ)
  unfolding prune_heights get_chain_height
  prune_history keep_last = do
    height ← get_chain_height sled codec
    if leb height keep_last
        then done (some 0)
        else do open_tree sled (codes "meta"); prune_heights 0 (height - keep_last)

  unfoldable pub get_contract_state_all : Hash32 → Op Db (List (Bytes × Bytes))
  unfolding open_tree collect_state
  get_contract_state_all contract_id = do
    open_tree sled (codes "contract_state")
    λ s. (
      s,
      sled_result (collect_state (sled.scan_prefix (codes "contract_state") contract_id s.db) []),
    )

  unfoldable pub decode_validators :
      List (Result (Bytes × Bytes) Bytes) → Op Db (List ValidatorState)
  decode_validators [] = done []
  decode_validators (item ∷ items) = do
    kv ← λ s. (s, sled_result item)
    v ← decoded (codec.decode_validator kv.1)
    rest ← decode_validators items
    done (v ∷ rest)

  unfoldable pub get_all_validators : Op Db (List ValidatorState)
  unfolding open_tree decode_validators
  get_all_validators = do
    open_tree sled (codes "validators")
    λ s. decode_validators (sled.scan_prefix (codes "validators") [] s.db) s

  unfoldable pub get_validator_set : ℕ → Op Db ValidatorSet
  unfolding get_all_validators
  get_validator_set epoch = do all ← get_all_validators; done (new epoch (registered epoch all))

  -- `NullifierStore::insert`
  unfoldable pub insert_nullifier : Hash32 → ℕ → Op Db (Unit {0})
  unfolding contains_nullifier cf_put
  insert_nullifier n block_height = do
    seen ← contains_nullifier sled codec n
    reject_when seen double_spend
    cf_put sled (codes "nullifiers") n (to_le_bytes 8 block_height)

  abbrev pub frontier_of : Option Bytes → Op Db Frontier
  frontier_of none = done (replicate note_commitment_tree_depth none)
  frontier_of (some bytes) = decoded (codec.decode_frontier bytes)

  abbrev pub size_of : Option Bytes → ℕ
  size_of none = 0
  size_of (some bytes) = u64_of bytes

  -- `NoteCommitmentTree::open`
  unfoldable pub open_merkle : Op Db NoteCommitmentTree
  unfolding cf_get
  open_merkle = do
    bytes ← cf_get sled (codes "tree") (codes "frontier")
    frontier ← frontier_of bytes
    size ← cf_get sled (codes "tree") (codes "size")
    done (record { frontier = frontier; size = size_of size })

  -- `bytes.try_into().unwrap_or([0; 32])`
  abbrev pub commitment_of : Option Bytes → Option Hash32
  commitment_of none = none
  commitment_of (some bytes) = some (if length bytes == 32 then bytes else replicate 32 0)

  unfoldable pub get_commitment : ℕ → Op Db (Option Hash32)
  unfolding cf_get
  get_commitment leaf_index = do
    found ← cf_get sled (codes "commitments") (to_be_bytes 8 leaf_index)
    done (commitment_of found)
