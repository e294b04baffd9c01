-- ===== src/Tests/StorageTests.antt =====
-- The theorems about crates/noirnet-storage at concrete inputs.
use noirnet.Prelude.{
  ◌≡◌, refl, true, false, ◌&&◌, Option, none, some, List, [], ◌∷◌, arith, if◌then◌else◌, replicate,
  All, ok, Bytes, bytes_eq,
}
use noirnet.Prelude.Maps.{Distinct}
use noirnet.Tests.Data.{toy_hash, tx_a}
use noirnet.Types.Constants.{note_commitment_tree_depth}
use noirnet.Types.Block.{Block}
use noirnet.Storage.Merkle.{append_leaf, root, append_all, empty_tree}
use noirnet.Storage.Merkle.Spec.{merkle_root}
use noirnet.Storage.Merkle.Root.{root-append_all}
use noirnet.Storage.State.Database.{Sled, Codec, StateStore, tree_get}
use noirnet.Storage.State.Effects.{is_spent}
use noirnet.Prelude.{length, length-take, length-append, ◌++◌, ◌⊎◌, ◌↔◌, err}
use noirnet.Storage.State.Database.{sled_error}
use noirnet.Storage.State.Blocks.{apply_block, get_chain_height}
use noirnet.Storage.State.Queries.{get_block_by_height}
use noirnet.Storage.State.Reliable.{Reliable}
use noirnet.Storage.State.Progress.{Ready}
use noirnet.Storage.State.Acceptance.{apply_block_iff}
use noirnet.Storage.State.Readback.{get_block_by_height-apply_block}
use noirnet.Storage.State.Chain.{
  Entry, apply_chain, chain_nullifiers, chain_commitments, apply_chain-Distinct,
  apply_chain-merkle_root,
}

abbrev three_leaves : List Bytes
three_leaves = replicate 32 1 ∷ replicate 32 2 ∷ replicate 32 3 ∷ []

root-append_all_example :
    root toy_hash (append_all toy_hash three_leaves empty_tree)
    ≡ merkle_root toy_hash note_commitment_tree_depth three_leaves
root-append_all_example = root-append_all toy_hash three_leaves (omega arith)

-- A database that never fails: a function.
abbrev pub ToyDb : Type 0
ToyDb = Bytes → Bytes → Option Bytes

abbrev toy_insert : Bytes → Bytes → Bytes → ToyDb → ToyDb
toy_insert name key value db other k =
    if bytes_eq name other && bytes_eq key k then some value else db other k

abbrev toy_remove : Bytes → Bytes → ToyDb → ToyDb
toy_remove name key db other k = if bytes_eq name other && bytes_eq key k then none else db other k

abbrev pub toy_sled : Sled ToyDb
toy_sled = record {
  open_tree = λ name db. ok tt;
  get = λ name key db. ok (db name key);
  insert = λ name key value db. (toy_insert name key value db, ok tt);
  remove = λ name key db. (toy_remove name key db, ok (db name key));
  scan_prefix = λ name prefix db. [];
  content = λ name key db. db name key;
  get-content = λ name key db value h. cc;
  insert-content = λ name key value other k db h. refl;
}

abbrev pub genesis : Block
genesis = record {
  header = record {
    height = 0;
    parent_hash = replicate 32 0;
    state_root = replicate 32 0;
    tx_root = replicate 32 0;
    nullifier_root = replicate 32 0;
    timestamp = 0;
    epoch = 0;
    vrf_output = [];
    proposer = [];
    chain_id = 7;
    gas_used = 0;
    gas_limit = 0;
  };
  transactions = tx_a ∷ [];
  aggregate_proof = [];
  bls_aggregate_sig = [];
  validator_bitfield = 0;
}

abbrev pub toy_codec : Codec
toy_codec = record {
  blake3 = toy_hash;
  serialize_tx = λ tx. [];
  serialize_header = λ header. [];
  encode_block = λ block. some [];
  encode_tx = λ tx. some [];
  encode_frontier = λ frontier. some [];
  decode_block = λ bytes. some genesis;
  decode_tx = λ bytes. some tx_a;
  decode_validator = λ bytes. none;
  decode_frontier = λ bytes. none;
}

abbrev pub store_a : StateStore ToyDb
store_a = record { db = λ name key. none; tree = empty_tree }

abbrev chain_a : List Entry
chain_a = record { block = genesis; changes = []; contracts = [] } ∷ []

abbrev pub store_b : StateStore ToyDb
store_b = (apply_chain toy_sled toy_codec chain_a store_a).0

chain_a-applied : apply_chain toy_sled toy_codec chain_a store_a ≡ (store_b, ok tt)
unfolding apply_chain tree_get
chain_a-applied = refl

apply_chain-Distinct_example :
    Distinct (chain_nullifiers toy_sled toy_codec chain_a)
    × All
        (λ n. is_spent toy_sled toy_codec n store_a ≡ false)
        (chain_nullifiers toy_sled toy_codec chain_a)
    × All
        (λ n. is_spent toy_sled toy_codec n store_b ≡ true)
        (chain_nullifiers toy_sled toy_codec chain_a)
apply_chain-Distinct_example =
    apply_chain-Distinct toy_sled toy_codec chain_a store_a store_b chain_a-applied

apply_chain-merkle_root_example :
    root toy_hash store_b.tree
    ≡ merkle_root toy_hash note_commitment_tree_depth (chain_commitments toy_sled toy_codec chain_a)
apply_chain-merkle_root_example =
    apply_chain-merkle_root toy_sled toy_codec chain_a store_a store_b refl (omega arith)
      chain_a-applied

length-toy_hash : (bytes : Bytes) → length (toy_hash bytes) ≡ 32
length-toy_hash bytes =
    omega (arith, length-take 32 (bytes ++ replicate 32 0), length-append bytes (replicate 32 0))

genesis_root : Bytes
genesis_root = root toy_hash (append_all toy_hash (replicate 32 10 ∷ []) empty_tree)

toy-Reliable : Reliable toy_sled toy_codec
toy-Reliable = record {
  opens = λ name db. refl;
  gets = λ name key db. refl;
  inserts = λ name key value db. refl;
  encodes_block = λ block. refl;
  encodes_tx = λ tx. refl;
  encodes_frontier = λ frontier. refl;
}

genesis-applied : apply_block toy_sled toy_codec genesis [] [] store_a ≡ (store_b, ok genesis_root)
unfolding apply_chain genesis_root tree_get append_all append_leaf
genesis-applied = refl

apply_block_iff_example :
    ((t : StateStore ToyDb) × (apply_block toy_sled toy_codec genesis [] [] store_a
        ≡ (t, ok genesis_root)))
    ↔ ((genesis.header.height ≡ 0)
        × Ready toy_sled toy_codec (replicate 32 6 ∷ []) store_a
        × (genesis_root ≡ root toy_hash (append_all toy_hash (replicate 32 10 ∷ []) empty_tree)))
apply_block_iff_example =
    apply_block_iff toy_sled toy_codec toy-Reliable genesis [] [] store_a genesis_root

get_block_by_height-apply_block_example :
    (((get_block_by_height toy_sled toy_codec 0 store_b).1 ≡ ok (some (some genesis)))
      ⊎ ((e : Bytes) × ((get_block_by_height toy_sled toy_codec 0 store_b).1 ≡ err (sled_error e))))
    × (((get_chain_height toy_sled toy_codec store_b).1 ≡ ok 0)
        ⊎ ((e : Bytes) × ((get_chain_height toy_sled toy_codec store_b).1 ≡ err (sled_error e))))
get_block_by_height-apply_block_example =
    get_block_by_height-apply_block toy_sled toy_codec genesis [] [] store_a store_b genesis_root
      length-toy_hash (λ bytes h. refl) (omega arith) genesis-applied
