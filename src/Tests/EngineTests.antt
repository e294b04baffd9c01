-- ===== src/Tests/EngineTests.antt =====
-- The theorems about crates/noirnet-consensus/src/engine.rs at concrete inputs.
use noirnet.Prelude.{
  Bytes, ℕ, ◌+◌, ◌-◌, ◌/◌, ◌^◌, ◌≤◌, ◌<◌, min, ◌≡◌, refl, sym, ap, ◌≢◌, ◌↔◌, ◌⊎◌, true, false,
  Option, none, some, List, [], ◌∷◌, arith, ◌==◌, if◌then◌else◌, is_some, unwrap_or, length,
  replicate, ok, bytes_eq, to_le_bytes, from_le_bytes,
}
use noirnet.Network.P2p.{send_sync_response}
use noirnet.Types.Block.{Block, SyncRequest}
use noirnet.Types.Validator.{Vote, VoteType, default_set}
use noirnet.Storage.State.Database.{StorageError, StateStore}
use noirnet.Storage.State.Blocks.{apply_block}
use noirnet.Mempool.{remove_mined}
use noirnet.Crypto.Bls.{Blst}
use noirnet.Vm.Runtime.{Wasmtime}
use noirnet.Consensus.Sync
use noirnet.Consensus.Bft.{BftRoundState, has_quorum_precommit}
use noirnet.Consensus.Engine.{
  Ports, ConsensusEngine, default_conditions, execute_txs, execute_and_apply_block, check_block,
}
use noirnet.Consensus.Engine.Loop.{
  Round, EngineEvent, block_received, vote_received, timed_out, start_height, run, on_vote,
  vote_is_valid, on_sync_request, height_of_chain, fresh_round,
}
use noirnet.Consensus.Engine.Execution.{IsAcceptable, check_block_iff, execute_and_apply_block_lem}
use noirnet.Consensus.Engine.Commits.{on_vote_lem}
use noirnet.Consensus.Engine.Rounds.{votes_of, run-start_height-IsSound}
use mathlib.Core.List.{Mem}
use noirnet.Consensus.Engine.Voters.{IsSound, IsAccepted}
use noirnet.Consensus.Engine.Serving.{IsServed, HashesFit, on_sync_request_lem}
use noirnet.Storage.State.Effects.{is_spent}
use noirnet.Storage.State.Database.{tree_get}
use noirnet.Storage.State.Chain.{apply_chain}
use noirnet.Consensus.Engine.History.{IsHistory, run-start_height-replay}
use noirnet.Consensus.Engine.Persistence.{run-start_height-spent}
use noirnet.Prelude.{codes}
use noirnet.Storage.Merkle.{empty_tree}
use noirnet.Tests.Data.{spend_a, toy_hash}
use noirnet.Tests.StorageTests.{ToyDb, toy_sled, toy_codec, genesis, store_b}
use noirnet.Tests.TransferTests.{toy_nova}

abbrev toy_blst : Blst ℕ ℕ ℕ
toy_blst = record {
  read_secret = λ bytes. some 0;
  read_public = λ bytes. some 0;
  read_signature = λ bytes. some 0;
  signature_bytes = λ sig. [];
  sk_to_pk = λ sk. sk;
  sign = λ sk msg dst. 0;
  verify = λ sig msg dst key. true;
  aggregate = λ sigs. some 0;
  fast_aggregate_verify = λ sig msg dst keys. true;
}

abbrev toy_wasmtime : Wasmtime ℕ ℕ
toy_wasmtime = record {
  instantiate = λ code ctx fuel. ok (0, ctx);
  get_memory = λ i. some [];
  get_typed_func = λ i method. some 0;
  call = λ f ctx. (ctx, none, ok tt);
}

abbrev ports_a : Ports ToyDb ℕ ℕ ℕ ℕ ℕ ℕ ℕ ℕ ℕ
ports_a = record {
  sled = toy_sled;
  codec = toy_codec;
  serialized_size = λ tx. some 300;
  encode_vote = λ vote. some (1 ∷ []);
  blst = toy_blst;
  nova = toy_nova;
  public_params = 0;
  wasmtime = toy_wasmtime;
  peer_eq = ◌==◌;
}

abbrev engine_a : ConsensusEngine ToyDb ℕ ℕ ℕ
engine_a = record {
  state_store = store_b;
  mempool = record { txs = []; pending_nullifiers = [] };
  local_validator_id = replicate 32 9;
  secret_key = some 0;
  is_validator = false;
  sync_manager = Sync.new;
  slashing_conditions = default_conditions;
  last_block_time = 0;
  consecutive_missed_blocks = 3;
  sent = [];
  slashing_events = [];
}

abbrev next_block : Block
next_block = record genesis { header = record genesis.header { height = 1 }; transactions = [] }

abbrev vote_a : Vote
vote_a = record {
  height = 1;
  round = 0;
  block_hash = replicate 32 0;
  vote_type = VoteType.prevote;
  validator_id = replicate 32 8;
  signature = [];
}

abbrev round_a : Round
round_a = fresh_round ports_a 1 default_set 4

check_block_iff_example :
    (check_block ports_a 2_000 false next_block ≡ ok tt)
    ↔ IsAcceptable ports_a 2_000 false next_block
check_block_iff_example = check_block_iff ports_a 2_000 false next_block (omega arith)

on_vote_lem_example :
    let t = on_vote ports_a 2_000 vote_a engine_a round_a in
    ((t.leaves ≡ true)
      × (1 ≡ round_a.height)
      × (0 ≡ round_a.round)
      × (vote_is_valid ports_a round_a.val_set vote_a ≡ true)
      × (has_quorum_precommit t.round.bft_state vote_a.block_hash ≡ true)
      × ((b : Block) × (round_a.current_block ≡ some b)
          × (t.engine ≡ execute_and_apply_block ports_a 2_000 b engine_a)))
    ⊎ ((t.leaves ≡ false)
        × (t.engine.state_store ≡ engine_a.state_store)
        × (t.engine.mempool ≡ engine_a.mempool))
on_vote_lem_example = on_vote_lem ports_a 2_000 vote_a engine_a round_a

execute_and_apply_block_lem_example :
    let after = execute_and_apply_block ports_a 2_000 next_block engine_a in
    let applied = apply_block toy_sled toy_codec next_block [] [] store_b in
    (IsAcceptable ports_a 2_000 false next_block
      × (((applied.1 ≡ ok (replicate 32 0))
            × (after ≡ record engine_a {
              state_store = applied.0;
              mempool =
                  remove_mined toy_hash toy_codec.serialize_tx (λ tx. some 300) [] engine_a.mempool;
              consecutive_missed_blocks = 0;
              last_block_time = 2_000;
            }))
          ⊎ ((applied.1 ≢ ok (replicate 32 0))
              × ((event : Bytes) × (after
                    ≡ record engine_a { state_store = applied.0; slashing_events = event ∷ [] })))))
    ⊎ ((¬ IsAcceptable ports_a 2_000 false next_block)
        × ((events : List Bytes) × (after ≡ record engine_a { slashing_events = events })))
unfolding execute_txs
execute_and_apply_block_lem_example =
    execute_and_apply_block_lem ports_a 2_000 next_block engine_a (omega arith)

abbrev started : ConsensusEngine ToyDb ℕ ℕ ℕ × Round
started = unwrap_or (start_height ports_a 1_000 (λ txs. txs) engine_a) (engine_a, round_a)

started-some : start_height ports_a 1_000 (λ txs. txs) engine_a ≡ some started
unfolding start_height noirnet.Types.Validator.new noirnet.Prelude.Sorting.sort_by
started-some = refl

-- A vote of the n-th voter.
abbrev vote_of : VoteType → ℕ → EngineEvent ℕ ℕ
vote_of kind n = vote_received (record vote_a { vote_type = kind; validator_id = replicate 32 n })

-- A round that commits `next_block`, and a timeout of the next height.
abbrev events_a : List (ℕ × EngineEvent ℕ ℕ)
events_a =
    (1_001, block_received 5 next_block)
    ∷ (1_002, vote_of VoteType.prevote 1)
    ∷ (1_002, vote_of VoteType.prevote 2)
    ∷ (1_003, vote_of VoteType.prevote 3)
    ∷ (1_004, vote_of VoteType.precommit 1)
    ∷ (1_004, vote_of VoteType.precommit 2)
    ∷ (1_005, vote_of VoteType.precommit 3)
    ∷ (1_020, timed_out)
    ∷ []

abbrev reached : ConsensusEngine ToyDb ℕ ℕ ℕ × Round
reached = unwrap_or (run ports_a (λ txs. txs) events_a started) (engine_a, round_a)

some-unwrap_or : {A : Type 0} (o : Option A) (a : A) → is_some o ≡ true → o ≡ some (unwrap_or o a)
some-unwrap_or none a h = cc
some-unwrap_or (some b) a h = refl

is_some-run : is_some (run ports_a (λ txs. txs) events_a started) ≡ true
unfolding run start_height noirnet.Types.Validator.new noirnet.Prelude.Sorting.sort_by
    noirnet.Storage.State.Database.tree_get noirnet.Storage.State.Chain.apply_chain bytes_eq
    noirnet.Storage.State.Blocks.u64_of to_le_bytes from_le_bytes Sync.new
    noirnet.Prelude.Maps.member noirnet.Prelude.Maps.lookup noirnet.Consensus.Bft.record_vote
    noirnet.Prelude.Maps.insert noirnet.Prelude.Maps.add_member noirnet.Storage.Merkle.append_leaf
    noirnet.Storage.Merkle.empty_tree noirnet.Storage.Merkle.hash_pair noirnet.Storage.Merkle.root
is_some-run = refl

reached-some : run ports_a (λ txs. txs) events_a started ≡ some reached
reached-some =
    some-unwrap_or (run ports_a (λ txs. txs) events_a started) (engine_a, round_a) is_some-run

run-start_height-IsSound_example :
    IsSound
      (IsAccepted ports_a (λ v. Mem v (votes_of events_a)) reached.1.val_set)
      reached.0.local_validator_id
      reached.1.height
      reached.1.round
      reached.1.total_validators
      reached.1.bft_state
run-start_height-IsSound_example =
    run-start_height-IsSound ports_a 1_000 (λ txs. txs) events_a engine_a started reached
      started-some reached-some

abbrev request_a : SyncRequest
request_a = record { start_height = 0; limit = 50 }

-- A store with a hash at every height, and `genesis` under every hash.
abbrev store_c : StateStore ToyDb
store_c = record {
  db = λ name key. some (if bytes_eq name (codes "meta") then replicate 32 0 else []);
  tree = empty_tree;
}

abbrev engine_c : ConsensusEngine ToyDb ℕ ℕ ℕ
engine_c = record engine_a { state_store = store_c }

height_c : height_of_chain ports_a store_c ≡ 0
unfolding height_of_chain noirnet.Storage.State.Database.tree_get
    noirnet.Storage.State.Chain.apply_chain bytes_eq noirnet.Storage.State.Blocks.u64_of to_le_bytes
    from_le_bytes
height_c = refl

tip_small : height_of_chain ports_a store_c + 1 < 2 ^ 64
tip_small = rw height_c (omega arith)

store_c-HashesFit : HashesFit ports_a store_c
unfolding bytes_eq
store_c-HashesFit height hash h = sym (ap (λ o. length (unwrap_or o [])) h)

on_sync_request_lem_example :
    (blocks : List Block) × (on_sync_request ports_a request_a 7 engine_c round_a
      ≡ some (record {
        engine = record engine_c { sent = send_sync_response 7 (record { blocks = blocks }) ∷ [] };
        round = round_a;
        leaves = false;
      }))
    × (length blocks ≤ 50)
    × (length blocks ≤ height_of_chain ports_a store_c + 1 - 0)
    × IsServed ports_a store_c 0 (min (0 + 50) (height_of_chain ports_a store_c + 1) - 0) blocks
on_sync_request_lem_example =
    on_sync_request_lem ports_a request_a 7 engine_c round_a (omega arith) tip_small
      store_c-HashesFit

-- The block was committed, and the loop has gone on to the next height.
reached_height : reached.1.height ≡ 2
unfolding run start_height noirnet.Types.Validator.new noirnet.Prelude.Sorting.sort_by
    noirnet.Storage.State.Database.tree_get noirnet.Storage.State.Chain.apply_chain bytes_eq
    noirnet.Storage.State.Blocks.u64_of to_le_bytes from_le_bytes Sync.new
    noirnet.Prelude.Maps.member noirnet.Prelude.Maps.lookup noirnet.Consensus.Bft.record_vote
    noirnet.Prelude.Maps.insert noirnet.Prelude.Maps.add_member noirnet.Storage.Merkle.append_leaf
    noirnet.Storage.Merkle.empty_tree noirnet.Storage.Merkle.hash_pair noirnet.Storage.Merkle.root
reached_height = refl

run-start_height-replay_example : IsHistory ports_a false [] events_a store_b reached.0.state_store
run-start_height-replay_example =
    run-start_height-replay ports_a 1_000 (λ txs. txs) events_a engine_a started reached
      started-some reached-some

spent_b : is_spent toy_sled toy_codec spend_a.nullifier store_b ≡ true
unfolding apply_chain tree_get bytes_eq
spent_b = refl

run-start_height-spent_example :
    is_spent toy_sled toy_codec spend_a.nullifier reached.0.state_store ≡ true
run-start_height-spent_example =
    run-start_height-spent ports_a 1_000 (λ txs. txs) events_a engine_a started reached
      spend_a.nullifier (λ name key value db. refl) started-some reached-some spent_b
