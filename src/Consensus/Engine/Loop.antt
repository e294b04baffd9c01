-- ===== src/Consensus/Engine/Loop.antt =====
-- `run` of crates/noirnet-consensus/src/engine.rs: the setup of a height with the proposal, the branches of `select!`,
-- and sequences of them. The clock, the order in which the pool is shuffled and the random peer are arguments; `none`
-- is a panic.
use noirnet.Prelude.{
  ℕ, zero, suc, ◌+◌, ◌-◌, ◌/◌, ◌%◌, min, Bool, true, false, not, ◌&&◌, Option, none, some, List, [],
  ◌∷◌, ◌++◌, ltb, leb, ◌==◌, if◌then◌else◌, is_some, length, is_empty, replicate, Result, ok, err,
  ok_or, u32_mod, add_u64, Bytes, bytes_eq, to_le_bytes,
}
use noirnet.Prelude.{codes}
use noirnet.Types.Constants.{epoch_blocks, max_block_gas}
use noirnet.Types.Note.{Hash32, zero_hash}
use noirnet.Types.Transaction.{Transaction}
use noirnet.Types.Block.{Block, SyncRequest, SyncResponse, block_hash, header_hash}
use noirnet.Types.Validator.{
  Vote, VoteType, ValidatorSet, StakeEntry, default_set, id, get_by_id, elect_leader,
}
use noirnet.Storage.Merkle.{root}
use noirnet.Storage.State.Database.{StateStore, StorageError}
use noirnet.Storage.State.Blocks.{get_chain_height, has_blocks}
use noirnet.Storage.State.Queries.{get_block_by_height, get_validator_set}
use noirnet.Mempool.{select_for_block}
use noirnet.Network.P2p.{
  NetworkCommand, broadcast_block, broadcast_vote, send_sync_request, send_sync_response,
}
use noirnet.Crypto.Bls.{BlsError, public_from_bytes, signature_from_bytes, bls_sign, bls_verify}
use noirnet.Consensus.Bft.{BftRoundState, BftPhase, new, add_vote, try_advance_phase}
use noirnet.Consensus.Builder.{build_block}
use noirnet.Consensus.Sync.{check_sync_status, handle_peer_height}
use noirnet.Consensus.Engine.{
  Ports, ConsensusEngine, record_slashing_event, execute_and_apply_block,
}

-- The local variables of one turn of the outer loop.
pub record Round : Type 0 where
  pub height : ℕ
  pub round : ℕ
  pub val_set : ValidatorSet
  pub total_validators : ℕ
  pub bft_state : BftRoundState
  pub current_block : Option Block

module _ (PeerId Channel : Type 0) where
  pub data EngineEvent : Type 0 where
    block_received : PeerId → Block → EngineEvent
    vote_received : Vote → EngineEvent
    sync_requested : PeerId → SyncRequest → Channel → EngineEvent
    sync_answered : PeerId → SyncResponse → EngineEvent
    timed_out : EngineEvent

-- What a turn of the inner loop leaves behind, and whether it breaks out of it.
pub record Turn (Db PeerId Channel SecretKey : Type 0) : Type 0 where
  pub engine : ConsensusEngine Db PeerId Channel SecretKey
  pub round : Round
  pub leaves : Bool

-- `unwrap`, and `unwrap_or(None)`, of the block at a height.
abbrev pub unwrapped : Result (Option (Option Block)) StorageError → Option (Option Block)
unwrapped (ok found) = found
unwrapped (err e) = none

abbrev pub or_no_block : Result (Option (Option Block)) StorageError → Option (Option Block)
or_no_block (ok found) = found
or_no_block (err e) = some none

abbrev pub or_panic {ℓ κ} : {A : Type ℓ} {B : Type κ} → Option A → (A → Option B) → Option B
or_panic none f = none
or_panic (some a) f = f a

abbrev pub stake_id : Option StakeEntry → Bytes → Bool
stake_id none wanted = false
stake_id (some v) wanted = bytes_eq (id v) wanted

module _
    {Db PeerId Channel SecretKey PublicKey Signature PublicParams Snark Instance Method : Type 0}
    (ports : Ports Db PeerId Channel SecretKey PublicKey Signature PublicParams Snark Instance
      Method) where
  abbrev Engine : Type 0
  Engine = ConsensusEngine Db PeerId Channel SecretKey

  unfoldable pub height_of_chain : StateStore Db → ℕ
  unfolding get_chain_height
  height_of_chain s = ok_or (get_chain_height ports.sled ports.codec s).1 0

  abbrev pub give : Option Bytes → (Bytes → NetworkCommand PeerId Channel) → Engine → Engine
  give none command e = e
  give (some bytes) command e = record e { sent = command bytes ∷ e.sent }

  abbrev pub hash_if_any : Option Block → Hash32
  hash_if_any none = zero_hash
  hash_if_any (some b) = header_hash ports.codec.blake3 ports.codec.serialize_header b.header

  -- The proposal of the leader.
  unfoldable pub propose_block :
      ℕ → (List Transaction → List Transaction) → ℕ → Engine → Option Engine
  unfolding height_of_chain get_block_by_height has_blocks select_for_block build_block root
  propose_block now shuffle height e =
      let s = e.state_store in
      let txs =
        select_for_block ports.codec.blake3 ports.codec.serialize_tx ports.serialized_size shuffle
          10_000 max_block_gas e.mempool in
      or_panic
        (if ltb 1 height
          then unwrapped (get_block_by_height ports.sled ports.codec (height - 1) s).1
          else some none)
        (λ parent.
          or_panic
            (if ok_or (has_blocks ports.sled ports.codec s).1 false
              then or_no_block (get_block_by_height ports.sled ports.codec (height_of_chain s) s).1
              else some none)
            (λ tip.
              let block =
                build_block ports.codec.blake3 ports.codec.serialize_tx ports.codec.serialize_header
                  (height_of_chain s) (ok_or (has_blocks ports.sled ports.codec s).1 false) tip
                  (root ports.codec.blake3 s.tree) txs e.local_validator_id (hash_if_any parent) now
                  height in
              some (give (ports.codec.encode_block block) (λ bytes. broadcast_block bytes) e)))

  unfoldable pub is_leader : ℕ → ℕ → ValidatorSet → Engine → Bool
  unfolding elect_leader
  is_leader height round val_set e =
      let vrf_hash =
        ports.codec.blake3 (to_le_bytes 8 height ++ (to_le_bytes 4 round ++ replicate 20 0)) in
      if is_empty val_set.validators
      then e.is_validator
      else stake_id (elect_leader val_set vrf_hash) e.local_validator_id

  unfoldable pub fresh_round : ℕ → ValidatorSet → ℕ → Round
  unfolding new
  fresh_round height val_set total = record {
    height = height;
    round = 0;
    val_set = val_set;
    total_validators = total;
    bft_state = new height 0 total;
    current_block = none;
  }

  -- The turn of the outer loop up to the inner loop.
  unfoldable pub start_height :
      ℕ → (List Transaction → List Transaction) → Engine → Option (Engine × Round)
  unfolding height_of_chain get_validator_set fresh_round check_sync_status is_leader propose_block
  start_height now shuffle e =
      let height = add_u64 (height_of_chain e.state_store) 1 in
      let val_set =
        ok_or (get_validator_set ports.sled ports.codec (height / epoch_blocks) e.state_store).1
          default_set in
      let total = if is_empty val_set.validators then 4 else length val_set.validators in
      let (manager, is_syncing) = check_sync_status (height - 1) e.sync_manager in
      let ready = record e { sync_manager = manager } in
      let round = fresh_round height val_set total in
      or_panic
        (if is_leader height 0 val_set ready && not is_syncing
          then propose_block now shuffle height ready
          else some ready)
        (λ proposed. some (proposed, round))

  -- A vote of this node on a hash, signed.
  abbrev pub own_vote : Round → VoteType → Hash32 → SecretKey → Engine → Vote
  own_vote r kind hash sk e = record {
    height = r.height;
    round = r.round;
    block_hash = hash;
    vote_type = kind;
    validator_id = e.local_validator_id;
    signature = ports.blst.signature_bytes (bls_sign ports.blst sk hash);
  }

  abbrev pub with_bft : BftRoundState → Round → Round
  with_bft bft r = record r { bft_state = bft }

  -- Signs, sends and counts a vote, if this node has a key.
  unfoldable pub cast_vote : VoteType → Hash32 → Option SecretKey → Engine → Round → Engine × Round
  unfolding bls_sign add_vote
  cast_vote kind hash none e r = (e, r)
  cast_vote kind hash (some sk) e r =
      let vote = own_vote r kind hash sk e in
      (
        give (ports.encode_vote vote) (λ bytes. broadcast_vote bytes) e,
        with_bft (add_vote vote r.bft_state).0 r,
      )

  abbrev pub ask_current : Bool → Engine → Engine
  ask_current false e = e
  ask_current true e = elim e.sync_manager.current_request [
    | none ↦ e
    | some (peer, request) ↦ record e { sent = send_sync_request peer request ∷ e.sent }
  ]

  unfoldable pub on_block : PeerId → Block → Engine → Round → Turn Db PeerId Channel SecretKey
  unfolding handle_peer_height block_hash try_advance_phase cast_vote
  on_block peer block e r =
      let (manager, request) =
        handle_peer_height ports.peer_eq peer block.header.height (r.height - 1) e.sync_manager in
      let asked = ask_current (is_some request) (record e { sync_manager = manager }) in
      let hash = block_hash ports.codec.blake3 ports.codec.serialize_header block in
      let seen = record r {
        current_block = some block;
        bft_state = (try_advance_phase hash r.bft_state).0;
      } in
      let (voted, counted) = cast_vote VoteType.prevote hash asked.secret_key asked seen in
      if block.header.height == r.height && not asked.sync_manager.is_syncing
      then record { engine = voted; round = counted; leaves = false }
      else record { engine = asked; round = r; leaves = false }

  abbrev pub signed_by : Result PublicKey BlsError → Result Signature BlsError → Hash32 → Bool
  signed_by (err e) sig hash = false
  signed_by (ok key) (err e) hash = false
  signed_by (ok key) (ok sig) hash = bls_verify ports.blst sig hash key

  unfoldable pub vote_is_valid : ValidatorSet → Vote → Bool
  unfolding get_by_id public_from_bytes signature_from_bytes bls_verify
  vote_is_valid val_set vote = elim (get_by_id val_set vote.validator_id) [
    | some val ↦
        signed_by (public_from_bytes ports.blst val.bls_pubkey)
          (signature_from_bytes ports.blst vote.signature) vote.block_hash
    | none ↦ is_empty val_set.validators
  ]

  unfoldable pub commit_block : ℕ → Option Block → Engine → Round → Turn Db PeerId Channel SecretKey
  unfolding execute_and_apply_block
  commit_block now none e r = record { engine = e; round = r; leaves = false }
  commit_block now (some b) e r = record {
    engine = execute_and_apply_block ports now b e;
    round = r;
    leaves = true;
  }

  -- What follows a vote that advanced the round to a phase.
  unfoldable pub on_phase :
      ℕ → Vote → Option BftPhase → Engine → Round → Turn Db PeerId Channel SecretKey
  unfolding cast_vote commit_block
  on_phase now vote (some BftPhase.precommit) e r =
      let (voted, counted) = cast_vote VoteType.precommit vote.block_hash e.secret_key e r in
      record { engine = voted; round = counted; leaves = false }
  on_phase now vote (some BftPhase.commit) e r = commit_block now r.current_block e r
  on_phase now vote _ e r = record { engine = e; round = r; leaves = false }

  unfoldable pub on_vote : ℕ → Vote → Engine → Round → Turn Db PeerId Channel SecretKey
  unfolding vote_is_valid add_vote try_advance_phase on_phase
  on_vote now vote e r =
      let (counted, is_new) = add_vote vote r.bft_state in
      let (advanced, phase) = try_advance_phase vote.block_hash counted in
      if not (vote.height == r.height && vote.round == r.round && vote_is_valid r.val_set vote)
      then record { engine = e; round = r; leaves = false }
      else if not is_new
      then record { engine = e; round = with_bft counted r; leaves = false }
      else on_phase now vote phase e (with_bft advanced r)

  -- The loop over the heights, `n` of them, until one cannot be read.
  unfoldable pub serve : StateStore Db → ℕ → ℕ → Option (List Block)
  unfolding get_block_by_height
  serve s start zero = some []
  serve s start (suc n) =
      let rest = serve s (start + 1) n in
      or_panic (or_no_block (get_block_by_height ports.sled ports.codec start s).1) (λ found.
        elim found [ none ↦ some [] | some b ↦ or_panic rest (λ blocks. some (b ∷ blocks)) ])

  abbrev pub answer_with : Channel → List Block → Engine → Round → Turn Db PeerId Channel SecretKey
  answer_with channel blocks e r = record {
    engine = record e { sent = send_sync_response channel (record { blocks = blocks }) ∷ e.sent };
    round = r;
    leaves = false;
  }

  unfoldable pub on_sync_request :
      SyncRequest → Channel → Engine → Round → Option (Turn Db PeerId Channel SecretKey)
  unfolding serve height_of_chain
  on_sync_request request channel e r =
      let max_h =
        min (add_u64 request.start_height request.limit)
          (add_u64 (height_of_chain e.state_store) 1) in
      or_panic (serve e.state_store request.start_height (max_h - request.start_height))
        (λ blocks. some (answer_with channel blocks e r))

  unfoldable pub apply_synced : ℕ → ℕ → List Block → Engine → Engine
  unfolding execute_and_apply_block
  apply_synced now height [] e = e
  apply_synced now height (b ∷ bs) e =
      let next = execute_and_apply_block ports now b e in
      apply_synced now height bs (if leb height b.header.height then next else e)

  abbrev pub ask_more : ℕ → Bool → Engine → Round → Turn Db PeerId Channel SecretKey
  ask_more ch false e r = record { engine = e; round = r; leaves = false }
  ask_more ch true e r = elim e.sync_manager.current_request [
    | none ↦ record { engine = e; round = r; leaves = true }
    | some (peer, request) ↦ record {
      engine = record e {
        sent = send_sync_request peer (record request { start_height = add_u64 ch 1 }) ∷ e.sent;
      };
      round = r;
      leaves = false;
    }
  ]

  unfoldable pub on_sync_response :
      ℕ → SyncResponse → Engine → Round → Turn Db PeerId Channel SecretKey
  unfolding apply_synced height_of_chain check_sync_status
  on_sync_response now response e r =
      let applied = apply_synced now r.height response.blocks e in
      let ch = height_of_chain applied.state_store in
      let (manager, is_syncing) = check_sync_status ch applied.sync_manager in
      if e.sync_manager.is_syncing
      then ask_more ch is_syncing (record applied { sync_manager = manager }) r
      else record { engine = e; round = r; leaves = false }

  unfoldable pub on_timeout : Engine → Round → Turn Db PeerId Channel SecretKey
  unfolding new
  on_timeout e r =
      let missed = add_u64 e.consecutive_missed_blocks 1 in
      let late = record e { consecutive_missed_blocks = missed } in
      let round = (r.round + 1) % u32_mod in
      record {
        engine =
            if leb e.slashing_conditions.max_consecutive_missed_blocks missed
            then record_slashing_event ports (codes "excessive_downtime") late
            else late;
        round = record r { round = round; bft_state = new r.height round r.total_validators };
        leaves = false;
      }

  unfoldable pub handle :
      ℕ → EngineEvent PeerId Channel → Engine → Round → Option (Turn Db PeerId Channel SecretKey)
  unfolding on_block on_vote on_sync_request on_sync_response on_timeout
  handle now (block_received peer block) e r = some (on_block peer block e r)
  handle now (vote_received vote) e r = some (on_vote now vote e r)
  handle now (sync_requested peer request channel) e r = on_sync_request request channel e r
  handle now (sync_answered peer response) e r = some (on_sync_response now response e r)
  handle now timed_out e r = some (on_timeout e r)

  -- An event, and the setup of the next height if the inner loop was left.
  unfoldable pub step :
      ℕ
      → (List Transaction → List Transaction)
      → EngineEvent PeerId Channel
      → Engine × Round
      → Option (Engine × Round)
  unfolding handle start_height
  step now shuffle event (e, r) = or_panic (handle now event e r) (λ turn.
      if turn.leaves then start_height now shuffle turn.engine else some (turn.engine, turn.round))

  -- Events, each with the time at which it comes. Between them nothing changes: what other tasks of the node do, such as pruning the
  -- store (bin/noirnet-node/src/main.rs), is left out.
  unfoldable pub run :
      (List Transaction → List Transaction)
      → List (ℕ × EngineEvent PeerId Channel)
      → Engine × Round
      → Option (Engine × Round)
  unfolding step
  run shuffle [] s = some s
  run shuffle ((now, event) ∷ events) s =
      or_panic (step now shuffle event s) (λ t. run shuffle events t)
