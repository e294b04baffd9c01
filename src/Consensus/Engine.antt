-- ===== src/Consensus/Engine.antt =====
-- crates/noirnet-consensus/src/engine.rs: the state of the engine, and `execute_and_apply_block`. `Ports` holds the
-- crates below it. What the code gives to the network and what it logs as slashing events stands in lists. The
-- conversion of a method name to bytes and the float in `SlashingConditions` are left out.
pub mod Loop
pub mod Execution
pub mod Voters
pub mod Counting
pub mod Rounds
pub mod Commits
pub mod Serving
pub mod Replay
pub mod Sending
pub mod Handlers
pub mod History
pub mod Persistence
use noirnet.Prelude.{
  ℕ, ◌+◌, ◌-◌, ◌/◌, Bool, true, false, not, ◌&&◌, Option, none, some, List, [], ◌∷◌, ◌++◌, ltb,
  if◌then◌else◌, length, is_empty, replicate, Result, ok, err, ◌>>=◌, ◌>>◌, reject_if, ok_or,
  add_u64, Bytes, bytes_eq,
}
use noirnet.Prelude.{codes}
use noirnet.Prelude.Maps.{insert}
use noirnet.Types.Constants.{max_tx_gas, max_contract_size}
use noirnet.Types.Note.{Hash32}
use noirnet.Types.Transaction.{Transaction, ContractCall, TxFormatError, validate_format}
use noirnet.Types.Block.{Block}
use noirnet.Types.Validator.{Vote}
use noirnet.Storage.State.Database.{Sled, Codec, StateStore, StorageError}
use noirnet.Storage.State.Blocks.{apply_block, get_contract_code}
use noirnet.Storage.State.Queries.{get_contract_state_all}
use noirnet.Mempool.{PrivateMempool, remove_mined}
use noirnet.Network.P2p.{NetworkCommand}
use noirnet.Crypto.Bls.{Blst}
use noirnet.Zk.{Nova, ZkError, verify_spend_proof}
use noirnet.Vm.{ExecutionContext, ExecutionResult, VmError}
use noirnet.Vm.Runtime.{Wasmtime, execute}
use noirnet.Consensus.Sync.{SyncManager}

pub record SlashingConditions : Type 0 where
  pub max_consecutive_missed_blocks : ℕ
  pub double_sign_slashing : Bool
  pub equivocation_slashing : Bool

abbrev pub default_conditions : SlashingConditions
default_conditions = record {
  max_consecutive_missed_blocks = 10;
  double_sign_slashing = true;
  equivocation_slashing = true;
}

-- Why a block is not applied, in the order of the checks.
pub data Refusal : Type 0 where
  missing_signature in_future missing_proof invalid_proof over_gas : Refusal
  bad_format : TxFormatError → Refusal

abbrev pub format_error : Result (Unit {0}) TxFormatError → Result (Unit {0}) Refusal
format_error (ok u) = ok u
format_error (err e) = err (bad_format e)

pub record Ports
    (Db PeerId Channel SecretKey PublicKey Signature PublicParams Snark Instance Method : Type 0)
    : Type 0 where
  pub sled : Sled Db
  pub codec : Codec
  pub serialized_size : Transaction → Option ℕ
  pub encode_vote : Vote → Option Bytes
  pub blst : Blst SecretKey PublicKey Signature
  pub nova : Nova PublicParams Snark
  pub public_params : PublicParams
  pub wasmtime : Wasmtime Instance Method
  pub peer_eq : PeerId → PeerId → Bool

pub record ConsensusEngine (Db PeerId Channel SecretKey : Type 0) : Type 0 where
  pub state_store : StateStore Db
  pub mempool : PrivateMempool
  pub local_validator_id : Bytes
  pub secret_key : Option SecretKey
  pub is_validator : Bool
  pub sync_manager : SyncManager PeerId
  pub slashing_conditions : SlashingConditions
  pub last_block_time : ℕ
  pub consecutive_missed_blocks : ℕ
  pub sent : List (NetworkCommand PeerId Channel)
  pub slashing_events : List Bytes

-- The contract state that changes, under the id and the key, and the contracts that are new.
abbrev pub Outcome : Type 0
Outcome = List (Bytes × Bytes) × List (Hash32 × Bytes)

unfoldable pub add_changes :
    Hash32 → List (Bytes × Bytes) → List (Bytes × Bytes) → List (Bytes × Bytes)
add_changes contract_id [] changes = changes
add_changes contract_id ((key, value) ∷ rest) changes =
    add_changes contract_id rest (insert (contract_id ++ key) value changes)

abbrev pub deployed : Hash32 → Bytes → Result ExecutionResult VmError → Outcome → Outcome
deployed contract_id bytecode (ok r) (changes, contracts) =
    (add_changes contract_id r.state_changes changes, contracts ++ (contract_id, bytecode) ∷ [])
deployed contract_id bytecode (err e) outcome = outcome

abbrev pub called : Hash32 → Result ExecutionResult VmError → Outcome → Outcome
called contract_id (ok r) (changes, contracts) =
    (add_changes contract_id r.state_changes changes, contracts)
called contract_id (err e) outcome = outcome

abbrev pub code_of : Result (Option Bytes) StorageError → Option Bytes
code_of (ok found) = found
code_of (err e) = none

abbrev pub has_big_code : Option Bytes → Bool
has_big_code none = false
has_big_code (some bytecode) = ltb max_contract_size (length bytecode)

module _
    {Db PeerId Channel SecretKey PublicKey Signature PublicParams Snark Instance Method : Type 0}
    (ports : Ports Db PeerId Channel SecretKey PublicKey Signature PublicParams Snark Instance
      Method) where
  abbrev pub proof_accepted : Result Bool ZkError → Bool
  proof_accepted (ok b) = b
  proof_accepted (err e) = false

  -- The checks of the first phase on one transaction.
  unfoldable pub check_tx : Transaction → Result (Unit {0}) Refusal
  unfolding verify_spend_proof
  check_tx tx = do
    reject_if (not (is_empty tx.spends) && is_empty tx.aggregate_spend_proof) missing_proof
    reject_if
        (not (is_empty tx.spends)
          && not (
              proof_accepted (
                verify_spend_proof ports.nova ports.public_params tx.aggregate_spend_proof
                  (length tx.spends))))
        invalid_proof
    format_error (validate_format ports.serialized_size tx)
    reject_if (ltb max_tx_gas tx.gas_limit) over_gas

  unfoldable pub check_txs : List Transaction → Result (Unit {0}) Refusal
  unfolding check_tx
  check_txs [] = ok tt
  check_txs (tx ∷ txs) = do check_tx tx; check_txs txs

  unfoldable pub check_block : ℕ → Bool → Block → Result (Unit {0}) Refusal
  unfolding check_txs
  check_block now is_validator block = do
    reject_if (is_validator && is_empty block.bls_aggregate_sig) missing_signature
    reject_if (ltb (add_u64 now 60) block.header.timestamp) in_future
    check_txs block.transactions

  abbrev pub context : Hash32 → Bytes → ℕ → List (Bytes × Bytes) → ExecutionContext
  context contract_id caller gas existing_state = record {
    contract_id = contract_id;
    caller_commitment = caller;
    gas_remaining = gas;
    state_diff = [];
    existing_state = existing_state;
    events = [];
    memory = none;
  }

  unfoldable pub state_of : Hash32 → StateStore Db → List (Bytes × Bytes)
  unfolding get_contract_state_all
  state_of contract_id s = ok_or (get_contract_state_all ports.sled ports.codec contract_id s).1 []

  unfoldable pub deploy : StateStore Db → ℕ → Option Bytes → Outcome → Outcome
  unfolding state_of execute
  deploy s gas none outcome = outcome
  deploy s gas (some bytecode) outcome =
      let contract_id = ports.codec.blake3 bytecode in
      deployed contract_id bytecode
        (execute ports.wasmtime bytecode (codes "init") []
          (context contract_id (replicate 32 0) gas (state_of contract_id s)))
        outcome

  unfoldable pub run_call : StateStore Db → ContractCall → Option Bytes → Outcome → Outcome
  unfolding state_of execute
  run_call s call none outcome = outcome
  run_call s call (some code) outcome =
      called call.contract_id
        (execute ports.wasmtime code call.method call.args (
          context call.contract_id call.caller_commitment call.gas_limit
            (state_of call.contract_id s)))
        outcome

  unfoldable pub call_contract : StateStore Db → Option ContractCall → Outcome → Outcome
  unfolding run_call get_contract_code
  call_contract s none outcome = outcome
  call_contract s (some call) outcome =
      run_call s call (code_of (get_contract_code ports.sled ports.codec call.contract_id s).1)
        outcome

  -- The second phase; a transaction whose code is too big is passed over, with its call.
  unfoldable pub execute_txs : StateStore Db → List Transaction → Outcome → Outcome
  unfolding deploy call_contract
  execute_txs s [] outcome = outcome
  execute_txs s (tx ∷ txs) outcome = execute_txs s txs (
      if has_big_code tx.deploy_contract
      then outcome
      else call_contract s tx.contract_call (deploy s tx.gas_limit tx.deploy_contract outcome))

  abbrev pub record_slashing_event :
      Bytes
      → ConsensusEngine Db PeerId Channel SecretKey
      → ConsensusEngine Db PeerId Channel SecretKey
  record_slashing_event event e = record e { slashing_events = event ∷ e.slashing_events }

  abbrev pub refused :
      Refusal
      → ConsensusEngine Db PeerId Channel SecretKey
      → ConsensusEngine Db PeerId Channel SecretKey
  refused invalid_proof e = record_slashing_event (codes "invalid_zk_proof") e
  refused _ e = e

  -- After `apply_block`, with its result.
  unfoldable pub settle :
      ℕ
      → Block
      → Result Hash32 StorageError
      → ConsensusEngine Db PeerId Channel SecretKey
      → ConsensusEngine Db PeerId Channel SecretKey
  unfolding remove_mined
  settle now block (err x) e = record_slashing_event (codes "apply_block_failed") e
  settle now block (ok state_root) e =
      if not (bytes_eq state_root block.header.state_root)
      then record_slashing_event (codes "state_root_mismatch") e
      else record e {
        consecutive_missed_blocks = 0;
        last_block_time = now;
        mempool =
            remove_mined ports.codec.blake3 ports.codec.serialize_tx ports.serialized_size
              block.transactions e.mempool;
      }

  unfoldable pub apply_checked :
      ℕ
      → Block
      → ConsensusEngine Db PeerId Channel SecretKey
      → ConsensusEngine Db PeerId Channel SecretKey
  unfolding execute_txs apply_block settle
  apply_checked now block e =
      let (changes, contracts) = execute_txs e.state_store block.transactions ([], []) in
      let (store, result) =
        apply_block ports.sled ports.codec block changes contracts e.state_store in
      settle now block result (record e { state_store = store })

  unfoldable pub execute_and_apply_block :
      ℕ
      → Block
      → ConsensusEngine Db PeerId Channel SecretKey
      → ConsensusEngine Db PeerId Channel SecretKey
  unfolding check_block apply_checked
  execute_and_apply_block now block e = elim (check_block now e.is_validator block) [
    | err refusal ↦ refused refusal e
    | ok u ↦ apply_checked now block e
  ]
