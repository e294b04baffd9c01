-- ===== src/Tests/Data.antt =====
-- Small values that the tests share.
use noirnet.Prelude.{ℕ, none, List, [], ◌∷◌, ◌++◌, take, replicate, Bytes}
use noirnet.Types.Note.{Note, SpendDescription, OutputDescription}
use noirnet.Types.Transaction.{Transaction}
use noirnet.Types.Validator.{
  StakeEntry, ValidatorStatus, active, waiting, ValidatorState, DoubleSignEvidence, Vote, VoteType,
}

-- A stand-in for the hash function, on which the tests can compute.
abbrev pub toy_hash : Bytes → Bytes
toy_hash bytes = take 32 (bytes ++ replicate 32 0)

abbrev pub note_a : Note
note_a = record {
  value = 500;
  rcm = replicate 32 1;
  rho = replicate 32 2;
  pk_d = replicate 32 3;
  diversifier = replicate 11 4;
}

abbrev pub spend_a : SpendDescription
spend_a = record {
  anchor = replicate 32 0;
  nullifier = replicate 32 6;
  rk = replicate 32 7;
  cv = replicate 32 8;
  spend_auth_sig = replicate 64 9;
}

abbrev pub output_a : OutputDescription
output_a = record {
  note_commitment = replicate 32 10;
  ephemeral_key = replicate 32 11;
  enc_ciphertext = [];
  out_ciphertext = [];
  cv = replicate 32 12;
}

abbrev pub tx_a : Transaction
tx_a = record {
  version = 1;
  chain_id = 7;
  spends = spend_a ∷ [];
  outputs = output_a ∷ [];
  fee = 10_000;
  gas_limit = 0;
  memo = none;
  contract_call = none;
  deploy_contract = none;
  binding_sig = [];
  timestamp = 1_800;
  aggregate_spend_proof = [];
}

-- The same, but for the fields that are not signed.
abbrev pub tx_b : Transaction
tx_b = record tx_a { gas_limit = 99; binding_sig = 1 ∷ [] }

abbrev pub entry : ℕ → ℕ → ValidatorStatus → StakeEntry
entry id stake status = record {
  bls_pubkey = replicate 48 id;
  network_pubkey = replicate 32 id;
  total_stake = stake;
  status = status;
  epoch_joined = 0;
}

abbrev pub entries_a : List StakeEntry
entries_a = entry 1 10 active ∷ entry 2 30 active ∷ entry 3 50 waiting ∷ []

abbrev pub validator : ℕ → ℕ → ValidatorState
validator id stake = record {
  registration = record {
    bls_pubkey = replicate 48 id;
    network_pubkey = replicate 32 id;
    stake = stake;
    commission_bps = 0;
    epoch = 0;
    signature = [];
  };
  status = active;
  own_stake = stake;
  delegated_stake = 0;
  consecutive_misses = 0;
  last_signed_height = 0;
  pending_rewards = 0;
  total_slashed = 0;
}

abbrev pub evidence_a : DoubleSignEvidence
evidence_a = record {
  validator_id = replicate 48 1;
  height = 3;
  block_hash_1 = replicate 32 1;
  block_hash_2 = replicate 32 2;
  sig_1 = [];
  sig_2 = [];
}

abbrev pub vote_of : ℕ → ℕ → VoteType → Vote
vote_of id hash kind = record {
  height = 1;
  round = 0;
  block_hash = hash ∷ [];
  vote_type = kind;
  validator_id = id ∷ [];
  signature = [];
}

abbrev pub four_ids : List Bytes
four_ids = (1 ∷ []) ∷ (2 ∷ []) ∷ (3 ∷ []) ∷ (4 ∷ []) ∷ []
