-- ===== src/Lib.antt =====
-- noirnet: a development beside the Rust workspace of that name, a private proof-of-stake chain.
--
-- Types.antt and the files under it model crates/noirnet-types: Types/Constants (constants.rs),
-- Types/Note (note.rs, hash.rs), Types/Transaction (transaction.rs), Types/Block (block.rs),
-- Types/Validator (validator.rs) and Types/Address (address.rs). Consensus.antt models
-- crates/noirnet-consensus: Consensus/Bft (bft.rs), Consensus/Slashing (slashing.rs),
-- Consensus/Epoch (epoch.rs), Consensus/Leader (leader.rs), Consensus/Sync (sync.rs),
-- Consensus/Builder (block_builder.rs) and Consensus/Engine (engine.rs: Engine.antt executes and
-- applies a block, Engine/Loop is `run` with its event handlers). Storage.antt models
-- crates/noirnet-storage: Storage/Merkle (merkle.rs) and Storage/State (Database: db.rs; Blocks:
-- state.rs, block_store.rs, nullifier_store.rs; Queries: their reads and what prunes blocks).
-- Mempool.antt models crates/noirnet-mempool (pool.rs, fee_market.rs), Network.antt
-- crates/noirnet-network (Network/Dandelion: dandelion.rs, Network/P2p: p2p.rs), Crypto.antt
-- crates/noirnet-crypto (Crypto/Stealth: stealth.rs, Crypto/Memo: encryption.rs,
-- Crypto/Commitments: commitment.rs, nullifier.rs, Crypto/Signatures: keys.rs, vrf.rs,
-- Crypto/Bls: bls.rs), Zk.antt crates/noirnet-zk (proof.rs), Wallet.antt crates/noirnet-wallet
-- (sync.rs, Wallet/Builder: builder.rs, Wallet/Keys: keys.rs), Vm.antt crates/noirnet-vm
-- (runtime.rs, host.rs, Vm/Runtime: `execute`), and Contracts.antt contracts/token
-- (Contracts/Token: src/lib.rs). Files below one of these hold its proofs. Prelude.antt and the
-- files under it hold what the components share; Tests.antt and the files under it, the theorems
-- at concrete inputs.
--
-- Structs are records, enums are data types, Vec and arrays are lists, maps are association lists
-- on byte strings. Integers are natural numbers with the wrap-around of the release profile written
-- out; a byte array has the length that a well-formedness predicate states. A loop over a slice is
-- a recursion on the list, a loop over levels of the tree a recursion on their number; no function
-- runs on fuel. A method that changes its object returns the changed record beside its result. The
-- state store threads its state through each operation, also past an error. A panic is `none`. The
-- loop of the engine, which never ends, is run on a list of the events that come in, each with its
-- time; what it sends and what it records for slashing are lists in its state. When the inner loop
-- of a height is left, the next height is set up. Nothing else runs beside it there: in the node,
-- bin/noirnet-node/src/main.rs prunes the same state store every ten minutes from another task, and
-- network and RPC put transactions into the pool at any time. `insert` of the pool is two steps,
-- its checks and the entry, between which other calls may come; each of the two is one step. The
-- two queues of commands have a size each, and a send into a full one, which waits, is `none`. The
-- contract uses the virtual machine through the interface `Host`, which the machine fills.
--
-- The hash function, the serialization, the database (`Sled`), the ciphers and curves (`Aead`,
-- `X25519`, `Ed25519`, `Blst`, `Argon2`, `Base58`), nova-snark (`Nova`), wasmtime (`Wasmtime`), the
-- random draws and the clock belong to other packages and are parameters; what is relied on of each
-- is stated with its operations. The engine takes them together as `Ports`. Where two inputs with
-- the same hash are the only way out, the theorem says that they are a collision.
--
-- Not modelled: what computes with floats (ValidatorSet::voting_power, FeeMarket::adjust_base_fee,
-- DandelionRouter::sample_stem_duration), the set-up of the libp2p swarm, the RPC server, the
-- node and the command line tools, the constraints of the zero-knowledge circuits, the key stores
-- over hardware and shares, and the primitives above.
pub mod Prelude
pub mod Types
pub mod Consensus
pub mod Storage
pub mod Mempool
pub mod Network
pub mod Vm
pub mod Wallet
pub mod Contracts
pub mod Crypto
pub mod Zk
pub mod Tests
