-- ===== src/Consensus/Engine/Persistence.antt =====
-- What the loop of crates/noirnet-consensus/src/engine.rs never takes back.
use noirnet.Prelude.{ℕ, ◌≡◌, refl, Bool, true, some, List, [], ◌∷◌, ◌++◌, ok, Bytes}
use noirnet.Types.Note.{Hash32}
use noirnet.Types.Transaction.{Transaction}
use noirnet.Types.Block.{Block}
use noirnet.Storage.Merkle.{append_all}
use noirnet.Storage.State.Database.{StateStore}
use noirnet.Storage.State.Effects.{is_spent}
use noirnet.Storage.State.Stability.{Grown, apply_block-Grown, apply_block-spent}
use noirnet.Storage.State.Blocks.{apply_block}
use noirnet.Consensus.Engine.{Ports, ConsensusEngine, execute_txs}
use noirnet.Consensus.Engine.Loop.{Round, EngineEvent, start_height, run}
use noirnet.Consensus.Engine.Replay.{replay}
use noirnet.Consensus.Engine.History.{proposals, IsHistory, run-start_height-replay}

module _
    {Db PeerId Channel SecretKey PublicKey Signature PublicParams Snark Instance Method : Type 0}
    (ports : Ports Db PeerId Channel SecretKey PublicKey Signature PublicParams Snark Instance
      Method) where
  abbrev Engine : Type 0
  Engine = ConsensusEngine Db PeerId Channel SecretKey

  replay-Grown :
      (log : List Block) (s t : StateStore Db)
      → Grown ports.sled ports.codec s t
      → Grown ports.sled ports.codec s (replay ports log t)
  unfolding replay
  replay-Grown [] s t w = w
  replay-Grown (block ∷ log) s t w =
      let outcome = execute_txs ports t block.transactions ([], []) in
      replay-Grown log s (apply_block ports.sled ports.codec block outcome.0 outcome.1 t).0
        (apply_block-Grown ports.sled ports.codec block outcome.0 outcome.1 s t w)

  replay-spent :
      (writes : (name key value : Bytes) (db : Db)
        → (ports.sled.insert name key value db).1 ≡ ok tt)
      (n : Hash32) (log : List Block) (s : StateStore Db)
      → is_spent ports.sled ports.codec n s ≡ true
      → is_spent ports.sled ports.codec n (replay ports log s) ≡ true
  unfolding replay
  replay-spent writes n [] s w = w
  replay-spent writes n (block ∷ log) s w =
      let outcome = execute_txs ports s block.transactions ([], []) in
      replay-spent writes n log (apply_block ports.sled ports.codec block outcome.0 outcome.1 s).0
        (apply_block-spent ports.sled ports.codec writes n block outcome.0 outcome.1 s w)

  IsHistory-Grown :
      (role : Bool) (seen : List Block) (events : List (ℕ × EngineEvent PeerId Channel))
      (r s t : StateStore Db)
      → IsHistory ports role seen events s t
      → Grown ports.sled ports.codec r s
      → Grown ports.sled ports.codec r t
  IsHistory-Grown role seen [] r s t h w = rw h w
  IsHistory-Grown role seen ((now, event) ∷ events) r s t (own, kind, accepted, rest) w =
      IsHistory-Grown role (proposals event ++ seen) events r (replay ports own s) t rest
        (replay-Grown own r s w)

  IsHistory-spent :
      (writes : (name key value : Bytes) (db : Db)
        → (ports.sled.insert name key value db).1 ≡ ok tt)
      (n : Hash32) (role : Bool) (seen : List Block)
      (events : List (ℕ × EngineEvent PeerId Channel)) (s t : StateStore Db)
      → IsHistory ports role seen events s t
      → is_spent ports.sled ports.codec n s ≡ true
      → is_spent ports.sled ports.codec n t ≡ true
  IsHistory-spent writes n role seen [] s t h w = rw h w
  IsHistory-spent writes n role seen ((now, event) ∷ events) s t (own, kind, accepted, rest) w =
      IsHistory-spent writes n role (proposals event ++ seen) events (replay ports own s) t rest
        (replay-spent writes n own s w)

  -- Whatever events come in after the setup of a height, the tree of note commitments is the one from before with leaves appended, also
  -- where blocks were refused, failed halfway or did not have their state root.
  pub run-start_height-Grown :
      (now : ℕ) (shuffle : List Transaction → List Transaction)
      (events : List (ℕ × EngineEvent PeerId Channel)) (e : Engine) (s t : Engine × Round)
      → start_height ports now shuffle e ≡ some s
      → run ports shuffle events s ≡ some t
      → (cs : List Hash32) × (t.0.state_store.tree
          ≡ append_all ports.codec.blake3 cs e.state_store.tree)
  run-start_height-Grown now shuffle events e s t h k =
      IsHistory-Grown e.is_validator [] events e.state_store e.state_store t.0.state_store
        (run-start_height-replay ports now shuffle events e s t h k) ([], unfold append_all in refl)

  -- Where no write of the database fails: a nullifier that is spent before the setup of a height stays spent, whatever events come in
  -- afterwards and whether the blocks that they bring are refused, fail halfway or are applied.
  pub run-start_height-spent :
      (now : ℕ) (shuffle : List Transaction → List Transaction)
      (events : List (ℕ × EngineEvent PeerId Channel)) (e : Engine) (s t : Engine × Round)
      (n : Hash32)
      → ((name key value : Bytes) (db : Db) → (ports.sled.insert name key value db).1 ≡ ok tt)
      → start_height ports now shuffle e ≡ some s
      → run ports shuffle events s ≡ some t
      → is_spent ports.sled ports.codec n e.state_store ≡ true
      → is_spent ports.sled ports.codec n t.0.state_store ≡ true
  run-start_height-spent now shuffle events e s t n writes h k w =
      IsHistory-spent writes n e.is_validator [] events e.state_store t.0.state_store
        (run-start_height-replay ports now shuffle events e s t h k) w
