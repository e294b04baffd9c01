-- ===== src/Consensus/Engine/Sending.antt =====
-- What leaves the role and the store of the engine of crates/noirnet-consensus/src/engine.rs alone: its messages and its proposals.
use noirnet.Prelude.{
  ℕ, ◌-◌, ◌≡◌, refl, inl, inr, Bool, true, false, Option, none, some, List, ltb, if◌then◌else◌,
  Option-cases, ok_or, Bytes,
}
use mathlib.Core.Path.{subst}
use noirnet.Types.Note.{Hash32}
use noirnet.Types.Constants.{max_block_gas}
use noirnet.Types.Transaction.{Transaction}
use noirnet.Types.Block.{Block}
use noirnet.Types.Validator.{VoteType}
use noirnet.Network.P2p.{NetworkCommand, broadcast_vote, broadcast_block}
use noirnet.Storage.State.Blocks.{has_blocks}
use noirnet.Storage.State.Queries.{get_block_by_height}
use noirnet.Storage.Merkle.{root}
use noirnet.Mempool.{select_for_block}
use noirnet.Consensus.Builder.{build_block}
use noirnet.Consensus.Engine.{Ports, ConsensusEngine}
use noirnet.Consensus.Engine.Loop.{
  Round, or_panic, unwrapped, or_no_block, give, own_vote, cast_vote, hash_if_any, ask_more,
  ask_current, height_of_chain, propose_block,
}
use noirnet.Consensus.Engine.Rounds.{or_panic-some, some_inj}
use noirnet.Consensus.Engine.Replay.{Keeps}

module _
    {Db PeerId Channel SecretKey PublicKey Signature PublicParams Snark Instance Method : Type 0}
    (ports : Ports Db PeerId Channel SecretKey PublicKey Signature PublicParams Snark Instance
      Method) where
  abbrev Engine : Type 0
  Engine = ConsensusEngine Db PeerId Channel SecretKey

  pub give-Keeps :
      (o : Option Bytes) (command : Bytes → NetworkCommand PeerId Channel) (e : Engine)
      → Keeps ports e (give ports o command e)
  give-Keeps none command e = (refl, refl)
  give-Keeps (some bytes) command e = (refl, refl)

  pub cast_vote-Keeps :
      (kind : VoteType) (hash : Hash32) (key : Option SecretKey) (e : Engine) (r : Round)
      → Keeps ports e (cast_vote ports kind hash key e r).0
  unfolding cast_vote
  cast_vote-Keeps kind hash none e r = (refl, refl)
  cast_vote-Keeps kind hash (some sk) e r =
      give-Keeps (ports.encode_vote (own_vote ports r kind hash sk e))
        (λ bytes. broadcast_vote bytes) e

  pub ask_current-Keeps : (b : Bool) (e : Engine) → Keeps ports e (ask_current ports b e)
  ask_current-Keeps false e = (refl, refl)
  ask_current-Keeps true e = elim (Option-cases e.sync_manager.current_request) [
    | inl nothing ↦ rw nothing (refl, refl)
    | inr (request, asked) ↦ rw asked (refl, refl)
  ]

  pub ask_more-Keeps :
      (ch : ℕ) (b : Bool) (e : Engine) (r : Round) → Keeps ports e (ask_more ports ch b e r).engine
  ask_more-Keeps ch false e r = (refl, refl)
  ask_more-Keeps ch true e r = elim (Option-cases e.sync_manager.current_request) [
    | inl nothing ↦ rw nothing (refl, refl)
    | inr (request, asked) ↦ rw asked (refl, refl)
  ]

  pub propose_block-Keeps :
      (now : ℕ) (shuffle : List Transaction → List Transaction) (height : ℕ) (e f : Engine)
      → propose_block ports now shuffle height e ≡ some f
      → Keeps ports e f
  unfolding propose_block
  propose_block-Keeps now shuffle height e f h =
      let s = e.state_store in
      let has = ok_or (has_blocks ports.sled ports.codec s).1 false in
      let txs =
        select_for_block ports.codec.blake3 ports.codec.serialize_tx ports.serialized_size shuffle
          10_000 max_block_gas e.mempool in
      let built : Option Block → Option Block → Block = λ parent tip.
        build_block ports.codec.blake3 ports.codec.serialize_tx ports.codec.serialize_header
          (height_of_chain ports s) has tip (root ports.codec.blake3 s.tree) txs
          e.local_validator_id (hash_if_any ports parent) now height in
      let sent : Option Block → Option Block → Engine = λ parent tip.
        give ports (ports.codec.encode_block (built parent tip)) (λ bytes. broadcast_block bytes)
          e in
      let tip_of =
        if has
        then or_no_block (get_block_by_height ports.sled ports.codec (height_of_chain ports s) s).1
        else some none in
      let (parent, found, rest) =
        or_panic-some
          (if ltb 1 height
            then unwrapped (get_block_by_height ports.sled ports.codec (height - 1) s).1
            else some none)
          (λ parent. or_panic tip_of (λ tip. some (sent parent tip))) f h in
      let (tip, read, last) = or_panic-some tip_of (λ tip. some (sent parent tip)) f rest in
      subst (λ g. Keeps ports e g) (some_inj (sent parent tip) f last)
        (give-Keeps (ports.codec.encode_block (built parent tip)) (λ bytes. broadcast_block bytes)
          e)
