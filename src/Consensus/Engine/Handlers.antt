-- ===== src/Consensus/Engine/Handlers.antt =====
-- The handlers of crates/noirnet-consensus/src/engine.rs and what they execute.
use noirnet.Prelude.{
  ℕ, ◌-◌, ◌⊎◌, [], ◌∷◌, ◌≡◌, refl, inl, inr, Bool, true, false, Option, none, some, List, leb,
  if◌then◌else◌, Bool-cases, Option-cases, is_some, add_u64,
}
use noirnet.Types.Note.{Hash32}
use noirnet.Types.Block.{Block, SyncResponse, block_hash}
use noirnet.Types.Validator.{Vote, VoteType}
use noirnet.Consensus.Sync.{check_sync_status, handle_peer_height}
use noirnet.Consensus.Bft.{BftPhase, add_vote, try_advance_phase}
use noirnet.Consensus.Engine.{Ports, ConsensusEngine}
use noirnet.Consensus.Engine.Loop.{
  Round, Turn, commit_block, with_bft, on_block, on_phase, on_vote, cast_vote, apply_synced,
  ask_more, on_sync_response, on_timeout, ask_current, height_of_chain,
}
use noirnet.Consensus.Engine.Replay.{
  IsPartOf, ended, passed, Executes, Executes-none, Executes-Keeps, Executes-execute,
  Executes-apply_synced,
}
use noirnet.Consensus.Engine.Sending.{cast_vote-Keeps, ask_current-Keeps, ask_more-Keeps}

IsPartOf-none : (bs : List Block) → IsPartOf [] bs
IsPartOf-none [] = ended
IsPartOf-none (b ∷ bs) = passed b (IsPartOf-none bs)

module _
    {Db PeerId Channel SecretKey PublicKey Signature PublicParams Snark Instance Method : Type 0}
    (ports : Ports Db PeerId Channel SecretKey PublicKey Signature PublicParams Snark Instance
      Method) where
  abbrev Engine : Type 0
  Engine = ConsensusEngine Db PeerId Channel SecretKey

  -- The block of the round is the same.
  abbrev SameBlock : Round → Round → Type 0
  SameBlock r q = q.current_block ≡ r.current_block

  -- What a turn executes, which begins in a state of the engine and a round.
  abbrev Executed : ℕ → Bool → List Block → Engine → Turn Db PeerId Channel SecretKey → Type 0
  Executed now role own e t = Executes ports now role own e t.engine

  cast_vote-SameBlock :
      (kind : VoteType) (hash : Hash32) (key : Option SecretKey) (e : Engine) (r : Round)
      → SameBlock r (cast_vote ports kind hash key e r).1
  unfolding cast_vote
  cast_vote-SameBlock kind hash none e r = refl
  cast_vote-SameBlock kind hash (some sk) e r = refl

  module _ (role : Bool) where
    -- Nothing, or the block of the round.
    abbrev pub Commits : ℕ → Engine → Round → Turn Db PeerId Channel SecretKey → Type 0
    Commits now e r t =
        (own : List Block) × ((own ≡ [])
          ⊎ ((b : Block) × (r.current_block ≡ some b) × (own ≡ b ∷ [])))
        × Executed now role own e t
        × SameBlock r t.round

    Commits-nothing :
        (now : ℕ) (e : Engine) (r q : Round) (leaves : Bool)
        → e.is_validator ≡ role
        → SameBlock r q
        → Commits now e r (record { engine = e; round = q; leaves = leaves })
    Commits-nothing now e r q leaves h same =
        ([], inl refl, Executes-none ports now role e e h (refl, refl), same)

    commit_block-Commits :
        (now : ℕ) (current : Option Block) (e : Engine) (r : Round)
        → e.is_validator ≡ role
        → r.current_block ≡ current
        → Commits now e r (commit_block ports now current e r)
    unfolding commit_block
    commit_block-Commits now none e r h c = Commits-nothing now e r r false h refl
    commit_block-Commits now (some b) e r h c =
        let (own, kind, w) = Executes-execute ports now b role e h in
        (own, elim kind [ inl nothing ↦ inl nothing | inr one ↦ inr (b, c, one) ], w, refl)

    on_phase-Commits :
        (now : ℕ) (vote : Vote) (phase : Option BftPhase) (e : Engine) (r : Round)
        → e.is_validator ≡ role
        → Commits now e r (on_phase ports now vote phase e r)
    unfolding on_phase
    on_phase-Commits now vote none e r h = Commits-nothing now e r r false h refl
    on_phase-Commits now vote (some BftPhase.propose) e r h = Commits-nothing now e r r false h refl
    on_phase-Commits now vote (some BftPhase.prevote) e r h = Commits-nothing now e r r false h refl
    on_phase-Commits now vote (some BftPhase.precommit) e r h = (
      [],
      inl refl,
      Executes-none ports now role e
          (cast_vote ports VoteType.precommit vote.block_hash e.secret_key e r).0 h
          (cast_vote-Keeps ports VoteType.precommit vote.block_hash e.secret_key e r),
      cast_vote-SameBlock VoteType.precommit vote.block_hash e.secret_key e r,
    )
    on_phase-Commits now vote (some BftPhase.commit) e r h =
        commit_block-Commits now r.current_block e r h refl

    Commits-if :
        (now : ℕ) (e : Engine) (r : Round) (b : Bool) (t u : Turn Db PeerId Channel SecretKey)
        → Commits now e r t
        → Commits now e r u
        → Commits now e r (if b then t else u)
    Commits-if now e r true t u v w = v
    Commits-if now e r false t u v w = w

    pub on_vote-Commits :
        (now : ℕ) (vote : Vote) (e : Engine) (r : Round)
        → e.is_validator ≡ role
        → Commits now e r (on_vote ports now vote e r)
    unfolding on_vote
    on_vote-Commits now vote e r h =
        let counted = add_vote vote r.bft_state in
        let advanced = try_advance_phase vote.block_hash counted.0 in
        Commits-if now e r _ (record { engine = e; round = r; leaves = false }) _
          (Commits-nothing now e r r false h refl)
          (Commits-if now e r _
            (record { engine = e; round = with_bft ports counted.0 r; leaves = false }) _
            (Commits-nothing now e r (with_bft ports counted.0 r) false h refl)
            (on_phase-Commits now vote advanced.1 e (with_bft ports advanced.0 r) h))

    -- A proposal executes nothing, and becomes the block of the round at most.
    abbrev pub Proposes : ℕ → Block → Engine → Round → Turn Db PeerId Channel SecretKey → Type 0
    Proposes now block e r t =
        Executed now role [] e t × ((t.round.current_block ≡ some block) ⊎ SameBlock r t.round)

    Proposes-if :
        (now : ℕ) (block : Block) (e : Engine) (r : Round) (b : Bool)
        (t u : Turn Db PeerId Channel SecretKey)
        → Proposes now block e r t
        → Proposes now block e r u
        → Proposes now block e r (if b then t else u)
    Proposes-if now block e r true t u v w = v
    Proposes-if now block e r false t u v w = w

    pub on_block-Proposes :
        (now : ℕ) (peer : PeerId) (block : Block) (e : Engine) (r : Round)
        → e.is_validator ≡ role
        → Proposes now block e r (on_block ports peer block e r)
    unfolding on_block
    on_block-Proposes now peer block e r h =
        let met =
          handle_peer_height ports.peer_eq peer block.header.height (r.height - 1) e.sync_manager in
        let asked = ask_current ports (is_some met.1) (record e { sync_manager = met.0 }) in
        let hash = block_hash ports.codec.blake3 ports.codec.serialize_header block in
        let seen : Round = record r {
          current_block = some block;
          bft_state = (try_advance_phase hash r.bft_state).0;
        } in
        let v : Executes ports now role [] e asked =
          Executes-none ports now role e asked h
            (ask_current-Keeps ports (is_some met.1) (record e { sync_manager = met.0 })) in
        let voted = cast_vote ports VoteType.prevote hash asked.secret_key asked seen in
        Proposes-if now block e r _ (record { engine = voted.0; round = voted.1; leaves = false })
          (record { engine = asked; round = r; leaves = false })
          (
            Executes-Keeps ports now role [] e asked voted.0 v
                (cast_vote-Keeps ports VoteType.prevote hash asked.secret_key asked seen),
            inl (cast_vote-SameBlock VoteType.prevote hash asked.secret_key asked seen),
          )
          (v, inr refl)

    ask_more-SameBlock :
        (ch : ℕ) (b : Bool) (e : Engine) (r : Round) → SameBlock r (ask_more ports ch b e r).round
    ask_more-SameBlock ch false e r = refl
    ask_more-SameBlock ch true e r = elim (Option-cases e.sync_manager.current_request) [
      | inl nothing ↦ rw nothing refl
      | inr (request, asked) ↦ rw asked refl
    ]

    -- Some of the blocks of an answer, in their order, each once.
    abbrev pub Applies : ℕ → List Block → Engine → Round → Turn Db PeerId Channel SecretKey → Type 0
    Applies now blocks e r t =
        (own : List Block) × IsPartOf own blocks × Executed now role own e t × SameBlock r t.round

    Applies-if :
        (now : ℕ) (blocks : List Block) (e : Engine) (r : Round) (b : Bool)
        (t u : Turn Db PeerId Channel SecretKey)
        → Applies now blocks e r t
        → Applies now blocks e r u
        → Applies now blocks e r (if b then t else u)
    Applies-if now blocks e r true t u v w = v
    Applies-if now blocks e r false t u v w = w

    pub on_sync_response-Applies :
        (now : ℕ) (response : SyncResponse) (e : Engine) (r : Round)
        → e.is_validator ≡ role
        → Applies now response.blocks e r (on_sync_response ports now response e r)
    unfolding on_sync_response
    on_sync_response-Applies now response e r h =
        let applied = apply_synced ports now r.height response.blocks e in
        let ch = height_of_chain ports applied.state_store in
        let checked = check_sync_status ch applied.sync_manager in
        let ready : Engine = record applied { sync_manager = checked.0 } in
        let (own, part, w) = Executes-apply_synced ports now r.height response.blocks role e h in
        Applies-if now response.blocks e r _ _ (record { engine = e; round = r; leaves = false })
          (
            own,
            part,
            Executes-Keeps ports now role own e applied (ask_more ports ch checked.1 ready r).engine
                w (ask_more-Keeps ports ch checked.1 ready r),
            ask_more-SameBlock ch checked.1 ready r,
          )
          ([], IsPartOf-none response.blocks, Executes-none ports now role e e h (refl, refl), refl)

    pub on_timeout-same :
        (now : ℕ) (e : Engine) (r : Round)
        → e.is_validator ≡ role
        → Executed now role [] e (on_timeout ports e r) × SameBlock r (on_timeout ports e r).round
    unfolding on_timeout
    on_timeout-same now e r h =
        let missed = add_u64 e.consecutive_missed_blocks 1 in
        elim (Bool-cases (leb e.slashing_conditions.max_consecutive_missed_blocks missed)) [
          | inl late ↦ rw late (Executes-none ports now role e _ h (refl, refl), refl)
          | inr early ↦ rw early (Executes-none ports now role e _ h (refl, refl), refl)
        ]
