-- ===== src/Consensus/Engine/Commits.antt =====
-- When the loop of crates/noirnet-consensus/src/engine.rs commits a block on a vote.
use noirnet.Prelude.{
  ℕ, ◌≡◌, refl, ap, ◌∙◌, ◌⊎◌, inl, inr, true, false, ◌&&◌, Option, none, some, arith, ◌==◌,
  Bool-cases, Bytes,
}
use noirnet.Network.P2p.{NetworkCommand, broadcast_vote}
use noirnet.Types.Note.{Hash32}
use noirnet.Types.Block.{Block}
use noirnet.Types.Validator.{Vote, VoteType}
use noirnet.Consensus.Bft.{
  BftRoundState, BftPhase, add_vote, try_advance_phase, has_quorum_prevote, has_quorum_precommit,
}
use noirnet.Consensus.Engine.{Ports, ConsensusEngine, execute_and_apply_block}
use noirnet.Consensus.Engine.Loop.{
  Round, Turn, cast_vote, commit_block, with_bft, give, own_vote, vote_is_valid, on_phase, on_vote,
}

advance-commit :
    (hash : Hash32) (s : BftRoundState)
    → (try_advance_phase hash s).1 ≡ some BftPhase.commit
    → has_quorum_precommit (try_advance_phase hash s).0 hash ≡ true
unfolding try_advance_phase has_quorum_prevote has_quorum_precommit
advance-commit hash s h = ground (arith, h)

module _
    {Db PeerId Channel SecretKey PublicKey Signature PublicParams Snark Instance Method : Type 0}
    (ports : Ports Db PeerId Channel SecretKey PublicKey Signature PublicParams Snark Instance
      Method) where
  abbrev Engine : Type 0
  Engine = ConsensusEngine Db PeerId Channel SecretKey

  -- The store and the pool are as before.
  abbrev Untouched : Engine → Engine → Type 0
  Untouched e f = (f.state_store ≡ e.state_store) × (f.mempool ≡ e.mempool)

  pub give-Untouched :
      (o : Option Bytes) (command : Bytes → NetworkCommand PeerId Channel) (e : Engine)
      → Untouched e (give ports o command e)
  give-Untouched none command e = (refl, refl)
  give-Untouched (some bytes) command e = (refl, refl)

  pub cast_vote-Untouched :
      (kind : VoteType) (hash : Hash32) (key : Option SecretKey) (e : Engine) (r : Round)
      → Untouched e (cast_vote ports kind hash key e r).0
  unfolding cast_vote
  cast_vote-Untouched kind hash none e r = (refl, refl)
  cast_vote-Untouched kind hash (some sk) e r =
      give-Untouched (ports.encode_vote (own_vote ports r kind hash sk e))
        (λ bytes. broadcast_vote bytes) e

  -- What a turn says of the phase that it was for.
  abbrev Decided :
      ℕ → Option Block → Engine → Turn Db PeerId Channel SecretKey → Option BftPhase → Type 0
  Decided now current e t phase =
      ((t.leaves ≡ true)
        × (phase ≡ some BftPhase.commit)
        × ((b : Block) × (current ≡ some b) × (t.engine ≡ execute_and_apply_block ports now b e)))
      ⊎ ((t.leaves ≡ false) × Untouched e t.engine)

  commit_block-Decided :
      (now : ℕ) (current : Option Block) (e : Engine) (r : Round)
      → Decided now current e (commit_block ports now current e r) (some BftPhase.commit)
  unfolding commit_block
  commit_block-Decided now none e r = inr (refl, (refl, refl))
  commit_block-Decided now (some b) e r = inl (refl, refl, (b, refl, refl))

  on_phase-Decided :
      (now : ℕ) (vote : Vote) (phase : Option BftPhase) (e : Engine) (r : Round)
      → Decided now r.current_block e (on_phase ports now vote phase e r) phase
  unfolding on_phase
  on_phase-Decided now vote none e r = inr (refl, (refl, refl))
  on_phase-Decided now vote (some BftPhase.propose) e r = inr (refl, (refl, refl))
  on_phase-Decided now vote (some BftPhase.prevote) e r = inr (refl, (refl, refl))
  on_phase-Decided now vote (some BftPhase.precommit) e r =
      inr (refl, cast_vote-Untouched VoteType.precommit vote.block_hash e.secret_key e r)
  on_phase-Decided now vote (some BftPhase.commit) e r =
      commit_block-Decided now r.current_block e r

  commit_block-round :
      (now : ℕ) (current : Option Block) (e : Engine) (r : Round)
      → (commit_block ports now current e r).round ≡ r
  unfolding commit_block
  commit_block-round now none e r = refl
  commit_block-round now (some b) e r = refl

  on_phase-round :
      (now : ℕ) (vote : Vote) (phase : Option BftPhase) (e : Engine) (r : Round)
      → phase ≡ some BftPhase.commit
      → (on_phase ports now vote phase e r).round ≡ r
  unfolding on_phase
  on_phase-round now vote phase e r h =
      ap (λ p. (on_phase ports now vote p e r).round) h ∙ commit_block-round now r.current_block e r

  -- A vote either leaves the store and the pool as they are and the loop goes on, or it commits: then it is of the height and the round of
  -- the loop and is valid, its hash has a quorum of precommits afterwards, and the block that is executed and applied is the current one.
  pub on_vote_lem :
      (now : ℕ) (vote : Vote) (e : Engine) (r : Round)
      → let t = on_vote ports now vote e r in
        ((t.leaves ≡ true)
          × (vote.height ≡ r.height)
          × (vote.round ≡ r.round)
          × (vote_is_valid ports r.val_set vote ≡ true)
          × (has_quorum_precommit t.round.bft_state vote.block_hash ≡ true)
          × ((b : Block) × (r.current_block ≡ some b)
              × (t.engine ≡ execute_and_apply_block ports now b e)))
        ⊎ ((t.leaves ≡ false)
            × (t.engine.state_store ≡ e.state_store)
            × (t.engine.mempool ≡ e.mempool))
  unfolding on_vote
  on_vote_lem now vote e r =
      let here =
        vote.height == r.height && vote.round == r.round && vote_is_valid ports r.val_set vote in
      let counted = add_vote vote r.bft_state in
      let advanced = try_advance_phase vote.block_hash counted.0 in
      elim (Bool-cases here) [
        | inr away ↦ rw away (inr (refl, refl, refl))
        | inl right ↦ elim (Bool-cases counted.1) [
          | inr old ↦ rw (right, old) (inr (refl, refl, refl))
          | inl fresh ↦
              rw (right, fresh)
                (elim (on_phase-Decided now vote advanced.1 e (with_bft ports advanced.0 r)) [
                  | inr (stays, same) ↦ inr (stays, same.0, same.1)
                  | inl (leaves, committed, block) ↦
                      let kept =
                        on_phase-round now vote advanced.1 e (with_bft ports advanced.0 r)
                          committed in
                      let quorum = advance-commit vote.block_hash counted.0 committed in
                      inl (
                        leaves,
                        ground (arith, right),
                        ground (arith, right),
                        ground (arith, right),
                        ap (λ (x : Round). has_quorum_precommit x.bft_state vote.block_hash) kept
                            ∙ quorum,
                        block,
                      )
                ])
        ]
      ]
