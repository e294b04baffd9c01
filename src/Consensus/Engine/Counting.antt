-- ===== src/Consensus/Engine/Counting.antt =====
-- What the handlers of crates/noirnet-consensus/src/engine.rs count for a round.
use noirnet.Prelude.{
  ℕ, ◌+◌, ◌-◌, ◌%◌, ◌≡◌, refl, inl, inr, Bool, true, false, not, ◌&&◌, Option, none, some, arith,
  ◌==◌, if◌then◌else◌, Bool-cases, Option-cases, is_some, u32_mod,
}
use noirnet.Types.Block.{Block, SyncResponse, block_hash}
use noirnet.Types.Validator.{Vote, VoteType}
use noirnet.Consensus.Sync.{check_sync_status, handle_peer_height}
use noirnet.Consensus.Bft.{BftPhase, add_vote, try_advance_phase}
use noirnet.Consensus.Engine.{Ports, ConsensusEngine}
use noirnet.Consensus.Engine.Loop.{
  Round, Turn, commit_block, with_bft, vote_is_valid, on_block, on_phase, on_vote, apply_synced,
  ask_more, on_sync_response, on_timeout, ask_current, height_of_chain,
}
use noirnet.Consensus.Engine.Voters.{
  Sound, IsAccepted, IsSound-advance, IsSound-add_vote, IsSound-new, local-execute,
  local-apply_synced, Sound-cast_vote, vote_is_valid-known,
}

module _
    {Db PeerId Channel SecretKey PublicKey Signature PublicParams Snark Instance Method : Type 0}
    (ports : Ports Db PeerId Channel SecretKey PublicKey Signature PublicParams Snark Instance
      Method)
    (Came : Vote → Type 0) where
  abbrev Engine : Type 0
  Engine = ConsensusEngine Db PeerId Channel SecretKey

  Sound-if :
      (b : Bool) (t u : Turn Db PeerId Channel SecretKey)
      → Sound ports Came t.engine t.round
      → Sound ports Came u.engine u.round
      → Sound ports Came (if b then t else u).engine (if b then t else u).round
  Sound-if true t u v w = v
  Sound-if false t u v w = w

  local-ask_current :
      (b : Bool) (e : Engine) → (ask_current ports b e).local_validator_id ≡ e.local_validator_id
  local-ask_current false e = refl
  local-ask_current true e = ground arith

  Sound-commit_block :
      (now : ℕ) (current : Option Block) (e : Engine) (r : Round)
      → Sound ports Came e r
      → Sound ports Came
          (commit_block ports now current e r).engine
          (commit_block ports now current e r).round
  unfolding commit_block
  Sound-commit_block now none e r w = w
  Sound-commit_block now (some b) e r w = rw (local-execute ports now b e) w

  Sound-on_phase :
      (now : ℕ) (vote : Vote) (phase : Option BftPhase) (e : Engine) (r : Round)
      → Sound ports Came e r
      → Sound ports Came
          (on_phase ports now vote phase e r).engine
          (on_phase ports now vote phase e r).round
  unfolding on_phase
  Sound-on_phase now vote none e r w = w
  Sound-on_phase now vote (some BftPhase.propose) e r w = w
  Sound-on_phase now vote (some BftPhase.prevote) e r w = w
  Sound-on_phase now vote (some BftPhase.precommit) e r w =
      Sound-cast_vote ports Came VoteType.precommit vote.block_hash e.secret_key e r w
  Sound-on_phase now vote (some BftPhase.commit) e r w =
      Sound-commit_block now r.current_block e r w

  pub Sound-on_vote :
      (now : ℕ) (vote : Vote) (e : Engine) (r : Round)
      → Came vote
      → Sound ports Came e r
      → Sound ports Came (on_vote ports now vote e r).engine (on_vote ports now vote e r).round
  unfolding on_vote
  Sound-on_vote now vote e r came w =
      let here =
        vote.height == r.height && vote.round == r.round && vote_is_valid ports r.val_set vote in
      let counted = add_vote vote r.bft_state in
      let advanced = try_advance_phase vote.block_hash counted.0 in
      elim (Bool-cases here) [
        | inr away ↦ rw away w
        | inl right ↦
            let voter = vote_is_valid-known ports r.val_set vote (ground (arith, right)) in
            let accepted : IsAccepted ports Came r.val_set vote = record {
              came = came;
              valid = ground (arith, right);
              listed = voter;
            } in
            let more =
              IsSound-add_vote (IsAccepted ports Came r.val_set) e.local_validator_id r.height
                r.round r.total_validators vote r.bft_state w (inl accepted) in
            elim (Bool-cases counted.1) [
              | inr old ↦ rw (right, old) more
              | inl fresh ↦
                  rw (right, fresh)
                    (Sound-on_phase now vote advanced.1 e (with_bft ports advanced.0 r) (
                      IsSound-advance (IsAccepted ports Came r.val_set) e.local_validator_id
                        r.height r.round r.total_validators vote.block_hash counted.0 more))
            ]
      ]

  pub Sound-on_block :
      (peer : PeerId) (block : Block) (e : Engine) (r : Round)
      → Sound ports Came e r
      → Sound ports Came
          (on_block ports peer block e r).engine
          (on_block ports peer block e r).round
  unfolding on_block
  Sound-on_block peer block e r w =
      let met =
        handle_peer_height ports.peer_eq peer block.header.height (r.height - 1) e.sync_manager in
      let asked = ask_current ports (is_some met.1) (record e { sync_manager = met.0 }) in
      let hash = block_hash ports.codec.blake3 ports.codec.serialize_header block in
      let seen : Round = record r {
        current_block = some block;
        bft_state = (try_advance_phase hash r.bft_state).0;
      } in
      let same = local-ask_current (is_some met.1) (record e { sync_manager = met.0 }) in
      let kept : Sound ports Came asked r = rw same w in
      let moved : Sound ports Came asked seen =
        IsSound-advance (IsAccepted ports Came r.val_set) asked.local_validator_id r.height r.round
          r.total_validators hash r.bft_state kept in
      elim (Bool-cases (block.header.height == r.height && not asked.sync_manager.is_syncing)) [
        | inl ours ↦
            rw ours
              (Sound-cast_vote ports Came VoteType.prevote hash asked.secret_key asked seen moved)
        | inr other ↦ rw other kept
      ]

  Sound-ask_more :
      (ch : ℕ) (b : Bool) (e : Engine) (r : Round)
      → Sound ports Came e r
      → Sound ports Came (ask_more ports ch b e r).engine (ask_more ports ch b e r).round
  Sound-ask_more ch false e r w = w
  Sound-ask_more ch true e r w = elim (Option-cases e.sync_manager.current_request) [
    | inl nothing ↦ rw nothing w
    | inr (request, asked) ↦ rw asked w
  ]

  pub Sound-on_sync_response :
      (now : ℕ) (response : SyncResponse) (e : Engine) (r : Round)
      → Sound ports Came e r
      → Sound ports Came
          (on_sync_response ports now response e r).engine
          (on_sync_response ports now response e r).round
  unfolding on_sync_response
  Sound-on_sync_response now response e r w =
      let applied = apply_synced ports now r.height response.blocks e in
      let ch = height_of_chain ports applied.state_store in
      let checked = check_sync_status ch applied.sync_manager in
      let more =
        Sound-ask_more ch checked.1 (record applied { sync_manager = checked.0 }) r
          (rw (local-apply_synced ports now r.height response.blocks e) w) in
      Sound-if e.sync_manager.is_syncing _ (record { engine = e; round = r; leaves = false }) more w

  pub Sound-on_timeout :
      (e : Engine) (r : Round)
      → Sound ports Came (on_timeout ports e r).engine (on_timeout ports e r).round
  unfolding on_timeout
  Sound-on_timeout e r =
      IsSound-new (IsAccepted ports Came r.val_set) _ r.height ((r.round + 1) % u32_mod)
        r.total_validators
