-- ===== src/Consensus/Engine/History.antt =====
-- Which blocks the loop of crates/noirnet-consensus/src/engine.rs executes at which of its events.
use noirnet.Prelude.{
  ℕ, ◌-◌, ◌/◌, ◌⊎◌, min, ◌≡◌, refl, ap, sym, ◌∙◌, inl, inr, Bool, not, ◌&&◌, Option, none, some,
  List, [], ◌∷◌, ◌++◌, if◌then◌else◌, Bool-cases, length, is_empty, All, ok, ok_or, add_u64,
}
use mathlib.Core.Path.{subst}
use mathlib.Core.List.{Mem, mem-cons_self, mem-cons_of_mem}
use noirnet.Types.Constants.{epoch_blocks}
use noirnet.Types.Transaction.{Transaction}
use noirnet.Types.Block.{Block}
use noirnet.Types.Validator.{default_set}
use noirnet.Storage.State.Database.{StateStore}
use noirnet.Storage.State.Queries.{get_validator_set}
use noirnet.Consensus.Sync.{check_sync_status}
use noirnet.Consensus.Engine.{Ports, ConsensusEngine, check_block}
use noirnet.Consensus.Engine.Loop.{
  Round, Turn, EngineEvent, block_received, vote_received, sync_requested, sync_answered, timed_out,
  serve, on_sync_request, handle, start_height, step, run, height_of_chain, answer_with,
  fresh_round, is_leader, propose_block,
}
use noirnet.Consensus.Engine.Rounds.{or_panic-some, some_inj}
use noirnet.Consensus.Engine.Replay.{
  IsPartOf, replay, Keeps, Executes, Executes-none, Executes-Keeps,
}
use noirnet.Consensus.Engine.Sending.{propose_block-Keeps}
use noirnet.Consensus.Engine.Handlers.{
  on_vote-Commits, on_block-Proposes, on_sync_response-Applies, on_timeout-same,
}

-- The blocks that an event proposes.
abbrev pub proposals : {PeerId Channel : Type 0} → EngineEvent PeerId Channel → List Block
proposals (block_received peer block) = block ∷ []
proposals _ = []

-- What may be executed at an event: at a vote one of the blocks proposed before, at an answer some of its blocks, each once and in
-- their order, and otherwise nothing.
abbrev pub MayExecute :
    {PeerId Channel : Type 0} → List Block → EngineEvent PeerId Channel → List Block → Type 0
MayExecute seen (vote_received vote) own = (own ≡ []) ⊎ ((b : Block) × (own ≡ b ∷ []) × Mem b seen)
MayExecute seen (sync_answered peer response) own = IsPartOf own response.blocks
MayExecute seen _ own = own ≡ []

-- The block of a round, if there is one, was proposed before.
abbrev IsFrom : List Block → Round → Type 0
IsFrom seen r = (b : Block) → r.current_block ≡ some b → Mem b seen

none_some : {A : Type 0} (a : A) {B : Type 0} → Path (Option A) none (some a) → B
none_some a h = cc

module _
    {Db PeerId Channel SecretKey PublicKey Signature PublicParams Snark Instance Method : Type 0}
    (ports : Ports Db PeerId Channel SecretKey PublicKey Signature PublicParams Snark Instance
      Method) where
  abbrev Engine : Type 0
  Engine = ConsensusEngine Db PeerId Channel SecretKey

  -- From one store to another by the blocks of the events and nothing else: each block is one that may be executed at its event and
  -- passes the checks at the time of the event.
  abbrev pub IsHistory :
      Bool
      → List Block
      → List (ℕ × EngineEvent PeerId Channel)
      → StateStore Db
      → StateStore Db
      → Type 0
  IsHistory role seen [] s t = t ≡ s
  IsHistory role seen ((now, event) ∷ events) s t =
      (own : List Block) × MayExecute seen event own
      × All (λ b. check_block ports now role b ≡ ok tt) own
      × IsHistory role (proposals event ++ seen) events (replay ports own s) t

  -- What an event does in one state and round, up to another.
  abbrev Moves :
      ℕ → Bool → List Block → EngineEvent PeerId Channel → Engine → Engine → Round → Type 0
  Moves now role seen event e f q =
      (own : List Block) × MayExecute seen event own
      × Executes ports now role own e f
      × IsFrom (proposals event ++ seen) q

  handle-Moves :
      (now : ℕ) (role : Bool) (seen : List Block) (event : EngineEvent PeerId Channel) (e : Engine)
      (r : Round) (t : Turn Db PeerId Channel SecretKey)
      → e.is_validator ≡ role
      → IsFrom seen r
      → handle ports now event e r ≡ some t
      → Moves now role seen event e t.engine t.round
  unfolding handle on_sync_request
  handle-Moves now role seen (block_received peer block) e r t v from h =
      subst (λ u. Moves now role seen (block_received peer block) e u.engine u.round)
        (some_inj _ t h)
        (let (w, kind) = on_block-Proposes ports role now peer block e r v in
          (
            [],
            refl,
            w,
            λ b c. elim kind [
              | inl new ↦
                  subst (λ d. Mem d (block ∷ seen)) (some_inj block b (sym new ∙ c)) mem-cons_self
              | inr same ↦ mem-cons_of_mem block (from b (sym same ∙ c))
            ],
          ))
  handle-Moves now role seen (vote_received vote) e r t v from h =
      subst (λ u. Moves now role seen (vote_received vote) e u.engine u.round) (some_inj _ t h)
        (let (own, kind, w, same) = on_vote-Commits ports role now vote e r v in
          (
            own,
            elim kind [ inl nothing ↦ inl nothing | inr (b, c, one) ↦ inr (b, one, from b c) ],
            w,
            λ b c. from b (sym same ∙ c),
          ))
  handle-Moves now role seen (sync_requested peer request channel) e r t v from h =
      let max_h =
        min (add_u64 request.start_height request.limit)
          (add_u64 (height_of_chain ports e.state_store) 1) in
      let (blocks, served, answered) =
        or_panic-some
          (serve ports e.state_store request.start_height (max_h - request.start_height))
          (λ blocks. some (answer_with ports channel blocks e r)) t h in
      let sent = answer_with ports channel blocks e r in
      subst (λ u. Moves now role seen (sync_requested peer request channel) e u.engine u.round)
        (some_inj sent t answered)
        ([], refl, Executes-none ports now role e sent.engine v (refl, refl), from)
  handle-Moves now role seen (sync_answered peer response) e r t v from h =
      subst (λ u. Moves now role seen (sync_answered peer response) e u.engine u.round)
        (some_inj _ t h)
        (let (own, part, w, same) = on_sync_response-Applies ports role now response e r v in
          (own, part, w, λ b c. from b (sym same ∙ c)))
  handle-Moves now role seen timed_out e r t v from h =
      subst (λ u. Moves now role seen timed_out e u.engine u.round) (some_inj _ t h)
        (let (w, same) = on_timeout-same ports role now e r v in
          ([], refl, w, λ b c. from b (sym same ∙ c)))

  start_height-Keeps :
      (now : ℕ) (shuffle : List Transaction → List Transaction) (e : Engine) (t : Engine × Round)
      → start_height ports now shuffle e ≡ some t
      → Keeps ports e t.0 × (t.1.current_block ≡ none)
  unfolding start_height fresh_round
  start_height-Keeps now shuffle e t h =
      let height = add_u64 (height_of_chain ports e.state_store) 1 in
      let val_set =
        ok_or (get_validator_set ports.sled ports.codec (height / epoch_blocks) e.state_store).1
          default_set in
      let total = if is_empty val_set.validators then 4 else length val_set.validators in
      let checked = check_sync_status (height - 1) e.sync_manager in
      let ready : Engine = record e { sync_manager = checked.0 } in
      let round = fresh_round ports height val_set total in
      let leads = is_leader ports height 0 val_set ready && not checked.1 in
      let (proposed, made, answered) =
        or_panic-some (if leads then propose_block ports now shuffle height ready else some ready)
          (λ proposed. some (proposed, round)) t h in
      subst (λ (u : Engine × Round). Keeps ports e u.0 × (u.1.current_block ≡ none))
        (some_inj (proposed, round) t answered)
        (
          elim (Bool-cases leads) [
            | inl asked ↦
                propose_block-Keeps ports now shuffle height ready proposed (rw asked at made)
            | inr idle ↦
                subst (λ u. Keeps ports e u) (some_inj ready proposed (rw idle at made))
                  (refl, refl)
          ],
          refl,
        )

  step-Moves :
      (now : ℕ) (role : Bool) (seen : List Block) (shuffle : List Transaction → List Transaction)
      (event : EngineEvent PeerId Channel) (u t : Engine × Round)
      → u.0.is_validator ≡ role
      → IsFrom seen u.1
      → step ports now shuffle event u ≡ some t
      → Moves now role seen event u.0 t.0 t.1
  unfolding step
  step-Moves now role seen shuffle event (e, r) t v from h =
      let (turn, handled, rest) =
        or_panic-some (handle ports now event e r)
          (λ turn.
            if turn.leaves
            then start_height ports now shuffle turn.engine
            else some (turn.engine, turn.round))
          t h in
      let (own, kind, w, here) = handle-Moves now role seen event e r turn v from handled in
      elim (Bool-cases turn.leaves) [
        | inl leaves ↦
            let (keeps, empty) = start_height-Keeps now shuffle turn.engine t (rw leaves at rest) in
            (
              own,
              kind,
              Executes-Keeps ports now role own e turn.engine t.0 w keeps,
              λ b c. none_some b (sym empty ∙ c),
            )
        | inr stays ↦
            subst (λ (p : Engine × Round). Moves now role seen event e p.0 p.1)
              (some_inj (turn.engine, turn.round) t (rw stays at rest)) (own, kind, w, here)
      ]

  run-IsHistory :
      (role : Bool) (seen : List Block) (shuffle : List Transaction → List Transaction)
      (events : List (ℕ × EngineEvent PeerId Channel)) (u t : Engine × Round)
      → u.0.is_validator ≡ role
      → IsFrom seen u.1
      → run ports shuffle events u ≡ some t
      → IsHistory role seen events u.0.state_store t.0.state_store
  unfolding run
  run-IsHistory role seen shuffle [] u t v from h =
      ap (λ (p : Engine × Round). p.0.state_store) (sym (some_inj u t h))
  run-IsHistory role seen shuffle ((now, event) ∷ events) u t v from h =
      let (next, first, rest) =
        or_panic-some (step ports now shuffle event u) (λ next. run ports shuffle events next) t
          h in
      let (own, kind, w, here) = step-Moves now role seen shuffle event u next v from first in
      (
        own,
        kind,
        w.accepted,
        subst (λ store. IsHistory role (proposals event ++ seen) events store t.0.state_store)
            w.replayed
            (run-IsHistory role (proposals event ++ seen) shuffle events next t w.same_role here
              rest),
      )

  -- Whatever events come in after the setup of a height, and whatever heights follow: the loop turns the state store into the later one by
  -- executing blocks, and by nothing else. At a vote that is at most one block, which was proposed before, at an answer to a request some of
  -- its blocks, each at most once and in their order, and at any other event none, and each of these blocks passes the checks at the time
  -- of its event. This holds as long as no other task of the node writes to the store.
  pub run-start_height-replay :
      (now : ℕ) (shuffle : List Transaction → List Transaction)
      (events : List (ℕ × EngineEvent PeerId Channel)) (e : Engine) (s t : Engine × Round)
      → start_height ports now shuffle e ≡ some s
      → run ports shuffle events s ≡ some t
      → IsHistory e.is_validator [] events e.state_store t.0.state_store
  run-start_height-replay now shuffle events e s t h k =
      let (keeps, empty) = start_height-Keeps now shuffle e s h in
      subst (λ store. IsHistory e.is_validator [] events store t.0.state_store) keeps.1
        (run-IsHistory e.is_validator [] shuffle events s t keeps.0
          (λ b c. none_some b (sym empty ∙ c)) k)
