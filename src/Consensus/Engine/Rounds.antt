-- ===== src/Consensus/Engine/Rounds.antt =====
-- The rounds that the loop of crates/noirnet-consensus/src/engine.rs goes through.
use noirnet.Prelude.{
  ℕ, ◌-◌, ◌/◌, min, ◌≡◌, refl, ap, inl, inr, not, ◌&&◌, Option, none, some, List, [], ◌∷◌,
  if◌then◌else◌, Bool-cases, unwrap_or, length, is_empty, ok_or, add_u64,
}
use mathlib.Core.Path.{subst}
use mathlib.Core.List.{Mem, mem-cons_self, mem-cons_of_mem}
use noirnet.Prelude.{All}
use noirnet.Types.Transaction.{Transaction}
use noirnet.Types.Constants.{epoch_blocks}
use noirnet.Storage.State.Queries.{get_validator_set}
use noirnet.Types.Validator.{Vote, default_set}
use noirnet.Consensus.Sync.{check_sync_status}
use noirnet.Consensus.Engine.{Ports, ConsensusEngine}
use noirnet.Consensus.Engine.Loop.{
  Round, Turn, EngineEvent, block_received, vote_received, sync_requested, sync_answered, timed_out,
  or_panic, serve, on_sync_request, handle, start_height, step, run, height_of_chain, answer_with,
  fresh_round, is_leader, propose_block,
}
use noirnet.Consensus.Engine.Voters.{Sound, IsSound, IsAccepted, IsSound-new}
use noirnet.Consensus.Engine.Counting.{
  Sound-on_vote, Sound-on_block, Sound-on_sync_response, Sound-on_timeout,
}

pub or_panic-some {ℓ κ} :
    {A : Type ℓ} {B : Type κ} (o : Option A) (f : A → Option B) (b : B)
    → or_panic o f ≡ some b
    → (a : A) × (o ≡ some a) × (f a ≡ some b)
or_panic-some none f b h = cc
or_panic-some (some a) f b h = (a, refl, h)

pub some_inj {ℓ} : {A : Type ℓ} (a b : A) → Path (Option A) (some a) (some b) → a ≡ b
some_inj a b h = ap (λ o. unwrap_or o a) h

-- The votes that come in with some events.
abbrev pub votes_of : {PeerId Channel : Type 0} → List (ℕ × EngineEvent PeerId Channel) → List Vote
votes_of [] = []
votes_of ((now, vote_received vote) ∷ events) = vote ∷ votes_of events
votes_of ((now, _) ∷ events) = votes_of events

module _
    {Db PeerId Channel SecretKey PublicKey Signature PublicParams Snark Instance Method : Type 0}
    (ports : Ports Db PeerId Channel SecretKey PublicKey Signature PublicParams Snark Instance
      Method)
    (Came : Vote → Type 0) where
  abbrev Engine : Type 0
  Engine = ConsensusEngine Db PeerId Channel SecretKey

  abbrev SoundTurn : Turn Db PeerId Channel SecretKey → Type 0
  SoundTurn t = Sound ports Came t.engine t.round

  -- What an event brings, if it is a vote.
  abbrev pub Brings : EngineEvent PeerId Channel → Type 0
  Brings (vote_received vote) = Came vote
  Brings _ = Unit {0}

  Sound-handle :
      (now : ℕ) (event : EngineEvent PeerId Channel) (e : Engine) (r : Round)
      (t : Turn Db PeerId Channel SecretKey)
      → Brings event
      → Sound ports Came e r
      → handle ports now event e r ≡ some t
      → Sound ports Came t.engine t.round
  unfolding handle on_sync_request
  Sound-handle now (block_received peer block) e r t came w h =
      subst SoundTurn (some_inj _ t h) (Sound-on_block ports Came peer block e r w)
  Sound-handle now (vote_received vote) e r t came w h =
      subst SoundTurn (some_inj _ t h) (Sound-on_vote ports Came now vote e r came w)
  Sound-handle now (sync_requested peer request channel) e r t came w h =
      let max_h =
        min (add_u64 request.start_height request.limit)
          (add_u64 (height_of_chain ports e.state_store) 1) in
      let (blocks, served, answered) =
        or_panic-some
          (serve ports e.state_store request.start_height (max_h - request.start_height))
          (λ blocks. some (answer_with ports channel blocks e r)) t h in
      subst SoundTurn (some_inj (answer_with ports channel blocks e r) t answered) w
  Sound-handle now (sync_answered peer response) e r t came w h =
      subst SoundTurn (some_inj _ t h) (Sound-on_sync_response ports Came now response e r w)
  Sound-handle now timed_out e r t came w h =
      subst SoundTurn (some_inj _ t h) (Sound-on_timeout ports Came e r)

  pub Sound-start_height :
      (now : ℕ) (shuffle : List Transaction → List Transaction) (e f : Engine) (r : Round)
      → start_height ports now shuffle e ≡ some (f, r)
      → Sound ports Came f r
  unfolding start_height fresh_round
  Sound-start_height now shuffle e f r h =
      let height = add_u64 (height_of_chain ports e.state_store) 1 in
      let val_set =
        ok_or (get_validator_set ports.sled ports.codec (height / epoch_blocks) e.state_store).1
          default_set in
      let total = if is_empty val_set.validators then 4 else length val_set.validators in
      let checked = check_sync_status (height - 1) e.sync_manager in
      let ready = record e { sync_manager = checked.0 } in
      let round = fresh_round ports height val_set total in
      let (proposed, _, answered) =
        or_panic-some
          (if is_leader ports height 0 val_set ready && not checked.1
            then propose_block ports now shuffle height ready
            else some ready)
          (λ proposed. some (proposed, round)) (f, r) h in
      subst (λ (p : Engine × Round). Sound ports Came p.0 p.1)
        (some_inj (proposed, round) (f, r) answered)
        (IsSound-new (IsAccepted ports Came val_set) proposed.local_validator_id height 0 total)

  Sound-step :
      (now : ℕ) (shuffle : List Transaction → List Transaction) (event : EngineEvent PeerId Channel)
      (s t : Engine × Round)
      → Brings event
      → Sound ports Came s.0 s.1
      → step ports now shuffle event s ≡ some t
      → Sound ports Came t.0 t.1
  unfolding step
  Sound-step now shuffle event (e, r) t came w h =
      let (turn, handled, rest) =
        or_panic-some (handle ports now event e r)
          (λ turn.
            if turn.leaves
            then start_height ports now shuffle turn.engine
            else some (turn.engine, turn.round))
          t h in
      elim (Bool-cases turn.leaves) [
        | inl leaves ↦ Sound-start_height now shuffle turn.engine t.0 t.1 (rw leaves at rest)
        | inr stays ↦
            subst (λ (p : Engine × Round). Sound ports Came p.0 p.1)
              (some_inj (turn.engine, turn.round) t (rw stays at rest))
              (Sound-handle now event e r turn came w handled)
      ]

  pub Sound-run :
      (shuffle : List Transaction → List Transaction)
      (events : List (ℕ × EngineEvent PeerId Channel)) (s t : Engine × Round)
      → All (λ entry. Brings entry.1) events
      → Sound ports Came s.0 s.1
      → run ports shuffle events s ≡ some t
      → Sound ports Came t.0 t.1
  unfolding run
  Sound-run shuffle [] s t came w h =
      subst (λ (p : Engine × Round). Sound ports Came p.0 p.1) (some_inj s t h) w
  Sound-run shuffle ((now, event) ∷ events) s t came w h =
      let (u, first, rest) =
        or_panic-some (step ports now shuffle event s) (λ u. run ports shuffle events u) t h in
      Sound-run shuffle events u t came.1 (Sound-step now shuffle event s u came.0 w first) rest

  each-Brings :
      (events : List (ℕ × EngineEvent PeerId Channel))
      → ((v : Vote) → Mem v (votes_of events) → Came v)
      → All (λ entry. Brings entry.1) events
  each-Brings [] h = tt
  each-Brings ((now, block_received peer block) ∷ events) h = (tt, each-Brings events h)
  each-Brings ((now, vote_received vote) ∷ events) h =
      (h vote mem-cons_self, each-Brings events (λ v m. h v (mem-cons_of_mem vote m)))
  each-Brings ((now, sync_requested peer request channel) ∷ events) h = (tt, each-Brings events h)
  each-Brings ((now, sync_answered peer response) ∷ events) h = (tt, each-Brings events h)
  each-Brings ((now, timed_out) ∷ events) h = (tt, each-Brings events h)

module _
    {Db PeerId Channel SecretKey PublicKey Signature PublicParams Snark Instance Method : Type 0}
    (ports : Ports Db PeerId Channel SecretKey PublicKey Signature PublicParams Snark Instance
      Method) where
  -- Whatever blocks, votes, requests, answers and timeouts come in after the setup of a height, and whatever heights follow: the round has
  -- the height and the round number that the loop is at, with its count of validators, and whoever is counted for a hash is this node, or
  -- one of the votes that came in is theirs, of just that height, that round, that kind and for that hash, was taken for valid, and is
  -- from the validator set of the height, unless that is empty.
  pub run-start_height-IsSound :
      (now : ℕ) (shuffle : List Transaction → List Transaction)
      (events : List (ℕ × EngineEvent PeerId Channel))
      (e : ConsensusEngine Db PeerId Channel SecretKey)
      (s t : ConsensusEngine Db PeerId Channel SecretKey × Round)
      → start_height ports now shuffle e ≡ some s
      → run ports shuffle events s ≡ some t
      → IsSound
          (IsAccepted ports (λ v. Mem v (votes_of events)) t.1.val_set)
          t.0.local_validator_id
          t.1.height
          t.1.round
          t.1.total_validators
          t.1.bft_state
  run-start_height-IsSound now shuffle events e s t h k =
      let Came : Vote → Type 0 = λ v. Mem v (votes_of events) in
      Sound-run ports Came shuffle events s t (each-Brings ports Came events (λ v m. m))
        (Sound-start_height ports Came now shuffle e s.0 s.1 h) k
