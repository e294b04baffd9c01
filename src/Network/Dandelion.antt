-- ===== src/Network/Dandelion.antt =====
-- crates/noirnet-network/src/dandelion.rs. Times are in one unit since some start, and each call gets
-- the times at which it reads the clock. The draws of the random generator are parameters too: the
-- length of the stem phase, whether to fluff (the draw is below the probability), and the index
-- of a successor. The float parameters that those draws use are left out.
pub mod Stems
use noirnet.Prelude.{
  ℕ, ◌+◌, ◌-◌, ◌/◌, Bool, true, false, not, ◌&&◌, Option, none, some, List, [], ◌∷◌, ltb,
  if◌then◌else◌, is_some, length, is_empty, get_elem?, ◌>>=◌, ◌>>◌,
}
use noirnet.Prelude.Maps.{lookup, insert}
use noirnet.Types.Note.{Hash32}

pub data DandelionPhase : Type 0 where
  stem fluff : DandelionPhase

abbrev pub phase_eq : DandelionPhase → DandelionPhase → Bool
phase_eq stem stem = true
phase_eq fluff fluff = true
phase_eq _ _ = false

module _ (PeerId : Type 0) where
  pub record TxState : Type 0 where
    pub phase : DandelionPhase
    pub received_from : PeerId
    pub created_at : ℕ
    pub stem_deadline : ℕ

  pub record DandelionRouter : Type 0 where
    pub phase : DandelionPhase
    pub stem_successor : Option PeerId
    pub tx_states : List (Hash32 × TxState)

  pub data RoutingDecision : Type 0 where
    broadcast drop_tx : RoutingDecision
    forward_to : PeerId → RoutingDecision

module _ {PeerId : Type 0} where
  unfoldable pub new : DandelionRouter PeerId
  new = record { phase = stem; stem_successor = none; tx_states = [] }

  -- `index` is the draw below the number of peers.
  unfoldable pub rotate_successor :
      ℕ → List PeerId → DandelionRouter PeerId → DandelionRouter PeerId
  rotate_successor index connected_peers r =
      if is_empty connected_peers
      then record r { stem_successor = none }
      else record r { stem_successor = get_elem? connected_peers index }

  abbrev pub is_expired : ℕ → TxState PeerId → Bool
  is_expired now state = phase_eq state.phase stem && ltb state.stem_deadline now

  unfoldable pub flush_states :
      ℕ → List (Hash32 × TxState PeerId) → List (Hash32 × TxState PeerId) × List Hash32
  flush_states now [] = ([], [])
  flush_states now ((txid, state) ∷ states) =
      let (rest, expired) = flush_states now states in
      if is_expired now state
      then ((txid, record state { phase = fluff }) ∷ rest, txid ∷ expired)
      else ((txid, state) ∷ rest, expired)

  unfoldable pub flush_expired_stems :
      ℕ → DandelionRouter PeerId → DandelionRouter PeerId × List Hash32
  unfolding flush_states
  flush_expired_stems now r =
      let (states, expired) = flush_states now r.tx_states in
      (record r { tx_states = states }, expired)

  abbrev pub remember : Hash32 → TxState PeerId → DandelionRouter PeerId → DandelionRouter PeerId
  remember txid state r = record r { tx_states = insert txid state r.tx_states }

  abbrev pub fluffed : PeerId → ℕ → TxState PeerId
  fluffed from now = record {
    phase = fluff;
    received_from = from;
    created_at = now;
    stem_deadline = now;
  }

  abbrev pub stemmed : PeerId → ℕ → ℕ → TxState PeerId
  stemmed from now stem_duration = record {
    phase = stem;
    received_from = from;
    created_at = now;
    stem_deadline = now + stem_duration;
  }

  -- The last step: on to the successor, unless that is the sender.
  abbrev pub forward :
      (PeerId → PeerId → Bool)
      → Option PeerId
      → ℕ
      → ℕ
      → Hash32
      → PeerId
      → DandelionRouter PeerId
      → DandelionRouter PeerId × RoutingDecision PeerId
  forward peer_eq none now stem_duration txid from r = (r, broadcast)
  forward peer_eq (some successor) now stem_duration txid from r =
      if not (peer_eq successor from)
      then (remember txid (stemmed from now stem_duration) r, forward_to successor)
      else (r, broadcast)

  -- `flip` is the outcome of the draw against `fluff_probability`.
  unfoldable pub route_tx :
      (PeerId → PeerId → Bool)
      → ℕ
      → ℕ
      → Bool
      → Hash32
      → PeerId
      → DandelionRouter PeerId
      → DandelionRouter PeerId × RoutingDecision PeerId
  route_tx peer_eq now stem_duration flip txid from r =
      if is_some (lookup txid r.tx_states)
      then (r, drop_tx)
      else if phase_eq r.phase fluff
      then (remember txid (fluffed from now) r, broadcast)
      else if flip
      then (remember txid (fluffed from now) r, broadcast)
      else forward peer_eq r.stem_successor now stem_duration txid from r
