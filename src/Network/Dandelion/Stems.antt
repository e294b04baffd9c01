-- ===== src/Network/Dandelion/Stems.antt =====
-- What the router of crates/noirnet-network/src/dandelion.rs does with a transaction.
use noirnet.Prelude.{
  ℕ, ◌≡◌, refl, sym, ◌∙◌, ◌⊎◌, inl, inr, Bool, true, false, Option, none, some, List, [], ◌∷◌,
  arith, if◌then◌else◌, Bool-cases, Option-cases, is_some, bytes_eq_self, bytes_eq_iff,
}
use noirnet.Prelude.Maps.{lookup, insert, lookup-insert}
use noirnet.Types.Note.{Hash32}
use noirnet.Network.Dandelion.{
  DandelionPhase, stem, fluff, phase_eq, TxState, DandelionRouter, broadcast, drop_tx, forward_to,
  is_expired, flush_states, flush_expired_stems, rotate_successor, route_tx, fluffed, stemmed,
}

module _ {PeerId : Type 0} where
  -- A state after the sweep at a time: an expired stem is in the fluff phase, the rest is as it was.
  abbrev pub swept : ℕ → TxState PeerId → TxState PeerId
  swept now state = if is_expired now state then record state { phase = fluff } else state

  abbrev pub swept? : ℕ → Option (TxState PeerId) → Option (TxState PeerId)
  swept? now none = none
  swept? now (some state) = some (swept now state)

  lookup-flush_states :
      (now : ℕ) (txid : Hash32) (states : List (Hash32 × TxState PeerId))
      → lookup txid (flush_states now states).0 ≡ swept? now (lookup txid states)
  unfolding flush_states lookup
  lookup-flush_states now txid [] = refl
  lookup-flush_states now txid ((id, state) ∷ states) =
      ground (arith, lookup-flush_states now txid states, bytes_eq_iff id txid)

  abbrev pub all_expired : ℕ → List (Hash32 × TxState PeerId) → List Hash32
  all_expired now [] = []
  all_expired now ((id, state) ∷ states) =
      if is_expired now state then id ∷ all_expired now states else all_expired now states

  expired-flush_states :
      (now : ℕ) (states : List (Hash32 × TxState PeerId))
      → ((flush_states now states).1 ≡ all_expired now states)
        × (all_expired now (flush_states now states).0 ≡ [])
  unfolding flush_states
  expired-flush_states now [] = (refl, refl)
  expired-flush_states now ((id, state) ∷ states) =
      let (one, two) = expired-flush_states now states in (ground (arith, one), ground (arith, two))

  -- The sweep reports exactly the transactions whose stem has passed its deadline, moves those to the
  -- fluff phase, and leaves every other one as it was; a second sweep at that time reports nothing.
  pub flush_expired_stems_lem :
      (now : ℕ) (r : DandelionRouter PeerId)
      → let (s, expired) = flush_expired_stems now r in
        (expired ≡ all_expired now r.tx_states)
        × ((txid : Hash32) → lookup txid s.tx_states ≡ swept? now (lookup txid r.tx_states))
        × ((flush_expired_stems now s).1 ≡ [])
  unfolding flush_expired_stems
  flush_expired_stems_lem now r =
      let (one, two) = expired-flush_states now r.tx_states in
      (
        one,
        λ txid. lookup-flush_states now txid r.tx_states,
        (expired-flush_states now (flush_states now r.tx_states).0).0 ∙ two,
      )

module _ {PeerId : Type 0} (peer_eq : PeerId → PeerId → Bool) where
  -- Where a new transaction finds no way on: neither fluff nor a successor other than its sender.
  abbrev pub IsStuck : Bool → PeerId → DandelionRouter PeerId → Type 0
  IsStuck flip from r =
      (phase_eq r.phase stem ≡ true)
      × (flip ≡ false)
      × ((r.stem_successor ≡ none)
          ⊎ ((p : PeerId) × (r.stem_successor ≡ some p) × (peer_eq p from ≡ true)))

  not_fluff : (p : DandelionPhase) → phase_eq p fluff ≡ false → phase_eq p stem ≡ true
  not_fluff stem h = refl
  not_fluff fluff h = sym h

  -- A known transaction is dropped and nothing changes. A new one is forwarded exactly to a successor
  -- that is not its sender, by a node in the stem phase whose draw says so, and remembered with its
  -- deadline; it is broadcast and remembered as fluff by a node in the fluff phase or by the draw; and
  -- it is broadcast without being remembered where there is no way on.
  pub route_tx_lem :
      (now stem_duration : ℕ) (flip : Bool) (txid : Hash32) (from : PeerId)
      (r : DandelionRouter PeerId)
      → let (s, decision) = route_tx peer_eq now stem_duration flip txid from r in
        ((is_some (lookup txid r.tx_states) ≡ true) × (s ≡ r) × (decision ≡ drop_tx))
        ⊎ ((p : PeerId) × (is_some (lookup txid r.tx_states) ≡ false)
            × (phase_eq r.phase stem ≡ true)
            × (flip ≡ false)
            × (r.stem_successor ≡ some p)
            × (peer_eq p from ≡ false)
            × (decision ≡ forward_to p)
            × (s ≡ record r {
              tx_states = insert txid (stemmed from now stem_duration) r.tx_states;
            }))
        ⊎ ((is_some (lookup txid r.tx_states) ≡ false)
            × ((phase_eq r.phase fluff ≡ true) ⊎ (flip ≡ true))
            × (decision ≡ broadcast)
            × (s ≡ record r { tx_states = insert txid (fluffed from now) r.tx_states }))
        ⊎ ((is_some (lookup txid r.tx_states) ≡ false)
            × IsStuck flip from r
            × (decision ≡ broadcast)
            × (s ≡ r))
  unfolding route_tx
  route_tx_lem now stem_duration flip txid from r =
      elim (Bool-cases (is_some (lookup txid r.tx_states))) [
        | inl known ↦ inl (known, ground (arith, known), ground (arith, known))
        | inr fresh ↦ elim (Bool-cases (phase_eq r.phase fluff)) [
          | inl in_fluff ↦ inr (
              inr (
                inl (
                  fresh,
                  inl in_fluff,
                  ground (arith, fresh, in_fluff),
                  ground (arith, fresh, in_fluff),
                )))
          | inr in_stem ↦ elim (Bool-cases flip) [
            | inl flips ↦ inr (inr (inl (fresh, inr flips, ground arith, ground arith)))
            | inr stays ↦
                let stemming = not_fluff r.phase in_stem in
                elim (Option-cases r.stem_successor) [
                  | inl alone ↦
                      inr (
                        inr (inr (fresh, (stemming, stays, inl alone), ground arith, ground arith)))
                  | inr (p, next) ↦ elim (Bool-cases (peer_eq p from)) [
                    | inl back ↦ inr (
                        inr (
                          inr (
                            fresh,
                            (stemming, stays, inr (p, next, back)),
                            ground arith,
                            ground arith,
                          )))
                    | inr on ↦
                        inr (inl (p, fresh, stemming, stays, next, on, ground arith, ground arith))
                  ]
                ]
          ]
        ]
      ]

  -- What else can happen to the router between two calls for one transaction.
  pub data RouterEvent : Type 0 where
    routed : ℕ → ℕ → Bool → Hash32 → PeerId → RouterEvent
    swept_at : ℕ → RouterEvent
    rotated : ℕ → List PeerId → RouterEvent

  unfoldable pub after_event : RouterEvent → DandelionRouter PeerId → DandelionRouter PeerId
  unfolding route_tx flush_expired_stems rotate_successor
  after_event (routed now stem_duration flip txid from) r =
      (route_tx peer_eq now stem_duration flip txid from r).0
  after_event (swept_at now) r = (flush_expired_stems now r).0
  after_event (rotated index peers) r = rotate_successor index peers r

  unfoldable pub after_events : List RouterEvent → DandelionRouter PeerId → DandelionRouter PeerId
  unfolding after_event
  after_events [] r = r
  after_events (event ∷ events) r = after_events events (after_event event r)

  abbrev IsKnown : Hash32 → DandelionRouter PeerId → Type 0
  IsKnown txid r = is_some (lookup txid r.tx_states) ≡ true

  swept?-some :
      (now : ℕ) (o : Option (TxState PeerId)) → is_some o ≡ true → is_some (swept? now o) ≡ true
  swept?-some now none h = h
  swept?-some now (some state) h = refl

  insert-IsKnown :
      (txid other : Hash32) (state : TxState PeerId) (states : List (Hash32 × TxState PeerId))
      → is_some (lookup txid states) ≡ true
      → is_some (lookup txid (insert other state states)) ≡ true
  insert-IsKnown txid other state states h =
      ground (arith, lookup-insert other txid state states, h)

  after_event-IsKnown :
      (txid : Hash32) (event : RouterEvent) (r : DandelionRouter PeerId)
      → IsKnown txid r
      → IsKnown txid (after_event event r)
  unfolding after_event
  after_event-IsKnown txid (swept_at now) r h =
      rw (lookup-flush_states now txid r.tx_states) (swept?-some now (lookup txid r.tx_states) h)
  after_event-IsKnown txid (rotated index []) r h = h
  after_event-IsKnown txid (rotated index (peer ∷ peers)) r h = h
  after_event-IsKnown txid (routed now stem_duration flip other from) r h =
      elim (route_tx_lem now stem_duration flip other from r) [
        | inl (_, same, _) ↦ rw same h
        | inr (inl (p, a, b, c, d, e, f, g)) ↦
            rw g (insert-IsKnown txid other (stemmed from now stem_duration) r.tx_states h)
        | inr (inr (inl (a, b, c, g))) ↦
            rw g (insert-IsKnown txid other (fluffed from now) r.tx_states h)
        | inr (inr (inr (a, stuck, c, same))) ↦ rw same h
      ]

  after_events-IsKnown :
      (txid : Hash32) (events : List RouterEvent) (r : DandelionRouter PeerId)
      → IsKnown txid r
      → IsKnown txid (after_events events r)
  unfolding after_events
  after_events-IsKnown txid [] r h = h
  after_events-IsKnown txid (event ∷ events) r h =
      after_events-IsKnown txid events (after_event event r) (after_event-IsKnown txid event r h)

  inserted-IsKnown :
      (txid : Hash32) (state : TxState PeerId) (states : List (Hash32 × TxState PeerId))
      → is_some (lookup txid (insert txid state states)) ≡ true
  inserted-IsKnown txid state states =
      ground (arith, lookup-insert txid txid state states, bytes_eq_self txid)

  known_dropped :
      (txid : Hash32) (s : DandelionRouter PeerId) (now stem_duration : ℕ) (flip : Bool)
      (from : PeerId)
      → IsKnown txid s
      → route_tx peer_eq now stem_duration flip txid from s ≡ (s, drop_tx)
  unfolding route_tx
  known_dropped txid s now stem_duration flip from h = ground (arith, h)

  -- A transaction that comes again, from anyone and with any draws, after whatever other calls, sweeps and rotations, is dropped and
  -- changes nothing, unless it had no way on the first time: then it was broadcast and not remembered.
  pub route_tx_again :
      (now stem_duration : ℕ) (flip : Bool) (txid : Hash32) (from : PeerId)
      (r : DandelionRouter PeerId) (between : List RouterEvent) (later duration : ℕ) (draw : Bool)
      (sender : PeerId)
      → let (s, decision) = route_tx peer_eq now stem_duration flip txid from r in
        let t = after_events between s in
        (route_tx peer_eq later duration draw txid sender t ≡ (t, drop_tx))
        ⊎ (IsStuck flip from r × (decision ≡ broadcast) × (s ≡ r))
  route_tx_again now stem_duration flip txid from r between later duration draw sender =
      let s = (route_tx peer_eq now stem_duration flip txid from r).0 in
      let again : IsKnown txid s
          → route_tx peer_eq later duration draw txid sender (after_events between s)
            ≡ (after_events between s, drop_tx) =
        λ h.
          known_dropped txid (after_events between s) later duration draw sender
            (after_events-IsKnown txid between s h) in
      elim (route_tx_lem now stem_duration flip txid from r) [
        | inl (known, same, e) ↦ inl (again (rw same known))
        | inr (inl (p, a, b, c, d, e, f, g)) ↦
            inl (again (rw g (inserted-IsKnown txid (stemmed from now stem_duration) r.tx_states)))
        | inr (inr (inl (a, b, c, g))) ↦
            inl (again (rw g (inserted-IsKnown txid (fluffed from now) r.tx_states)))
        | inr (inr (inr (a, stuck, c, same))) ↦ inr (stuck, c, same)
      ]
