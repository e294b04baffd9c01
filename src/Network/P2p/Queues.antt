-- ===== src/Network/P2p/Queues.antt =====
-- The order in which `run` of crates/noirnet-network/src/p2p.rs handles the commands of its two queues and the events of the swarm.
use noirnet.Prelude.{
  ℕ, ◌+◌, ◌≤◌, ◌≡◌, refl, ap, inl, inr, Bool, true, false, not, Option, none, some, List, [], ◌∷◌,
  ◌++◌, map, drop, arith, Bool-cases, length, retain, length-append,
}
use mathlib.Core.List.{append_assoc, append-nil}
use noirnet.Network.P2p.{
  NetworkCommand, dial, get_status, broadcast_tx, broadcast_block, broadcast_vote,
  send_sync_request, send_sync_response, PriorityNetworkSender, is_high, send, send_all, Handled,
  command, swarm_event, next_step, handled,
}

module _ {PeerId Channel : Type 0} where
  -- All but transactions, blocks and requests for blocks.
  abbrev pub is_urgent : NetworkCommand PeerId Channel → Bool
  is_urgent (broadcast_tx bytes) = false
  is_urgent (broadcast_block bytes) = false
  is_urgent (send_sync_request peer request) = false
  is_urgent _ = true

  abbrev pub urgent : List (NetworkCommand PeerId Channel) → List (NetworkCommand PeerId Channel)
  urgent cmds = retain is_urgent cmds

  abbrev pub other : List (NetworkCommand PeerId Channel) → List (NetworkCommand PeerId Channel)
  other cmds = retain (λ cmd. not (is_urgent cmd)) cmds

  is_high-is_urgent : (cmd : NetworkCommand PeerId Channel) → is_high cmd ≡ is_urgent cmd
  is_high-is_urgent (dial address) = refl
  is_high-is_urgent (get_status reply) = refl
  is_high-is_urgent (broadcast_tx bytes) = refl
  is_high-is_urgent (broadcast_block bytes) = refl
  is_high-is_urgent (broadcast_vote bytes) = refl
  is_high-is_urgent (send_sync_request peer request) = refl
  is_high-is_urgent (send_sync_response channel response) = refl

  send_all-queues :
      (cmds : List (NetworkCommand PeerId Channel)) (s : PriorityNetworkSender PeerId Channel)
      → length s.high + length (urgent cmds) ≤ s.high_size
      → length s.low + length (other cmds) ≤ s.low_size
      → send_all cmds s
        ≡ some (record s { high = s.high ++ urgent cmds; low = s.low ++ other cmds })
  unfolding send_all
  send_all-queues [] s fits room = simp append-nil
  send_all-queues (cmd ∷ cmds) s fits room =
      let kind = is_high-is_urgent cmd in
      elim (Bool-cases (is_urgent cmd)) [
        | inl is_first ↦
            let t : PriorityNetworkSender PeerId Channel = record s { high = s.high ++ cmd ∷ [] } in
            let sent : send cmd s ≡ some t = unfold send in ground (arith, kind, is_first, fits) in
            let rest : send_all cmds t
                ≡ some (record s {
                  high = s.high ++ cmd ∷ [] ++ urgent cmds;
                  low = s.low ++ other cmds;
                }) =
              send_all-queues cmds t
                (ground (arith, fits, is_first, length-append s.high (cmd ∷ [])))
                (ground (arith, room, is_first)) in
            rw (sent, is_first, rest) (simp append_assoc)
        | inr is_later ↦
            let t : PriorityNetworkSender PeerId Channel = record s { low = s.low ++ cmd ∷ [] } in
            let sent : send cmd s ≡ some t = unfold send in ground (arith, kind, is_later, room) in
            let rest : send_all cmds t
                ≡ some (record s {
                  high = s.high ++ urgent cmds;
                  low = s.low ++ cmd ∷ [] ++ other cmds;
                }) =
              send_all-queues cmds t (ground (arith, fits, is_later))
                (ground (arith, room, is_later, length-append s.low (cmd ∷ []))) in
            rw (sent, is_later, rest) (simp append_assoc)
      ]

module _ {PeerId Channel SwarmEvent : Type 0} where
  -- Each turn takes the event that is ready at it, and the next of the commands where none is.
  abbrev pub behind_events :
      List (Option SwarmEvent)
      → List (NetworkCommand PeerId Channel)
      → List (Handled PeerId Channel SwarmEvent)
  behind_events [] cmds = []
  behind_events (some event ∷ turns) cmds = swarm_event event ∷ behind_events turns cmds
  behind_events (none ∷ turns) [] = behind_events turns []
  behind_events (none ∷ turns) (cmd ∷ cmds) = command cmd ∷ behind_events turns cmds

  handled-low :
      (turns : List (Option SwarmEvent)) (low : List (NetworkCommand PeerId Channel)) (a b : ℕ)
      → handled turns (record { high = []; low = low; high_size = a; low_size = b })
        ≡ behind_events turns low
  unfolding handled next_step
  handled-low [] low a b = refl
  handled-low (some event ∷ turns) low a b =
      ap (◌∷◌ (swarm_event event)) (handled-low turns low a b)
  handled-low (none ∷ turns) [] a b = handled-low turns [] a b
  handled-low (none ∷ turns) (cmd ∷ low) a b = ap (◌∷◌ (command cmd)) (handled-low turns low a b)

  handled-queues :
      (high low : List (NetworkCommand PeerId Channel)) (turns : List (Option SwarmEvent)) (a b : ℕ)
      → length high ≤ length turns
      → handled turns (record { high = high; low = low; high_size = a; low_size = b })
        ≡ map (λ cmd. command cmd) high ++ behind_events (drop (length high) turns) low
  unfolding handled next_step
  handled-queues [] low turns a b h = handled-low turns low a b
  handled-queues (cmd ∷ high) low [] a b h = absurd (omega (arith, h))
  handled-queues (cmd ∷ high) low (ready ∷ turns) a b h =
      ap (◌∷◌ (command cmd)) (handled-queues high low turns a b (omega (arith, h)))

  -- Commands that are sent while the loop handles nothing, and for which the queues have room, are all taken without waiting. Given a turn
  -- for each urgent one, the loop then handles first the urgent ones, in the order in which they were sent, and at each further turn the
  -- event that the swarm has ready at it, and only where there is none the next of the other commands, in the order in which those were sent.
  pub handled-send_all :
      (cmds : List (NetworkCommand PeerId Channel)) (turns : List (Option SwarmEvent))
      (high_size low_size : ℕ)
      → length (urgent cmds) ≤ high_size
      → length (other cmds) ≤ low_size
      → length (urgent cmds) ≤ length turns
      → (s : PriorityNetworkSender PeerId Channel) × (send_all cmds
            (record { high = []; low = []; high_size = high_size; low_size = low_size })
          ≡ some s)
        × (handled turns s
            ≡ map (λ cmd. command cmd) (urgent cmds)
              ++ behind_events (drop (length (urgent cmds)) turns) (other cmds))
  handled-send_all cmds turns a b fits room enough = (
    record { high = urgent cmds; low = other cmds; high_size = a; low_size = b },
    send_all-queues cmds (record { high = []; low = []; high_size = a; low_size = b })
        (omega (arith, fits)) (omega (arith, room)),
    handled-queues (urgent cmds) (other cmds) turns a b enough,
  )
