-- ===== src/Tests/NetworkTests.antt =====
-- The theorems about crates/noirnet-network at concrete inputs, with numbers for peers.
use noirnet.Prelude.{ℕ, some, none, arith, ◌≡◌, ◌⊎◌, true, false, [], ◌∷◌, ◌==◌}
use noirnet.Network.Dandelion.{DandelionRouter, new, rotate_successor, route_tx, broadcast, drop_tx}
use noirnet.Prelude.{List}
use noirnet.Network.P2p.{
  NetworkCommand, broadcast_tx, broadcast_vote, broadcast_block, dial, handled, send_all,
  PriorityNetworkSender, command, swarm_event,
}
use noirnet.Network.P2p.Queues.{handled-send_all}
use noirnet.Network.Dandelion.Stems.{
  IsStuck, RouterEvent, routed, swept_at, rotated, after_events, route_tx_again,
}

abbrev router_a : DandelionRouter ℕ
router_a = rotate_successor 1 (4 ∷ 5 ∷ []) new

abbrev between_a : List (RouterEvent ◌==◌)
between_a = routed 120 8 true (2 ∷ []) 5 ∷ swept_at 130 ∷ rotated 0 (5 ∷ []) ∷ []

route_tx_again_example :
    let (s, decision) = route_tx ◌==◌ 100 8 false (1 ∷ []) 4 router_a in
    let t = after_events ◌==◌ between_a s in
    (route_tx ◌==◌ 150 3 true (1 ∷ []) 7 t ≡ (t, drop_tx))
    ⊎ (IsStuck ◌==◌ false 4 router_a × (decision ≡ broadcast) × (s ≡ router_a))
route_tx_again_example = route_tx_again ◌==◌ 100 8 false (1 ∷ []) 4 router_a between_a 150 3 true 7

abbrev commands_a : List (NetworkCommand ℕ ℕ)
commands_a =
    broadcast_tx (1 ∷ []) ∷ broadcast_vote (2 ∷ []) ∷ broadcast_block (3 ∷ []) ∷ dial 4 ∷ []

-- Events of the swarm as numbers, and the sizes of the node's queues.
handled-send_all_example :
    (s : PriorityNetworkSender ℕ ℕ) × (send_all commands_a
        (record { high = []; low = []; high_size = 100; low_size = 500 })
      ≡ some s)
    × (handled {SwarmEvent = ℕ} (some 7 ∷ none ∷ some 8 ∷ none ∷ some 9 ∷ none ∷ []) s
        ≡ command (broadcast_vote (2 ∷ []))
          ∷ command (dial 4)
          ∷ swarm_event 8
          ∷ command (broadcast_tx (1 ∷ []))
          ∷ swarm_event 9
          ∷ command (broadcast_block (3 ∷ []))
          ∷ [])
handled-send_all_example =
    handled-send_all commands_a (some 7 ∷ none ∷ some 8 ∷ none ∷ some 9 ∷ none ∷ []) 100 500
      (omega arith) (omega arith) (omega arith)
