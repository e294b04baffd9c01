-- ===== src/Network/P2p.antt =====
-- crates/noirnet-network/src/p2p.rs: the commands and their two queues, the choice of what is handled next, and what
-- gossip and the other components send to whom. The swarm is libp2p's; what is given to it stands in a list.
pub mod Queues
use noirnet.Prelude.{
  ℕ, ◌+◌, ◌-◌, ◌/◌, Bool, true, false, Option, none, some, List, [], ◌∷◌, ◌++◌, ltb, if◌then◌else◌,
  length, Bytes, bytes_eq,
}
use noirnet.Prelude.{codes}
use noirnet.Crypto.Cipher.{bind_option}
use noirnet.Types.Constants.{max_p2p_message_size}
use noirnet.Types.Transaction.{Transaction}
use noirnet.Types.Block.{Block, SyncRequest, SyncResponse}
use noirnet.Types.Validator.{Vote}

module _ (PeerId Channel : Type 0) where
  -- Addresses and the reply channels of `GetStatus` are given by a number.
  pub data NetworkCommand : Type 0 where
    dial get_status : ℕ → NetworkCommand
    broadcast_tx broadcast_block broadcast_vote : Bytes → NetworkCommand
    send_sync_request : PeerId → SyncRequest → NetworkCommand
    send_sync_response : Channel → SyncResponse → NetworkCommand

  -- The two queues, first in first out, with the sizes that were given to `mpsc::channel`.
  pub record PriorityNetworkSender : Type 0 where
    pub high : List NetworkCommand
    pub low : List NetworkCommand
    pub high_size : ℕ
    pub low_size : ℕ

module _ {PeerId Channel : Type 0} where
  abbrev pub is_high : NetworkCommand PeerId Channel → Bool
  is_high (broadcast_vote bytes) = true
  is_high (send_sync_response channel response) = true
  is_high (get_status reply) = true
  is_high (dial address) = true
  is_high _ = false

  -- `none` where the queue is full: the sender waits.
  unfoldable pub send :
      NetworkCommand PeerId Channel
      → PriorityNetworkSender PeerId Channel
      → Option (PriorityNetworkSender PeerId Channel)
  send cmd s =
      if is_high cmd
      then if ltb (length s.high) s.high_size
        then some (record s { high = s.high ++ cmd ∷ [] })
        else none
      else if ltb (length s.low) s.low_size
      then some (record s { low = s.low ++ cmd ∷ [] })
      else none

  -- Commands sent one after the other, where none has to wait.
  unfoldable pub send_all :
      List (NetworkCommand PeerId Channel)
      → PriorityNetworkSender PeerId Channel
      → Option (PriorityNetworkSender PeerId Channel)
  unfolding send
  send_all [] s = some s
  send_all (cmd ∷ cmds) s = bind_option (send cmd s) (λ t. send_all cmds t)

module _ (PeerId Channel SwarmEvent : Type 0) where
  -- What a turn of the loop of `run` handles.
  pub data Handled : Type 0 where
    command : NetworkCommand PeerId Channel → Handled
    swarm_event : SwarmEvent → Handled

module _ {PeerId Channel SwarmEvent : Type 0} where
  -- The biased choice of a turn: the first queue, then the swarm, if it has an event ready, then the second queue; `none` where the turn waits.
  unfoldable pub next_step :
      Option SwarmEvent
      → PriorityNetworkSender PeerId Channel
      → Option (Handled PeerId Channel SwarmEvent × PriorityNetworkSender PeerId Channel)
  next_step ready s = elim s.high [
    | cmd ∷ rest ↦ some (command cmd, record s { high = rest })
    | [] ↦ elim ready [
      | some event ↦ some (swarm_event event, s)
      | none ↦ elim s.low [ cmd ∷ rest ↦ some (command cmd, record s { low = rest }) | [] ↦ none ]
    ]
  ]

  -- The turns of `run`, each with the event that the swarm has ready at it; an event that is passed over stays with the swarm.
  unfoldable pub handled :
      List (Option SwarmEvent)
      → PriorityNetworkSender PeerId Channel
      → List (Handled PeerId Channel SwarmEvent)
  unfolding next_step
  handled [] s = []
  handled (ready ∷ turns) s = elim (next_step ready s) [
    | none ↦ handled turns s
    | some (h, t) ↦ h ∷ handled turns t
  ]

-- What the components receive.
pub record Inboxes : Type 0 where
  pub mempool_tx : List Transaction
  pub consensus_tx : List Block
  pub vote_tx : List Vote

-- The decoders of the options that the code sets: variable-length integers, and a limit.
pub record Decoders : Type 0 where
  pub decode_tx : Bytes → Option Transaction
  pub decode_block : Bytes → Option Block
  pub decode_vote : Bytes → Option Vote

abbrev pub push {ℓ} : {A : Type ℓ} → Option A → List A → List A
push none xs = xs
push (some a) xs = xs ++ a ∷ []

-- A message of gossip, with its topic.
unfoldable pub handle_gossip : Decoders → Bytes → Bytes → Inboxes → Inboxes
handle_gossip d topic message s =
    if ltb max_p2p_message_size (length message)
    then s
    else if bytes_eq topic (codes "noirnet-txs")
    then record s { mempool_tx = push (d.decode_tx message) s.mempool_tx }
    else if bytes_eq topic (codes "noirnet-blocks")
    then record s { consensus_tx = push (d.decode_block message) s.consensus_tx }
    else if bytes_eq topic (codes "noirnet-votes")
    then record s { vote_tx = push (d.decode_vote message) s.vote_tx }
    else s
