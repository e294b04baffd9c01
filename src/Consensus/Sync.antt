-- ===== src/Consensus/Sync.antt =====
-- crates/noirnet-consensus/src/sync.rs. `PeerId` and its equality are libp2p's.
pub mod Invariant
use noirnet.Prelude.{
  ℕ, ◌-◌, ◌/◌, max, Bool, true, false, not, ◌&&◌, ◌||◌, Option, none, some, List, [], ◌∷◌, ltb, leb,
  if◌then◌else◌, ◌>>=◌, ◌>>◌, add_u64,
}
use noirnet.Types.Block.{Block, SyncRequest}

module _ (PeerId : Type 0) where
  pub record SyncManager : Type 0 where
    pub is_syncing : Bool
    pub target_height : ℕ
    pub current_request : Option (PeerId × SyncRequest)
    pub buffered_blocks : List (ℕ × Block)
    pub active_peers : List PeerId

  -- What the engine does with the manager.
  pub data SyncEvent : Type 0 where
    check : ℕ → SyncEvent
    peer_at : PeerId → ℕ → ℕ → SyncEvent

module _ {PeerId : Type 0} where
  unfoldable pub new : SyncManager PeerId
  new = record {
    is_syncing = false;
    target_height = 0;
    current_request = none;
    buffered_blocks = [];
    active_peers = [];
  }

  unfoldable pub start_sync : ℕ → PeerId → ℕ → SyncManager PeerId → SyncManager PeerId × SyncRequest
  start_sync target_height peer start_height s =
      let request : SyncRequest = record { start_height = start_height; limit = 50 } in
      (
        record s {
          is_syncing = true;
          target_height = max s.target_height target_height;
          current_request = some (peer, request);
        },
        request,
      )

  unfoldable pub check_sync_status : ℕ → SyncManager PeerId → SyncManager PeerId × Bool
  check_sync_status current_height s =
      let done = record s { is_syncing = false; current_request = none; buffered_blocks = [] } in
      if s.is_syncing && leb s.target_height current_height
      then (done, false)
      else (s, s.is_syncing)

  abbrev pub has_peer : (PeerId → PeerId → Bool) → PeerId → List PeerId → Bool
  has_peer peer_eq p [] = false
  has_peer peer_eq p (q ∷ qs) = peer_eq q p || has_peer peer_eq p qs

  abbrev pub with_peer : (PeerId → PeerId → Bool) → PeerId → SyncManager PeerId → SyncManager PeerId
  with_peer peer_eq p s = record s {
    active_peers = if has_peer peer_eq p s.active_peers then s.active_peers else p ∷ s.active_peers;
  }

  abbrev pub started : SyncManager PeerId × SyncRequest → SyncManager PeerId × Option SyncRequest
  started (s, request) = (s, some request)

  unfoldable pub handle_peer_height :
      (PeerId → PeerId → Bool)
      → PeerId
      → ℕ
      → ℕ
      → SyncManager PeerId
      → SyncManager PeerId × Option SyncRequest
  unfolding start_sync
  handle_peer_height peer_eq peer peer_height current_height s =
      let known = with_peer peer_eq peer s in
      if ltb (add_u64 current_height 5) peer_height && not known.is_syncing
      then started (start_sync peer_height peer (add_u64 current_height 1) known)
      else (known, none)

  unfoldable pub step :
      (PeerId → PeerId → Bool) → SyncEvent PeerId → SyncManager PeerId → SyncManager PeerId
  unfolding check_sync_status handle_peer_height
  step peer_eq (check height) s = (check_sync_status height s).0
  step peer_eq (peer_at peer peer_height height) s =
      (handle_peer_height peer_eq peer peer_height height s).0

  unfoldable pub run :
      (PeerId → PeerId → Bool) → List (SyncEvent PeerId) → SyncManager PeerId → SyncManager PeerId
  unfolding step
  run peer_eq [] s = s
  run peer_eq (e ∷ es) s = run peer_eq es (step peer_eq e s)
