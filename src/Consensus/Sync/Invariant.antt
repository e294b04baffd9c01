-- ===== src/Consensus/Sync/Invariant.antt =====
-- The states that the sync manager of crates/noirnet-consensus/src/sync.rs can be in.
use noirnet.Prelude.{
  ℕ, ◌+◌, ◌%◌, ◌≤◌, ◌<◌, max, ◌≡◌, refl, ◌⊎◌, inl, inr, Bool, true, false, not, ◌&&◌, none, some,
  List, [], ◌∷◌, arith, ltb, Bool-cases, is_some, u64_mod, u64_max,
}
use noirnet.Types.Block.{SyncRequest}
use noirnet.Consensus.Sync.{
  SyncManager, SyncEvent, check, peer_at, new, handle_peer_height, step, run, with_peer,
}

module _ {PeerId : Type 0} (peer_eq : PeerId → PeerId → Bool) where
  -- A request is open exactly while syncing, and asks for fifty blocks.
  pub record IsConsistent (s : SyncManager PeerId) : Type 0 where
    pub open_while_syncing : s.is_syncing ≡ is_some s.current_request
    pub fifty : (p : PeerId) (r : SyncRequest) → s.current_request ≡ some (p, r) → r.limit ≡ 50
    pub no_buffer : s.buffered_blocks ≡ []

  step-IsConsistent :
      (e : SyncEvent PeerId) (s : SyncManager PeerId)
      → IsConsistent s
      → IsConsistent (step peer_eq e s)
  unfolding step
  step-IsConsistent (check height) s w = record {
    open_while_syncing = ground arith;
    fifty = λ p r e. ground (arith, w.fifty p r);
    no_buffer = ground arith;
  }
  step-IsConsistent (peer_at peer peer_height height) s w = record {
    open_while_syncing = ground arith;
    fifty = λ p r e. ground (arith, w.fifty p r);
    no_buffer = ground arith;
  }

  target-step :
      (e : SyncEvent PeerId) (s : SyncManager PeerId)
      → s.target_height ≤ (step peer_eq e s).target_height
  unfolding step
  target-step (check height) s = ground arith
  target-step (peer_at peer peer_height height) s = ground arith

  run-from :
      (es : List (SyncEvent PeerId)) (s : SyncManager PeerId)
      → IsConsistent s
      → IsConsistent (run peer_eq es s) × (s.target_height ≤ (run peer_eq es s).target_height)
  unfolding run
  run-from [] s w = (w, omega arith)
  run-from (e ∷ es) s w =
      let (v, up) = run-from es (step peer_eq e s) (step-IsConsistent e s w) in
      (v, omega (arith, up, target-step e s))

  -- After any calls, a request is open exactly while the manager is syncing, every open request asks
  -- for fifty blocks, and no block is buffered.
  pub run-new-IsConsistent : (es : List (SyncEvent PeerId)) → IsConsistent (run peer_eq es new)
  run-new-IsConsistent es = (run-from es new start).0
    where
      start : IsConsistent new
      start =
          unfold new in record { open_while_syncing = refl; fifty = λ p r e. cc; no_buffer = refl }

  -- A request goes out exactly when the peer is more than five blocks ahead and no sync runs; it
  -- starts behind the current height, and the manager then syncs at least up to the height of the
  -- peer. Without one, only the set of peers may change.
  pub handle_peer_height_lem :
      (peer : PeerId) (peer_height height : ℕ) (s : SyncManager PeerId)
      → height + 5 ≤ u64_max
      → let (t, request) = handle_peer_height peer_eq peer peer_height height s in
        ((height + 5 < peer_height)
          × (s.is_syncing ≡ false)
          × (request ≡ some (record { start_height = height + 1; limit = 50 }))
          × (t.is_syncing ≡ true)
          × (peer_height ≤ t.target_height)
          × (t.target_height ≡ max s.target_height peer_height))
        ⊎ (((peer_height ≤ height + 5) ⊎ (s.is_syncing ≡ true))
            × (request ≡ none)
            × (t ≡ with_peer peer_eq peer s))
  unfolding handle_peer_height
  handle_peer_height_lem peer peer_height height s fits =
      let five : (height + 5) % u64_mod ≡ height + 5 = omega arith in
      let one : (height + 1) % u64_mod ≡ height + 1 = omega arith in
      rw (five, one)
        (elim (Bool-cases (ltb (height + 5) peer_height && not s.is_syncing)) [
          | inl go ↦
              inl
                (ground arith, ground arith, ground arith, ground arith, ground arith, ground arith)
          | inr wait ↦ inr (ground arith, ground arith, ground arith)
        ])
