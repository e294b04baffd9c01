-- ===== src/Consensus/Engine/Execution.antt =====
-- Which blocks `execute_and_apply_block` of crates/noirnet-consensus/src/engine.rs applies, and what it changes.
use noirnet.Prelude.{
  ℕ, ◌+◌, ◌^◌, ◌≤◌, ◌<◌, ◌≡◌, refl, ap, ◌≢◌, ◌↔◌, ◌⊎◌, inl, inr, Bool, true, false, not, ◌&&◌, List,
  [], ◌∷◌, arith, ltb, Bool-cases, length, is_empty, All, Result, ok, err, ◌>>◌, reject_if, add_u64,
  bytes_eq, bytes_eq_iff, bytes_eq→eq,
}
use noirnet.Prelude.{codes, Bytes, then_iff, reject_if_iff, Result-cases}
use noirnet.Types.Constants.{max_tx_gas}
use noirnet.Types.Note.{Hash32}
use noirnet.Types.Transaction.{Transaction, TxFormatError, validate_format}
use noirnet.Types.Transaction.Format.{IsWellFormed, validate_format_iff}
use noirnet.Types.Block.{Block}
use noirnet.Storage.State.Database.{StorageError}
use noirnet.Storage.State.Blocks.{apply_block}
use noirnet.Mempool.{remove_mined}
use noirnet.Zk.{ZkError, verify_spend_proof}
use noirnet.Consensus.Engine.{
  Ports, ConsensusEngine, Refusal, missing_proof, invalid_proof, over_gas, missing_signature,
  in_future, bad_format, format_error, proof_accepted, check_tx, check_txs, check_block,
  execute_txs, refused, settle, apply_checked, execute_and_apply_block,
}

module _
    {Db PeerId Channel SecretKey PublicKey Signature PublicParams Snark Instance Method : Type 0}
    (ports : Ports Db PeerId Channel SecretKey PublicKey Signature PublicParams Snark Instance
      Method) where
  -- A transaction that spends nothing, or carries a proof that the verifier accepts, and that is well formed.
  pub record IsAcceptableTx (tx : Transaction) : Type 0 where
    pub proven :
        (tx.spends ≡ [])
        ⊎ ((tx.aggregate_spend_proof ≢ [])
            × (verify_spend_proof ports.nova ports.public_params tx.aggregate_spend_proof
                  (length tx.spends)
                ≡ ok true))
    pub well_formed : IsWellFormed ports.serialized_size tx

  pub record IsAcceptable (now : ℕ) (is_validator : Bool) (block : Block) : Type 0 where
    pub signed : (is_validator ≡ false) ⊎ (block.bls_aggregate_sig ≢ [])
    pub timely : block.header.timestamp ≤ now + 60
    pub transactions : All (λ tx. IsAcceptableTx tx) block.transactions

  proof_accepted_iff : (r : Result Bool ZkError) → (proof_accepted ports r ≡ true) ↔ (r ≡ ok true)
  proof_accepted_iff (ok b) = (λ h. ap ok h, λ h. ground (arith, h))
  proof_accepted_iff (err e) = (λ h. cc, λ h. cc)

  proof_checks_iff :
      (tx : Transaction)
      → (((not (is_empty tx.spends) && is_empty tx.aggregate_spend_proof) ≡ false)
          × ((not (is_empty tx.spends)
                && not (
                    proof_accepted ports (
                      verify_spend_proof ports.nova ports.public_params tx.aggregate_spend_proof
                        (length tx.spends))))
              ≡ false))
        ↔ ((tx.spends ≡ [])
            ⊎ ((tx.aggregate_spend_proof ≢ [])
                × (verify_spend_proof ports.nova ports.public_params tx.aggregate_spend_proof
                      (length tx.spends)
                    ≡ ok true)))
  proof_checks_iff tx =
      let verified = proof_accepted_iff (
        verify_spend_proof ports.nova ports.public_params tx.aggregate_spend_proof
          (length tx.spends)) in
      (λ h. ground (arith, h, verified), λ h. ground (arith, h, verified))

  format_error_iff : (r : Result (Unit {0}) TxFormatError) → (format_error r ≡ ok tt) ↔ (r ≡ ok tt)
  format_error_iff (ok tt) = (λ h. refl, λ h. refl)
  format_error_iff (err e) = (λ h. cc, λ h. cc)

  check_tx-parts :
      (tx : Transaction)
      → check_tx ports tx ≡ ok tt
      → ((not (is_empty tx.spends) && is_empty tx.aggregate_spend_proof) ≡ false)
        × ((not (is_empty tx.spends)
              && not (
                  proof_accepted ports (
                    verify_spend_proof ports.nova ports.public_params tx.aggregate_spend_proof
                      (length tx.spends))))
            ≡ false)
        × (validate_format ports.serialized_size tx ≡ ok tt)
  unfolding check_tx
  check_tx-parts tx h =
      let (a, r) =
        (then_iff
            (reject_if (not (is_empty tx.spends) && is_empty tx.aggregate_spend_proof)
              missing_proof)
            _ tt).0
          h in
      let (b, s) =
        (then_iff
            (reject_if
              (not (is_empty tx.spends)
                && not (
                    proof_accepted ports (
                      verify_spend_proof ports.nova ports.public_params tx.aggregate_spend_proof
                        (length tx.spends))))
              invalid_proof)
            _ tt).0
          r in
      let (c, d) =
        (then_iff (format_error (validate_format ports.serialized_size tx))
            (reject_if (ltb max_tx_gas tx.gas_limit) over_gas) tt).0
          s in
      (
        (reject_if_iff _ missing_proof).0 a,
        (reject_if_iff _ invalid_proof).0 b,
        (format_error_iff (validate_format ports.serialized_size tx)).0 c,
      )

  check_tx_iff : (tx : Transaction) → (check_tx ports tx ≡ ok tt) ↔ IsAcceptableTx tx
  unfolding check_tx
  check_tx_iff tx =
      let format = validate_format_iff ports.serialized_size tx in
      let proofs = proof_checks_iff tx in
      (
        λ h.
            let (a, b, c) = check_tx-parts tx h in
            record { proven = proofs.0 (a, b); well_formed = format.0 c },
        λ w.
            let (a, b) = proofs.1 w.proven in
            rw (a, b, format.1 w.well_formed) (ground (arith, w.well_formed.gas_bounded)),
      )

  check_txs_iff :
      (txs : List Transaction) → (check_txs ports txs ≡ ok tt) ↔ All (λ tx. IsAcceptableTx tx) txs
  unfolding check_txs
  check_txs_iff [] = (λ h. tt, λ h. refl)
  check_txs_iff (tx ∷ txs) =
      let both = then_iff (check_tx ports tx) (check_txs ports txs) tt in
      (
        λ h. ((check_tx_iff tx).0 (both.0 h).0, (check_txs_iff txs).0 (both.0 h).1),
        λ h. both.1 ((check_tx_iff tx).1 h.0, (check_txs_iff txs).1 h.1),
      )

  -- The checks before execution accept a block exactly when it is acceptable: it carries a signature if this node is a validator, its
  -- time is at most a minute ahead of a clock that is not about to overflow, and each of its transactions is well formed and, if it
  -- spends anything, carries a proof that the verifier accepts.
  pub check_block_iff :
      (now : ℕ) (is_validator : Bool) (block : Block)
      → now + 60 < 2 ^ 64
      → (check_block ports now is_validator block ≡ ok tt) ↔ IsAcceptable now is_validator block
  unfolding check_block
  check_block_iff now is_validator block small =
      let unsigned = is_validator && is_empty block.bls_aggregate_sig in
      let late = ltb (add_u64 now 60) block.header.timestamp in
      let outer =
        then_iff (reject_if unsigned missing_signature)
          (reject_if late in_future >> check_txs ports block.transactions) tt in
      let inner = then_iff (reject_if late in_future) (check_txs ports block.transactions) tt in
      let first = reject_if_iff unsigned missing_signature in
      let second = reject_if_iff late in_future in
      let third = check_txs_iff block.transactions in
      (
        λ h.
            let (a, r) = outer.0 h in
            let (b, c) = inner.0 r in
            record {
              signed = ground (arith, first.0 a);
              timely = ground (arith, second.0 b);
              transactions = third.0 c;
            },
        λ w. outer.1 (
          first.1 (ground (arith, w.signed)),
          inner.1 (second.1 (ground (arith, w.timely)), third.1 w.transactions),
        ),
      )

  -- A refusal changes the events at most.
  pub refused-same :
      (refusal : Refusal) (e : ConsensusEngine Db PeerId Channel SecretKey)
      → (events : List Bytes) × (refused ports refusal e ≡ record e { slashing_events = events })
  refused-same missing_signature e = (e.slashing_events, refl)
  refused-same in_future e = (e.slashing_events, refl)
  refused-same missing_proof e = (e.slashing_events, refl)
  refused-same invalid_proof e = (codes "invalid_zk_proof" ∷ e.slashing_events, refl)
  refused-same over_gas e = (e.slashing_events, refl)
  refused-same (bad_format x) e = (e.slashing_events, refl)

  pub settle-store :
      (now : ℕ) (block : Block) (r : Result Hash32 StorageError)
      (e : ConsensusEngine Db PeerId Channel SecretKey)
      → (settle ports now block r e).state_store ≡ e.state_store
  unfolding settle
  settle-store now block (err x) e = refl
  settle-store now block (ok state_root) e = ground arith

  -- What the result of `apply_block` changes.
  settle_lem :
      (now : ℕ) (block : Block) (r : Result Hash32 StorageError)
      (e : ConsensusEngine Db PeerId Channel SecretKey)
      → ((r ≡ ok block.header.state_root)
          × (settle ports now block r e ≡ record e {
            consecutive_missed_blocks = 0;
            last_block_time = now;
            mempool =
                remove_mined ports.codec.blake3 ports.codec.serialize_tx ports.serialized_size
                  block.transactions e.mempool;
          }))
        ⊎ ((r ≢ ok block.header.state_root)
            × ((event : Bytes) × (settle ports now block r e
                  ≡ record e { slashing_events = event ∷ e.slashing_events })))
  unfolding settle
  settle_lem now block (err x) e = inr (λ h. cc, (codes "apply_block_failed", refl))
  settle_lem now block (ok state_root) e =
      elim (Bool-cases (bytes_eq state_root block.header.state_root)) [
        | inl same ↦ inl (ap ok (bytes_eq→eq state_root block.header.state_root same), rw same refl)
        | inr other ↦ inr (
          (λ h. ground (arith, h, other, bytes_eq_iff state_root block.header.state_root)),
          (codes "state_root_mismatch", rw other refl),
        )
      ]

  pub execute-accepted :
      (now : ℕ) (block : Block) (e : ConsensusEngine Db PeerId Channel SecretKey)
      → check_block ports now e.is_validator block ≡ ok tt
      → execute_and_apply_block ports now block e ≡ apply_checked ports now block e
  unfolding execute_and_apply_block
  execute-accepted now block e h =
      ap
        (λ (c : Result (Unit {0}) Refusal). elim c [
          | err r ↦ refused ports r e
          | ok u ↦ apply_checked ports now block e
        ])
        h

  pub execute-refused :
      (now : ℕ) (block : Block) (refusal : Refusal)
      (e : ConsensusEngine Db PeerId Channel SecretKey)
      → check_block ports now e.is_validator block ≡ err refusal
      → execute_and_apply_block ports now block e ≡ refused ports refusal e
  unfolding execute_and_apply_block
  execute-refused now block refusal e h =
      ap
        (λ (c : Result (Unit {0}) Refusal). elim c [
          | err r ↦ refused ports r e
          | ok u ↦ apply_checked ports now block e
        ])
        h

  -- As long as a minute after the present time fits 64 bits: a block that is not acceptable changes nothing but, at most, the recorded
  -- events. One that is acceptable goes to `apply_block`, with the results of its contracts, and the store is what that leaves, errors and a
  -- wrong state root included. If it was applied and the state root is the one of its header, its transactions leave the pool, the count of
  -- missed blocks starts again and the time of the last block is the present one; otherwise an event is recorded, and the pool, the count
  -- and that time stay. All else stays.
  pub execute_and_apply_block_lem :
      (now : ℕ) (block : Block) (e : ConsensusEngine Db PeerId Channel SecretKey)
      → now + 60 < 2 ^ 64
      → let after = execute_and_apply_block ports now block e in
        let outcome = execute_txs ports e.state_store block.transactions ([], []) in
        let applied = apply_block ports.sled ports.codec block outcome.0 outcome.1 e.state_store in
        (IsAcceptable now e.is_validator block
          × (((applied.1 ≡ ok block.header.state_root)
                × (after ≡ record e {
                  state_store = applied.0;
                  mempool =
                      remove_mined ports.codec.blake3 ports.codec.serialize_tx ports.serialized_size
                        block.transactions e.mempool;
                  consecutive_missed_blocks = 0;
                  last_block_time = now;
                }))
              ⊎ ((applied.1 ≢ ok block.header.state_root)
                  × ((event : Bytes) × (after ≡ record e {
                    state_store = applied.0;
                    slashing_events = event ∷ e.slashing_events;
                  })))))
        ⊎ ((¬ IsAcceptable now e.is_validator block)
            × ((events : List Bytes) × (after ≡ record e { slashing_events = events })))
  unfolding apply_checked
  execute_and_apply_block_lem now block e small =
      let decide = check_block_iff now e.is_validator block small in
      let outcome = execute_txs ports e.state_store block.transactions ([], []) in
      let applied = apply_block ports.sled ports.codec block outcome.0 outcome.1 e.state_store in
      let written : ConsensusEngine Db PeerId Channel SecretKey = record e {
        state_store = applied.0;
      } in
      elim (Result-cases (check_block ports now e.is_validator block)) [
        | inl good ↦ inl (
            rw (execute-accepted now block e good)
              (decide.0 good, settle_lem now block applied.1 written))
        | inr (refusal, bad) ↦ inr (
            rw (execute-refused now block refusal e bad)
              ((λ w. cc (decide.1 w, bad)), refused-same refusal e))
      ]
