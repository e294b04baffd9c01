-- ===== src/Consensus/Engine/Replay.antt =====
-- What `execute_and_apply_block` of crates/noirnet-consensus/src/engine.rs does to the state store, as the replay of a log of blocks.
use noirnet.Prelude.{
  ℕ, ◌⊎◌, ◌≡◌, refl, sym, ap, ◌∙◌, inl, inr, Bool, List, [], ◌∷◌, ◌++◌, arith, leb, Bool-cases, All,
  All-append, Result, ok, err,
}
use noirnet.Prelude.{Result-cases}
use noirnet.Types.Note.{Hash32}
use noirnet.Types.Block.{Block}
use noirnet.Storage.State.Database.{StorageError, StateStore}
use noirnet.Storage.State.Blocks.{apply_block}
use noirnet.Consensus.Engine.{
  Ports, ConsensusEngine, Refusal, missing_proof, invalid_proof, over_gas, missing_signature,
  in_future, bad_format, check_block, execute_txs, refused, settle, apply_checked,
  execute_and_apply_block,
}
use noirnet.Consensus.Engine.Loop.{apply_synced}
use noirnet.Consensus.Engine.Execution.{settle-store, execute-accepted, execute-refused}

-- The first list of blocks is the second with some left out.
pub data IsPartOf : List Block → List Block → Type 0 where
  ended : IsPartOf [] []
  taken : {bs cs : List Block} (b : Block) → IsPartOf bs cs → IsPartOf (b ∷ bs) (b ∷ cs)
  passed : {bs cs : List Block} (b : Block) → IsPartOf bs cs → IsPartOf bs (b ∷ cs)

module _
    {Db PeerId Channel SecretKey PublicKey Signature PublicParams Snark Instance Method : Type 0}
    (ports : Ports Db PeerId Channel SecretKey PublicKey Signature PublicParams Snark Instance
      Method) where
  abbrev Engine : Type 0
  Engine = ConsensusEngine Db PeerId Channel SecretKey

  -- Blocks one after the other, each with its contracts; errors leave what was written.
  unfoldable pub replay : List Block → StateStore Db → StateStore Db
  unfolding execute_txs apply_block
  replay [] s = s
  replay (block ∷ blocks) s =
      let (changes, contracts) = execute_txs ports s block.transactions ([], []) in
      replay blocks (apply_block ports.sled ports.codec block changes contracts s).0

  replay-append :
      (xs ys : List Block) (s : StateStore Db) → replay (xs ++ ys) s ≡ replay ys (replay xs s)
  unfolding replay
  replay-append [] ys s = refl
  replay-append (block ∷ xs) ys s =
      let (changes, contracts) = execute_txs ports s block.transactions ([], []) in
      replay-append xs ys (apply_block ports.sled ports.codec block changes contracts s).0

  -- From one state of the engine to another, at a time and in a role: just these blocks were executed, each of which passed the checks.
  pub record Executes (now : ℕ) (role : Bool) (own : List Block) (e f : Engine) : Type 0 where
    pub accepted : All (λ b. check_block ports now role b ≡ ok tt) own
    pub same_role : f.is_validator ≡ role
    pub replayed : f.state_store ≡ replay own e.state_store

  -- The role and the store are as before.
  abbrev pub Keeps : Engine → Engine → Type 0
  Keeps e f = (f.is_validator ≡ e.is_validator) × (f.state_store ≡ e.state_store)

  pub Executes-none :
      (now : ℕ) (role : Bool) (e f : Engine)
      → e.is_validator ≡ role
      → Keeps e f
      → Executes now role [] e f
  unfolding replay
  Executes-none now role e f r (b, t) = record { accepted = tt; same_role = b ∙ r; replayed = t }

  pub Executes-Keeps :
      (now : ℕ) (role : Bool) (own : List Block) (e f g : Engine)
      → Executes now role own e f
      → Keeps f g
      → Executes now role own e g
  Executes-Keeps now role own e f g w (b, t) = record {
    accepted = w.accepted;
    same_role = b ∙ w.same_role;
    replayed = t ∙ w.replayed;
  }

  Executes-trans :
      (now : ℕ) (role : Bool) (xs ys : List Block) (e f g : Engine)
      → Executes now role xs e f
      → Executes now role ys f g
      → Executes now role (xs ++ ys) e g
  Executes-trans now role xs ys e f g v w = record {
    accepted = All-append _ xs ys v.accepted w.accepted;
    same_role = w.same_role;
    replayed = w.replayed ∙ ap (replay ys) v.replayed ∙ sym (replay-append xs ys e.state_store);
  }

  refused-Keeps : (refusal : Refusal) (e : Engine) → Keeps e (refused ports refusal e)
  refused-Keeps missing_signature e = (refl, refl)
  refused-Keeps in_future e = (refl, refl)
  refused-Keeps missing_proof e = (refl, refl)
  refused-Keeps invalid_proof e = (refl, refl)
  refused-Keeps over_gas e = (refl, refl)
  refused-Keeps (bad_format x) e = (refl, refl)

  role-settle :
      (now : ℕ) (block : Block) (r : Result Hash32 StorageError) (e : Engine)
      → (settle ports now block r e).is_validator ≡ e.is_validator
  unfolding settle
  role-settle now block (err x) e = refl
  role-settle now block (ok state_root) e = ground arith

  Executes-apply_checked :
      (now : ℕ) (block : Block) (role : Bool) (e : Engine)
      → e.is_validator ≡ role
      → check_block ports now role block ≡ ok tt
      → Executes now role (block ∷ []) e (apply_checked ports now block e)
  unfolding apply_checked replay
  Executes-apply_checked now block role e r good =
      let outcome = execute_txs ports e.state_store block.transactions ([], []) in
      let applied = apply_block ports.sled ports.codec block outcome.0 outcome.1 e.state_store in
      let written : Engine = record e { state_store = applied.0 } in
      record {
        accepted = (good, tt);
        same_role = role-settle now block applied.1 written ∙ r;
        replayed = settle-store ports now block applied.1 written;
      }

  -- A block is executed, or nothing is.
  pub Executes-execute :
      (now : ℕ) (block : Block) (role : Bool) (e : Engine)
      → e.is_validator ≡ role
      → (own : List Block) × ((own ≡ []) ⊎ (own ≡ block ∷ []))
        × Executes now role own e (execute_and_apply_block ports now block e)
  Executes-execute now block role e r =
      elim (Result-cases (check_block ports now e.is_validator block)) [
        | inl good ↦ (
          block ∷ [],
          inr refl,
          rw (execute-accepted ports now block e good)
              (Executes-apply_checked now block role e r (rw r at good)),
        )
        | inr (refusal, bad) ↦ (
          [],
          inl refl,
          rw (execute-refused ports now block refusal e bad)
              (Executes-none now role e (refused ports refusal e) r (refused-Keeps refusal e)),
        )
      ]

  pub Executes-apply_synced :
      (now height : ℕ) (bs : List Block) (role : Bool) (e : Engine)
      → e.is_validator ≡ role
      → (own : List Block) × IsPartOf own bs
        × Executes now role own e (apply_synced ports now height bs e)
  unfolding apply_synced
  Executes-apply_synced now height [] role e r =
      ([], ended, Executes-none now role e e r (refl, refl))
  Executes-apply_synced now height (b ∷ bs) role e r =
      let next = execute_and_apply_block ports now b e in
      elim (Bool-cases (leb height b.header.height)) [
        | inr passes ↦
            let (own, part, w) = Executes-apply_synced now height bs role e r in
            (own, passed b part, rw passes w)
        | inl takes ↦
            let (first, kind, v) = Executes-execute now b role e r in
            let (own, part, w) = Executes-apply_synced now height bs role next v.same_role in
            let all = Executes-trans now role first own e next _ v w in
            elim kind [
              | inl none_executed ↦ (own, passed b part, rw takes (rw none_executed at all))
              | inr executed ↦ (b ∷ own, taken b part, rw takes (rw executed at all))
            ]
      ]
