-- ===== src/Consensus/Engine/Serving.antt =====
-- What the loop of crates/noirnet-consensus/src/engine.rs answers to a request for blocks.
use noirnet.Prelude.{
  ℕ, zero, suc, ◌+◌, ◌-◌, ◌^◌, ◌≤◌, ◌<◌, min, ◌≡◌, sym, ap, ◌∙◌, inl, inr, Option, none, some, List,
  [], ◌∷◌, arith, Option-cases, length, get_elem?, Result, ok, err, add_u64, refl, true, false,
  ◌==◌, Bytes,
}
use mathlib.Core.Path.{subst}
use noirnet.Types.Block.{Block, SyncRequest}
use noirnet.Prelude.{codes, Result-split}
use noirnet.Storage.State.Blocks.{height_key}
use noirnet.Storage.State.Database.{
  StorageError, StateStore, after, done, open_tree, tree_get, cf_get,
}
use noirnet.Storage.State.Queries.{get_block, block_at, get_block_by_height}
use noirnet.Network.P2p.{send_sync_response}
use noirnet.Consensus.Engine.{Ports, ConsensusEngine}
use noirnet.Consensus.Engine.Loop.{
  Round, or_panic, or_no_block, serve, on_sync_request, answer_with, height_of_chain,
}
use noirnet.Consensus.Engine.Rounds.{or_panic-some, some_inj}

or_no_block-found :
    (r : Result (Option (Option Block)) StorageError) (b : Block)
    → or_no_block r ≡ some (some b)
    → r ≡ ok (some (some b))
or_no_block-found (ok found) b h = ap ok h
or_no_block-found (err e) b h = cc

found-answers :
    {Db : Type 0} (r : StateStore Db × Result (Option Block) StorageError)
    → (found : Option Block) × (or_no_block (after r (λ found. done (some found))).1 ≡ some found)
found-answers (s, ok found) = (found, refl)
found-answers (s, err e) = (none, refl)

module _
    {Db PeerId Channel SecretKey PublicKey Signature PublicParams Snark Instance Method : Type 0}
    (ports : Ports Db PeerId Channel SecretKey PublicKey Signature PublicParams Snark Instance
      Method) where
  -- The blocks are those at the heights from `start` on, `n` of them at most, and the first height that is left out cannot be read.
  pub record IsServed (s : StateStore Db) (start n : ℕ) (blocks : List Block) : Type 0 where
    pub bounded : length blocks ≤ n
    pub stored :
        (k : ℕ) (b : Block)
        → get_elem? blocks k ≡ some b
        → (get_block_by_height ports.sled ports.codec (start + k) s).1 ≡ ok (some (some b))
    pub longest :
        length blocks < n
        → or_no_block (get_block_by_height ports.sled ports.codec (start + length blocks) s).1
          ≡ some none

  IsServed-none : (s : StateStore Db) (start : ℕ) → IsServed s start 0 []
  IsServed-none s start = record {
    bounded = omega arith;
    stored = λ k b e. absurd cc e;
    longest = λ short. absurd (omega arith);
  }

  IsServed-nil :
      (s : StateStore Db) (start n : ℕ)
      → or_no_block (get_block_by_height ports.sled ports.codec start s).1 ≡ some none
      → IsServed s start n []
  IsServed-nil s start n h = record {
    bounded = omega arith;
    stored = λ k b e. absurd cc e;
    longest = λ short.
        subst
          (λ at_height.
            or_no_block (get_block_by_height ports.sled ports.codec at_height s).1 ≡ some none)
          {x = start} {y = start + 0} (omega arith) h;
  }

  IsServed-stored :
      (s : StateStore Db) (start n : ℕ) (b : Block) (bs : List Block)
      → (get_block_by_height ports.sled ports.codec start s).1 ≡ ok (some (some b))
      → IsServed s (start + 1) n bs
      → (k : ℕ) (c : Block) → get_elem? (b ∷ bs) k ≡ some c
      → (get_block_by_height ports.sled ports.codec (start + k) s).1 ≡ ok (some (some c))
  IsServed-stored s start n b bs here w zero c e =
      subst
        (λ at_height.
          (get_block_by_height ports.sled ports.codec at_height s).1 ≡ ok (some (some c)))
        {x = start} {y = start + 0} (omega arith) (here ∙ ap (λ x. ok (some x)) e)
  IsServed-stored s start n b bs here w (suc k) c e =
      subst
        (λ at_height.
          (get_block_by_height ports.sled ports.codec at_height s).1 ≡ ok (some (some c)))
        {x = start + 1 + k} {y = start + suc k} (omega arith) (w.stored k c e)

  IsServed-cons :
      (s : StateStore Db) (start n : ℕ) (b : Block) (bs : List Block)
      → (get_block_by_height ports.sled ports.codec start s).1 ≡ ok (some (some b))
      → IsServed s (start + 1) n bs
      → IsServed s start (suc n) (b ∷ bs)
  IsServed-cons s start n b bs here w = record {
    bounded = omega (arith, w.bounded);
    stored = λ k c e. IsServed-stored s start n b bs here w k c e;
    longest = λ short.
        subst
          (λ at_height.
            or_no_block (get_block_by_height ports.sled ports.codec at_height s).1 ≡ some none)
          {x = start + 1 + length bs} {y = start + length (b ∷ bs)} (omega arith)
          (w.longest (omega arith));
  }

  serve-IsServed :
      (s : StateStore Db) (start n : ℕ) (blocks : List Block)
      → serve ports s start n ≡ some blocks
      → IsServed s start n blocks
  unfolding serve
  serve-IsServed s start zero blocks h =
      subst (IsServed s start 0) (some_inj [] blocks h) (IsServed-none s start)
  serve-IsServed s start (suc n) blocks h =
      let (found, read, rest) =
        or_panic-some (or_no_block (get_block_by_height ports.sled ports.codec start s).1)
          (λ found. elim found [
            | none ↦ some []
            | some b ↦ or_panic (serve ports s (start + 1) n) (λ blocks. some (b ∷ blocks))
          ])
          blocks h in
      elim (Option-cases found) [
        | inl missing ↦
            subst (IsServed s start (suc n)) (some_inj [] blocks (rw missing at rest))
              (IsServed-nil s start (suc n) (read ∙ ap some missing))
        | inr (b, there) ↦
            let (more, served, joined) =
              or_panic-some (serve ports s (start + 1) n) (λ blocks. some (b ∷ blocks)) blocks
                (rw there at rest) in
            subst (IsServed s start (suc n)) (some_inj (b ∷ more) blocks joined) (
              IsServed-cons s start n b more (or_no_block-found _ b (read ∙ ap some there))
                (serve-IsServed s (start + 1) n more served))
      ]

  -- Each height has a hash of 32 bytes, if it has any.
  abbrev pub HashesFit : StateStore Db → Type 0
  HashesFit s =
      (height : ℕ) (hash : Bytes)
      → ports.sled.content (codes "meta") (height_key height) s.db ≡ some hash
      → length hash ≡ 32

  block_at-answers :
      (o : Option Bytes) (s : StateStore Db)
      → ((hash : Bytes) → o ≡ some hash → length hash ≡ 32)
      → (found : Option Block) × (or_no_block (block_at ports.sled ports.codec o s).1 ≡ some found)
  unfolding block_at
  block_at-answers none s fits = (none, refl)
  block_at-answers (some hash) s fits =
      let wide : (length hash == 32) ≡ true = ground (arith, fits hash refl) in
      rw wide (found-answers (get_block ports.sled ports.codec hash s))

  get_block_by_height-answers :
      (height : ℕ) (s : StateStore Db)
      → HashesFit s
      → (found : Option Block) × (or_no_block
            (get_block_by_height ports.sled ports.codec height s).1
          ≡ some found)
  unfolding get_block_by_height cf_get open_tree tree_get
  get_block_by_height-answers height s fits =
      elim (Result-split (ports.sled.open_tree (codes "meta") s.db)) [
        | inr (e, closed) ↦ rw closed (none, refl)
        | inl (u, opened) ↦
            elim (Result-split (ports.sled.get (codes "meta") (height_key height) s.db)) [
              | inr (e, failed) ↦ rw (opened, failed) (none, refl)
              | inl (value, read) ↦
                  rw (opened, read)
                    (block_at-answers value s (λ hash h. fits height hash (
                      sym
                        (ports.sled.get-content (codes "meta") (height_key height) s.db value read)
                      ∙ h)))
            ]
      ]

  serve-answers :
      (s : StateStore Db) (start n : ℕ)
      → HashesFit s
      → (blocks : List Block) × (serve ports s start n ≡ some blocks)
  unfolding serve
  serve-answers s start zero fits = ([], refl)
  serve-answers s start (suc n) fits =
      let (found, read) = get_block_by_height-answers start s fits in
      let (rest, served) = serve-answers s (start + 1) n fits in
      elim (Option-cases found) [
        | inl missing ↦ ([], rw (read, missing) refl)
        | inr (b, there) ↦ (b ∷ rest, rw (read, there, served) refl)
      ]

  -- Where the hashes of the store have their 32 bytes, a request whose heights fit 64 bits is answered, with stored blocks of consecutive heights
  -- from the first one asked for on: at most as many as the limit, none above the height of the chain, and as many as can be read in one go. The
  -- answer goes to the channel of the request; the engine is otherwise as before, and so is the round, which goes on.
  pub on_sync_request_lem :
      (request : SyncRequest) (channel : Channel) (e : ConsensusEngine Db PeerId Channel SecretKey)
      (r : Round)
      → request.start_height + request.limit < 2 ^ 64
      → height_of_chain ports e.state_store + 1 < 2 ^ 64
      → HashesFit e.state_store
      → (blocks : List Block) × (on_sync_request ports request channel e r
          ≡ some (record {
            engine = record e {
              sent = send_sync_response channel (record { blocks = blocks }) ∷ e.sent;
            };
            round = r;
            leaves = false;
          }))
        × (length blocks ≤ request.limit)
        × (length blocks ≤ height_of_chain ports e.state_store + 1 - request.start_height)
        × IsServed e.state_store request.start_height
            (min (request.start_height + request.limit) (height_of_chain ports e.state_store + 1)
              - request.start_height)
            blocks
  unfolding on_sync_request
  on_sync_request_lem request channel e r fits top hashes =
      let tip = height_of_chain ports e.state_store in
      let max_h = min (add_u64 request.start_height request.limit) (add_u64 tip 1) in
      let same : max_h ≡ min (request.start_height + request.limit) (tip + 1) = omega arith in
      let (blocks, served) =
        serve-answers e.state_store request.start_height (max_h - request.start_height) hashes in
      let w =
        subst (λ m. IsServed e.state_store request.start_height (m - request.start_height) blocks)
          same
          (serve-IsServed e.state_store request.start_height (max_h - request.start_height) blocks
            served) in
      (
        blocks,
        ap (λ o. or_panic o (λ blocks. some (answer_with ports channel blocks e r))) served,
        omega (arith, w.bounded),
        omega (arith, w.bounded),
        w,
      )
