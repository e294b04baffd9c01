-- ===== src/Consensus/Engine/Voters.antt =====
-- Whose votes are counted in a round of the loop of crates/noirnet-consensus/src/engine.rs.
use noirnet.Prelude.{
  ℕ, ◌==◌, ◌&&◌, ◌≡◌, refl, ◌∙◌, ◌⊎◌, inl, inr, true, false, Option, none, some, List, [], ◌∷◌,
  arith, leb, if◌then◌else◌, Bool-cases, is_some, is_empty, Bytes, bytes_eq, bytes_eq→eq,
}
use noirnet.Prelude.Maps.{lookup, member}
use noirnet.Types.Note.{Hash32}
use noirnet.Types.Block.{Block}
use noirnet.Types.Validator.{Vote, VoteType, ValidatorSet, get_by_id}
use noirnet.Network.P2p.{NetworkCommand, broadcast_vote}
use noirnet.Consensus.Bft.{BftRoundState, new, voters, add_vote, try_advance_phase}
use noirnet.Consensus.Bft.Votes.{ballots, same_type, member-add_vote}
use noirnet.Consensus.Engine.{
  Ports, ConsensusEngine, settle, apply_checked, execute_and_apply_block,
}
use noirnet.Consensus.Engine.Loop.{Round, cast_vote, give, own_vote, vote_is_valid, apply_synced}

-- The vote counts of another phase are the same.
ballots-try_advance_phase :
    (kind : VoteType) (hash : Hash32) (s : BftRoundState)
    → ballots kind (try_advance_phase hash s).0 ≡ ballots kind s
unfolding try_advance_phase
ballots-try_advance_phase VoteType.prevote hash s = ground arith
ballots-try_advance_phase VoteType.precommit hash s = ground arith

same_type-eq : (kind other : VoteType) → same_type kind other ≡ true → kind ≡ other
same_type-eq VoteType.prevote VoteType.prevote h = refl
same_type-eq VoteType.precommit VoteType.precommit h = refl
same_type-eq VoteType.prevote VoteType.precommit h = cc
same_type-eq VoteType.precommit VoteType.prevote h = cc

-- Somebody's vote of a height and a round, of a kind and for a hash, that was accepted.
pub record IsVoteOf (Accepted : Vote → Type 0) (height round : ℕ) (kind : VoteType) (hash : Hash32)
    (id : Bytes) : Type 0 where
  pub vote : Vote
  pub accepted : Accepted vote
  pub of_height : vote.height ≡ height
  pub of_round : vote.round ≡ round
  pub of_kind : vote.vote_type ≡ kind
  pub for_hash : vote.block_hash ≡ hash
  pub from : vote.validator_id ≡ id

-- The round has the given height, number and count of validators, and whoever is counted for a hash is this node, or has an accepted
-- vote of that height, that round and that kind for that hash.
pub record IsSound (Accepted : Vote → Type 0) (local : Bytes) (height round total : ℕ)
    (s : BftRoundState) : Type 0 where
  pub same_height : s.height ≡ height
  pub same_round : s.round ≡ round
  pub same_total : s.total_validators ≡ total
  pub known :
      (kind : VoteType) (hash : Hash32) (id : Bytes)
      → member id (voters hash (ballots kind s)) ≡ true
      → (local ≡ id) ⊎ IsVoteOf Accepted height round kind hash id

no_votes :
    (kind : VoteType) (height round total : ℕ) (hash : Hash32) (id : Bytes)
    → member id (voters hash (ballots kind (new height round total))) ≡ false
unfolding new lookup member
no_votes VoteType.prevote height round total hash id = refl
no_votes VoteType.precommit height round total hash id = refl

module _ (Accepted : Vote → Type 0) (local : Bytes) (height round total : ℕ) where
  pub IsSound-advance :
      (hash : Hash32) (s : BftRoundState)
      → IsSound Accepted local height round total s
      → IsSound Accepted local height round total (try_advance_phase hash s).0
  unfolding try_advance_phase
  IsSound-advance hash s w = record {
    same_height = ground (arith, w.same_height);
    same_round = ground (arith, w.same_round);
    same_total = ground (arith, w.same_total);
    known =
        λ kind other id h. w.known kind other id (rw (ballots-try_advance_phase kind hash s) at h);
  }

  pub IsSound-add_vote :
      (v : Vote) (s : BftRoundState)
      → IsSound Accepted local height round total s
      → Accepted v ⊎ (local ≡ v.validator_id)
      → IsSound Accepted local height round total (add_vote v s).0
  unfolding add_vote
  IsSound-add_vote v s w good = record {
    same_height = ground (arith, w.same_height);
    same_round = ground (arith, w.same_round);
    same_total = ground (arith, w.same_total);
    known = λ kind hash id h.
        let here =
          v.height == s.height
          && v.round == s.round
          && same_type v.vote_type kind
          && bytes_eq v.block_hash hash
          && bytes_eq v.validator_id id in
        elim (Bool-cases here) [
          | inr other ↦
              w.known kind hash id (ground (arith, member-add_vote v s kind hash id, h, other))
          | inl own ↦
              let by : v.validator_id ≡ id = bytes_eq→eq v.validator_id id (ground (arith, own)) in
              elim good [
                | inr mine ↦ inl (mine ∙ by)
                | inl taken ↦ inr (record {
                  vote = v;
                  accepted = taken;
                  of_height = ground (arith, own, w.same_height);
                  of_round = ground (arith, own, w.same_round);
                  of_kind = same_type-eq v.vote_type kind (ground (arith, own));
                  for_hash = bytes_eq→eq v.block_hash hash (ground (arith, own));
                  from = by;
                })
              ]
        ];
  }

  pub IsSound-new : IsSound Accepted local height round total (new height round total)
  unfolding new
  IsSound-new = record {
    same_height = refl;
    same_round = refl;
    same_total = refl;
    known = λ kind hash id h. absurd cc (no_votes kind height round total hash id, h);
  }

module _
    {Db PeerId Channel SecretKey PublicKey Signature PublicParams Snark Instance Method : Type 0}
    (ports : Ports Db PeerId Channel SecretKey PublicKey Signature PublicParams Snark Instance
      Method) where
  abbrev Engine : Type 0
  Engine = ConsensusEngine Db PeerId Channel SecretKey

  module _ (Came : Vote → Type 0) where
    -- A vote that came in, that the code took for valid, and that is from the validator set, if that is not empty.
    pub record IsAccepted (val_set : ValidatorSet) (v : Vote) : Type 0 where
      pub came : Came v
      pub valid : vote_is_valid ports val_set v ≡ true
      pub listed :
          (is_empty val_set.validators ≡ true) ⊎ (is_some (get_by_id val_set v.validator_id) ≡ true)

    abbrev pub Sound : Engine → Round → Type 0
    Sound e r =
        IsSound (IsAccepted r.val_set) e.local_validator_id r.height r.round r.total_validators
          r.bft_state

  pub local-execute :
      (now : ℕ) (block : Block) (e : Engine)
      → (execute_and_apply_block ports now block e).local_validator_id ≡ e.local_validator_id
  unfolding execute_and_apply_block apply_checked settle
  local-execute now block e = ground arith

  pub local-apply_synced :
      (now height : ℕ) (bs : List Block) (e : Engine)
      → (apply_synced ports now height bs e).local_validator_id ≡ e.local_validator_id
  unfolding apply_synced
  local-apply_synced now height [] e = refl
  local-apply_synced now height (b ∷ bs) e =
      let next = execute_and_apply_block ports now b e in
      local-apply_synced now height bs (if leb height b.header.height then next else e)
      ∙ ground (arith, local-execute now b e)

  local-give :
      (o : Option Bytes) (command : Bytes → NetworkCommand PeerId Channel) (e : Engine)
      → (give ports o command e).local_validator_id ≡ e.local_validator_id
  local-give none command e = refl
  local-give (some bytes) command e = refl

  pub Sound-cast_vote :
      (Came : Vote → Type 0) (kind : VoteType) (hash : Hash32) (key : Option SecretKey) (e : Engine)
      (r : Round)
      → Sound Came e r
      → Sound Came (cast_vote ports kind hash key e r).0 (cast_vote ports kind hash key e r).1
  unfolding cast_vote
  Sound-cast_vote Came kind hash none e r w = w
  Sound-cast_vote Came kind hash (some sk) e r w =
      let vote = own_vote ports r kind hash sk e in
      rw (local-give (ports.encode_vote vote) (λ bytes. broadcast_vote bytes) e) (
        IsSound-add_vote (IsAccepted Came r.val_set) e.local_validator_id r.height r.round
          r.total_validators vote r.bft_state w (inr refl))

  pub vote_is_valid-known :
      (val_set : ValidatorSet) (vote : Vote)
      → vote_is_valid ports val_set vote ≡ true
      → (is_empty val_set.validators ≡ true)
        ⊎ (is_some (get_by_id val_set vote.validator_id) ≡ true)
  unfolding vote_is_valid
  vote_is_valid-known val_set vote h = ground (arith, h)
