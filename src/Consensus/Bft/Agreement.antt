-- ===== src/Consensus/Bft/Agreement.antt =====
-- Agreement of the quorums of a round in crates/noirnet-consensus/src/bft.rs.
use noirnet.Prelude.{
  ℕ, ◌*◌, ◌≤◌, ◌<◌, ◌≡◌, sym, ◌∙◌, ◌≢◌, inl, inr, Bool, true, List, arith, ltb, ltb→lt, Bool-cases,
  length, Bytes, bytes_eq, bytes_eq_iff, bytes_eq→eq,
}
use noirnet.Prelude.Maps.{member, Distinct}
use noirnet.Prelude.Counting.{
  Within, common, length-common, length-Within, common-Distinct, All-common,
}
use noirnet.Types.Note.{Hash32}
use noirnet.Types.Validator.{VoteType}
use noirnet.Consensus.Bft.{
  BftRoundState, RoundEvent, new, voters, has_quorum_prevote, has_quorum_precommit, run,
}
use noirnet.Consensus.Bft.Votes.{ballots, run-Distinct}
use noirnet.Consensus.Bft.Phases.{quorum_in-voters, run-Extends}

abbrev pub has_quorum : VoteType → BftRoundState → Hash32 → Bool
has_quorum VoteType.prevote s hash = has_quorum_prevote s hash
has_quorum VoteType.precommit s hash = has_quorum_precommit s hash

has_quorum-voters :
    (kind : VoteType) (s : BftRoundState) (hash : Hash32)
    → has_quorum kind s hash
      ≡ ltb (s.total_validators * 2) (length (voters hash (ballots kind s)) * 3)
unfolding has_quorum_prevote has_quorum_precommit
has_quorum-voters VoteType.prevote s hash = quorum_in-voters s.prevotes s.total_validators hash
has_quorum-voters VoteType.precommit s hash = quorum_in-voters s.precommits s.total_validators hash

ballots-Distinct :
    (kind : VoteType) (height round total : ℕ) (es : List RoundEvent) (hash : Hash32)
    → Distinct (voters hash (ballots kind (run es (new height round total))))
ballots-Distinct VoteType.prevote height round total es hash =
    (run-Distinct height round total es hash).0
ballots-Distinct VoteType.precommit height round total es hash =
    (run-Distinct height round total es hash).1

module _ (kind : VoteType) (height round : ℕ) (es : List RoundEvent) (validators : List Bytes)
    (hash other : Hash32) where
  -- The round after the events, and the two sets of voters.
  abbrev pub at_end : BftRoundState
  at_end = run es (new height round (length validators))

  abbrev pub for_hash : List Bytes
  for_hash = voters hash (ballots kind at_end)

  abbrev pub for_other : List Bytes
  for_other = voters other (ballots kind at_end)

  total-at_end : at_end.total_validators ≡ length validators
  unfolding new
  total-at_end = (run-Extends es (new height round (length validators))).same_total

  -- If all votes counted for two hashes in a round come from its validators and both have a quorum
  -- of one kind, then the two quorums share more than a third of the validators.
  pub quorum_overlap :
      Within for_hash validators
      → Within for_other validators
      → has_quorum kind at_end hash ≡ true
      → has_quorum kind at_end other ≡ true
      → length validators < 3 * length (common for_hash for_other)
  quorum_overlap w v q r =
      let d = ballots-Distinct kind height round (length validators) es hash in
      let e = ballots-Distinct kind height round (length validators) es other in
      omega (
        arith,
        length-common for_hash for_other validators d e w v,
        total-at_end,
        ltb→lt _ _ (sym (has_quorum-voters kind at_end hash) ∙ q),
        ltb→lt _ _ (sym (has_quorum-voters kind at_end other) ∙ r),
      )

  -- Suppose all votes counted for two hashes in a round, of one kind, come from its validators,
  -- and only those on a list of at most a third of them vote for both hashes if these differ.
  -- Then, if both have a quorum, they are one hash.
  pub quorum_agreement :
      (faulty : List Bytes)
      → 3 * length faulty ≤ length validators
      → ((id : Bytes)
          → hash ≢ other
          → member id for_hash ≡ true
          → member id for_other ≡ true
          → member id faulty ≡ true)
      → Within for_hash validators
      → Within for_other validators
      → has_quorum kind at_end hash ≡ true
      → has_quorum kind at_end other ≡ true
      → hash ≡ other
  quorum_agreement faulty few honest w v q r = elim (Bool-cases (bytes_eq hash other)) [
    | inl same ↦ bytes_eq→eq hash other same
    | inr apart ↦
        let differ : hash ≢ other = λ e. ground (arith, bytes_eq_iff hash other) in
        let inside =
          All-common (λ id. member id faulty ≡ true) for_hash for_other
            (λ id m n. honest id differ m n) in
        let d =
          common-Distinct for_hash for_other
            (ballots-Distinct kind height round (length validators) es hash) in
        absurd (
          omega (
            arith,
            quorum_overlap w v q r,
            length-Within (common for_hash for_other) faulty d inside,
          ))
  ]
