-- ===== src/Consensus/Bft/Phases.antt =====
-- The phases of a round in crates/noirnet-consensus/src/bft.rs, and what each phase rests on.
use noirnet.Prelude.{
  ℕ, ◌*◌, ◌≡◌, refl, sym, ap, ◌∙◌, inl, inr, Bool, true, Option, none, some, List, [], ◌∷◌, arith,
  ltb, if◌then◌else◌, Bool-cases, length, Bytes, bytes_eq_iff,
}
use mathlib.Core.Path.{subst}
use noirnet.Prelude.Maps.{add_member, lookup-insert, length-add_member}
use noirnet.Types.Note.{Hash32}
use noirnet.Types.Validator.{Vote}
use noirnet.Consensus.Bft.{
  BftPhase, BftRoundState, VoteMap, RoundEvent, vote, advance, new, voters, record_vote, add_vote,
  try_advance_phase, has_quorum_prevote, has_quorum_precommit, quorum_in, step, run, phase_eq,
}

pub quorum_in-voters :
    (m : VoteMap) (total : ℕ) (hash : Hash32)
    → quorum_in m total hash ≡ ltb (total * 2) (length (voters hash m) * 3)
quorum_in-voters m total hash = ground arith

quorum_in-record_vote :
    (m : VoteMap) (total : ℕ) (hash other : Hash32) (id : Bytes)
    → quorum_in m total hash ≡ true
    → quorum_in (record_vote other id m) total hash ≡ true
unfolding record_vote
quorum_in-record_vote m total hash other id h = ground (
  arith,
  lookup-insert other hash (add_member id (voters other m)) m,
  bytes_eq_iff other hash,
  length-add_member id (voters other m),
)

-- A quorum once reached stays, and so do the height, the round and the number of validators.
pub record Extends (s t : BftRoundState) : Type 0 where
  pub same_height : t.height ≡ s.height
  pub same_round : t.round ≡ s.round
  pub same_total : t.total_validators ≡ s.total_validators
  pub prevotes_kept :
      (hash : Hash32) → has_quorum_prevote s hash ≡ true → has_quorum_prevote t hash ≡ true
  pub precommits_kept :
      (hash : Hash32) → has_quorum_precommit s hash ≡ true → has_quorum_precommit t hash ≡ true

pub step-Extends : (e : RoundEvent) (s : BftRoundState) → Extends s (step e s)
unfolding step add_vote try_advance_phase has_quorum_prevote has_quorum_precommit
step-Extends (vote v) s = record {
  same_height = ground arith;
  same_round = ground arith;
  same_total = ground arith;
  prevotes_kept = λ hash q. ground (
    arith,
    quorum_in-record_vote s.prevotes s.total_validators hash v.block_hash v.validator_id q,
  );
  precommits_kept = λ hash q. ground (
    arith,
    quorum_in-record_vote s.precommits s.total_validators hash v.block_hash v.validator_id q,
  );
}
step-Extends (advance other) s = record {
  same_height = ground arith;
  same_round = ground arith;
  same_total = ground arith;
  prevotes_kept = λ hash q. ground arith;
  precommits_kept = λ hash q. ground arith;
}

Extends-refl : (s : BftRoundState) → Extends s s
Extends-refl s = record {
  same_height = refl;
  same_round = refl;
  same_total = refl;
  prevotes_kept = λ hash q. q;
  precommits_kept = λ hash q. q;
}

-- Whatever happens in a round, its height, its round number and its number of validators stay as
-- they are, and no quorum that was reached is lost.
pub run-Extends : (es : List RoundEvent) (s : BftRoundState) → Extends s (run es s)
unfolding run
run-Extends [] s = Extends-refl s
run-Extends (e ∷ es) s =
    let one = step-Extends e s in
    let more = run-Extends es (step e s) in
    record {
      same_height = more.same_height ∙ one.same_height;
      same_round = more.same_round ∙ one.same_round;
      same_total = more.same_total ∙ one.same_total;
      prevotes_kept = λ hash q. more.prevotes_kept hash (one.prevotes_kept hash q);
      precommits_kept = λ hash q. more.precommits_kept hash (one.precommits_kept hash q);
    }

-- What a phase rests on.
abbrev pub Rests : BftPhase → BftRoundState → Type 0
Rests BftPhase.propose s = Unit
Rests BftPhase.prevote s = Unit
Rests BftPhase.precommit s = (hash : Hash32) × (has_quorum_prevote s hash ≡ true)
Rests BftPhase.commit s =
    ((hash : Hash32) × (has_quorum_prevote s hash ≡ true))
    × ((hash : Hash32) × (has_quorum_precommit s hash ≡ true))

Rests-Extends : (p : BftPhase) (s t : BftRoundState) → Extends s t → Rests p s → Rests p t
Rests-Extends BftPhase.propose s t x r = tt
Rests-Extends BftPhase.prevote s t x r = tt
Rests-Extends BftPhase.precommit s t x r = (r.0, x.prevotes_kept r.0 r.1)
Rests-Extends BftPhase.commit s t x r =
    ((r.0.0, x.prevotes_kept r.0.0 r.0.1), (r.1.0, x.precommits_kept r.1.0 r.1.1))

-- The table of the phases: from each phase, by whether prevotes and precommits have a quorum.
abbrev pub next_phase : BftPhase → Bool → Bool → BftPhase
next_phase BftPhase.propose prevoted precommitted = BftPhase.prevote
next_phase BftPhase.prevote prevoted precommitted =
    if prevoted then BftPhase.precommit else BftPhase.prevote
next_phase BftPhase.precommit prevoted precommitted =
    if precommitted then BftPhase.commit else BftPhase.precommit
next_phase BftPhase.commit prevoted precommitted = BftPhase.commit

abbrev pub after_attempt : Hash32 → BftRoundState → BftPhase
after_attempt hash s = next_phase s.phase (has_quorum_prevote s hash) (has_quorum_precommit s hash)

try_advance_from :
    (hash : Hash32) (s : BftRoundState) (p : BftPhase)
    → s.phase ≡ p
    → try_advance_phase hash s ≡ (
      record s { phase = after_attempt hash s },
      if phase_eq s.phase (after_attempt hash s) then none else some (after_attempt hash s),
    )
unfolding try_advance_phase
try_advance_from hash s BftPhase.propose e = ground arith
try_advance_from hash s BftPhase.prevote e = ground arith
try_advance_from hash s BftPhase.precommit e = ground arith
try_advance_from hash s BftPhase.commit e = ground arith

-- An attempt to advance follows the table: it sets the phase and nothing else, and answers with the
-- new phase exactly when that differs from the old one.
pub try_advance_phase_lem :
    (hash : Hash32) (s : BftRoundState)
    → try_advance_phase hash s ≡ (
      record s { phase = after_attempt hash s },
      if phase_eq s.phase (after_attempt hash s) then none else some (after_attempt hash s),
    )
try_advance_phase_lem hash s = try_advance_from hash s s.phase refl

next-Rests :
    (p : BftPhase) (hash : Hash32) (s : BftRoundState)
    → Rests p s
    → Rests (next_phase p (has_quorum_prevote s hash) (has_quorum_precommit s hash)) s
next-Rests BftPhase.propose hash s r = tt
next-Rests BftPhase.prevote hash s r = elim (Bool-cases (has_quorum_prevote s hash)) [
  | inl q ↦ rw q (hash, q)
  | inr q ↦ rw q tt
]
next-Rests BftPhase.precommit hash s r = elim (Bool-cases (has_quorum_precommit s hash)) [
  | inl q ↦ rw q (r, (hash, q))
  | inr q ↦ rw q r
]
next-Rests BftPhase.commit hash s r = r

phase-step_vote : (v : Vote) (s : BftRoundState) → s.phase ≡ (step (vote v) s).phase
unfolding step add_vote
phase-step_vote v s = ground arith

phase-step_advance :
    (hash : Hash32) (s : BftRoundState) → after_attempt hash s ≡ (step (advance hash) s).phase
unfolding step
phase-step_advance hash s =
    sym (ap (λ (x : BftRoundState × Option BftPhase). x.0.phase) (try_advance_phase_lem hash s))

step-Rests :
    (e : RoundEvent) (s : BftRoundState) → Rests s.phase s → Rests (step e s).phase (step e s)
step-Rests (vote v) s r =
    let t = step (vote v) s in
    subst (λ p. Rests p t) (phase-step_vote v s)
      (Rests-Extends s.phase s t (step-Extends (vote v) s) r)
step-Rests (advance hash) s r =
    let t = step (advance hash) s in
    subst (λ p. Rests p t) (phase-step_advance hash s)
      (Rests-Extends (after_attempt hash s) s t (step-Extends (advance hash) s)
        (next-Rests s.phase hash s r))

run-Rests :
    (es : List RoundEvent) (s : BftRoundState) → Rests s.phase s → Rests (run es s).phase (run es s)
unfolding run
run-Rests [] s r = r
run-Rests (e ∷ es) s r = run-Rests es (step e s) (step-Rests e s r)

-- A round that has come to the phase of precommits has more than two thirds of prevotes for some
-- hash, and one that has come to the commit has that and more than two thirds of precommits for some
-- hash as well, whatever votes and attempts came in and in whatever order.
pub run-new-Rests :
    (height round total : ℕ) (es : List RoundEvent)
    → Rests (run es (new height round total)).phase (run es (new height round total))
run-new-Rests height round total es = run-Rests es (new height round total) (unfold new in tt)
