-- ===== src/ArchiveB/Consensus/Votes.antt =====
-- `onProposal` of implementations/archive-b/src/consensus.ts: how an archive prevotes on a proposal.
use co_net_dle.Common.{
  ℕ, ◌<◌, ◌≡◌, refl, ◌≢◌, ◌⊎◌, ◌↔◌, true, Option, none, some, List, [], ◌∷◌, arith, ok, inl, inr,
  sym, ◌∙◌, lookup, lookup-insert,
}
use co_net_dle.ArchiveB.Types.{
  TendermintState, ProposalInput, ConsensusStep, VoteIntent, VoteStep, coordinator_equivocation,
}
use co_net_dle.ArchiveB.Consensus.{
  DurableTransition, ArchiveTendermint, FirstProposal, on_proposal, justified_unlock, note_first,
  TransitionEvent, proposal, conflicting_proposal, Call, proposed, prevote_quorum, prevote_expired,
  precommit_quorum, precommit_expired, recover, rejected, accepted, finalised, step, run,
}

-- `v` is above the lock, if there is one.
abbrev pub AboveLock : Option ℕ → ℕ → Type 0
AboveLock none v = Unit
AboveLock (some l) v = l < v

-- The proposal carries a verified prevote certificate of an earlier round, above the lock.
abbrev pub Unlocks : Option ℕ → ProposalInput → TendermintState → Type 0
Unlocks none p s = ⊥
Unlocks (some v) p s =
    (v < p.round)
    × AboveLock s.locked_round v
    × (p.valid_prevote_qc_ref ≢ none)
    × (p.valid_prevote_qc_verified ≡ true)

-- The proposal may be voted for: it is good, no other proposal of the round was seen, and the lock
-- allows its value.
pub record Votable (p : ProposalInput) (a : ArchiveTendermint) : Type 0 where
  pub is_current : p.round ≡ a.state.round
  pub not_recovering : a.state.recovery_code ≡ none
  pub is_valid : p.valid ≡ true
  pub is_available : p.available ≡ true
  pub is_first :
      (lookup p.round a.first_proposal ≡ none)
      ⊎ ((f : FirstProposal) × (lookup p.round a.first_proposal ≡ some f)
          × (f.proposal_hash ≡ p.proposal_hash))
  pub is_unlocked :
      (a.state.locked_value_hash ≡ none)
      ⊎ (a.state.locked_value_hash ≡ some p.value_hash)
      ⊎ Unlocks p.valid_round p a.state

-- The prevote for the proposal's value.
abbrev pub value_prevote : ProposalInput → VoteIntent
value_prevote p = record {
  step = VoteStep.prevote;
  round = p.round;
  value_hash = some p.value_hash;
  prevote_qc_ref = none;
  reason = none;
}

-- A justification test that passes gives a certificate that unlocks.
justified→Unlocks :
    (p : ProposalInput) (s : TendermintState)
    → justified_unlock p s ≡ true
    → Unlocks p.valid_round p s
justified→Unlocks p s h = ground arith

Unlocks→justified :
    (p : ProposalInput) (s : TendermintState)
    → Unlocks p.valid_round p s
    → justified_unlock p s ≡ true
Unlocks→justified p s h = ground arith

votes_only-Votable :
    (persist : DurableTransition) (p : ProposalInput) (a : ArchiveTendermint) (i : VoteIntent)
    (v : ℕ)
    → (on_proposal persist p a).0 ≡ ok (some i)
    → i.value_hash ≡ some v
    → Votable p a × (v ≡ p.value_hash)
unfolding on_proposal
votes_only-Votable persist p a i v h e =
    ground (arith, justified→Unlocks p a.state, justified→Unlocks p (note_first p a).state)

Votable-votes :
    (persist : DurableTransition) (p : ProposalInput) (a : ArchiveTendermint)
    → Votable p a
    → (persist proposal a.state
          (record (a.state) { step = ConsensusStep.prevote })
          (some (value_prevote p))
        ≡ true)
    → (on_proposal persist p a).0 ≡ ok (some (value_prevote p))
unfolding on_proposal
Votable-votes persist p a v h = ground (arith, Unlocks→justified p a.state)

-- The callback stores every transition.
abbrev pub Stores : DurableTransition → Type 0
Stores persist =
    (e : TransitionEvent) (s t : TendermintState) (o : Option VoteIntent) → persist e s t o ≡ true

-- Where the callback stores every transition, an archive prevotes for the value of a proposal
-- exactly when the proposal is of the current round, valid and available, the first of its round, and
-- allowed by the lock, and the archive is not in recovery.
pub prevote_iff :
    (persist : DurableTransition)
    → Stores persist
    → (p : ProposalInput) (a : ArchiveTendermint)
    → ((on_proposal persist p a).0 ≡ ok (some (value_prevote p))) ↔ Votable p a
prevote_iff persist stores p a = (
  λ h. (votes_only-Votable persist p a (value_prevote p) p.value_hash h refl).0,
  λ v. Votable-votes persist p a v (stores _ _ _ _),
)

-- The first proposal that is noted for a round stays.
step_keeps_first :
    (persist : DurableTransition) (c : Call) (a : ArchiveTendermint) (r : ℕ) (f : FirstProposal)
    → lookup r a.first_proposal ≡ some f
    → lookup r (step persist c a).1.first_proposal ≡ some f
unfolding step
step_keeps_first persist (proposed p) a r f h = ground (
  arith,
  lookup-insert r p.round (record { proposal_hash = p.proposal_hash; value_hash = p.value_hash })
      a.first_proposal,
)
step_keeps_first persist (prevote_quorum n v q) a r f h = ground arith
step_keeps_first persist (prevote_expired n) a r f h = ground arith
step_keeps_first persist (precommit_quorum n v c) a r f h = ground arith
step_keeps_first persist (precommit_expired n) a r f h = ground arith
step_keeps_first persist (recover code) a r f h = h
step_keeps_first persist (rejected k) a r f h = ground arith
step_keeps_first persist (accepted k) a r f h = ground arith
step_keeps_first persist (finalised k) a r f h = h

run_keeps_first :
    (persist : DurableTransition) (cs : List Call) (a : ArchiveTendermint) (r : ℕ)
    (f : FirstProposal)
    → lookup r a.first_proposal ≡ some f
    → lookup r (run persist cs a).first_proposal ≡ some f
unfolding run
run_keeps_first persist [] a r f h = h
run_keeps_first persist (c ∷ cs) a r f h =
    run_keeps_first persist cs (step persist c a).1 r f (step_keeps_first persist c a r f h)

-- A vote for a value leaves its proposal noted.
voted_noted :
    (persist : DurableTransition) (p : ProposalInput) (a : ArchiveTendermint)
    → Votable p a
    → (f : FirstProposal) × (lookup p.round (on_proposal persist p a).1.first_proposal ≡ some f)
      × (f.proposal_hash ≡ p.proposal_hash)
unfolding on_proposal
voted_noted persist p a v = elim v.is_first [
  | inl e ↦ (
    record { proposal_hash = p.proposal_hash; value_hash = p.value_hash },
    ground (
      arith,
      lookup-insert p.round p.round
          (record { proposal_hash = p.proposal_hash; value_hash = p.value_hash }) a.first_proposal,
    ),
    refl,
  )
  | inr (f, e, same) ↦ (f, ground arith, same)
]

-- An archive does not prevote for two proposals of one round: of two calls of `onProposal` for the
-- same round that both vote for a value, with any calls between them, the proposals have one hash.
pub no_double_prevote :
    (persist : DurableTransition) (p q : ProposalInput) (a : ArchiveTendermint) (cs : List Call)
    → q.round ≡ p.round
    → {i j : VoteIntent} {v w : ℕ} → (on_proposal persist p a).0 ≡ ok (some i)
    → i.value_hash ≡ some v
    → (on_proposal persist q (run persist cs (on_proposal persist p a).1)).0 ≡ ok (some j)
    → j.value_hash ≡ some w
    → q.proposal_hash ≡ p.proposal_hash
no_double_prevote persist p q a cs same {i} {j} {v} {w} hi vi hj vj =
    let (f, noted, fp) = voted_noted persist p a (votes_only-Votable persist p a i v hi vi).0 in
    let b = run persist cs (on_proposal persist p a).1 in
    let kept = run_keeps_first persist cs (on_proposal persist p a).1 p.round f noted in
    ground (arith, kept, (votes_only-Votable persist q b j w hj vj).0.is_first)

abbrev pub equivocation_prevote : ProposalInput → VoteIntent
equivocation_prevote q = record (value_prevote q) {
  value_hash = none;
  reason = some coordinator_equivocation;
}

proposal_keeps :
    (persist : DurableTransition) (p : ProposalInput) (a : ArchiveTendermint)
    → let s = (on_proposal persist p a).1.state in
      (s.round ≡ a.state.round) × (s.recovery_code ≡ a.state.recovery_code)
unfolding on_proposal
proposal_keeps persist p a = ground arith

other_proposal_nil :
    (persist : DurableTransition) (q : ProposalInput) (b : ArchiveTendermint) (f : FirstProposal)
    → persist conflicting_proposal b.state
        (record (b.state) { step = ConsensusStep.prevote })
        (some (equivocation_prevote q))
      ≡ true
    → q.round ≡ b.state.round
    → b.state.recovery_code ≡ none
    → lookup q.round b.first_proposal ≡ some f
    → f.proposal_hash ≢ q.proposal_hash
    → (on_proposal persist q b).0 ≡ ok (some (equivocation_prevote q))
unfolding on_proposal
other_proposal_nil persist q b f st r c l n = ground arith

-- A second proposal of the round, with another hash than the first one voted for, is answered by a
-- nil prevote with the reason `coordinator-equivocation`, whatever it carries.
pub second_proposal_nil :
    (persist : DurableTransition)
    → Stores persist
    → (p q : ProposalInput) (a : ArchiveTendermint) → Votable p a
    → q.round ≡ p.round
    → q.proposal_hash ≢ p.proposal_hash
    → (on_proposal persist q (on_proposal persist p a).1).0 ≡ ok (some (equivocation_prevote q))
second_proposal_nil persist stores p q a v same other =
    let b = (on_proposal persist p a).1 in
    let (f, noted, fp) = voted_noted persist p a v in
    let (kept_round, kept_code) = proposal_keeps persist p a in
    other_proposal_nil persist q b f (stores _ _ _ _) (ground arith) (ground arith) (rw same noted)
      (λ e. other (sym e ∙ fp))
