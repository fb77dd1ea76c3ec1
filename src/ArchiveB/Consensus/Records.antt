-- ===== src/ArchiveB/Consensus/Records.antt =====
-- Errors, recovery and contradicting certificates of `ArchiveTendermint` in
-- implementations/archive-b/src/consensus.ts.
use co_net_dle.Common.{◌≡◌, ◌≢◌, ◌∙◌, Option, none, some, List, [], ◌∷◌, arith, ok, err}
use co_net_dle.ArchiveB.Types.{
  TendermintState, ProposalInput, VoteIntent, ErrorCode, err_reject_accept_conflict, voting, frozen,
}
use co_net_dle.ArchiveB.Consensus.{
  DurableTransition, ArchiveTendermint, Call, proposed, prevote_quorum, prevote_expired,
  precommit_quorum, precommit_expired, recover, rejected, accepted, finalised, step, run,
  record_reject_certificate, record_accept_qc, commit_begin, commit_end, proposal_mutate,
  ConflictKey,
}

-- The calls that only record a certificate, whose throw comes after the write.
abbrev pub IsRecord : Call → Type 0
IsRecord (rejected k) = Unit
IsRecord (accepted k) = Unit
IsRecord _ = ⊥

-- A handler that throws, or whose transition is not stored, leaves the vote state as it was. (A
-- certificate that is recorded may throw after it has frozen the state.)
pub error_unchanged :
    (persist : DurableTransition) (c : Call) (a : ArchiveTendermint) {e : ErrorCode}
    → ¬ IsRecord c
    → (step persist c a).0 ≡ err e
    → (step persist c a).1.state ≡ a.state
unfolding step
error_unchanged persist (proposed p) a n h = ground arith
error_unchanged persist (prevote_quorum r v q) a n h = ground arith
error_unchanged persist (prevote_expired r) a n h = ground arith
error_unchanged persist (precommit_quorum r v c) a n h = ground arith
error_unchanged persist (precommit_expired r) a n h = ground arith
error_unchanged persist (recover code) a n h = cc
error_unchanged persist (rejected k) a n h = absurd (n tt)
error_unchanged persist (accepted k) a n h = absurd (n tt)
error_unchanged persist (finalised k) a n h = cc

-- What no call changes once the archive is in recovery: all but the mode and the code.
pub record IsHalted (s t : TendermintState) : Type 0 where
  pub still_recovering : t.recovery_code ≢ none
  pub same_round : t.round ≡ s.round
  pub same_step : t.step ≡ s.step
  pub same_lock : t.locked_value_hash ≡ s.locked_value_hash
  pub same_locked_round : t.locked_round ≡ s.locked_round
  pub same_commit : t.committed_value_hash ≡ s.committed_value_hash

step-IsHalted :
    (persist : DurableTransition) (c : Call) (a : ArchiveTendermint)
    → a.state.recovery_code ≢ none
    → IsHalted a.state (step persist c a).1.state
unfolding step
step-IsHalted persist (proposed p) a h = ground arith
step-IsHalted persist (prevote_quorum r v q) a h = ground arith
step-IsHalted persist (prevote_expired r) a h = ground arith
step-IsHalted persist (precommit_quorum r v c) a h = ground arith
step-IsHalted persist (precommit_expired r) a h = ground arith
step-IsHalted persist (recover code) a h = ground arith
step-IsHalted persist (rejected k) a h = ground arith
step-IsHalted persist (accepted k) a h = ground arith
step-IsHalted persist (finalised k) a h = ground arith

IsHalted-trans : (s t u : TendermintState) → IsHalted s t → IsHalted t u → IsHalted s u
IsHalted-trans s t u h k = record {
  still_recovering = k.still_recovering;
  same_round = k.same_round ∙ h.same_round;
  same_step = k.same_step ∙ h.same_step;
  same_lock = k.same_lock ∙ h.same_lock;
  same_locked_round = k.same_locked_round ∙ h.same_locked_round;
  same_commit = k.same_commit ∙ h.same_commit;
}

-- From a state with a recovery code no sequence of calls, each made when the one before has settled,
-- moves the round, the step, the lock or the committed value, or clears the code.
pub run-IsHalted :
    (persist : DurableTransition) (cs : List Call) (a : ArchiveTendermint)
    → a.state.recovery_code ≢ none
    → IsHalted a.state (run persist cs a).state
unfolding run
run-IsHalted persist [] a h = ground arith
run-IsHalted persist (c ∷ cs) a h =
    let k = step-IsHalted persist c a h in
    IsHalted-trans a.state (step persist c a).1.state (run persist (c ∷ cs) a).state k
      (run-IsHalted persist cs (step persist c a).1 k.still_recovering)

-- An accept quorum and a reject certificate under one conflict key, neither of them final, are
-- refused whichever comes second, and leave the archive in recovery and out of the voting mode.
pub conflict_either_order :
    (k : ConflictKey) (a : ArchiveTendermint)
    → a.final_conflict_key ≢ some k
    → let (r, b) = record_reject_certificate k (record_accept_qc k a).1 in
      let (s, c) = record_accept_qc k (record_reject_certificate k a).1 in
      (r ≡ err err_reject_accept_conflict)
      × (s ≡ err err_reject_accept_conflict)
      × (b.state.recovery_code ≡ some err_reject_accept_conflict)
      × (c.state.recovery_code ≡ some err_reject_accept_conflict)
      × (b.state.mode ≢ voting)
      × (c.state.mode ≢ voting)
unfolding record_reject_certificate record_accept_qc
conflict_either_order k a h = ground arith

-- A reject certificate that arrives while the transition of a proposal is being stored is lost: when
-- the handler resumes it writes its draft over the frozen state, so the recovery code is gone and the
-- mode is the one before.
pub late_commit_unfreezes :
    (p : ProposalInput) (k : ConflictKey) (a : ArchiveTendermint) {output : Option VoteIntent}
    {draft : TendermintState}
    → commit_begin (proposal_mutate p) a.state ≡ ok (output, draft)
    → a.final_conflict_key ≢ some k
    → let b = (record_reject_certificate k a).1 in
      (b.state.mode ≡ frozen)
      × (b.state.recovery_code ≡ some err_reject_accept_conflict)
      × ((commit_end draft b).state.mode ≡ a.state.mode)
      × ((commit_end draft b).state.recovery_code ≡ none)
unfolding commit_begin proposal_mutate record_reject_certificate commit_end
late_commit_unfreezes p k a h f = ground arith
