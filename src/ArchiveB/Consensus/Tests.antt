-- ===== src/ArchiveB/Consensus/Tests.antt =====
-- The properties of `ArchiveTendermint` at concrete calls.
use co_net_dle.Common.{◌≡◌, refl, ◌⊎◌, ◌↔◌, true, none, some, List, [], ◌∷◌, arith, ok, inl}
use co_net_dle.ArchiveB.Types.{
  TendermintState, ConsensusStep, ProposalInput, voting, frozen, err_wal_recovery_required,
  err_reject_accept_conflict,
}
use co_net_dle.ArchiveB.Consensus.{
  DurableTransition, ArchiveTendermint, on_proposal, proposal_mutate, commit_begin, commit_end,
  record_reject_certificate, Call, prevote_quorum, prevote_expired, precommit_expired, rejected,
  step, run,
}
use co_net_dle.ArchiveB.Consensus.Lock.{IsSound, IsLater, run-IsLater, LocksBy, step_locks}
use co_net_dle.ArchiveB.Consensus.Votes.{Votable, value_prevote, prevote_iff, no_double_prevote}
use co_net_dle.ArchiveB.Consensus.Records.{IsHalted, run-IsHalted, late_commit_unfreezes}

abbrev always : DurableTransition
always e s t o = true

abbrev first_state : TendermintState
first_state = record {
  height = 5;
  round = 0;
  step = ConsensusStep.propose;
  mode = voting;
  locked_value_hash = none;
  locked_round = none;
  valid_value_hash = none;
  valid_round = none;
  valid_prevote_qc_ref = none;
  committed_value_hash = none;
  committed_ac_ref = none;
  reject_ref = none;
  recovery_code = none;
}

abbrev archive_at : TendermintState → ArchiveTendermint
archive_at s = record {
  state = s;
  first_proposal = [];
  reject_conflict_key = none;
  accept_qc_conflict_key = none;
  final_conflict_key = none;
}

abbrev archive : ArchiveTendermint
archive = archive_at first_state

abbrev halted : ArchiveTendermint
halted = archive_at (record first_state { recovery_code = some err_wal_recovery_required })

abbrev seven : ProposalInput
seven = record {
  round = 0;
  value_hash = 7;
  valid = true;
  available = true;
  valid_round = none;
  valid_prevote_qc_ref = none;
  valid_prevote_qc_verified = true;
  proposal_hash = 11;
}

-- The same hash on another value, and another hash.
abbrev eight : ProposalInput
eight = record seven { value_hash = 8 }

abbrev nine : ProposalInput
nine = record seven { proposal_hash = 12; value_hash = 9 }

abbrev calls : List Call
calls = prevote_quorum 0 (some 7) 21 ∷ prevote_expired 0 ∷ precommit_expired 0 ∷ []

first-IsSound : IsSound archive.state
first-IsSound = ground arith

seven-Votable : Votable seven archive
seven-Votable = record {
  is_current = refl;
  not_recovering = refl;
  is_valid = refl;
  is_available = refl;
  is_first = inl refl;
  is_unlocked = inl refl;
}

prevote_iff_example :
    ((on_proposal always seven archive).0 ≡ ok (some (value_prevote seven))) ↔ Votable seven archive
prevote_iff_example = prevote_iff always (λ e s t o. refl) seven archive

no_double_prevote_example : eight.proposal_hash ≡ seven.proposal_hash
unfolding on_proposal run step
no_double_prevote_example =
    no_double_prevote always seven eight archive (prevote_expired 0 ∷ []) refl refl refl refl refl

run-IsLater_example : IsLater archive.state (run always calls archive).state
run-IsLater_example = run-IsLater always calls archive first-IsSound

step_locks_example :
    let t = (step always (prevote_quorum 0 (some 7) 21) archive).1.state in
    ((t.locked_value_hash ≡ archive.state.locked_value_hash)
      × (t.locked_round ≡ archive.state.locked_round))
    ⊎ LocksBy (prevote_quorum 0 (some 7) 21) archive t
step_locks_example = step_locks always (prevote_quorum 0 (some 7) 21) archive

run-IsHalted_example : IsHalted halted.state (run always (rejected 4 ∷ calls) halted).state
run-IsHalted_example = run-IsHalted always (rejected 4 ∷ calls) halted (ground arith)

late_commit_unfreezes_example :
    let b = (record_reject_certificate 3 archive).1 in
    let draft = (proposal_mutate seven archive.state).1 in
    (b.state.mode ≡ frozen)
    × (b.state.recovery_code ≡ some err_reject_accept_conflict)
    × ((commit_end draft b).state.mode ≡ archive.state.mode)
    × ((commit_end draft b).state.recovery_code ≡ none)
unfolding commit_begin
late_commit_unfreezes_example = late_commit_unfreezes seven 3 archive refl (ground arith)
