-- ===== src/ArchiveB/Machine/Tests.antt =====
-- The properties of the transition function at concrete traces.
use co_net_dle.Common.{◌≡◌, refl, true, none, some, List, [], ◌∷◌, arith}
use co_net_dle.ArchiveB.Types.{TendermintState, ProposalInput, frozen, voting, ConsensusStep}
use co_net_dle.ArchiveB.Consensus.{
  DurableTransition, ArchiveTendermint, initial_tendermint_state, prevote_quorum, step,
}
use co_net_dle.ArchiveB.Consensus.Lock.{IsSound, IsLater}
use co_net_dle.ArchiveB.Machine.{
  TendermintInputV2, prevote_qc, precommit_timeout, reject_cert, prevote_timeout,
  apply_tendermint_input, run,
}
use co_net_dle.ArchiveB.Machine.Safety.{trace_safe}
use co_net_dle.ArchiveB.Machine.Agreement.{for_value, same_state}

abbrev always : DurableTransition
always e s t o = true

abbrev first_state : TendermintState
first_state = record {
  height = 5;
  round = 0;
  step = ConsensusStep.propose;
  mode = voting;
  locked_value_hash = none;
  locked_round = none;
  valid_value_hash = none;
  valid_round = none;
  valid_prevote_qc_ref = none;
  committed_value_hash = none;
  committed_ac_ref = none;
  reject_ref = none;
  recovery_code = none;
}

abbrev archive_at : TendermintState → ArchiveTendermint
archive_at s = record {
  state = s;
  first_proposal = [];
  reject_conflict_key = none;
  accept_qc_conflict_key = none;
  final_conflict_key = none;
}

abbrev archive : ArchiveTendermint
archive = archive_at first_state

abbrev frozen_first : TendermintState
frozen_first = record first_state { mode = frozen }

abbrev inputs : List TendermintInputV2
inputs = prevote_qc 7 21 ∷ precommit_timeout 0 ∷ []

abbrev later_inputs : List TendermintInputV2
later_inputs = prevote_timeout ∷ reject_cert 4 true ∷ []

abbrev seven : ProposalInput
seven = record {
  round = 0;
  value_hash = 7;
  valid = true;
  available = true;
  valid_round = none;
  valid_prevote_qc_ref = none;
  valid_prevote_qc_verified = true;
  proposal_hash = 11;
}

trace_safe_example :
    let s = run (initial_tendermint_state 5 0) inputs in IsSound s × IsLater s (run s later_inputs)
trace_safe_example = trace_safe 5 0 inputs later_inputs

same_state_example :
    (step always (prevote_quorum 0 (some 7) 21) archive).1.state
    ≡ (apply_tendermint_input archive.state (prevote_qc 7 21)).state
same_state_example =
    same_state always (λ e s t o. refl) archive refl refl
      (for_value 7 21 (ground arith) (ground arith))
