-- ===== src/ArchiveA/Machine/Tests.antt =====
-- The properties of archive-a's transition function at concrete traces.
use co_net_dle.Common.{◌≡◌, refl, true, none, List, [], ◌∷◌, arith}
use co_net_dle.ArchiveA.Types.{none_round}
use co_net_dle.ArchiveA.Machine.{
  TendermintState, ConsensusStep, voting, Proposal, TendermintInput, apply_tendermint_input,
  proposal_vote, run,
}
use co_net_dle.ArchiveA.Machine.Votes.{
  IsRising, place, trace_votes, votes_rise, commit_again, timeout_reopens_commit,
}
use co_net_dle.ArchiveA.Machine.Refinement.{Same, Agree, AllInStep, traces-Agree}
use co_net_dle.ArchiveB.Types

abbrev first : TendermintState
first = record {
  height = 1;
  round = 0;
  step = ConsensusStep.propose;
  mode = voting;
  locked_value = 0;
  locked_round = none_round;
  valid_value = 0;
  valid_round = none_round;
  valid_prevote_qc_ref = 0;
  committed_ac_ref = 0;
  reject_ref = 0;
}

abbrev b_first : Types.TendermintState
b_first = record {
  height = 1;
  round = 0;
  step = Types.ConsensusStep.propose;
  mode = Types.voting;
  locked_value_hash = none;
  locked_round = none;
  valid_value_hash = none;
  valid_round = none;
  valid_prevote_qc_ref = none;
  committed_value_hash = none;
  committed_ac_ref = none;
  reject_ref = none;
  recovery_code = none;
}

abbrev one_round : List TendermintInput
one_round =
    TendermintInput.proposal
      (record { value = 7; available = true; valid_round = none_round; valid_prevote_qc_ref = 0 })
    ∷ TendermintInput.prevote_qc 7 21
    ∷ TendermintInput.precommit_qc 7 22
    ∷ TendermintInput.precommit_timeout 5
    ∷ []

votes_of_one_round : trace_votes first one_round ≡ 1 ∷ 2 ∷ 3 ∷ []
unfolding trace_votes apply_tendermint_input proposal_vote
votes_of_one_round = refl

votes_rise_example : IsRising (place first) (trace_votes first one_round)
votes_rise_example = votes_rise first one_round

Same-first : Same first b_first
Same-first = ground arith

in_step_first : AllInStep first one_round
unfolding apply_tendermint_input
in_step_first = ground arith

traces-Agree_example : Agree first b_first one_round
traces-Agree_example = traces-Agree first b_first one_round Same-first in_step_first (omega arith)

abbrev committed_first : TendermintState
committed_first = record first { step = ConsensusStep.committed; committed_ac_ref = 22 }

abbrev eight : Proposal
eight = record { value = 8; available = true; valid_round = none_round; valid_prevote_qc_ref = 0 }

timeout_reopens_commit_example :
    let t = run committed_first (commit_again eight 8 31 32) in
    (t.step ≡ ConsensusStep.committed)
    × (t.height ≡ 1)
    × (t.locked_value ≡ 8)
    × (t.committed_ac_ref ≡ 32)
timeout_reopens_commit_example =
    timeout_reopens_commit committed_first eight 8 31 32 refl refl (omega arith) (omega arith)
      (omega arith)
