-- ===== src/ArchiveA/Machine/Refinement.antt =====
-- `applyTendermintInput` of implementations/archive-a/src/core.ts, whose states have sentinels,
-- beside that of implementations/archive-b/src/consensus.ts, whose states have nulls.
use co_net_dle.Common.{
  ℕ, ◌+◌, ◌<◌, ◌≡◌, ◌≢◌, Bool, true, false, Option, none, some, List, [], ◌∷◌, length, arith,
}
use co_net_dle.ArchiveA.Types.{
  DleError, none_round, wal_recovery_required, invalid_certificate_reference, reject_after_finality,
  reject_accept_conflict,
}
use co_net_dle.ArchiveA.Machine.{
  TendermintState, ConsensusStep, ConsensusMode, TendermintInput, TendermintOutput, Action,
  apply_tendermint_input, step_is,
}
use co_net_dle.ArchiveB.Types
use co_net_dle.ArchiveB.Types.{
  ErrorCode, err_wal_recovery_required, err_invalid_certificate_reference,
  err_reject_after_finality, err_reject_accept_conflict,
}
use co_net_dle.ArchiveB.Machine
use co_net_dle.ArchiveB.Machine.{TendermintInputV2, TendermintOutputV2}

-- A nullable round or hash with its sentinel.
abbrev or_none_round : Option ℕ → ℕ
or_none_round none = none_round
or_none_round (some r) = r

abbrev or_zero : Option ℕ → ℕ
or_zero none = 0
or_zero (some h) = h

abbrev b_step : ConsensusStep → Types.ConsensusStep
b_step ConsensusStep.propose = Types.ConsensusStep.propose
b_step ConsensusStep.prevote = Types.ConsensusStep.prevote
b_step ConsensusStep.precommit = Types.ConsensusStep.precommit
b_step ConsensusStep.committed = Types.ConsensusStep.committed

abbrev b_mode : ConsensusMode → Types.Mode
b_mode ConsensusMode.voting = Types.voting
b_mode ConsensusMode.recovery = Types.recovery
b_mode ConsensusMode.frozen = Types.frozen

abbrev b_input : TendermintInput → TendermintInputV2
b_input (TendermintInput.proposal p) = Machine.proposal (record {
  value = p.value;
  valid_round = p.valid_round;
  valid_prevote_qc_ref = p.valid_prevote_qc_ref;
  available = p.available;
})
b_input (TendermintInput.prevote_qc v q) = Machine.prevote_qc v q
b_input (TendermintInput.precommit_qc v c) = Machine.precommit_qc v c
b_input TendermintInput.prevote_timeout = Machine.prevote_timeout
b_input (TendermintInput.precommit_timeout tc) = Machine.precommit_timeout tc
b_input (TendermintInput.reject_cert r after) = Machine.reject_cert r after

abbrev b_action : Action → Machine.Action
b_action Action.prevote = Machine.Action.prevote
b_action Action.precommit = Machine.Action.precommit
b_action Action.enter_round = Machine.Action.enter_round
b_action Action.commit = Machine.Action.commit
b_action Action.freeze = Machine.Action.freeze

abbrev b_outputs : List TendermintOutput → List TendermintOutputV2
b_outputs [] = []
b_outputs (o ∷ os) =
    record { action = b_action o.action; value = o.value; reference = o.reference } ∷ b_outputs os

-- The two spellings of no error, or of an error that both implementations have.
abbrev same_error : Option DleError → Option ErrorCode → Bool
same_error none none = true
same_error (some wal_recovery_required) (some err_wal_recovery_required) = true
same_error (some invalid_certificate_reference) (some err_invalid_certificate_reference) = true
same_error (some reject_after_finality) (some err_reject_after_finality) = true
same_error (some reject_accept_conflict) (some err_reject_accept_conflict) = true
same_error _ _ = false

-- The same state: nulls for sentinels. The committed value and the recovery code, which only
-- archive-b keeps, are left out.
pub record Same (s : TendermintState) (t : Types.TendermintState) : Type 0 where
  pub height : t.height ≡ s.height
  pub round : t.round ≡ s.round
  pub step : t.step ≡ b_step s.step
  pub mode : t.mode ≡ b_mode s.mode
  pub locked_value : or_zero t.locked_value_hash ≡ s.locked_value
  pub locked_round : or_none_round t.locked_round ≡ s.locked_round
  pub no_sentinel : t.locked_round ≢ some none_round
  pub valid_value : or_zero t.valid_value_hash ≡ s.valid_value
  pub valid_round : or_none_round t.valid_round ≡ s.valid_round
  pub valid_prevote_qc_ref : or_zero t.valid_prevote_qc_ref ≡ s.valid_prevote_qc_ref
  pub committed_ac_ref : or_zero t.committed_ac_ref ≡ s.committed_ac_ref
  pub reject_ref : or_zero t.reject_ref ≡ s.reject_ref

-- The input comes in the step that archive-a takes it in.
abbrev pub in_step : TendermintState → TendermintInput → Bool
in_step s (TendermintInput.proposal p) = step_is s.step ConsensusStep.propose
in_step s (TendermintInput.prevote_qc v q) = step_is s.step ConsensusStep.prevote
in_step s TendermintInput.prevote_timeout = step_is s.step ConsensusStep.prevote
in_step s (TendermintInput.precommit_qc v c) = step_is s.step ConsensusStep.precommit
in_step s (TendermintInput.precommit_timeout tc) = true
in_step s (TendermintInput.reject_cert r after) = true

abbrev StepAgrees : TendermintState → Types.TendermintState → TendermintInput → Type 0
StepAgrees s t i =
    let a = apply_tendermint_input s i in
    let b = Machine.apply_tendermint_input t (b_input i) in
    (b_outputs a.outputs ≡ b.outputs)
    × (same_error a.error b.error ≡ true)
    × Same a.state b.state
    × (a.state.round < s.round + 2)

step_agrees :
    (s : TendermintState) (t : Types.TendermintState) (i : TendermintInput)
    → Same s t
    → s.round < none_round
    → in_step s i ≡ true
    → StepAgrees s t i
unfolding apply_tendermint_input Machine.apply_tendermint_input
step_agrees s t (TendermintInput.proposal p) h r g = ground arith
step_agrees s t (TendermintInput.prevote_qc v q) h r g = ground arith
step_agrees s t TendermintInput.prevote_timeout h r g = ground arith
step_agrees s t (TendermintInput.precommit_qc v c) h r g = ground arith
step_agrees s t (TendermintInput.precommit_timeout tc) h r g = ground arith
step_agrees s t (TendermintInput.reject_cert x after) h r g = ground arith

-- Every input of the trace comes in the step that archive-a takes it in.
abbrev pub AllInStep : TendermintState → List TendermintInput → Type 0
AllInStep s [] = Unit {0}
AllInStep s (i ∷ is) = (in_step s i ≡ true) × AllInStep (apply_tendermint_input s i).state is

-- The two implementations answer every input of the trace with the same outputs and error, and end in
-- the same state.
abbrev pub Agree : TendermintState → Types.TendermintState → List TendermintInput → Type 0
Agree s t [] = Same s t
Agree s t (i ∷ is) =
    let a = apply_tendermint_input s i in
    let b = Machine.apply_tendermint_input t (b_input i) in
    (b_outputs a.outputs ≡ b.outputs)
    × (same_error a.error b.error ≡ true)
    × Agree a.state b.state is

-- From the same state, on every trace whose inputs come in the steps that archive-a takes them in and
-- which is too short to reach the sentinel's round, the two implementations give the same outputs and
-- errors and end in the same state.
pub traces-Agree :
    (s : TendermintState) (t : Types.TendermintState) (is : List TendermintInput)
    → Same s t
    → AllInStep s is
    → s.round + length is < none_round
    → Agree s t is
traces-Agree s t [] h g r = h
traces-Agree s t (i ∷ is) h g r =
    let (outputs, errors, same, bound) = step_agrees s t i h (omega (arith, r)) g.0 in
    (
      outputs,
      errors,
      traces-Agree (apply_tendermint_input s i).state
          (Machine.apply_tendermint_input t (b_input i)).state is same g.1
          (omega (arith, r, bound)),
    )
