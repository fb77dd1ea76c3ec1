-- ===== src/ArchiveA/Machine.antt =====
-- `applyTendermintInput` of implementations/archive-a/src/core.ts.
pub mod Votes
pub mod Refinement
mod Tests
use co_net_dle.Common.{
  ℕ, ◌+◌, Bool, true, false, not, ◌&&◌, ◌||◌, Option, none, some, List, [], ◌∷◌, ltb, ◌==◌,
  if◌then◌else◌,
}
use co_net_dle.ArchiveA.Types.{
  Hex, zero32, none_round, DleError, wal_recovery_required, lock_conflict, invalid_certificate_kind,
  invalid_certificate_reference, reject_after_finality, reject_accept_conflict,
}

pub data ConsensusStep : Type 0 where
  propose prevote precommit committed : ConsensusStep

pub data ConsensusMode : Type 0 where
  voting recovery frozen : ConsensusMode

pub record TendermintState : Type 0 where
  pub height : ℕ
  pub round : ℕ
  pub step : ConsensusStep
  pub mode : ConsensusMode
  pub locked_value : Hex
  pub locked_round : ℕ
  pub valid_value : Hex
  pub valid_round : ℕ
  pub valid_prevote_qc_ref : Hex
  pub committed_ac_ref : Hex
  pub reject_ref : Hex

-- The fields of a `PROPOSAL`.
pub record Proposal : Type 0 where
  pub value : Hex
  pub available : Bool
  pub valid_round : ℕ
  pub valid_prevote_qc_ref : Hex

pub data TendermintInput : Type 0 where
  proposal : Proposal → TendermintInput
  prevote_qc precommit_qc : Hex → Hex → TendermintInput
  prevote_timeout : TendermintInput
  precommit_timeout : Hex → TendermintInput
  reject_cert : Hex → Bool → TendermintInput

pub data Action : Type 0 where
  prevote precommit enter_round commit freeze : Action

pub record TendermintOutput : Type 0 where
  pub action : Action
  pub value : Hex
  pub reference : Hex

pub record TendermintTransition : Type 0 where
  pub state : TendermintState
  pub outputs : List TendermintOutput
  pub error : Option DleError

unfoldable pub initial_tendermint_state : ℕ → ℕ → TendermintState
initial_tendermint_state height round = record {
  height = height;
  round = round;
  step = ConsensusStep.propose;
  mode = voting;
  locked_value = zero32;
  locked_round = none_round;
  valid_value = zero32;
  valid_round = none_round;
  valid_prevote_qc_ref = zero32;
  committed_ac_ref = zero32;
  reject_ref = zero32;
}

abbrev is_voting : ConsensusMode → Bool
is_voting voting = true
is_voting _ = false

abbrev pub step_is : ConsensusStep → ConsensusStep → Bool
step_is ConsensusStep.propose ConsensusStep.propose = true
step_is ConsensusStep.prevote ConsensusStep.prevote = true
step_is ConsensusStep.precommit ConsensusStep.precommit = true
step_is ConsensusStep.committed ConsensusStep.committed = true
step_is _ _ = false

-- `{ state, outputs: [{ action, value, reference }] }`.
abbrev pub emit : TendermintState → Action → Hex → Hex → TendermintTransition
emit s action value reference = record {
  state = s;
  outputs = record { action = action; value = value; reference = reference } ∷ [];
  error = none;
}

-- `{ state, outputs: [], error }`.
abbrev pub fail : TendermintState → DleError → TendermintTransition
fail s e = record { state = s; outputs = []; error = some e }

-- `vote`: the value that the prevote names.
unfoldable pub proposal_vote : Proposal → TendermintState → Hex
proposal_vote p s =
    if p.available
      && not (p.value == zero32)
      && (s.locked_round == none_round
          || s.locked_value == p.value
          || (not (p.valid_round == none_round)
              && not (s.locked_round == none_round)
              && ltb s.locked_round p.valid_round
              && not (p.valid_prevote_qc_ref == zero32)))
    then p.value
    else zero32

abbrev pub lock_on : Hex → Hex → TendermintState → TendermintState
lock_on v q s = record s {
  step = ConsensusStep.precommit;
  valid_value = v;
  valid_round = s.round;
  valid_prevote_qc_ref = q;
  locked_value = v;
  locked_round = s.round;
}

unfoldable pub enter_next_round : TendermintState → Hex → TendermintTransition
enter_next_round s reference =
    emit (record s { round = s.round + 1; step = ConsensusStep.propose }) Action.enter_round zero32
      reference

-- The `switch` over the input's type.
unfoldable pub dispatch : TendermintInput → TendermintState → TendermintTransition
unfolding proposal_vote enter_next_round
dispatch (proposal p) s =
    if not (step_is s.step ConsensusStep.propose)
    then fail s lock_conflict
    else emit (record s { step = ConsensusStep.prevote }) Action.prevote (proposal_vote p s) zero32
dispatch (prevote_qc v q) s =
    let t = record s { step = ConsensusStep.precommit } in
    if not (step_is s.step ConsensusStep.prevote)
    then fail s invalid_certificate_kind
    else if v == zero32
    then emit t Action.precommit zero32 zero32
    else if q == zero32
    then fail t invalid_certificate_reference
    else emit (lock_on v q s) Action.precommit v q
dispatch prevote_timeout s =
    if not (step_is s.step ConsensusStep.prevote)
    then fail s invalid_certificate_kind
    else emit (record s { step = ConsensusStep.precommit }) Action.precommit zero32 zero32
dispatch (precommit_qc v c) s =
    if not (step_is s.step ConsensusStep.precommit)
    then fail s invalid_certificate_kind
    else if v == zero32
    then enter_next_round s zero32
    else if c == zero32
    then fail s invalid_certificate_reference
    else emit (record s { step = ConsensusStep.committed; committed_ac_ref = c }) Action.commit v c
dispatch (precommit_timeout tc) s = enter_next_round s tc
dispatch (reject_cert r after) s = record {
  state = record s { reject_ref = r; mode = frozen };
  outputs = record { action = Action.freeze; value = zero32; reference = r } ∷ [];
  error = some (if after then reject_after_finality else reject_accept_conflict);
}

unfoldable pub apply_tendermint_input : TendermintState → TendermintInput → TendermintTransition
unfolding dispatch
apply_tendermint_input s i =
    if not (is_voting s.mode) then fail s wal_recovery_required else dispatch i s

-- The state after each input in turn.
unfoldable pub run : TendermintState → List TendermintInput → TendermintState
run s [] = s
run s (i ∷ is) = run (apply_tendermint_input s i).state is
