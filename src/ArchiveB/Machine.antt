-- ===== src/ArchiveB/Machine.antt =====
-- The pure transition function `applyTendermintInput` of
-- implementations/archive-b/src/consensus.ts, which the conformance corpus runs.
pub mod Safety
pub mod Agreement
mod Tests
use co_net_dle.Common.{
  ℕ, ◌+◌, Bool, true, false, not, ◌&&◌, ◌||◌, Option, none, some, List, [], ◌∷◌, ltb, ◌==◌,
  if◌then◌else◌, is_none, is_some_of,
}
use co_net_dle.ArchiveB.Types.{
  Hex, zero32, none_round, TendermintState, ConsensusStep, Mode, voting, frozen, ErrorCode,
  err_wal_recovery_required, err_invalid_certificate_reference, err_reject_after_finality,
  err_reject_accept_conflict,
}

pub record ProposalV2 : Type 0 where
  pub value : Hex
  pub valid_round : ℕ
  pub valid_prevote_qc_ref : Hex
  pub available : Bool

pub data TendermintInputV2 : Type 0 where
  proposal : ProposalV2 → TendermintInputV2
  prevote_qc precommit_qc : Hex → Hex → TendermintInputV2
  prevote_timeout : TendermintInputV2
  precommit_timeout : Hex → TendermintInputV2
  reject_cert : Hex → Bool → TendermintInputV2

pub data Action : Type 0 where
  prevote precommit enter_round commit freeze : Action

pub record TendermintOutputV2 : Type 0 where
  pub action : Action
  pub value : Hex
  pub reference : Hex

pub record Transition : Type 0 where
  pub state : TendermintState
  pub outputs : List TendermintOutputV2
  pub error : Option ErrorCode

abbrev is_voting : Mode → Bool
is_voting voting = true
is_voting _ = false

-- `{ state, outputs: [{ action, value, reference }] }`.
abbrev pub emit : TendermintState → Action → Hex → Hex → Transition
emit s action value reference = record {
  state = s;
  outputs = record { action = action; value = value; reference = reference } ∷ [];
  error = none;
}

-- `{ state, outputs: [], error }`.
abbrev pub fail : TendermintState → ErrorCode → Transition
fail s e = record { state = s; outputs = []; error = some e }

-- `lockedRound !== null && validRound > lockedRound`.
abbrev above_lock : Option ℕ → ℕ → Bool
above_lock none v = false
above_lock (some l) v = ltb l v

-- The value that the proposal's prevote names: its own, or the nil value.
unfoldable pub proposal_value : ProposalV2 → TendermintState → Hex
proposal_value p s =
    if p.available
      && not (p.value == zero32)
      && (is_none s.locked_round
          || is_some_of s.locked_value_hash p.value
          || (not (p.valid_round == none_round)
              && above_lock s.locked_round p.valid_round
              && not (p.valid_prevote_qc_ref == zero32)))
    then p.value
    else zero32

abbrev pub locked_state : Hex → Hex → TendermintState → TendermintState
locked_state v q s = record s {
  step = ConsensusStep.precommit;
  valid_value_hash = some v;
  valid_round = some s.round;
  valid_prevote_qc_ref = some q;
  locked_value_hash = some v;
  locked_round = some s.round;
}

abbrev next_round_state : TendermintState → TendermintState
next_round_state s = record s { round = s.round + 1; step = ConsensusStep.propose }

-- The `switch` over the input's type.
unfoldable pub dispatch : TendermintInputV2 → TendermintState → Transition
unfolding proposal_value
dispatch (proposal p) s =
    emit (record s { step = ConsensusStep.prevote }) Action.prevote (proposal_value p s) zero32
dispatch (prevote_qc v q) s =
    let t = record s { step = ConsensusStep.precommit } in
    if v == zero32
    then emit t Action.precommit zero32 zero32
    else if q == zero32
    then fail t err_invalid_certificate_reference
    else emit (locked_state v q s) Action.precommit v q
dispatch prevote_timeout s =
    emit (record s { step = ConsensusStep.precommit }) Action.precommit zero32 zero32
dispatch (precommit_qc v c) s =
    if v == zero32
    then emit (next_round_state s) Action.enter_round zero32 zero32
    else if c == zero32
    then fail s err_invalid_certificate_reference
    else emit
        (record s {
          step = ConsensusStep.committed;
          committed_value_hash = some v;
          committed_ac_ref = some c;
        })
        Action.commit v c
dispatch (precommit_timeout tc) s = emit (next_round_state s) Action.enter_round zero32 tc
dispatch (reject_cert r after) s =
    let code = if after then err_reject_after_finality else err_reject_accept_conflict in
    record {
      state = record s { reject_ref = some r; mode = frozen; recovery_code = some code };
      outputs = record { action = Action.freeze; value = zero32; reference = r } ∷ [];
      error = some code;
    }

unfoldable pub apply_tendermint_input : TendermintState → TendermintInputV2 → Transition
unfolding dispatch
apply_tendermint_input s i =
    if not (is_voting s.mode) then fail s err_wal_recovery_required else dispatch i s

-- A corpus trace: the state after each input in turn.
unfoldable pub run : TendermintState → List TendermintInputV2 → TendermintState
run s [] = s
run s (i ∷ is) = run (apply_tendermint_input s i).state is
