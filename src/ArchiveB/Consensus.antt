-- ===== src/ArchiveB/Consensus.antt =====
-- The class `ArchiveTendermint` of implementations/archive-b/src/consensus.ts: one archive's vote
-- state, and the handlers that a proposal, a quorum certificate or a timeout calls.
pub mod Lock
pub mod Votes
pub mod Records
mod Tests
use co_net_dle.Common.{
  ℕ, ◌+◌, Bool, true, false, not, ◌&&◌, ◌||◌, Option, none, some, List, [], ◌∷◌, Result, ok, err,
  ltb, ◌==◌, if◌then◌else◌, is_none, is_some_of, lookup, insert,
}
use co_net_dle.ArchiveB.Types.{
  Hex, zero32, TendermintState, ConsensusStep, voting, recovery, frozen, ErrorCode,
  err_wal_recovery_required, err_invalid_valid_round, err_signing_root_mismatch,
  err_reject_after_finality, err_reject_accept_conflict, persist_failed, ProposalInput, VoteStep,
  VoteIntent, coordinator_equivocation, invalid_proposal, candidate_unavailable, lock_conflict,
  prevote_timeout,
}

pub data TransitionEvent : Type 0 where
  proposal conflicting_proposal prevote_qc prevote_timed_out precommit_qc : TransitionEvent
  precommit_timeout_certificate : TransitionEvent

-- The callback `persist`, which is not part of this code: whether it stores the transition (`true`)
-- or rejects.
abbrev pub DurableTransition : Type 0
DurableTransition = TransitionEvent → TendermintState → TendermintState → Option VoteIntent → Bool

-- `conflictKey` is a text that is only compared.
abbrev pub ConflictKey : Type 0
ConflictKey = ℕ

pub record FirstProposal : Type 0 where
  pub proposal_hash : Hex
  pub value_hash : Hex

pub record ArchiveTendermint : Type 0 where
  pub state : TendermintState
  pub first_proposal : List (ℕ × FirstProposal)
  pub reject_conflict_key : Option ConflictKey
  pub accept_qc_conflict_key : Option ConflictKey
  pub final_conflict_key : Option ConflictKey

unfoldable pub initial_tendermint_state : ℕ → ℕ → TendermintState
initial_tendermint_state height round = record {
  height = height;
  round = round;
  step = ConsensusStep.propose;
  mode = voting;
  locked_value_hash = none;
  locked_round = none;
  valid_value_hash = none;
  valid_round = none;
  valid_prevote_qc_ref = none;
  committed_value_hash = none;
  committed_ac_ref = none;
  reject_ref = none;
  recovery_code = none;
}

-- The constructor.
unfoldable pub new : TendermintState → ArchiveTendermint
new s = record {
  state = s;
  first_proposal = [];
  reject_conflict_key = none;
  accept_qc_conflict_key = none;
  final_conflict_key = none;
}

-- What a handler ends with: its promise's value or rejection, and the object.
abbrev pub Outcome : Type 0
Outcome = Result ErrorCode (Option VoteIntent) × ArchiveTendermint

-- A `mutate` callback, which writes the draft and returns the vote.
abbrev pub Mutate : Type 0
Mutate = TendermintState → Option VoteIntent × TendermintState

-- `#commit` up to its `await`: the guard on recovery, then the draft and its vote.
unfoldable pub commit_begin :
    Mutate → TendermintState → Result ErrorCode (Option VoteIntent × TendermintState)
commit_begin mutate s = elim s.recovery_code [
  | none ↦ ok (mutate s)
  | some _ ↦ err err_wal_recovery_required
]

-- `#commit` after its `await`: `this.#state = draft`.
unfoldable pub commit_end : TendermintState → ArchiveTendermint → ArchiveTendermint
commit_end draft a = record a { state = draft }

-- `#commit` where nothing else runs during the `await`.
unfoldable pub commit : DurableTransition → TransitionEvent → Mutate → ArchiveTendermint → Outcome
unfolding commit_begin commit_end
commit persist event mutate a = elim (commit_begin mutate a.state) [
  | err e ↦ (err e, a)
  | ok (output, draft) ↦
      if persist event a.state draft output
      then (ok output, commit_end draft a)
      else (err persist_failed, a)
]

abbrev nil_prevote : ℕ → VoteIntent
nil_prevote r = record {
  step = VoteStep.prevote;
  round = r;
  value_hash = none;
  prevote_qc_ref = none;
  reason = none;
}

unfoldable pub equivocation_mutate : ProposalInput → Mutate
equivocation_mutate p s = (
  some (record (nil_prevote p.round) { reason = some coordinator_equivocation }),
  record s { step = ConsensusStep.prevote },
)

-- `validRound !== null && … && validRound < round && (lockedRound === null || validRound > lockedRound)`.
abbrev pub is_above_lock : Option ℕ → ℕ → Bool
is_above_lock none r = true
is_above_lock (some l) r = ltb l r

abbrev pub valid_round_fits : Option ℕ → Option ℕ → ℕ → Bool
valid_round_fits none lock r = false
valid_round_fits (some v) lock r = ltb v r && is_above_lock lock v

abbrev pub justified_unlock : ProposalInput → TendermintState → Bool
justified_unlock p s =
    not (is_none p.valid_prevote_qc_ref)
    && p.valid_prevote_qc_verified
    && valid_round_fits p.valid_round s.locked_round p.round

unfoldable pub proposal_mutate : ProposalInput → Mutate
proposal_mutate p s =
    let draft = record s { step = ConsensusStep.prevote } in
    if not p.valid || not p.available
    then (
      some (record (nil_prevote p.round) {
        reason = some (if not p.valid then invalid_proposal else candidate_unavailable);
      }),
      draft,
    )
    else if is_none s.locked_value_hash
        || is_some_of s.locked_value_hash p.value_hash
        || justified_unlock p s
    then (some (record (nil_prevote p.round) { value_hash = some p.value_hash }), draft)
    else (some (record (nil_prevote p.round) { reason = some lock_conflict }), draft)

-- `this.#firstProposal.set(…)`, for the first valid and available proposal of the round.
abbrev pub note_first : ProposalInput → ArchiveTendermint → ArchiveTendermint
note_first p a =
    if p.valid && p.available
    then record a {
      first_proposal =
          insert p.round (record { proposal_hash = p.proposal_hash; value_hash = p.value_hash })
            a.first_proposal;
    }
    else a

unfoldable pub on_proposal : DurableTransition → ProposalInput → ArchiveTendermint → Outcome
unfolding commit proposal_mutate equivocation_mutate
on_proposal persist p a =
    if not (p.round == a.state.round)
    then (err err_invalid_valid_round, a)
    else elim (lookup p.round a.first_proposal) [
      | none ↦ commit persist proposal (proposal_mutate p) (note_first p a)
      | some prior ↦
          if not (prior.proposal_hash == p.proposal_hash)
          then commit persist conflicting_proposal (equivocation_mutate p) a
          else commit persist proposal (proposal_mutate p) a
    ]

abbrev precommit_intent : ℕ → VoteIntent
precommit_intent r = record (nil_prevote r) { step = VoteStep.precommit }

unfoldable pub prevote_qc_mutate : ℕ → Option Hex → Hex → Mutate
prevote_qc_mutate r none qc_ref s = (
  some (record (precommit_intent r) { prevote_qc_ref = some qc_ref }),
  record s { step = ConsensusStep.precommit },
)
prevote_qc_mutate r (some v) qc_ref s = (
  some (record (precommit_intent r) { value_hash = some v; prevote_qc_ref = some qc_ref }),
  record s {
    step = ConsensusStep.precommit;
    valid_value_hash = some v;
    valid_round = some r;
    valid_prevote_qc_ref = some qc_ref;
    locked_value_hash = some v;
    locked_round = some r;
  },
)

unfoldable pub on_prevote_qc :
    DurableTransition → ℕ → Option Hex → Hex → ArchiveTendermint → Outcome
unfolding commit prevote_qc_mutate
on_prevote_qc persist r value qc_ref a =
    if not (r == a.state.round)
    then (err err_invalid_valid_round, a)
    else if qc_ref == zero32
    then (err err_signing_root_mismatch, a)
    else commit persist prevote_qc (prevote_qc_mutate r value qc_ref) a

abbrev pub timeout_mutate : ℕ → Mutate
timeout_mutate r s = (
  some (record (precommit_intent r) { reason = some prevote_timeout }),
  record s { step = ConsensusStep.precommit },
)

unfoldable pub on_prevote_timeout : DurableTransition → ℕ → ArchiveTendermint → Outcome
unfolding commit
on_prevote_timeout persist r a =
    if not (r == a.state.round)
    then (err err_invalid_valid_round, a)
    else commit persist prevote_timed_out (timeout_mutate r) a

-- `draft.round += 1; draft.step = 'PROPOSE'`.
abbrev pub next_round_mutate : Mutate
next_round_mutate s = (none, record s { round = s.round + 1; step = ConsensusStep.propose })

abbrev pub precommit_qc_mutate : Option Hex → Option Hex → Mutate
precommit_qc_mutate none ac_ref s = next_round_mutate s
precommit_qc_mutate (some v) ac_ref s = (
  none,
  record s {
    committed_value_hash = some v;
    committed_ac_ref = ac_ref;
    step = ConsensusStep.committed;
  },
)

unfoldable pub on_precommit_qc :
    DurableTransition → ℕ → Option Hex → Option Hex → ArchiveTendermint → Outcome
unfolding commit
on_precommit_qc persist r value ac_ref a =
    if not (r == a.state.round)
    then (err err_invalid_valid_round, a)
    else commit persist precommit_qc (precommit_qc_mutate value ac_ref) a

unfoldable pub on_precommit_timeout_certificate :
    DurableTransition → ℕ → ArchiveTendermint → Outcome
unfolding commit
on_precommit_timeout_certificate persist r a =
    if not (r == a.state.round)
    then (err err_invalid_valid_round, a)
    else commit persist precommit_timeout_certificate next_round_mutate a

-- `enterRecovery`; its code is one of the error codes, so never the empty text.
unfoldable pub enter_recovery : ErrorCode → ArchiveTendermint → ArchiveTendermint
enter_recovery code a = record a {
  state = record (a.state) { recovery_code = some code; mode = recovery };
}

abbrev frozen_state : TendermintState → TendermintState
frozen_state s = record s { mode = frozen; recovery_code = some err_reject_accept_conflict }

unfoldable pub record_reject_certificate : ConflictKey → ArchiveTendermint → Outcome
record_reject_certificate key a =
    if is_some_of a.final_conflict_key key
    then (err err_reject_after_finality, a)
    else let b = record a { reject_conflict_key = some key; state = frozen_state a.state } in
      if is_some_of a.accept_qc_conflict_key key
      then (err err_reject_accept_conflict, b)
      else (ok none, b)

unfoldable pub record_accept_qc : ConflictKey → ArchiveTendermint → Outcome
unfolding enter_recovery
record_accept_qc key a =
    let b = record a { accept_qc_conflict_key = some key } in
    if is_some_of a.reject_conflict_key key
    then (err err_reject_accept_conflict, enter_recovery err_reject_accept_conflict b)
    else (ok none, b)

unfoldable pub record_final_certificate : ConflictKey → ArchiveTendermint → ArchiveTendermint
record_final_certificate key a = record a { final_conflict_key = some key }

-- A call of one of the public methods.
pub data Call : Type 0 where
  proposed : ProposalInput → Call
  prevote_quorum : ℕ → Option Hex → Hex → Call
  prevote_expired : ℕ → Call
  precommit_quorum : ℕ → Option Hex → Option Hex → Call
  precommit_expired : ℕ → Call
  recover : ErrorCode → Call
  rejected accepted finalised : ConflictKey → Call

unfoldable pub step : DurableTransition → Call → ArchiveTendermint → Outcome
unfolding on_proposal on_prevote_qc on_prevote_timeout on_precommit_qc
    on_precommit_timeout_certificate enter_recovery record_reject_certificate record_accept_qc
    record_final_certificate
step persist (proposed p) a = on_proposal persist p a
step persist (prevote_quorum r v q) a = on_prevote_qc persist r v q a
step persist (prevote_expired r) a = on_prevote_timeout persist r a
step persist (precommit_quorum r v c) a = on_precommit_qc persist r v c a
step persist (precommit_expired r) a = on_precommit_timeout_certificate persist r a
step persist (recover code) a = (ok none, enter_recovery code a)
step persist (rejected k) a = record_reject_certificate k a
step persist (accepted k) a = record_accept_qc k a
step persist (finalised k) a = (ok none, record_final_certificate k a)

-- A sequence of calls, each made when the one before has settled.
unfoldable pub run : DurableTransition → List Call → ArchiveTendermint → ArchiveTendermint
run persist [] a = a
run persist (c ∷ cs) a = run persist cs (step persist c a).1
