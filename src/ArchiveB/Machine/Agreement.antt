-- ===== src/ArchiveB/Machine/Agreement.antt =====
-- The class `ArchiveTendermint` beside `applyTendermintInput`, both in
-- implementations/archive-b/src/consensus.ts.
use co_net_dle.Common.{ℕ, ◌≡◌, refl, ◌≢◌, true, Option, none, some, arith}
use mathlib.Core.Path.{fun_ext}
use co_net_dle.ArchiveB.Types.{ProposalInput, voting, none_round}
use co_net_dle.ArchiveB.Consensus.{
  DurableTransition, ArchiveTendermint, Call, prevote_quorum, prevote_expired, precommit_quorum,
  precommit_expired, step,
}
use co_net_dle.ArchiveB.Consensus.Lock.{IsSound}
use co_net_dle.ArchiveB.Consensus.Votes.{Stores, Votable}
use co_net_dle.ArchiveB.Machine.{
  TendermintInputV2, ProposalV2, prevote_qc, precommit_qc, prevote_timeout, precommit_timeout,
  proposal_value, apply_tendermint_input,
}

-- A nullable round or hash as the wire spells it.
abbrev or_none_round : Option ℕ → ℕ
or_none_round none = none_round
or_none_round (some r) = r

abbrev or_zero : Option ℕ → ℕ
or_zero none = 0
or_zero (some h) = h

abbrev pub wire_proposal : ProposalInput → ProposalV2
wire_proposal p = record {
  value = p.value_hash;
  valid_round = or_none_round p.valid_round;
  valid_prevote_qc_ref = or_zero p.valid_prevote_qc_ref;
  available = p.available;
}

-- The input of the transition function that stands for a call in round `r`.
pub data Stands (r : ℕ) : Call → TendermintInputV2 → Type 0 where
  for_value : (v q : ℕ) → v ≢ 0 → q ≢ 0 → Stands r (prevote_quorum r (some v) q) (prevote_qc v q)
  for_nil : (q : ℕ) → q ≢ 0 → Stands r (prevote_quorum r none q) (prevote_qc 0 q)
  late_prevote : Stands r (prevote_expired r) prevote_timeout
  commits :
      (v c : ℕ) → v ≢ 0 → c ≢ 0 → Stands r (precommit_quorum r (some v) (some c)) (precommit_qc v c)
  nil_commit : (c : Option ℕ) → Stands r (precommit_quorum r none c) (precommit_qc 0 0)
  late_precommit : (tc : ℕ) → Stands r (precommit_expired r) (precommit_timeout tc)

abbrev always : DurableTransition
always e s t o = true

always_same :
    (r : ℕ) (a : ArchiveTendermint)
    → r ≡ a.state.round
    → a.state.recovery_code ≡ none
    → a.state.mode ≡ voting
    → {c : Call} {i : TendermintInputV2} → Stands r c i
    → (step always c a).1.state ≡ (apply_tendermint_input a.state i).state
unfolding step apply_tendermint_input
always_same r a e n m (for_value v q nv nq) = ground arith
always_same r a e n m (for_nil q nq) = ground arith
always_same r a e n m late_prevote = ground arith
always_same r a e n m (commits v c nv nc) = ground arith
always_same r a e n m (nil_commit c) = ground arith
always_same r a e n m (late_precommit tc) = ground arith

-- Where the archive votes, has no recovery code and its transitions are stored, each of these inputs of
-- the current round moves the class to the state that the transition function gives for it: a prevote
-- certificate with a non-zero reference, for a non-zero value or for nil, a precommit certificate for
-- nil or for a non-zero value with a non-zero reference, and the two timeouts.
pub same_state :
    (persist : DurableTransition)
    → Stores persist
    → (a : ArchiveTendermint) → a.state.recovery_code ≡ none
    → a.state.mode ≡ voting
    → {c : Call} {i : TendermintInputV2} → Stands a.state.round c i
    → (step persist c a).1.state ≡ (apply_tendermint_input a.state i).state
same_state persist st a n m {c} {i} h =
    let p : persist ≡ always = fun_ext λ e. fun_ext λ s. fun_ext λ t. fun_ext λ o. st e s t o in
    rw p (always_same a.state.round a refl n m h)

-- What the class votes for, the transition function votes for: a proposal of a non-nil value that the
-- class may prevote for in a sound state, with a valid round below the sentinel and no zero reference.
pub Votable-agrees :
    (p : ProposalInput) (a : ArchiveTendermint)
    → IsSound a.state
    → Votable p a
    → p.value_hash ≢ 0
    → p.valid_round ≢ some none_round
    → p.valid_prevote_qc_ref ≢ some 0
    → proposal_value (wire_proposal p) a.state ≡ p.value_hash
unfolding proposal_value
Votable-agrees p a s v n r z = ground arith
