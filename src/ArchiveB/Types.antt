-- ===== src/ArchiveB/Types.antt =====
-- implementations/archive-b/src/types.ts, and the error codes that the module's functions throw.
use co_net_dle.Common.{ℕ, Bool, Option}

-- A hash or other hex text that the protocol code only compares: a number names the text, and the
-- all-zero hash has the number 0.
abbrev pub Hex : Type 0
Hex = ℕ

abbrev pub zero32 : Hex
zero32 = 0

abbrev pub none_round : ℕ
none_round = 0xffff_ffff

pub data ConsensusStep : Type 0 where
  propose prevote precommit committed : ConsensusStep

pub data Mode : Type 0 where
  voting recovery frozen : Mode

pub data ErrorCode : Type 0 where
  err_wal_recovery_required err_invalid_valid_round err_signing_root_mismatch : ErrorCode
  err_reject_after_finality err_reject_accept_conflict : ErrorCode
  err_invalid_certificate_reference : ErrorCode
  err_membership_not_active err_key_epoch_mismatch err_mixed_membership_root : ErrorCode
  err_ambiguous_l1_membership_checkpoint err_membership_root_mismatch : ErrorCode
  persist_failed : ErrorCode

pub record TendermintState : Type 0 where
  pub height : ℕ
  pub round : ℕ
  pub step : ConsensusStep
  pub mode : Mode
  pub locked_value_hash : Option Hex
  pub locked_round : Option ℕ
  pub valid_value_hash : Option Hex
  pub valid_round : Option ℕ
  pub valid_prevote_qc_ref : Option Hex
  pub committed_value_hash : Option Hex
  pub committed_ac_ref : Option Hex
  pub reject_ref : Option Hex
  pub recovery_code : Option ErrorCode

pub record ProposalInput : Type 0 where
  pub round : ℕ
  pub value_hash : Hex
  pub valid : Bool
  pub available : Bool
  pub valid_round : Option ℕ
  pub valid_prevote_qc_ref : Option Hex
  pub valid_prevote_qc_verified : Bool
  pub proposal_hash : Hex

pub data Reason : Type 0 where
  coordinator_equivocation invalid_proposal candidate_unavailable lock_conflict : Reason
  prevote_timeout : Reason

pub data VoteStep : Type 0 where
  prevote precommit : VoteStep

pub record VoteIntent : Type 0 where
  pub step : VoteStep
  pub round : ℕ
  pub value_hash : Option Hex
  pub prevote_qc_ref : Option Hex
  pub reason : Option Reason

pub record MembershipView : Type 0 where
  pub activation_height : ℕ
  pub old_membership_root : Hex
  pub old_key_epoch : ℕ
  pub new_membership_root : Hex
  pub new_key_epoch : ℕ
  pub l1_switch_final : Bool
