-- ===== src/ArchiveA/Types.antt =====
-- The constants, error codes and enums at the top of implementations/archive-a/src/core.ts.
use co_net_dle.Common.{ℕ}

-- A hash that the code only compares: a number names the text, and `ZERO32` has the number 0.
abbrev pub Hex : Type 0
Hex = ℕ

abbrev pub zero32 : Hex
zero32 = 0

abbrev pub none_round : ℕ
none_round = 0xffff_ffff

pub data DleError : Type 0 where
  invalid_canonical_ssz signing_root_mismatch nil_encoding invalid_valid_round : DleError
  lock_conflict invalid_certificate_kind invalid_certificate_reference invalid_quorum : DleError
  duplicate_signer non_canonical_signer_order signer_not_active wal_double_sign : DleError
  wal_recovery_required wal_sequence membership_not_active membership_root_mismatch : DleError
  mixed_membership_root key_epoch_mismatch ambiguous_l1_membership_checkpoint : DleError
  reject_accept_conflict reject_after_finality invalid_reject_reason : DleError
  invalid_reject_evidence invalid_coordinator invalid_rs_codeword insufficient_shards : DleError
  lifecycle_transition : DleError
