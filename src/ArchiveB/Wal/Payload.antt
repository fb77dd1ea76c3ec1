-- ===== src/ArchiveB/Wal/Payload.antt =====
-- `DurableVoteRecord`, `encodeWalSafetyRecord` and `emptySafetyVote`.
use co_net_dle.Common.{
  [], replicate, ℕ, not, ◌++◌, Result, ok, ◌>>=◌, ◌>>◌, throw_if, length, text_beq, Bytes,
}
use co_net_dle.ArchiveB.Wal.Errors.{WalError, little_endian, fixed_hex, err_signing_root_mismatch}

-- Hex fields are given as the bytes that they spell, and decimal texts as their numbers.
pub record DurableVoteRecord : Type 0 where
  pub version : ℕ
  pub kind : ℕ
  pub domain : ℕ
  pub height : ℕ
  pub round : ℕ
  pub step : ℕ
  pub canonical_sign_bytes : Bytes
  pub sign_bytes_hash : Bytes
  pub signing_root : Bytes
  pub signature : Bytes
  pub proposal_hash : Bytes
  pub locked_value : Bytes
  pub locked_round : ℕ
  pub valid_value : Bytes
  pub valid_round : ℕ
  pub prevote_qc_ref : Bytes
  pub timeout_certificate_ref : Bytes
  pub membership_epoch : ℕ
  pub membership_root : Bytes
  pub key_epoch : ℕ
  pub committed_height : ℕ

-- `sha256` is the library's hash. The sign bytes' own width is the one that `fixedHex` is given.
unfoldable pub encode_wal_safety_record :
    (Bytes → Bytes) → DurableVoteRecord → Result WalError Bytes
encode_wal_safety_record sha256 r = do
  let sign_bytes = r.canonical_sign_bytes
  claimed ← fixed_hex r.sign_bytes_hash 32
  throw_if (not (text_beq (sha256 sign_bytes) claimed)) err_signing_root_mismatch
  version ← little_endian r.version 2
  kind ← little_endian r.kind 1
  domain ← little_endian r.domain 1
  height ← little_endian r.height 8
  round ← little_endian r.round 4
  step ← little_endian r.step 1
  size ← little_endian (length sign_bytes) 4
  signing_root ← fixed_hex r.signing_root 32
  signature ← fixed_hex r.signature 65
  proposal_hash ← fixed_hex r.proposal_hash 32
  locked_value ← fixed_hex r.locked_value 32
  locked_round ← little_endian r.locked_round 4
  valid_value ← fixed_hex r.valid_value 32
  valid_round ← little_endian r.valid_round 4
  prevote_qc_ref ← fixed_hex r.prevote_qc_ref 32
  timeout_certificate_ref ← fixed_hex r.timeout_certificate_ref 32
  membership_epoch ← little_endian r.membership_epoch 8
  membership_root ← fixed_hex r.membership_root 32
  key_epoch ← little_endian r.key_epoch 8
  committed_height ← little_endian r.committed_height 8
  ok (
      version
      ++ (kind
          ++ (domain
              ++ (height
                  ++ (round
                      ++ (step
                          ++ (size
                              ++ (sign_bytes
                                  ++ (signing_root
                                      ++ (signature
                                          ++ (proposal_hash
                                              ++ (locked_value
                                                  ++ (locked_round
                                                      ++ (valid_value
                                                          ++ (valid_round
                                                            ++ (prevote_qc_ref
                                                            ++ (timeout_certificate_ref
                                                            ++ (membership_epoch
                                                            ++ (membership_root
                                                            ++ (key_epoch
                                                            ++ committed_height))))))))))))))))))))

abbrev zero32 : Bytes
zero32 = replicate 32 0

-- `emptySafetyVote` without overrides.
unfoldable pub empty_safety_vote : (Bytes → Bytes) → DurableVoteRecord
empty_safety_vote sha256 = record {
  version = 1;
  kind = 1;
  domain = 1;
  height = 0;
  round = 0;
  step = 0;
  canonical_sign_bytes = [];
  sign_bytes_hash = sha256 [];
  signing_root = zero32;
  signature = replicate 65 0;
  proposal_hash = zero32;
  locked_value = zero32;
  locked_round = 0xffff_ffff;
  valid_value = zero32;
  valid_round = 0xffff_ffff;
  prevote_qc_ref = zero32;
  timeout_certificate_ref = zero32;
  membership_epoch = 0;
  membership_root = zero32;
  key_epoch = 0;
  committed_height = 0;
}
