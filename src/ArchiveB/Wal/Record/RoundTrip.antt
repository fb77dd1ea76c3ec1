-- ===== src/ArchiveB/Wal/Record/RoundTrip.antt =====
-- `encodeWalSafetyRecord` and `decodeWalSafetyRecord` of implementations/archive-b/src/wal.ts together.
use co_net_dle.Common.{
  ◌+◌, ◌^◌, ◌<◌, ◌≡◌, refl, ap, [], ◌++◌, arith, ok, length, length-append, text_beq_iff, Bytes,
  le_bytes, length-le_bytes,
}
use co_net_dle.ArchiveB.Wal.Errors.{little_endian-ok, fixed_hex-ok}
use co_net_dle.ArchiveB.Wal.Payload.{DurableVoteRecord, encode_wal_safety_record}
use co_net_dle.ArchiveB.Wal.Reader.{bytes-then, number-then, number-last, pure}
use co_net_dle.ArchiveB.Wal.Record.{Head, read_head, read_rest, decode_wal_safety_record}

-- The numbers fit their widths, the hashes are 32 bytes and the signature 65, and the claimed hash is
-- that of the sign bytes.
pub record Fits (sha256 : Bytes → Bytes) (r : DurableVoteRecord) : Type 0 where
  pub version_fits : r.version < 256 ^ 2
  pub kind_fits : r.kind < 256 ^ 1
  pub domain_fits : r.domain < 256 ^ 1
  pub height_fits : r.height < 256 ^ 8
  pub round_fits : r.round < 256 ^ 4
  pub step_fits : r.step < 256 ^ 1
  pub sign_bytes_fit : length r.canonical_sign_bytes < 256 ^ 4
  pub hash_width : length r.sign_bytes_hash ≡ 32
  pub hash_claimed : sha256 r.canonical_sign_bytes ≡ r.sign_bytes_hash
  pub signing_root_width : length r.signing_root ≡ 32
  pub signature_width : length r.signature ≡ 65
  pub proposal_width : length r.proposal_hash ≡ 32
  pub locked_width : length r.locked_value ≡ 32
  pub locked_round_fits : r.locked_round < 256 ^ 4
  pub valid_width : length r.valid_value ≡ 32
  pub valid_round_fits : r.valid_round < 256 ^ 4
  pub prevote_width : length r.prevote_qc_ref ≡ 32
  pub timeout_width : length r.timeout_certificate_ref ≡ 32
  pub epoch_fits : r.membership_epoch < 256 ^ 8
  pub membership_width : length r.membership_root ≡ 32
  pub key_epoch_fits : r.key_epoch < 256 ^ 8
  pub committed_fits : r.committed_height < 256 ^ 8

-- The payload after the head.
abbrev rest_layout : DurableVoteRecord → Bytes
rest_layout r =
    r.canonical_sign_bytes
    ++ (r.signing_root
        ++ (r.signature
            ++ (r.proposal_hash
                ++ (r.locked_value
                    ++ (le_bytes 4 r.locked_round
                        ++ (r.valid_value
                            ++ (le_bytes 4 r.valid_round
                                ++ (r.prevote_qc_ref
                                    ++ (r.timeout_certificate_ref
                                        ++ (le_bytes 8 r.membership_epoch
                                            ++ (r.membership_root
                                                ++ (le_bytes 8 r.key_epoch
                                                    ++ le_bytes 8 r.committed_height))))))))))))

abbrev layout : DurableVoteRecord → Bytes
layout r =
    le_bytes 2 r.version
    ++ (le_bytes 1 r.kind
        ++ (le_bytes 1 r.domain
            ++ (le_bytes 8 r.height
                ++ (le_bytes 4 r.round
                    ++ (le_bytes 1 r.step
                        ++ (le_bytes 4 (length r.canonical_sign_bytes) ++ rest_layout r))))))

encode-eq-layout :
    (sha256 : Bytes → Bytes) (r : DurableVoteRecord)
    → Fits sha256 r
    → encode_wal_safety_record sha256 r ≡ ok (layout r)
unfolding encode_wal_safety_record
encode-eq-layout sha256 r f = rw (
  fixed_hex-ok r.sign_bytes_hash 32 f.hash_width,
  (text_beq_iff (sha256 r.canonical_sign_bytes) r.sign_bytes_hash).1 f.hash_claimed,
  little_endian-ok r.version 2 f.version_fits,
  little_endian-ok r.kind 1 f.kind_fits,
  little_endian-ok r.domain 1 f.domain_fits,
  little_endian-ok r.height 8 f.height_fits,
  little_endian-ok r.round 4 f.round_fits,
  little_endian-ok r.step 1 f.step_fits,
  little_endian-ok (length r.canonical_sign_bytes) 4 f.sign_bytes_fit,
  fixed_hex-ok r.signing_root 32 f.signing_root_width,
  fixed_hex-ok r.signature 65 f.signature_width,
  fixed_hex-ok r.proposal_hash 32 f.proposal_width,
  fixed_hex-ok r.locked_value 32 f.locked_width,
  little_endian-ok r.locked_round 4 f.locked_round_fits,
  fixed_hex-ok r.valid_value 32 f.valid_width,
  little_endian-ok r.valid_round 4 f.valid_round_fits,
  fixed_hex-ok r.prevote_qc_ref 32 f.prevote_width,
  fixed_hex-ok r.timeout_certificate_ref 32 f.timeout_width,
  little_endian-ok r.membership_epoch 8 f.epoch_fits,
  fixed_hex-ok r.membership_root 32 f.membership_width,
  little_endian-ok r.key_epoch 8 f.key_epoch_fits,
  little_endian-ok r.committed_height 8 f.committed_fits,
)

abbrev head_of : DurableVoteRecord → Head
head_of r = record {
  version = r.version;
  kind = r.kind;
  domain = r.domain;
  height = r.height;
  round = r.round;
  step = r.step;
  size = length r.canonical_sign_bytes;
}

read_head-layout :
    (sha256 : Bytes → Bytes) (r : DurableVoteRecord)
    → Fits sha256 r
    → read_head (layout r) ≡ (head_of r, rest_layout r)
unfolding read_head pure
read_head-layout sha256 r f = rw (
  number-then r.version 2 f.version_fits,
  number-then r.kind 1 f.kind_fits,
  number-then r.domain 1 f.domain_fits,
  number-then r.height 8 f.height_fits,
  number-then r.round 4 f.round_fits,
  number-then r.step 1 f.step_fits,
  number-then (length r.canonical_sign_bytes) 4 f.sign_bytes_fit,
)

read_rest-layout :
    (sha256 : Bytes → Bytes) (r : DurableVoteRecord)
    → Fits sha256 r
    → read_rest sha256 (head_of r) (rest_layout r) ≡ (r, [])
unfolding read_rest pure
read_rest-layout sha256 r f =
    rw
      (
        bytes-then r.canonical_sign_bytes (length r.canonical_sign_bytes) refl,
        bytes-then r.signing_root 32 f.signing_root_width,
        bytes-then r.signature 65 f.signature_width,
        bytes-then r.proposal_hash 32 f.proposal_width,
        bytes-then r.locked_value 32 f.locked_width,
        number-then r.locked_round 4 f.locked_round_fits,
        bytes-then r.valid_value 32 f.valid_width,
        number-then r.valid_round 4 f.valid_round_fits,
        bytes-then r.prevote_qc_ref 32 f.prevote_width,
        bytes-then r.timeout_certificate_ref 32 f.timeout_width,
        number-then r.membership_epoch 8 f.epoch_fits,
        bytes-then r.membership_root 32 f.membership_width,
        number-then r.key_epoch 8 f.key_epoch_fits,
        number-last r.committed_height 8 f.committed_fits,
      )
      (ap (λ hash. (record r { sign_bytes_hash = hash }, [])) f.hash_claimed)

length-rest :
    (sha256 : Bytes → Bytes) (r : DurableVoteRecord)
    → Fits sha256 r
    → length (rest_layout r) ≡ length r.canonical_sign_bytes + 321
length-rest sha256 r f =
    rw
      (
        length-append r.canonical_sign_bytes,
        length-append r.signing_root,
        length-append r.signature,
        length-append r.proposal_hash,
        length-append r.locked_value,
        length-append (le_bytes 4 r.locked_round),
        length-append r.valid_value,
        length-append (le_bytes 4 r.valid_round),
        length-append r.prevote_qc_ref,
        length-append r.timeout_certificate_ref,
        length-append (le_bytes 8 r.membership_epoch),
        length-append r.membership_root,
        length-append (le_bytes 8 r.key_epoch),
      )
      (omega (arith, length-le_bytes))

length-layout :
    (sha256 : Bytes → Bytes) (r : DurableVoteRecord)
    → Fits sha256 r
    → length (layout r) ≡ 21 + length r.canonical_sign_bytes + 321
length-layout sha256 r f =
    rw
      (
        length-append (le_bytes 2 r.version),
        length-append (le_bytes 1 r.kind),
        length-append (le_bytes 1 r.domain),
        length-append (le_bytes 8 r.height),
        length-append (le_bytes 4 r.round),
        length-append (le_bytes 1 r.step),
        length-append (le_bytes 4 (length r.canonical_sign_bytes)),
      )
      (omega (arith, length-le_bytes, length-rest sha256 r f))

decode-layout :
    (sha256 : Bytes → Bytes) (r : DurableVoteRecord)
    → Fits sha256 r
    → decode_wal_safety_record sha256 (layout r) ≡ ok r
unfolding decode_wal_safety_record
decode-layout sha256 r f =
    ground
      (arith, length-layout sha256 r f, read_head-layout sha256 r f, read_rest-layout sha256 r f)

-- A vote record whose fields have their widths and whose claimed hash is that of its sign bytes is
-- encoded without an error, and its payload decodes to the same record.
pub decode-encode :
    (sha256 : Bytes → Bytes) (r : DurableVoteRecord)
    → Fits sha256 r
    → (payload : Bytes) × (encode_wal_safety_record sha256 r ≡ ok payload)
      × (decode_wal_safety_record sha256 payload ≡ ok r)
decode-encode sha256 r f = (layout r, encode-eq-layout sha256 r f, decode-layout sha256 r f)
