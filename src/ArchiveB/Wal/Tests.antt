-- ===== src/ArchiveB/Wal/Tests.antt =====
-- The properties of the log at concrete records, with a hash that is always zero.
use co_net_dle.Common.{
  ℕ, ◌≡◌, ◌≢◌, refl, true, false, some, List, [], ◌∷◌, map, arith, ok, err, replicate, Bytes,
  le_bytes, le_rest,
}
use co_net_dle.ArchiveB.Wal.Errors.{little_endian, fixed_hex, out_of_fuel}
use co_net_dle.ArchiveB.Wal.Payload.{DurableVoteRecord, encode_wal_safety_record}
use co_net_dle.ArchiveB.Wal.Record.{decode_wal_safety_record}
use co_net_dle.ArchiveB.Wal.Record.RoundTrip
use co_net_dle.ArchiveB.Wal.Record.RoundTrip.{decode-encode}
use co_net_dle.ArchiveB.Wal.Frame.{decode_wal_frames, encode_wal_frame}
use co_net_dle.ArchiveB.Wal.Frame.Layout.{Entry, frame_of}
use co_net_dle.ArchiveB.Wal.Frame.Fuel.{decode_wal_frames-terminates}
use co_net_dle.ArchiveB.Wal.Frame.RoundTrip.{AllFit, encode_all, decode-encode_all}
use co_net_dle.ArchiveB.Wal.Store.{
  WalRecord, vote_fingerprint, Answers, FramedSafetyWal, Codec, append_operation, run_queue,
  write_record, write_fully, check_vote,
}
use co_net_dle.ArchiveB.Wal.Store.Memory.{no_double_sign}

abbrev zero_hash : Bytes → Bytes
zero_hash b = replicate 32 0

abbrev record_one : DurableVoteRecord
record_one = record {
  version = 1;
  kind = 1;
  domain = 1;
  height = 300;
  round = 2;
  step = 1;
  canonical_sign_bytes = 9 ∷ [];
  sign_bytes_hash = replicate 32 0;
  signing_root = replicate 32 1;
  signature = replicate 65 2;
  proposal_hash = replicate 32 3;
  locked_value = replicate 32 0;
  locked_round = 0xffff_ffff;
  valid_value = replicate 32 0;
  valid_round = 0xffff_ffff;
  prevote_qc_ref = replicate 32 0;
  timeout_certificate_ref = replicate 32 0;
  membership_epoch = 3;
  membership_root = replicate 32 4;
  key_epoch = 5;
  committed_height = 299;
}

record_one-Fits : RoundTrip.Fits zero_hash record_one
record_one-Fits = record {
  version_fits = omega arith;
  kind_fits = omega arith;
  domain_fits = omega arith;
  height_fits = omega arith;
  round_fits = omega arith;
  step_fits = omega arith;
  sign_bytes_fit = omega arith;
  hash_width = refl;
  hash_claimed = refl;
  signing_root_width = refl;
  signature_width = refl;
  proposal_width = refl;
  locked_width = refl;
  locked_round_fits = omega arith;
  valid_width = refl;
  valid_round_fits = omega arith;
  prevote_width = refl;
  timeout_width = refl;
  epoch_fits = omega arith;
  membership_width = refl;
  key_epoch_fits = omega arith;
  committed_fits = omega arith;
}

decode-encode_example :
    (payload : Bytes) × (encode_wal_safety_record zero_hash record_one ≡ ok payload)
    × (decode_wal_safety_record zero_hash payload ≡ ok record_one)
decode-encode_example = decode-encode zero_hash record_one record_one-Fits

abbrev entries : List Entry
entries =
    record { sequence = 0; flags = 1; payload = 7 ∷ 8 ∷ [] }
    ∷ record { sequence = 1; flags = 2; payload = [] }
    ∷ []

entries_fit : AllFit entries
entries_fit = (
  record { sequence_fits = omega arith; flags_fit = omega arith; payload_fits = omega arith },
  (record { sequence_fits = omega arith; flags_fit = omega arith; payload_fits = omega arith }, tt),
)

decode-encode_all_example :
    (bytes : Bytes) × (encode_all zero_hash entries ≡ ok bytes)
    × (decode_wal_frames zero_hash bytes ≡ ok (map (frame_of zero_hash) entries))
decode-encode_all_example = decode-encode_all zero_hash (λ b. refl) entries entries_fit

decode_wal_frames-terminates_example :
    decode_wal_frames zero_hash (b'D' ∷ b'L' ∷ []) ≢ err out_of_fuel
decode_wal_frames-terminates_example = decode_wal_frames-terminates zero_hash (b'D' ∷ b'L' ∷ [])

abbrev codec : Codec ℕ
codec = record {
  sha256 = zero_hash;
  canonical_json = λ r. ok (1 ∷ []);
  parse_json = λ b. ok (WalRecord.state 0);
  to_text = λ n. n ∷ [];
}

abbrev empty_log : FramedSafetyWal
empty_log = record { file = []; votes = []; sequence = 1; recovery_required = false }

-- "300".
abbrev height_text : List ℕ
height_text = b'3' ∷ b'0' ∷ b'0' ∷ []

abbrev whole : Answers
whole = record { writes = some 1000 ∷ []; syncs = true }

abbrev stalled : Answers
stalled = record { writes = some 40 ∷ some 0 ∷ []; syncs = true }

no_double_sign_example :
    vote_fingerprint zero_hash record_one ≡ vote_fingerprint zero_hash record_one
unfolding append_operation check_vote vote_fingerprint encode_wal_safety_record write_record
    encode_wal_frame write_fully little_endian fixed_hex le_bytes le_rest run_queue
no_double_sign_example =
    no_double_sign codec empty_log height_text record_one whole ((WalRecord.state 0, whole) ∷ [])
      height_text record_one whole refl refl refl
