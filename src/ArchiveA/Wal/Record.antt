-- ===== src/ArchiveA/Wal/Record.antt =====
-- The safety records in the log of implementations/archive-a/src/core.ts.
pub mod RoundTrip
use co_net_dle.Common.{
  ℕ, ◌+◌, Bool, not, Option, none, some, List, [], ◌∷◌, ◌++◌, Result, ok, err, ◌>>=◌, ltb, ◌==◌,
  if◌then◌else◌, length, take, drop, get_elem?, Bytes, from_le,
}
use co_net_dle.ArchiveA.Types.{wal_recovery_required}
use co_net_dle.ArchiveA.Ssz.{Thrown, dle, uint_le, hex_to_bytes}
use co_net_dle.ArchiveA.Wal.{slice}

abbrev pub wal_record_version : ℕ
wal_record_version = 1

-- Hex texts are given as the bytes that they spell.
pub record WalSafetyRecord : Type 0 where
  pub record_kind : ℕ
  pub domain : ℕ
  pub height : ℕ
  pub round : ℕ
  pub step : ℕ
  pub canonical_sign_bytes : Bytes
  pub signing_root : Bytes
  pub signature : Bytes
  pub proposal_hash : Bytes
  pub locked_value : Bytes
  pub locked_round : ℕ
  pub valid_value : Bytes
  pub valid_round : ℕ
  pub qc_ref : Bytes
  pub tc_ref : Bytes
  pub membership_epoch : ℕ
  pub membership_root : Bytes
  pub key_epoch : ℕ
  pub committed_height : ℕ

infixr 5 ◌<>◌
-- Two fields of a `concat` whose arguments are evaluated from left to right.
unfoldable pub ◌<>◌ : Result Thrown Bytes → Result Thrown Bytes → Result Thrown Bytes
first <> second = do a ← first; b ← second; ok (a ++ b)

-- The fields after the sign bytes.
unfoldable pub encode_tail : WalSafetyRecord → Result Thrown Bytes
encode_tail r =
    hex_to_bytes r.signing_root 32
    <> hex_to_bytes r.signature 65
    <> hex_to_bytes r.proposal_hash 32
    <> hex_to_bytes r.locked_value 32
    <> uint_le r.locked_round 4
    <> hex_to_bytes r.valid_value 32
    <> uint_le r.valid_round 4
    <> hex_to_bytes r.qc_ref 32
    <> hex_to_bytes r.tc_ref 32
    <> uint_le r.membership_epoch 8
    <> hex_to_bytes r.membership_root 32
    <> uint_le r.key_epoch 8
    <> uint_le r.committed_height 8

unfoldable pub encode_wal_safety_record : WalSafetyRecord → Result Thrown Bytes
encode_wal_safety_record r =
    uint_le wal_record_version 2
    <> uint_le r.record_kind 1
    <> uint_le r.domain 1
    <> uint_le r.height 8
    <> uint_le r.round 4
    <> uint_le r.step 1
    <> uint_le (length r.canonical_sign_bytes) 4
    <> ok r.canonical_sign_bytes
    <> encode_tail r

-- `Number(payload[i])`; only read where there is a byte.
abbrev pub byte_at : ℕ → Bytes → ℕ
byte_at i b = elim (get_elem? b i) [ none ↦ 0 | some x ↦ x ]

-- The record of a payload whose sign bytes have the given length: the fields before them by their
-- offsets, and those after them as `take` reads them, by their offsets from the sign bytes' end.
abbrev pub record_at : ℕ → Bytes → WalSafetyRecord
record_at n payload =
    let rest = drop (21 + n) payload in
    record {
      record_kind = byte_at 2 payload;
      domain = byte_at 3 payload;
      height = from_le (slice 4 12 payload);
      round = from_le (slice 12 16 payload);
      step = byte_at 16 payload;
      canonical_sign_bytes = slice 21 (21 + n) payload;
      signing_root = slice 0 32 rest;
      signature = slice 32 97 rest;
      proposal_hash = slice 97 129 rest;
      locked_value = slice 129 161 rest;
      locked_round = from_le (slice 161 165 rest);
      valid_value = slice 165 197 rest;
      valid_round = from_le (slice 197 201 rest);
      qc_ref = slice 201 233 rest;
      tc_ref = slice 233 265 rest;
      membership_epoch = from_le (slice 265 273 rest);
      membership_root = slice 273 305 rest;
      key_epoch = from_le (slice 305 313 rest);
      committed_height = from_le (slice 313 321 rest);
    }

unfoldable pub decode_wal_safety_record : Bytes → Result Thrown WalSafetyRecord
decode_wal_safety_record payload =
    let canonical_length = from_le (slice 17 21 payload) in
    if ltb (length payload) (21 + 321)
    then err (dle wal_recovery_required)
    else if not (from_le (slice 0 2 payload) == wal_record_version)
    then err (dle wal_recovery_required)
    else if not (length payload == 21 + canonical_length + 321)
    then err (dle wal_recovery_required)
    else ok (record_at canonical_length payload)
