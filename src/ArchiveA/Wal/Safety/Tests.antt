-- ===== src/ArchiveA/Wal/Safety/Tests.antt =====
-- The safety records of archive-a's log at concrete records, with a hash that only looks at the
-- length.
use co_net_dle.Common.{
  ℕ, ◌≡◌, refl, false, none, List, [], ◌∷◌, ok, err, length, replicate, Bytes, le_bytes, from_le,
}
use co_net_dle.ArchiveA.Types.{wal_double_sign}
use co_net_dle.ArchiveA.Ssz.{dle, uint_le, hex_to_bytes}
use co_net_dle.ArchiveA.Wal.{WalFrame}
use co_net_dle.ArchiveA.Wal.Record.{
  ◌<>◌, WalSafetyRecord, encode_tail, encode_wal_safety_record, decode_wal_safety_record,
}
use co_net_dle.ArchiveA.Wal.Store.{File, Disk, Write, protocol, read, append_all}
use co_net_dle.ArchiveA.Wal.Safety.{search_slot, append_safety_record}
use co_net_dle.ArchiveA.Wal.Safety.Slots.{slot_signed_once}

abbrev digest : Bytes → Bytes
digest b = replicate 32 (length b)

abbrev hash_of : ℕ → Bytes
hash_of n = replicate 32 n

-- A prevote in round 3 of height 7 for the given value.
abbrev prevote : ℕ → WalSafetyRecord
prevote value = record {
  record_kind = 1;
  domain = 2;
  height = 7;
  round = 3;
  step = 1;
  canonical_sign_bytes = value ∷ 9 ∷ [];
  signing_root = hash_of 11;
  signature = replicate 65 12;
  proposal_hash = hash_of value;
  locked_value = hash_of 0;
  locked_round = 0;
  valid_value = hash_of 0;
  valid_round = 0;
  qc_ref = hash_of 0;
  tc_ref = hash_of 0;
  membership_epoch = 1;
  membership_root = hash_of 13;
  key_epoch = 1;
  committed_height = 6;
}

abbrev payload_of : WalSafetyRecord → Bytes
payload_of r = elim (encode_wal_safety_record r) [ ok bytes ↦ bytes | err e ↦ [] ]

abbrev disk : Disk
disk = record { kept = 1000; fails = false }

abbrev signed : List Write
signed = (record { disk = disk; payload = payload_of (prevote 5); flags = 1 }) ∷ []

abbrev other : List Write
other = (record { disk = disk; payload = 8 ∷ []; flags = 1 }) ∷ []

abbrev log : File
log = append_all digest other (append_all digest signed none)

abbrev frame : WalFrame
frame = record { sequence = 1; flags = 1; payload = payload_of (prevote 5) }

slot_signed_once_example : (append_safety_record digest disk (prevote 6) log).1 ≡ log
unfolding read append_all uint_le ◌<>◌ encode_wal_safety_record encode_tail hex_to_bytes le_bytes
    from_le
slot_signed_once_example =
    slot_signed_once digest (λ b. refl) signed other disk [] [] frame refl (prevote 5) (prevote 6)
      refl (record { domain = refl; height = refl; round = refl; step = refl })

other_prevote_refused :
    append_safety_record digest disk (prevote 6) log ≡ (err (protocol (dle wal_double_sign)), log)
unfolding append_safety_record read append_all uint_le ◌<>◌ encode_wal_safety_record encode_tail
    hex_to_bytes le_bytes from_le search_slot decode_wal_safety_record
other_prevote_refused = refl

same_prevote_silent : append_safety_record digest disk (prevote 5) log ≡ (ok none, log)
unfolding append_safety_record read append_all uint_le ◌<>◌ encode_wal_safety_record encode_tail
    hex_to_bytes le_bytes from_le search_slot decode_wal_safety_record
same_prevote_silent = refl
