-- ===== src/ArchiveA/Wal/Safety.antt =====
-- `appendSafetyRecord` of `AppendOnlyWal` of implementations/archive-a/src/core.ts.
mod Slots
mod Tests
use co_net_dle.Common.{
  ℕ, Bool, true, false, Option, none, some, List, [], ◌∷◌, Result, ok, err, ◌&&◌, ◌==◌,
  if◌then◌else◌, text_beq, Bytes,
}
use co_net_dle.ArchiveA.Types.{wal_recovery_required, wal_double_sign}
use co_net_dle.ArchiveA.Ssz.{Thrown, dle}
use co_net_dle.ArchiveA.Wal.{WalFrame}
use co_net_dle.ArchiveA.Wal.Record.{
  WalSafetyRecord, encode_wal_safety_record, decode_wal_safety_record,
}
use co_net_dle.ArchiveA.Wal.Store.{File, Disk, StoreError, protocol, read, append}

abbrev pub same_slot : WalSafetyRecord → WalSafetyRecord → Bool
same_slot prior r =
    (prior.domain == r.domain)
    && ((prior.height == r.height) && ((prior.round == r.round) && (prior.step == r.step)))

-- What the search of the frames comes to: nothing of the slot, the same payload, or a throw.
pub data Search : Type 0 where
  free : Search
  repeated : Search
  throws : Thrown → Search

-- One turn of the loop, on what the decoder returns, and the rest of the loop.
unfoldable pub search_turn :
    WalSafetyRecord → Bytes → Bytes → Result Thrown WalSafetyRecord → Search → Search
search_turn r payload found (err e) rest = throws e
search_turn r payload found (ok prior) rest =
    if same_slot prior r
    then if text_beq found payload then repeated else throws (dle wal_double_sign)
    else rest

unfoldable pub search_slot : WalSafetyRecord → Bytes → List WalFrame → Search
unfolding search_turn
search_slot r payload [] = free
search_slot r payload (f ∷ fs) =
    let rest = search_slot r payload fs in
    search_turn r payload f.payload (decode_wal_safety_record f.payload) rest

abbrev pub appended : Result StoreError WalFrame × File → Result StoreError (Option WalFrame) × File
appended (ok f, file) = (ok (some f), file)
appended (err e, file) = (err e, file)

abbrev pub act :
    (Bytes → Bytes)
    → Disk
    → WalSafetyRecord
    → Bytes
    → Search
    → File
    → Result StoreError (Option WalFrame) × File
act sha256 disk r payload free file = appended (append sha256 disk payload r.record_kind file)
act sha256 disk r payload repeated file = (ok none, file)
act sha256 disk r payload (throws e) file = (err (protocol e), file)

abbrev pub on_payload :
    (Bytes → Bytes)
    → Disk
    → WalSafetyRecord
    → List WalFrame
    → Result Thrown Bytes
    → File
    → Result StoreError (Option WalFrame) × File
on_payload sha256 disk r frames (err e) file = (err (protocol e), file)
on_payload sha256 disk r frames (ok payload) file =
    act sha256 disk r payload (search_slot r payload frames) file

unfoldable pub append_safety_record :
    (Bytes → Bytes) → Disk → WalSafetyRecord → File → Result StoreError (Option WalFrame) × File
append_safety_record sha256 disk r file =
    let decoded = read sha256 file in
    if decoded.recovery_required
    then (err (protocol (dle wal_recovery_required)), file)
    else on_payload sha256 disk r decoded.frames (encode_wal_safety_record r) file
