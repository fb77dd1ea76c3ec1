-- ===== src/ArchiveA/Wal/Safety/Slots.antt =====
-- The slots that the log of implementations/archive-a/src/core.ts holds, and `appendSafetyRecord`.
use co_net_dle.Common.{
  ◌≡◌, refl, ap, ◌∙◌, Bool, true, false, List, [], ◌∷◌, ◌++◌, Result, ok, err, if◌then◌else◌,
  text_beq, arith, Bytes, none, length,
}
use mathlib.Core.List.{append_assoc}
use co_net_dle.ArchiveA.Types.{wal_double_sign}
use co_net_dle.ArchiveA.Ssz.{Thrown, dle}
use co_net_dle.ArchiveA.Wal.{WalFrame}
use co_net_dle.ArchiveA.Wal.Record.{
  WalSafetyRecord, encode_wal_safety_record, decode_wal_safety_record,
}
use co_net_dle.ArchiveA.Wal.Record.RoundTrip.{SameSlot, decoded_slot}
use co_net_dle.ArchiveA.Wal.Store.{File, Disk, Write, read, append_all}
use co_net_dle.ArchiveA.Wal.Store.Appends.{frames_stay}
use co_net_dle.ArchiveA.Wal.Safety.{
  same_slot, Search, free, repeated, throws, act, on_payload, search_turn, search_slot,
  append_safety_record,
}

-- A search that ends the call without a write.
abbrev Ends : Search → Type 0
Ends free = ⊥
Ends repeated = Unit
Ends (throws e) = Unit

same_slot-SameSlot : (a r : WalSafetyRecord) → SameSlot a r → same_slot a r ≡ true
same_slot-SameSlot a r s = rw (s.domain, s.height, s.round, s.step) (ground arith)

if-Ends : (c : Bool) (a b : Search) → Ends a → Ends b → Ends (if c then a else b)
if-Ends true a b p q = p
if-Ends false a b p q = q

search_turn-Ends :
    (r back : WalSafetyRecord) (payload found : Bytes) (rest : Search)
    → same_slot back r ≡ true
    → Ends (search_turn r payload found (ok back) rest)
unfolding search_turn
search_turn-Ends r back payload found rest h =
    rw h (if-Ends (text_beq found payload) repeated (throws (dle wal_double_sign)) tt tt)

search_turn-rest :
    (r : WalSafetyRecord) (payload found : Bytes) (d : Result Thrown WalSafetyRecord)
    (rest : Search)
    → Ends rest
    → Ends (search_turn r payload found d rest)
unfolding search_turn
search_turn-rest r payload found (err e) rest h = tt
search_turn-rest r payload found (ok prior) rest h =
    if-Ends (same_slot prior r) _ rest
      (if-Ends (text_beq found payload) repeated (throws (dle wal_double_sign)) tt tt) h

search_slot-Ends :
    (r : WalSafetyRecord) (payload : Bytes) (before after : List WalFrame) (f : WalFrame)
    → (back : WalSafetyRecord) → decode_wal_safety_record f.payload ≡ ok back
    → same_slot back r ≡ true
    → Ends (search_slot r payload (before ++ f ∷ after))
unfolding search_slot
search_slot-Ends r payload [] after f back d s =
    rw d (search_turn-Ends r back payload f.payload (search_slot r payload after) s)
search_slot-Ends r payload (x ∷ xs) after f back d s =
    search_turn-rest r payload x.payload (decode_wal_safety_record x.payload) _
      (search_slot-Ends r payload xs after f back d s)

guarded_keeps :
    {A : Type 0}
    → (c : Bool) (thrown : A) (x : A × File) (file : File) → x.1 ≡ file
    → (if c then (thrown, file) else x).1 ≡ file
guarded_keeps true thrown x file h = refl
guarded_keeps false thrown x file h = h

module _ (sha256 : Bytes → Bytes) (disk : Disk) (r : WalSafetyRecord) where
  act-Ends :
      (payload : Bytes) (s : Search) (file : File)
      → Ends s
      → (act sha256 disk r payload s file).1 ≡ file
  act-Ends payload free file h = absurd h
  act-Ends payload repeated file h = refl
  act-Ends payload (throws e) file h = refl

  on_payload_keeps :
      (frames : List WalFrame) (encoded : Result Thrown Bytes) (file : File)
      → ((payload : Bytes) → Ends (search_slot r payload frames))
      → (on_payload sha256 disk r frames encoded file).1 ≡ file
  on_payload_keeps frames (err e) file h = refl
  on_payload_keeps frames (ok payload) file h =
      act-Ends payload (search_slot r payload frames) file (h payload)

  append_safety_record_keeps :
      (file : File)
      → ((payload : Bytes) → Ends (search_slot r payload (read sha256 file).frames))
      → (append_safety_record sha256 disk r file).1 ≡ file
  unfolding append_safety_record
  append_safety_record_keeps file h =
      let kept = on_payload_keeps (read sha256 file).frames (encode_wal_safety_record r) file h in
      guarded_keeps (read sha256 file).recovery_required _ _ file kept

-- Once a reading of the log shows a frame with an encoded record, whatever is appended afterwards,
-- and however those calls end, `appendSafetyRecord` with a record of the same domain, height, round
-- and step leaves the file as it is. The log is one that starts empty and is only appended to, and a
-- hash has 32 bytes.
pub slot_signed_once :
    (sha256 : Bytes → Bytes)
    → ((b : Bytes) → length (sha256 b) ≡ 32)
    → (ws later : List Write) (disk : Disk) → (before after : List WalFrame) (f : WalFrame)
    → (read sha256 (append_all sha256 ws none)).frames ≡ before ++ f ∷ after
    → (a r : WalSafetyRecord) → encode_wal_safety_record a ≡ ok f.payload
    → SameSlot a r
    → let file = append_all sha256 later (append_all sha256 ws none) in
      (append_safety_record sha256 disk r file).1 ≡ file
slot_signed_once sha256 width ws later disk before after f shown a r encoded same =
    let file = append_all sha256 later (append_all sha256 ws none) in
    let (back, decoded, slot) = decoded_slot a f.payload encoded in
    let (more, grown) = frames_stay sha256 width ws later in
    let frames : (read sha256 file).frames ≡ before ++ f ∷ (after ++ more) =
      grown ∙ ap (λ t. t ++ more) shown ∙ append_assoc before (f ∷ after) more in
    let occupied : same_slot back r ≡ true = same_slot-SameSlot back r (record {
      domain = slot.domain ∙ same.domain;
      height = slot.height ∙ same.height;
      round = slot.round ∙ same.round;
      step = slot.step ∙ same.step;
    }) in
    append_safety_record_keeps sha256 disk r file (λ payload.
      rw frames (search_slot-Ends r payload before (after ++ more) f back decoded occupied))
