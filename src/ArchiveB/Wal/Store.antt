-- ===== src/ArchiveB/Wal/Store.antt =====
-- `FramedSafetyWal`: the log of a validator's signed votes, and the memory of the slots signed.
pub mod Memory
use co_net_dle.Common.{
  ℕ, zero, suc, ◌+◌, Bool, true, false, not, ◌||◌, Option, none, some, List, [], ◌∷◌, ◌++◌, Result,
  ok, err, ◌>>=◌, ◌==◌, if◌then◌else◌, length, take, drop, text_beq, Text, Bytes, is_none,
}
use co_net_dle.ArchiveB.Wal.Errors.{
  WalError, err_wal_recovery_required, err_wal_double_sign, err_wal_write, out_of_fuel,
}
use co_net_dle.ArchiveB.Wal.Payload.{DurableVoteRecord, encode_wal_safety_record}
use co_net_dle.ArchiveB.Wal.Record.{decode_wal_safety_record}
use co_net_dle.ArchiveB.Wal.Frame.{WalFrame, encode_wal_frame, decode_wal_frames}

-- A vote comes with the text of its height as the caller wrote it, which `BigInt` reads as the
-- record's height: leading zeros make other texts for one number. The two other kinds of record carry
-- a JSON object, whose type and codec are parameters.
pub data WalRecord (Json : Type 0) : Type 0 where
  vote : Text → DurableVoteRecord → WalRecord Json
  state archive_certificate : Json → WalRecord Json

-- `domain|height|round|step`: the three numbers and then the height's text. The key's text tells them
-- apart where the height's text has no bar, and `BigInt` refuses one that has.
abbrev pub vote_slot : Text → DurableVoteRecord → Text
vote_slot height r = r.domain ∷ r.round ∷ r.step ∷ height

unfoldable pub vote_fingerprint : (Bytes → Bytes) → DurableVoteRecord → Result WalError Bytes
vote_fingerprint sha256 r = do payload ← encode_wal_safety_record sha256 r; ok (sha256 payload)

-- The map `#votes`.
abbrev pub Votes : Type 0
Votes = List (Text × Bytes)

abbrev pub get_vote : Text → Votes → Option Bytes
get_vote slot [] = none
get_vote slot ((s, f) ∷ votes) = if text_beq s slot then some f else get_vote slot votes

abbrev pub set_vote : Text → Bytes → Votes → Votes
set_vote slot fingerprint votes = (slot, fingerprint) ∷ votes

-- `prior && prior !== fingerprint`; a fingerprint is never the empty text.
abbrev pub differs : Option Bytes → Bytes → Bool
differs none f = false
differs (some p) f = not (text_beq p f)

-- The answers of the file to the calls of one append: how many bytes each `write` takes (none when it
-- throws), and whether `sync` succeeds.
pub record Answers : Type 0 where
  pub writes : List (Option ℕ)
  pub syncs : Bool

-- `writeFully`, on what is left of the frame: what the file has then, and whether the call threw. The
-- loop waits for as many answers as the file gives.
unfoldable pub write_fully : Bytes → List (Option ℕ) → Bytes → Bytes × Result WalError (Unit {0})
write_fully file answers [] = (file, ok tt)
write_fully file [] (b ∷ rest) = (file, err out_of_fuel)
write_fully file (none ∷ answers) (b ∷ rest) = (file, err err_wal_write)
write_fully file (some zero ∷ answers) (b ∷ rest) = (file, err err_wal_write)
write_fully file (some (suc n) ∷ answers) (b ∷ rest) =
    write_fully (file ++ (b ∷ take n rest)) answers (drop n rest)

pub record FramedSafetyWal : Type 0 where
  pub file : Bytes
  pub votes : Votes
  pub sequence : ℕ
  pub recovery_required : Bool

pub record Codec (Json : Type 0) : Type 0 where
  pub sha256 : Bytes → Bytes
  pub canonical_json : WalRecord Json → Result WalError Bytes
  pub parse_json : Bytes → Result WalError (WalRecord Json)
  -- `toString` of a bigint, which gives the decoder's height.
  pub to_text : ℕ → Text

module _ {Json : Type 0} (codec : Codec Json) where
  abbrev pub payload_of : WalRecord Json → Result WalError Bytes
  payload_of (vote height r) = encode_wal_safety_record codec.sha256 r
  payload_of (state j) = codec.canonical_json (state j)
  payload_of (archive_certificate j) = codec.canonical_json (archive_certificate j)

  abbrev pub flags_of : WalRecord Json → ℕ
  flags_of (vote height r) = 1
  flags_of (state j) = 2
  flags_of (archive_certificate j) = 3

  abbrev pub remember : WalRecord Json → Bytes → Votes → Votes
  remember (vote height r) fingerprint votes = set_vote (vote_slot height r) fingerprint votes
  remember _ fingerprint votes = votes

  -- The guard of a vote: its fingerprint, and whether the same vote is on the log already.
  unfoldable pub check_vote : Votes → WalRecord Json → Result WalError (Bytes × Bool)
  check_vote votes (vote height r) = do
    fingerprint ← vote_fingerprint codec.sha256 r
    let prior = get_vote (vote_slot height r) votes
    if differs prior fingerprint
        then err err_wal_double_sign
        else ok (fingerprint, not (is_none prior))
  check_vote votes _ = ok ([], false)

  abbrev failed : FramedSafetyWal → Bytes → WalError → FramedSafetyWal × Result WalError (Unit {0})
  failed wal file e = (record wal { file = file; recovery_required = true }, err e)

  -- The write of a record's frame, and the memory of it after the sync.
  unfoldable pub write_record :
      FramedSafetyWal
      → WalRecord Json
      → Bytes
      → Answers
      → FramedSafetyWal × Result WalError (Unit {0})
  write_record wal r fingerprint answers =
      let encoded = payload_of r >>= λ payload.
      encode_wal_frame codec.sha256 wal.sequence (flags_of r) payload in
      elim encoded [
        | err e ↦ failed wal wal.file e
        | ok frame ↦
            let (file, written) = write_fully wal.file answers.writes frame in
            elim written [
              | err e ↦ failed wal file e
              | ok _ ↦
                  if answers.syncs
                  then (
                    record {
                      file = file;
                      votes = remember r fingerprint wal.votes;
                      sequence = wal.sequence + 1;
                      recovery_required = wal.recovery_required;
                    },
                    ok tt,
                  )
                  else failed wal file err_wal_write
            ]
      ]

  -- `operation`, the part of `append` that the queue runs one at a time.
  unfoldable pub append_operation :
      FramedSafetyWal → WalRecord Json → Answers → FramedSafetyWal × Result WalError (Unit {0})
  unfolding check_vote write_record
  append_operation wal r answers =
      if wal.recovery_required
      then failed wal wal.file err_wal_recovery_required
      else elim (check_vote wal.votes r) [
        | err e ↦ failed wal wal.file e
        | ok (fingerprint, present) ↦
            if present then (wal, ok tt) else write_record wal r fingerprint answers
      ]

  -- The queue: the operations in the order of the calls, a failure of one not stopping the next.
  unfoldable pub run_queue : FramedSafetyWal → List (WalRecord Json × Answers) → FramedSafetyWal
  unfolding append_operation
  run_queue wal [] = wal
  run_queue wal ((r, answers) ∷ queue) = run_queue (append_operation wal r answers).0 queue

  -- The constructor's loop over the records.
  unfoldable pub load_votes : List (WalRecord Json) → Votes → Bool → Result WalError (Votes × Bool)
  load_votes [] votes recovery = ok (votes, recovery)
  load_votes (vote height r ∷ rs) votes recovery = do
    fingerprint ← vote_fingerprint codec.sha256 r
    load_votes rs (set_vote (vote_slot height r) fingerprint votes)
        (recovery || differs (get_vote (vote_slot height r) votes) fingerprint)
  load_votes (_ ∷ rs) votes recovery = load_votes rs votes recovery

  -- The loop of `open` over the frames: the records up to the first that throws, and whether one did.
  unfoldable pub read_records : List WalFrame → List (WalRecord Json) × Bool
  read_records [] = ([], false)
  read_records (f ∷ frames) =
      let rest = read_records frames in
      let decoded =
        if f.flags == 1
        then (decode_wal_safety_record codec.sha256 f.payload >>= λ r.
            ok (vote (codec.to_text r.height) r))
        else codec.parse_json f.payload in
      elim decoded [ err e ↦ ([], true) | ok r ↦ (r ∷ rest.0, rest.1) ]

  abbrev next_sequence : List WalFrame → ℕ
  next_sequence [] = 1
  next_sequence (f ∷ []) = f.sequence + 1
  next_sequence (f ∷ g ∷ frames) = next_sequence (g ∷ frames)

  unfoldable pub open_wal : Bytes → Result WalError FramedSafetyWal
  unfolding read_records load_votes
  open_wal file = do
    let decoded : List WalFrame × Bool = elim (decode_wal_frames codec.sha256 file) [
      | err e ↦ ([], true)
      | ok frames ↦ (frames, false)
    ]
    let records = read_records decoded.0
    (votes, recovery) ← load_votes records.0 [] (decoded.1 || records.1)
    ok (record {
      file = file;
      votes = votes;
      sequence = next_sequence decoded.0;
      recovery_required = recovery;
    })
