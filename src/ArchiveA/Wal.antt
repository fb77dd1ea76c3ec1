-- ===== src/ArchiveA/Wal.antt =====
-- The write-ahead log of implementations/archive-a/src/core.ts: frames, and what is read of a file.
pub mod Agreement
pub mod Log
pub mod Torn
pub mod Record
pub mod Store
pub mod Safety
mod Tests
use co_net_dle.Common.{
  ℕ, zero, suc, ◌+◌, ◌-◌, Bool, true, false, not, ◌&&◌, Option, none, some, List, [], ◌∷◌, ◌++◌,
  Result, ok, err, ◌>>=◌, ltb, ◌==◌, if◌then◌else◌, length, take, drop, text_beq, Bytes, from_le,
}
use co_net_dle.ArchiveA.Ssz.{Thrown, uint_le}

abbrev pub wal_magic : Bytes
wal_magic = 0x44 ∷ 0x4c ∷ 0x45 ∷ 0x57 ∷ []

abbrev pub wal_version : ℕ
wal_version = 1

abbrev pub wal_header_bytes : ℕ
wal_header_bytes = 52

abbrev pub wal_checksum_bytes : ℕ
wal_checksum_bytes = 32

pub record WalFrame : Type 0 where
  pub sequence : ℕ
  pub flags : ℕ
  pub payload : Bytes

pub record DecodedWal : Type 0 where
  pub frames : List WalFrame
  pub recovery_required : Bool
  pub valid_bytes : ℕ

-- `sha256` is the library's hash.
unfoldable pub encode_wal_frame : (Bytes → Bytes) → WalFrame → Result Thrown Bytes
encode_wal_frame sha256 frame = do
  version ← uint_le wal_version 2
  flags ← uint_le frame.flags 2
  sequence ← uint_le frame.sequence 8
  size ← uint_le (length frame.payload) 4
  let header = wal_magic ++ (version ++ (flags ++ (sequence ++ (size ++ sha256 frame.payload))))
  ok (header ++ (frame.payload ++ sha256 (header ++ frame.payload)))

-- `slice(from, to)`.
abbrev pub slice : ℕ → ℕ → Bytes → Bytes
slice from to bytes = take (to - from) (drop from bytes)

-- `frameLength`, as the header at the head of the input gives it.
abbrev pub payload_length : Bytes → ℕ
payload_length input = from_le (slice 16 20 (take wal_header_bytes input))

abbrev pub frame_length : Bytes → ℕ
frame_length input = wal_header_bytes + payload_length input + wal_checksum_bytes

abbrev pub payload_of : Bytes → Bytes
payload_of input = slice wal_header_bytes (wal_header_bytes + payload_length input) input

abbrev pub checksum_of : Bytes → Bytes
checksum_of input = slice (wal_header_bytes + payload_length input) (frame_length input) input

abbrev pub frame_at : Bytes → WalFrame
frame_at input =
    let header = take wal_header_bytes input in
    record {
      sequence = from_le (slice 8 16 header);
      flags = from_le (slice 6 8 header);
      payload = payload_of input;
    }

unfoldable pub header_is_valid : ℕ → Bytes → Bool
header_is_valid expected_sequence input =
    let header = take wal_header_bytes input in
    not (ltb (length input) (wal_header_bytes + wal_checksum_bytes))
    && text_beq (slice 0 4 header) wal_magic
    && (from_le (slice 4 6 header) == wal_version)
    && (from_le (slice 8 16 header) == expected_sequence)

unfoldable pub hashes_match : (Bytes → Bytes) → Bytes → Bool
hashes_match sha256 input =
    let header = take wal_header_bytes input in
    text_beq (slice 20 52 header) (sha256 (payload_of input))
    && text_beq (checksum_of input) (sha256 (header ++ payload_of input))

-- The tests of one turn of the loop, in order: each one that fails ends it in the same way.
unfoldable pub is_valid : (Bytes → Bytes) → ℕ → Bytes → Bool
unfolding header_is_valid hashes_match
is_valid sha256 expected_sequence input =
    header_is_valid expected_sequence input
    && (not (ltb (length input) (frame_length input)) && hashes_match sha256 input)

-- One turn of the loop of `decodeWal` on what is left of the bytes: the frame and its length, or none
-- where the recovery is required.
unfoldable pub decode_turn : (Bytes → Bytes) → ℕ → Bytes → Option (WalFrame × ℕ)
unfolding is_valid
decode_turn sha256 expected_sequence input =
    if is_valid sha256 expected_sequence input
    then some (frame_at input, frame_length input)
    else none

abbrev pub with_frame : WalFrame → DecodedWal → DecodedWal
with_frame frame d = record d { frames = frame ∷ d.frames }

-- The loop, from an expected sequence and an offset, on fuel. A frame has at least 84 bytes, so the
-- length of the bytes is enough, and the answer without fuel is not given.
unfoldable pub decode_loop : (Bytes → Bytes) → ℕ → ℕ → ℕ → Bytes → DecodedWal
unfolding decode_turn
decode_loop sha256 fuel expected offset [] = record {
  frames = [];
  recovery_required = false;
  valid_bytes = offset;
}
decode_loop sha256 zero expected offset (b ∷ bs) = record {
  frames = [];
  recovery_required = true;
  valid_bytes = offset;
}
decode_loop sha256 (suc fuel) expected offset (b ∷ bs) =
    elim (decode_turn sha256 expected (b ∷ bs)) [
      | none ↦ record { frames = []; recovery_required = true; valid_bytes = offset }
      | some (frame, size) ↦
          with_frame frame
            (decode_loop sha256 fuel (expected + 1) (offset + size) (drop size (b ∷ bs)))
    ]

unfoldable pub decode_wal : (Bytes → Bytes) → Bytes → DecodedWal
unfolding decode_loop
decode_wal sha256 bytes = decode_loop sha256 (length bytes) 1 0 bytes
