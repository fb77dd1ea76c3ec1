-- ===== src/ArchiveB/Wal/Frame.antt =====
-- `encodeWalFrame` and `decodeWalFrames`: the checksummed frames that the log is made of.
pub mod Layout
pub mod Parts
pub mod RoundTrip
pub mod Fuel
use co_net_dle.Common.{
  ℕ, zero, suc, ◌+◌, ◌-◌, Bool, not, ◌&&◌, ◌||◌, List, [], ◌∷◌, ◌++◌, Result, ok, err, ◌>>=◌, ltb,
  ◌==◌, if◌then◌else◌, length, take, drop, text_beq, Bytes, from_le,
}
use co_net_dle.ArchiveB.Wal.Errors.{
  WalError, little_endian, err_wal_truncated, err_wal_header, err_wal_checksum, out_of_fuel,
}

abbrev pub magic : Bytes
magic = b'D' ∷ b'L' ∷ b'E' ∷ b'W' ∷ []

abbrev pub frame_version : ℕ
frame_version = 1

abbrev pub header_bytes : ℕ
header_bytes = 52

abbrev pub checksum_bytes : ℕ
checksum_bytes = 32

pub record WalFrame : Type 0 where
  pub sequence : ℕ
  pub flags : ℕ
  pub payload_hash : Bytes
  pub payload : Bytes
  pub checksum : Bytes
  pub frame_bytes : Bytes

-- `subarray(from, to)`.
abbrev pub subarray : ℕ → ℕ → Bytes → Bytes
subarray from to bytes = take (to - from) (drop from bytes)

unfoldable pub encode_wal_frame : (Bytes → Bytes) → ℕ → ℕ → Bytes → Result WalError Bytes
encode_wal_frame sha256 sequence flags payload = do
  version_field ← little_endian frame_version 2
  flags_field ← little_endian flags 2
  sequence_field ← little_endian sequence 8
  length_field ← little_endian (length payload) 4
  let fields =
      (version_field ++ (flags_field ++ (sequence_field ++ (length_field ++ sha256 payload))))
  let header = magic ++ fields
  ok (header ++ (payload ++ sha256 (header ++ payload)))

-- One round of the `while` loop on what is left of the input: the frame, and the bytes after it.
unfoldable pub decode_frame : (Bytes → Bytes) → Bytes → Result WalError (WalFrame × Bytes)
decode_frame sha256 input =
    let header = take header_bytes input in
    let size = from_le (subarray 16 20 header) in
    let frame_length = header_bytes + size + checksum_bytes in
    let payload = subarray header_bytes (header_bytes + size) input in
    let checksum = subarray (header_bytes + size) frame_length input in
    if ltb (length input) (header_bytes + checksum_bytes)
    then err err_wal_truncated
    else if not (text_beq (subarray 0 4 header) magic)
        || not (from_le (subarray 4 6 header) == frame_version)
    then err err_wal_header
    else if ltb (length input) frame_length
    then err err_wal_truncated
    else if not (text_beq (subarray 20 52 header) (sha256 payload))
    then err err_wal_checksum
    else if not (text_beq checksum (sha256 (header ++ payload)))
    then err err_wal_checksum
    else ok (
      record {
        sequence = from_le (subarray 8 16 header);
        flags = from_le (subarray 6 8 header);
        payload_hash = sha256 payload;
        payload = payload;
        checksum = checksum;
        frame_bytes = take frame_length input;
      },
      drop frame_length input,
    )

-- The loop, on fuel; every frame takes at least 84 bytes, so the input's length is enough.
unfoldable pub decode_from : (Bytes → Bytes) → ℕ → Bytes → Result WalError (List WalFrame)
decode_from sha256 fuel [] = ok []
decode_from sha256 zero (b ∷ bs) = err out_of_fuel
decode_from sha256 (suc fuel) (b ∷ bs) = do
  (frame, rest) ← decode_frame sha256 (b ∷ bs)
  frames ← decode_from sha256 fuel rest
  ok (frame ∷ frames)

unfoldable pub decode_wal_frames : (Bytes → Bytes) → Bytes → Result WalError (List WalFrame)
unfolding decode_from
decode_wal_frames sha256 bytes = decode_from sha256 (length bytes) bytes
