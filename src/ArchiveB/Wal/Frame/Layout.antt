-- ===== src/ArchiveB/Wal/Frame/Layout.antt =====
-- The bytes of a frame, and where its header's fields stand.
use co_net_dle.Common.{
  ℕ, ◌^◌, ◌<◌, ◌≡◌, refl, ◌++◌, arith, ok, length, length-append, take_all, Bytes, le_bytes,
  length-le_bytes, from_le, from_le-of_bytes,
}
use co_net_dle.ArchiveB.Wal.Errors.{little_endian-ok}
use co_net_dle.ArchiveB.Wal.Frame.{WalFrame, magic, subarray, encode_wal_frame}

-- What one frame is written from.
pub record Entry : Type 0 where
  pub sequence : ℕ
  pub flags : ℕ
  pub payload : Bytes

pub record Fits (e : Entry) : Type 0 where
  pub sequence_fits : e.sequence < 256 ^ 8
  pub flags_fit : e.flags < 256 ^ 2
  pub payload_fits : length e.payload < 256 ^ 4

module _ (sha256 : Bytes → Bytes) where
  -- The header without the magic.
  abbrev pub tail_of : Entry → Bytes
  tail_of e =
      le_bytes 2 1
      ++ (le_bytes 2 e.flags
          ++ (le_bytes 8 e.sequence ++ (le_bytes 4 (length e.payload) ++ sha256 e.payload)))

  abbrev pub header_of : Entry → Bytes
  header_of e = magic ++ tail_of e

  abbrev pub bytes_of : Entry → Bytes
  bytes_of e = header_of e ++ (e.payload ++ sha256 (header_of e ++ e.payload))

  abbrev pub frame_of : Entry → WalFrame
  frame_of e = record {
    sequence = e.sequence;
    flags = e.flags;
    payload_hash = sha256 e.payload;
    payload = e.payload;
    checksum = sha256 (header_of e ++ e.payload);
    frame_bytes = bytes_of e;
  }

  pub encode-eq-bytes_of :
      (e : Entry) → Fits e → encode_wal_frame sha256 e.sequence e.flags e.payload ≡ ok (bytes_of e)
  unfolding encode_wal_frame
  encode-eq-bytes_of e f = rw (
    little_endian-ok 1 2 (omega arith),
    little_endian-ok e.flags 2 f.flags_fit,
    little_endian-ok e.sequence 8 f.sequence_fits,
    little_endian-ok (length e.payload) 4 f.payload_fits,
  )

  module _ (hash_width : (b : Bytes) → length (sha256 b) ≡ 32) where
    pub length-header : (e : Entry) → length (header_of e) ≡ 52
    length-header e =
        rw
          (
            length-append (le_bytes 2 1),
            length-append (le_bytes 2 e.flags),
            length-append (le_bytes 8 e.sequence),
            length-append (le_bytes 4 (length e.payload)),
          )
          (omega (arith, length-le_bytes, hash_width e.payload))

    -- The fields of a header are read where they were written.
    pub header_fields :
        (e : Entry)
        → Fits e
        → (from_le (subarray 4 6 (header_of e)) ≡ 1)
          × (from_le (subarray 6 8 (header_of e)) ≡ e.flags)
          × (from_le (subarray 8 16 (header_of e)) ≡ e.sequence)
          × (from_le (subarray 16 20 (header_of e)) ≡ length e.payload)
          × (subarray 20 52 (header_of e) ≡ sha256 e.payload)
    unfolding le_bytes from_le
    header_fields e f = (
      refl,
      from_le-of_bytes 2 e.flags f.flags_fit,
      from_le-of_bytes 8 e.sequence f.sequence_fits,
      from_le-of_bytes 4 (length e.payload) f.payload_fits,
      take_all (sha256 e.payload) 32 (hash_width e.payload),
    )
