-- ===== src/ArchiveA/Wal/Agreement.antt =====
-- One frame of the log: implementations/archive-a/src/core.ts beside
-- implementations/archive-b/src/wal.ts.
use co_net_dle.Common.{
  ℕ, ◌+◌, ◌≡◌, refl, ◌^◌, ◌<◌, some, ◌++◌, arith, ok, length, drop, Bytes, le_bytes, length-append,
  from_le, text_beq_refl, drop-append, ok-bind, ok_injective, ◌*◌, sym, ap, ◌∙◌,
}
use mathlib.Core.List.{append_assoc}
use mathlib.Core.Path.{subst}
use co_net_dle.ArchiveA.Ssz.{uint_le}
use co_net_dle.ArchiveA.Wal.{
  wal_magic, is_valid, header_is_valid, hashes_match, WalFrame, encode_wal_frame, decode_turn,
}
use co_net_dle.ArchiveB.Wal.Frame as B
use co_net_dle.ArchiveB.Wal.Frame.Layout.{
  Entry, Fits, bytes_of, header_of, length-header, header_fields,
}
use co_net_dle.ArchiveB.Wal.Frame.Parts.{Parts, Parts-of}

-- What archive-a keeps of a frame.
abbrev pub frame_of : Entry → WalFrame
frame_of e = record { sequence = e.sequence; flags = e.flags; payload = e.payload }

module _ (sha256 : Bytes → Bytes) (hash_width : (b : Bytes) → length (sha256 b) ≡ 32) where
  turn-Parts :
      (h p rest input : Bytes) (flags sequence : ℕ)
      → Parts h p (sha256 (h ++ p)) rest input
      → B.subarray 0 4 h ≡ wal_magic
      → from_le (B.subarray 4 6 h) ≡ 1
      → from_le (B.subarray 6 8 h) ≡ flags
      → from_le (B.subarray 8 16 h) ≡ sequence
      → from_le (B.subarray 16 20 h) ≡ length p
      → B.subarray 20 52 h ≡ sha256 p
      → decode_turn sha256 sequence input
        ≡ some (record { sequence = sequence; flags = flags; payload = p }, 52 + length p + 32)
  unfolding decode_turn is_valid header_is_valid hashes_match
  turn-Parts h p rest input flags sequence parts m v f s n q =
      rw
        (
          parts.header,
          n,
          m,
          v,
          f,
          s,
          q,
          parts.payload,
          parts.checksum,
          parts.size,
          text_beq_refl (sha256 p),
          text_beq_refl (sha256 (h ++ p)),
        )
        (ground arith)

  entry-Parts :
      (e : Entry) (rest : Bytes)
      → Parts
          (header_of sha256 e)
          e.payload
          (sha256 (header_of sha256 e ++ e.payload))
          rest
          (bytes_of sha256 e ++ rest)
  entry-Parts e rest =
      let h = header_of sha256 e in
      let c = sha256 (h ++ e.payload) in
      subst (Parts h e.payload c rest)
        (sym
          (append_assoc h (e.payload ++ c) rest ∙ ap (λ t. h ++ t) (append_assoc e.payload c rest)))
        (Parts-of h e.payload c rest (length-header sha256 hash_width e)
          (hash_width (h ++ e.payload)))

  -- A frame of archive-b's layout is read where its sequence is expected, and the rest is left.
  pub turn-bytes_of :
      (e : Entry) (rest : Bytes)
      → Fits e
      → (decode_turn sha256 e.sequence (bytes_of sha256 e ++ rest)
          ≡ some (frame_of e, length (bytes_of sha256 e)))
        × (drop (length (bytes_of sha256 e)) (bytes_of sha256 e ++ rest) ≡ rest)
  turn-bytes_of e rest f =
      let h = header_of sha256 e in
      let c = sha256 (h ++ e.payload) in
      let (v, fl, s, n, q) = header_fields sha256 hash_width e f in
      let parts = entry-Parts e rest in
      let size : length (bytes_of sha256 e) ≡ 52 + length e.payload + 32 =
        omega (arith, parts.size, length-append (bytes_of sha256 e) rest) in
      (
        rw (size) (
            turn-Parts h e.payload rest (bytes_of sha256 e ++ rest) e.flags e.sequence parts refl v
              fl s n q),
        drop-append (bytes_of sha256 e) rest,
      )

uint_le-ok :
    (value width : ℕ) → value < 2 ^ (width * 8) → uint_le value width ≡ ok (le_bytes width value)
unfolding uint_le
uint_le-ok value width h = ground arith

pub ok-uint_le :
    (value width : ℕ) (bytes : Bytes)
    → uint_le value width ≡ ok bytes
    → (value < 2 ^ (width * 8)) × (le_bytes width value ≡ bytes)
unfolding uint_le
ok-uint_le value width bytes h = ground arith

-- The two write a frame as the same bytes.
pub frames_agree :
    (sha256 : Bytes → Bytes) (e : Entry)
    → Fits e
    → encode_wal_frame sha256 (frame_of e) ≡ ok (bytes_of sha256 e)
unfolding encode_wal_frame
frames_agree sha256 e f = rw (
  uint_le-ok 1 2 (omega arith),
  uint_le-ok e.flags 2 f.flags_fit,
  uint_le-ok e.sequence 8 f.sequence_fits,
  uint_le-ok (length e.payload) 4 f.payload_fits,
)

-- A frame that archive-a writes fits its widths.
pub encoded-Fits :
    (sha256 : Bytes → Bytes) (e : Entry) (bytes : Bytes)
    → encode_wal_frame sha256 (frame_of e) ≡ ok bytes
    → Fits e × (bytes_of sha256 e ≡ bytes)
unfolding encode_wal_frame
encoded-Fits sha256 e bytes h =
    let (v, v_ok, h1) = ok-bind (uint_le 1 2) _ bytes h in
    let (f, f_ok, h2) = ok-bind (uint_le e.flags 2) _ bytes h1 in
    let (s, s_ok, h3) = ok-bind (uint_le e.sequence 8) _ bytes h2 in
    let (n, n_ok, h4) = ok-bind (uint_le (length e.payload) 4) _ bytes h3 in
    let fits : Fits e = record {
      sequence_fits = (ok-uint_le e.sequence 8 s s_ok).0;
      flags_fit = (ok-uint_le e.flags 2 f f_ok).0;
      payload_fits = (ok-uint_le (length e.payload) 4 n n_ok).0;
    } in
    (fits, ok_injective (sym (frames_agree sha256 e fits) ∙ h))
