-- ===== src/ArchiveB/Wal/Frame/Parts.antt =====
-- One frame at the head of the input of `decodeWalFrames`.
use co_net_dle.Common.{
  ℕ, ◌+◌, ◌-◌, ◌≡◌, refl, sym, ap, ◌∙◌, ◌++◌, arith, ok, length, take, drop, length-append,
  take-append_of, drop-append_of, text_beq_refl, Bytes, from_le,
}
use mathlib.Core.List.{append_assoc}
use mathlib.Core.Path.{subst}
use co_net_dle.ArchiveB.Wal.Frame.{magic, subarray, decode_frame}
use co_net_dle.ArchiveB.Wal.Frame.Layout.{
  Entry, Fits, header_of, bytes_of, frame_of, length-header, header_fields,
}

-- The parts of an input that begins with a header of 52 bytes, a payload and a checksum.
pub record Parts (h p c rest input : Bytes) : Type 0 where
  pub header : take 52 input ≡ h
  pub payload : subarray 52 (52 + length p) input ≡ p
  pub checksum : subarray (52 + length p) (52 + length p + 32) input ≡ c
  pub whole : take (52 + length p + 32) input ≡ h ++ (p ++ c)
  pub after : drop (52 + length p + 32) input ≡ rest
  pub size : length input ≡ 52 + length p + 32 + length rest

pub Parts-of :
    (h p c rest : Bytes)
    → length h ≡ 52
    → length c ≡ 32
    → Parts h p c rest (h ++ (p ++ (c ++ rest)))
Parts-of h p c rest lh lc =
    let two = append_assoc h p (c ++ rest) in
    let hp : length (h ++ p) ≡ 52 + length p = length-append h p ∙ omega arith in
    let hpc : length (h ++ (p ++ c)) ≡ 52 + length p + 32 =
      length-append h (p ++ c) ∙ omega (arith, length-append p c) in
    let three : (h ++ (p ++ c)) ++ rest ≡ h ++ (p ++ (c ++ rest)) =
      append_assoc h (p ++ c) rest ∙ ap (λ t. h ++ t) (append_assoc p c rest) in
    let shorter : 52 + length p - 52 ≡ length p = omega arith in
    let shortest : 52 + length p + 32 - (52 + length p) ≡ 32 = omega arith in
    record {
      header = take-append_of h (p ++ (c ++ rest)) 52 lh;
      payload =
          rw (shorter, drop-append_of h (p ++ (c ++ rest)) 52 lh)
            (take-append_of p (c ++ rest) (length p) refl);
      checksum =
          rw (shortest, ← two, drop-append_of (h ++ p) (c ++ rest) (52 + length p) hp)
            (take-append_of c rest 32 lc);
      whole = rw (← three) (take-append_of (h ++ (p ++ c)) rest (52 + length p + 32) hpc);
      after = rw (← three) (drop-append_of (h ++ (p ++ c)) rest (52 + length p + 32) hpc);
      size = omega (
        arith,
        length-append h (p ++ (c ++ rest)),
        length-append p (c ++ rest),
        length-append c rest,
      );
    }

module _ (sha256 : Bytes → Bytes) (hash_width : (b : Bytes) → length (sha256 b) ≡ 32) where
  decode_frame-Parts :
      (h p rest input : Bytes) (flags sequence : ℕ)
      → Parts h p (sha256 (h ++ p)) rest input
      → subarray 0 4 h ≡ magic
      → from_le (subarray 4 6 h) ≡ 1
      → from_le (subarray 6 8 h) ≡ flags
      → from_le (subarray 8 16 h) ≡ sequence
      → from_le (subarray 16 20 h) ≡ length p
      → subarray 20 52 h ≡ sha256 p
      → decode_frame sha256 input
        ≡ ok (
          record {
            sequence = sequence;
            flags = flags;
            payload_hash = sha256 p;
            payload = p;
            checksum = sha256 (h ++ p);
            frame_bytes = h ++ (p ++ sha256 (h ++ p));
          },
          rest,
        )
  unfolding decode_frame
  decode_frame-Parts h p rest input flags sequence parts m v f s n q =
      rw
        (
          parts.header,
          n,
          m,
          v,
          f,
          s,
          q,
          parts.payload,
          parts.checksum,
          parts.whole,
          parts.after,
          parts.size,
          text_beq_refl (sha256 p),
          text_beq_refl (sha256 (h ++ p)),
        )
        (ground arith)

  -- One frame and the bytes after it.
  pub decode_frame-bytes_of :
      (e : Entry) (rest : Bytes)
      → Fits e
      → decode_frame sha256 (bytes_of sha256 e ++ rest) ≡ ok (frame_of sha256 e, rest)
  decode_frame-bytes_of e rest f =
      let h = header_of sha256 e in
      let c = sha256 (h ++ e.payload) in
      let (v, fl, s, n, q) = header_fields sha256 hash_width e f in
      decode_frame-Parts h e.payload rest (bytes_of sha256 e ++ rest) e.flags e.sequence
        (subst (Parts h e.payload c rest)
          (sym (
            append_assoc h (e.payload ++ c) rest
            ∙ ap (λ t. h ++ t) (append_assoc e.payload c rest)))
          (Parts-of h e.payload c rest (length-header sha256 hash_width e)
            (hash_width (h ++ e.payload))))
        refl v fl s n q
