-- ===== src/ArchiveB/Wal/Frame/RoundTrip.antt =====
-- `encodeWalFrame` and `decodeWalFrames` of implementations/archive-b/src/wal.ts on a log of frames.
use co_net_dle.Common.{
  ℕ, zero, suc, ◌-◌, ◌≤◌, ◌≡◌, refl, sym, ap, ◌∙◌, List, [], ◌∷◌, ◌++◌, map, arith, Result, ok, err,
  ◌>>=◌, length, length-append, Bytes,
}
use mathlib.Core.List.{append_assoc, append-nil}
use co_net_dle.ArchiveB.Wal.Errors.{WalError}
use co_net_dle.ArchiveB.Wal.Frame.{
  WalFrame, encode_wal_frame, decode_frame, decode_from, decode_wal_frames,
}
use co_net_dle.ArchiveB.Wal.Frame.Layout.{
  Entry, Fits, header_of, bytes_of, frame_of, length-header, encode-eq-bytes_of,
}
use co_net_dle.ArchiveB.Wal.Frame.Parts.{decode_frame-bytes_of}

-- A log's bytes: its frames in order.
abbrev pub log_bytes : (Bytes → Bytes) → List Entry → Bytes
log_bytes sha256 [] = []
log_bytes sha256 (e ∷ es) = bytes_of sha256 e ++ log_bytes sha256 es

abbrev pub AllFit : List Entry → Type 0
AllFit [] = Unit
AllFit (e ∷ es) = Fits e × AllFit es

-- The fuel that the entries take, on top of what the tail takes.
abbrev pub fuel_for : List Entry → ℕ → ℕ
fuel_for [] k = k
fuel_for (e ∷ es) k = suc (fuel_for es k)

abbrev pub prepend :
    List WalFrame → Result WalError (List WalFrame) → Result WalError (List WalFrame)
prepend fs (ok gs) = ok (fs ++ gs)
prepend fs (err e) = err e

prepend-prepend :
    (f : WalFrame) (fs : List WalFrame) (r : Result WalError (List WalFrame))
    → (prepend fs r >>= λ gs. ok (f ∷ gs)) ≡ prepend (f ∷ fs) r
prepend-prepend f fs (ok gs) = refl
prepend-prepend f fs (err e) = refl

prepend-nil : (r : Result WalError (List WalFrame)) → r ≡ prepend [] r
prepend-nil (ok gs) = refl
prepend-nil (err e) = refl

decode_step :
    (sha256 : Bytes → Bytes) (fuel b : ℕ) (bs : Bytes) (frame : WalFrame) (rest : Bytes)
    → decode_frame sha256 (b ∷ bs) ≡ ok (frame, rest)
    → decode_from sha256 (suc fuel) (b ∷ bs)
      ≡ (decode_from sha256 fuel rest >>= λ frames. ok (frame ∷ frames))
unfolding decode_from
decode_step sha256 fuel b bs frame rest h = rw h

-- The entries of a log, each encoded on its own, one after the other.
unfoldable pub encode_all : (Bytes → Bytes) → List Entry → Result WalError Bytes
encode_all sha256 [] = ok []
encode_all sha256 (e ∷ es) = do
  frame ← encode_wal_frame sha256 e.sequence e.flags e.payload
  frames ← encode_all sha256 es
  ok (frame ++ frames)

fuel_for-eq : (es : List Entry) (n : ℕ) → length es ≤ n → n ≡ fuel_for es (n - length es)
fuel_for-eq [] n h = omega arith
fuel_for-eq (e ∷ es) zero h = absurd (omega arith)
fuel_for-eq (e ∷ es) (suc n) h =
    ap suc (fuel_for-eq es n (omega arith) ∙ ap (fuel_for es) (omega arith))

module _ (sha256 : Bytes → Bytes) (hash_width : (b : Bytes) → length (sha256 b) ≡ 32) where
  -- The frames of a log come first, whatever follows them.
  decode_from-log :
      (es : List Entry) (tail : Bytes) (k : ℕ)
      → AllFit es
      → decode_from sha256 (fuel_for es k) (log_bytes sha256 es ++ tail)
        ≡ prepend (map (frame_of sha256) es) (decode_from sha256 k tail)
  decode_from-log [] tail k f = prepend-nil (decode_from sha256 k tail)
  decode_from-log (e ∷ es) tail k f =
      let rest = log_bytes sha256 es ++ tail in
      rw (append_assoc (bytes_of sha256 e) (log_bytes sha256 es) tail) (
        decode_step sha256 (fuel_for es k) _ _ (frame_of sha256 e) rest
          (decode_frame-bytes_of sha256 hash_width e rest f.0)
        ∙ ap (λ r. r >>= λ frames. ok (frame_of sha256 e ∷ frames)) (decode_from-log es tail k f.1)
        ∙ prepend-prepend (frame_of sha256 e) (map (frame_of sha256) es)
            (decode_from sha256 k tail))

  length-log : (es : List Entry) → length es ≤ length (log_bytes sha256 es)
  length-log [] = omega arith
  length-log (e ∷ es) = omega (
    arith,
    length-append (bytes_of sha256 e) (log_bytes sha256 es),
    length-append (header_of sha256 e) (e.payload ++ sha256 (header_of sha256 e ++ e.payload)),
    length-header sha256 hash_width e,
    length-log es,
  )

  encode_all-log : (es : List Entry) → AllFit es → encode_all sha256 es ≡ ok (log_bytes sha256 es)
  unfolding encode_all
  encode_all-log [] f = refl
  encode_all-log (e ∷ es) f = rw (encode-eq-bytes_of sha256 e f.0, encode_all-log es f.1)

  decode_wal_frames-log :
      (es : List Entry)
      → AllFit es
      → decode_wal_frames sha256 (log_bytes sha256 es) ≡ ok (map (frame_of sha256) es)
  unfolding decode_wal_frames decode_from
  decode_wal_frames-log es f =
      let n = length (log_bytes sha256 es) in
      let k = n - length es in
      ap (λ m. decode_from sha256 m (log_bytes sha256 es)) (fuel_for-eq es n (length-log es))
      ∙ ap (decode_from sha256 (fuel_for es k)) (sym (append-nil (log_bytes sha256 es)))
      ∙ decode_from-log es [] k f
      ∙ ap ok (append-nil (map (frame_of sha256) es))

-- Frames whose numbers fit their widths are encoded without an error, and the bytes of any number of
-- them, one after the other, decode to the same frames in order.
pub decode-encode_all :
    (sha256 : Bytes → Bytes)
    → ((b : Bytes) → length (sha256 b) ≡ 32)
    → (es : List Entry) → AllFit es
    → (bytes : Bytes) × (encode_all sha256 es ≡ ok bytes)
      × (decode_wal_frames sha256 bytes ≡ ok (map (frame_of sha256) es))
decode-encode_all sha256 hash_width es f = (
  log_bytes sha256 es,
  encode_all-log sha256 hash_width es f,
  decode_wal_frames-log sha256 hash_width es f,
)
