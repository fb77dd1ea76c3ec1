-- ===== src/ArchiveA/Wal/Torn.antt =====
-- What `decodeWal` of implementations/archive-a/src/core.ts keeps of a file whose end is damaged.
use co_net_dle.Common.{
  ℕ, zero, suc, ◌+◌, ◌≡◌, refl, ap, sym, ◌∙◌, ◌<◌, ◌≤◌, true, none, Bool-cases, inl, inr, List, [],
  ◌∷◌, ◌++◌, arith, length, take, drop, Bytes, from_le,
}
use mathlib.Core.Path.{subst}
use mathlib.Core.List.{append-nil}
use co_net_dle.ArchiveA.Wal.{is_valid, frame_at, frame_length, WalFrame, decode_turn, decode_wal}
use co_net_dle.ArchiveA.Wal.Agreement.{frame_of, turn-bytes_of}
use co_net_dle.ArchiveB.Wal.Frame.Layout.{Entry, Fits, bytes_of}
use co_net_dle.ArchiveA.Wal.Log.{Sequenced, with_frames, valid_size, only_then, damaged_tail}
use co_net_dle.ArchiveB.Wal.Frame.RoundTrip.{log_bytes, AllFit}

take-take : (m n : ℕ) (xs : Bytes) → m ≤ n → take m (take n xs) ≡ take m xs
take-take zero n xs h = refl
take-take (suc m) zero xs h = absurd (omega (arith, h))
take-take (suc m) (suc n) [] h = refl
take-take (suc m) (suc n) (x ∷ xs) h = ap (λ t. x ∷ t) (take-take m n xs (omega (arith, h)))

length-take_le : (n : ℕ) (xs : Bytes) → length (take n xs) ≤ n
length-take_le zero xs = omega arith
length-take_le (suc n) [] = omega arith
length-take_le (suc n) (x ∷ xs) = omega (arith, length-take_le n xs)

-- The start of a frame is no frame.
torn_frame :
    (sha256 : Bytes → Bytes)
    → ((b : Bytes) → length (sha256 b) ≡ 32)
    → (e : Entry) (n : ℕ) → Fits e
    → n < length (bytes_of sha256 e)
    → decode_turn sha256 e.sequence (take n (bytes_of sha256 e)) ≡ none
unfolding decode_turn
torn_frame sha256 hash_width e n f short =
    let b = bytes_of sha256 e in
    let k = e.sequence in
    elim (Bool-cases (is_valid sha256 k (take n b))) [
      | inr fails ↦ rw (fails) refl
      | inl passes ↦
          let (low, up) = valid_size sha256 k (take n b) passes in
          let small = length-take_le n b in
          let header : take 52 (take n b) ≡ take 52 b =
            take-take 52 n b (omega (arith, low, up, small)) in
          let sized : frame_length (take n b) ≡ frame_length b =
            ap (λ h. 52 + from_le (take 4 (drop 16 h)) + 32) header in
          let entire : b ++ [] ≡ b = append-nil b in
          let (valid, same) =
            only_then (is_valid sha256 k (b ++ [])) (frame_at (b ++ []), frame_length (b ++ []))
              (frame_of e, length b) (turn-bytes_of sha256 hash_width e [] f).0 in
          let whole : frame_length b ≡ length b =
            ap frame_length (sym entire) ∙ ap (λ (t : WalFrame × ℕ). t.1) same in
          absurd (omega (arith, up, small, short, sized, whole))
    ]

-- A crash while the next frame is written, which leaves a file of frames with the sequences 1, 2, …
-- and the first bytes of one more, loses none of the frames: they are read, and the recovery is
-- required.
pub torn_write :
    (sha256 : Bytes → Bytes)
    → ((b : Bytes) → length (sha256 b) ≡ 32)
    → (es : List Entry) (e : Entry) (n : ℕ) → Sequenced 1 es
    → AllFit es
    → e.sequence ≡ 1 + length es
    → Fits e
    → suc n < length (bytes_of sha256 e)
    → decode_wal sha256 (log_bytes sha256 es ++ take (suc n) (bytes_of sha256 e))
      ≡ with_frames es (record {
        frames = [];
        recovery_required = true;
        valid_bytes = length (log_bytes sha256 es);
      })
torn_write sha256 hash_width es e n q f next fits short =
    let torn = torn_frame sha256 hash_width e (suc n) fits short in
    damaged_tail sha256 hash_width es _ _ q f
      (subst (λ c. decode_turn sha256 c (take (suc n) (bytes_of sha256 e)) ≡ none) next torn)
