-- ===== src/ArchiveA/Wal/Log.antt =====
-- `decodeWal` of implementations/archive-a/src/core.ts on a file of frames, and on what may follow them.
use co_net_dle.Common.{
  ℕ, zero, suc, ◌+◌, ◌-◌, ◌≡◌, refl, ap, sym, ◌∙◌, ◌≤◌, Bool, true, false, none, some, Option-cases,
  inl, inr, List, [], ◌∷◌, ◌++◌, arith, length, drop, Bytes, length-append, some_injective, not,
  ◌&&◌, ltb, if◌then◌else◌,
}
use mathlib.Core.Path.{subst}
use mathlib.Core.List.{append_assoc, append-nil}
use co_net_dle.ArchiveA.Wal.{
  is_valid, header_is_valid, hashes_match, frame_at, frame_length, WalFrame, DecodedWal,
  decode_turn, decode_loop, decode_wal, with_frame,
}
use co_net_dle.ArchiveA.Wal.Agreement.{frame_of, turn-bytes_of}
use co_net_dle.ArchiveB.Wal.Frame.Layout.{Entry, bytes_of}
use co_net_dle.ArchiveB.Wal.Frame.RoundTrip.{log_bytes, AllFit}

-- The sequences of the entries count up from a number.
abbrev pub Sequenced : ℕ → List Entry → Type 0
Sequenced k [] = Unit {0}
Sequenced k (e ∷ es) = (e.sequence ≡ k) × Sequenced (k + 1) es

abbrev pub with_frames : List Entry → DecodedWal → DecodedWal
with_frames [] d = d
with_frames (e ∷ es) d = with_frame (frame_of e) (with_frames es d)

middle : (a b c : Bool) → (a && (b && c)) ≡ true → b ≡ true
middle a b c h = ground arith

covers : (n m : ℕ) → not (ltb n m) ≡ true → m ≤ n
covers n m h = ground arith

pub only_then :
    {A : Type 0} (c : Bool) (x y : A) → (if c then some x else none) ≡ some y → (c ≡ true) × (x ≡ y)
only_then true x y h = (refl, some_injective h)
only_then false x y h = ground arith

module _ (sha256 : Bytes → Bytes) where
  pub valid_size :
      (k : ℕ) (input : Bytes)
      → is_valid sha256 k input ≡ true
      → (84 ≤ frame_length input) × (frame_length input ≤ length input)
  unfolding is_valid
  valid_size k input h = (
    omega arith,
    covers (length input) (frame_length input) (
        middle (header_is_valid k input) (not (ltb (length input) (frame_length input)))
          (hashes_match sha256 input) h),
  )

  turn_size :
      (k : ℕ) (input : Bytes) (f : WalFrame) (size : ℕ)
      → decode_turn sha256 k input ≡ some (f, size)
      → (84 ≤ size) × (size ≤ length input)
  unfolding decode_turn
  turn_size k input f size h =
      let (valid, same) =
        only_then (is_valid sha256 k input) (frame_at input, frame_length input) (f, size) h in
      let sizes : frame_length input ≡ size = ap (λ (t : WalFrame × ℕ). t.1) same in
      rw (← sizes) (valid_size k input valid)

  length_dropped : (n : ℕ) (xs : Bytes) → n ≤ length xs → length (drop n xs) ≡ length xs - n
  length_dropped zero xs h = omega arith
  length_dropped (suc n) [] h = ground arith
  length_dropped (suc n) (x ∷ xs) h = length_dropped n xs (omega (arith, h)) ∙ omega arith

  loop_step :
      (n k offset : ℕ) (input : Bytes) (f : WalFrame) (size : ℕ)
      → decode_turn sha256 k input ≡ some (f, size)
      → decode_loop sha256 (suc n) k offset input
        ≡ with_frame f (decode_loop sha256 n (k + 1) (offset + size) (drop size input))
  unfolding decode_loop
  loop_step n k offset [] f size h = ground (arith, turn_size k [] f size h)
  loop_step n k offset (b ∷ bs) f size h = rw (h, decode_loop) refl

  loop_stop :
      (n k offset : ℕ) (b : ℕ) (bs : Bytes)
      → decode_turn sha256 k (b ∷ bs) ≡ none
      → decode_loop sha256 n k offset (b ∷ bs)
        ≡ record { frames = []; recovery_required = true; valid_bytes = offset }
  unfolding decode_loop
  loop_stop zero k offset b bs h = refl
  loop_stop (suc n) k offset b bs h = rw (h, decode_loop) refl

  -- Any fuel that covers the bytes gives the same answer.
  pub loop_fuel :
      (n m k offset : ℕ) (input : Bytes)
      → length input ≤ n
      → length input ≤ m
      → decode_loop sha256 n k offset input ≡ decode_loop sha256 m k offset input
  unfolding decode_loop
  loop_fuel zero zero k offset [] p q = refl
  loop_fuel zero (suc m) k offset [] p q = refl
  loop_fuel (suc n) zero k offset [] p q = refl
  loop_fuel (suc n) (suc m) k offset [] p q = refl
  loop_fuel zero m k offset (b ∷ bs) p q = ground arith
  loop_fuel (suc n) zero k offset (b ∷ bs) p q = ground arith
  loop_fuel (suc n) (suc m) k offset (b ∷ bs) p q =
      elim (Option-cases (decode_turn sha256 k (b ∷ bs))) [
        | inl e ↦ rw (e, decode_loop) refl
        | inr ((f, size), e) ↦
            let (low, up) = turn_size k (b ∷ bs) f size e in
            let rest = drop size (b ∷ bs) in
            let shorter = length_dropped size (b ∷ bs) up in
            let same =
              loop_fuel n m (k + 1) (offset + size) rest (omega (arith, p, shorter, low))
                (omega (arith, q, shorter, low)) in
            loop_step n k offset (b ∷ bs) f size e
            ∙ ap (with_frame f) same
            ∙ sym (loop_step m k offset (b ∷ bs) f size e)
      ]

  module _ (hash_width : (b : Bytes) → length (sha256 b) ≡ 32) where
    -- The frames of a log with sequences that count up come first, whatever follows them.
    loop_log :
        (es : List Entry) (n k offset : ℕ) (tail : Bytes)
        → Sequenced k es
        → AllFit es
        → length (log_bytes sha256 es ++ tail) ≤ n
        → decode_loop sha256 n k offset (log_bytes sha256 es ++ tail)
          ≡ with_frames es (
              decode_loop sha256
                (length tail)
                (k + length es)
                (offset + length (log_bytes sha256 es))
                tail)
    loop_log [] n k offset tail q f p =
        let zero_more : k + 0 ≡ k = omega arith in
        let nothing : offset + 0 ≡ offset = omega arith in
        rw (zero_more, nothing) (loop_fuel n (length tail) k offset tail p (omega arith))
    loop_log (e ∷ es) zero k offset tail q f p = absurd (omega (arith, p))
    loop_log (e ∷ es) (suc n) k offset tail q f p =
        let b = bytes_of sha256 e in
        let log = log_bytes sha256 es in
        let rest = log ++ tail in
        let (turn, dropped) = turn-bytes_of sha256 hash_width e rest f.0 in
        let here : decode_turn sha256 k (b ++ rest) ≡ some (frame_of e, length b) =
          subst (λ c. decode_turn sha256 c (b ++ rest) ≡ some (frame_of e, length b)) q.0 turn in
        let whole : (b ++ log) ++ tail ≡ b ++ rest = append_assoc b log tail in
        let size : length b + length rest ≡ length ((b ++ log) ++ tail) =
          sym (length-append b rest) ∙ ap length (sym whole) in
        let positive = (turn_size k (b ++ rest) (frame_of e) (length b) here).0 in
        let more =
          loop_log es n (k + 1) (offset + length b) tail q.1 f.1
            (omega (arith, p, size, positive)) in
        let count : k + 1 + length es ≡ k + suc (length es) = omega arith in
        let place : offset + length b + length log ≡ offset + length (b ++ log) =
          omega (arith, length-append b log) in
        let step = loop_step n k offset (b ++ rest) (frame_of e) (length b) here in
        ap (decode_loop sha256 (suc n) k offset) whole
        ∙ step
        ∙ ap (λ r. with_frame (frame_of e) (decode_loop sha256 n (k + 1) (offset + length b) r))
            dropped
        ∙ ap (with_frame (frame_of e)) more
        ∙ ap
            (λ c. with_frame (frame_of e) (
              with_frames es
                (decode_loop sha256 (length tail) c (offset + length b + length log) tail)))
            count
        ∙ ap
            (λ c.
              with_frame (frame_of e)
                (with_frames es (decode_loop sha256 (length tail) (k + suc (length es)) c tail)))
            place

start : (log : Bytes) → 0 + length log ≡ length log
start log = omega arith

-- A file of frames with the sequences 1, 2, … and then bytes that are no further frame is read as
-- those frames, with the recovery required, and the bytes up to the damage are valid.
pub damaged_tail :
    (sha256 : Bytes → Bytes)
    → ((b : Bytes) → length (sha256 b) ≡ 32)
    → (es : List Entry) (b : ℕ) (bs : Bytes) → Sequenced 1 es
    → AllFit es
    → decode_turn sha256 (1 + length es) (b ∷ bs) ≡ none
    → decode_wal sha256 (log_bytes sha256 es ++ b ∷ bs)
      ≡ with_frames es (record {
        frames = [];
        recovery_required = true;
        valid_bytes = length (log_bytes sha256 es);
      })
unfolding decode_wal
damaged_tail sha256 hash_width es b bs q f t =
    let log = log_bytes sha256 es in
    loop_log sha256 hash_width es (length (log ++ b ∷ bs)) 1 0 (b ∷ bs) q f (omega arith)
    ∙ ap (with_frames es)
        (loop_stop sha256 (length (b ∷ bs)) (1 + length es) (0 + length log) b bs t)
    ∙ ap (λ c. with_frames es (record { frames = []; recovery_required = true; valid_bytes = c }))
        (start log)

-- A whole file is read as its frames, and needs no recovery.
pub whole_file :
    (sha256 : Bytes → Bytes)
    → ((b : Bytes) → length (sha256 b) ≡ 32)
    → (es : List Entry) → Sequenced 1 es
    → AllFit es
    → decode_wal sha256 (log_bytes sha256 es)
      ≡ with_frames es (record {
        frames = [];
        recovery_required = false;
        valid_bytes = length (log_bytes sha256 es);
      })
unfolding decode_wal decode_loop
whole_file sha256 hash_width es q f =
    let log = log_bytes sha256 es in
    let n = length log in
    ap (decode_loop sha256 n 1 0) (sym (append-nil log))
    ∙ loop_log sha256 hash_width es n 1 0 [] q f (rw (append-nil log) (omega arith))
    ∙ ap (λ c. with_frames es (record { frames = []; recovery_required = false; valid_bytes = c }))
        (start log)
