-- ===== src/ArchiveA/Wal/Store/Appends.antt =====
-- Appends to the log of implementations/archive-a/src/core.ts, and what is read back.
use co_net_dle.Common.{
  ℕ, zero, suc, ◌+◌, ◌≡◌, refl, ap, sym, ◌∙◌, ◌<◌, ◌≤◌, true, false, none, some, List, [], ◌∷◌,
  ◌++◌, map, arith, length, take, Bytes, Result-cases, inl, inr, ◌⊎◌,
}
use mathlib.Core.List.{append_assoc, append-nil}
use co_net_dle.ArchiveA.Wal.{WalFrame, DecodedWal, encode_wal_frame, decode_wal}
use co_net_dle.ArchiveA.Wal.Agreement.{frame_of, encoded-Fits}
use co_net_dle.ArchiveA.Wal.Log.{Sequenced, with_frames, whole_file}
use co_net_dle.ArchiveA.Wal.Torn.{torn_write}
use co_net_dle.ArchiveA.Wal.Store.{File, contents, Write, write_frame, read, append, append_all}
use co_net_dle.ArchiveB.Wal.Frame.Layout.{Entry, Fits, bytes_of}
use co_net_dle.ArchiveB.Wal.Frame.RoundTrip.{log_bytes, AllFit}

with_frames-frames :
    (es : List Entry) (d : DecodedWal) → (with_frames es d).frames ≡ map frame_of es ++ d.frames
with_frames-frames [] d = refl
with_frames-frames (e ∷ es) d = ap (λ t. frame_of e ∷ t) (with_frames-frames es d)

with_frames-recovery :
    (es : List Entry) (d : DecodedWal) → (with_frames es d).recovery_required ≡ d.recovery_required
with_frames-recovery [] d = refl
with_frames-recovery (e ∷ es) d = with_frames-recovery es d

Sequenced-snoc :
    (k : ℕ) (es : List Entry) (e : Entry)
    → Sequenced k es
    → e.sequence ≡ k + length es
    → Sequenced k (es ++ e ∷ [])
Sequenced-snoc k [] e q h = (h ∙ omega arith, tt)
Sequenced-snoc k (x ∷ es) e q h = (q.0, Sequenced-snoc (k + 1) es e q.1 (h ∙ omega arith))

AllFit-snoc : (es : List Entry) (e : Entry) → AllFit es → Fits e → AllFit (es ++ e ∷ [])
AllFit-snoc [] e f h = (h, tt)
AllFit-snoc (x ∷ es) e f h = (f.0, AllFit-snoc es e f.1 h)

length-map : (es : List Entry) → length (map frame_of es) ≡ length es
length-map [] = refl
length-map (e ∷ es) = ap suc (length-map es)

take_beyond : (n : ℕ) (xs : Bytes) → length xs ≤ n → take n xs ≡ xs
take_beyond zero [] h = refl
take_beyond (suc n) [] h = refl
take_beyond zero (x ∷ xs) h = ground arith
take_beyond (suc n) (x ∷ xs) h = ap (λ t. x ∷ t) (take_beyond n xs (omega (arith, h)))

compared : (n m : ℕ) → (n < m) ⊎ (m ≤ n)
compared n m = ground arith

module _ (sha256 : Bytes → Bytes) where
  log-snoc :
      (es : List Entry) (e : Entry)
      → log_bytes sha256 (es ++ e ∷ []) ≡ log_bytes sha256 es ++ bytes_of sha256 e
  log-snoc [] e = append-nil (bytes_of sha256 e)
  log-snoc (x ∷ es) e =
      ap (λ t. bytes_of sha256 x ++ t) (log-snoc es e)
      ∙ sym (append_assoc (bytes_of sha256 x) (log_bytes sha256 es) (bytes_of sha256 e))

  -- The file holds the entries' frames, with the sequences 1, 2, …, and nothing else.
  pub record IsLog (es : List Entry) (file : File) : Type 0 where
    pub bytes : contents file ≡ log_bytes sha256 es
    pub sequenced : Sequenced 1 es
    pub fits : AllFit es

  no_file-IsLog : IsLog [] none
  no_file-IsLog = record { bytes = refl; sequenced = tt; fits = tt }

  abbrev sound : List Entry → DecodedWal
  sound es = with_frames es (record {
    frames = [];
    recovery_required = false;
    valid_bytes = length (log_bytes sha256 es);
  })

  module _ (hash_width : (b : Bytes) → length (sha256 b) ≡ 32) where
    read-IsLog :
        (es : List Entry) (file : File)
        → IsLog es file
        → ((read sha256 file).frames ≡ map frame_of es)
          × ((read sha256 file).recovery_required ≡ false)
    unfolding read
    read-IsLog [] none h = (refl, refl)
    read-IsLog (e ∷ es) none h = ground (arith, h.bytes)
    read-IsLog es (some bytes) h =
        let whole : decode_wal sha256 bytes ≡ sound es =
          ap (decode_wal sha256) h.bytes ∙ whole_file sha256 hash_width es h.sequenced h.fits in
        let none_more = append-nil (map frame_of es) in
        (
          ap (λ (d : DecodedWal). d.frames) whole ∙ with_frames-frames es _ ∙ none_more,
          ap (λ (d : DecodedWal). d.recovery_required) whole ∙ with_frames-recovery es _,
        )

    -- The frame that the next append makes.
    abbrev next_entry : List Entry → Write → Entry
    next_entry es w = record { sequence = length es + 1; flags = w.flags; payload = w.payload }

    append-IsLog :
        (es : List Entry) (file : File) (w : Write)
        → IsLog es file
        → append sha256 w.disk w.payload w.flags file
          ≡ write_frame w.disk
              (frame_of (next_entry es w))
              (encode_wal_frame sha256 (frame_of (next_entry es w)))
              file
    unfolding append
    append-IsLog es file w h =
        let (frames, recovery) = read-IsLog es file h in
        let count : length (read sha256 file).frames ≡ length es =
          ap length frames ∙ length-map es in
        rw (recovery, count) refl

    -- What a file reads as, damaged at its end or not.
    abbrev Holds : List Entry → File → Type 0
    Holds es file =
        IsLog es file
        ⊎ (((read sha256 file).frames ≡ map frame_of es)
            × ((read sha256 file).recovery_required ≡ true))

    whole_write :
        (es : List Entry) (e : Entry) (file : File) (n : ℕ)
        → IsLog es file
        → Fits e
        → e.sequence ≡ 1 + length es
        → length (bytes_of sha256 e) ≤ n
        → IsLog (es ++ e ∷ []) (some (contents file ++ take n (bytes_of sha256 e)))
    whole_write es e file n h f q long = record {
      bytes =
          ap (λ t. contents file ++ t) (take_beyond n (bytes_of sha256 e) long)
          ∙ ap (λ t. t ++ bytes_of sha256 e) h.bytes
          ∙ sym (log-snoc es e);
      sequenced = Sequenced-snoc 1 es e h.sequenced q;
      fits = AllFit-snoc es e h.fits f;
    }

    torn_read :
        (es : List Entry) (e : Entry) (file : File) (n : ℕ)
        → IsLog es file
        → Fits e
        → e.sequence ≡ 1 + length es
        → suc n < length (bytes_of sha256 e)
        → let after = some (contents file ++ take (suc n) (bytes_of sha256 e)) in
          ((read sha256 after).frames ≡ map frame_of (es ++ []))
          × ((read sha256 after).recovery_required ≡ true)
    unfolding read
    torn_read es e file n h f q short =
        let start = take (suc n) (bytes_of sha256 e) in
        let d =
          ap (λ t. decode_wal sha256 (t ++ start)) h.bytes
          ∙ torn_write sha256 hash_width es e n h.sequenced h.fits q f short in
        let same : map frame_of es ≡ map frame_of (es ++ []) =
          ap (map frame_of) (sym (append-nil es)) in
        (
          ap (λ (t : DecodedWal). t.frames) d
              ∙ with_frames-frames es _
              ∙ append-nil (map frame_of es)
              ∙ same,
          ap (λ (t : DecodedWal). t.recovery_required) d ∙ with_frames-recovery es _,
        )

    -- However much of the frame reaches the file, the frames before it are read, and it is read after
    -- them if all of it does.
    partial_write :
        (es : List Entry) (e : Entry) (file : File) (n : ℕ)
        → IsLog es file
        → Fits e
        → e.sequence ≡ 1 + length es
        → (more : List Entry) × Holds
            (es ++ more)
            (some (contents file ++ take n (bytes_of sha256 e)))
    partial_write es e file zero h f q = (
      [],
      inl (record {
        bytes = append-nil (contents file) ∙ h.bytes ∙ ap (log_bytes sha256) (sym (append-nil es));
        sequenced = rw (append-nil es) h.sequenced;
        fits = rw (append-nil es) h.fits;
      }),
    )
    partial_write es e file (suc n) h f q = elim (compared (suc n) (length (bytes_of sha256 e))) [
      | inr long ↦ (e ∷ [], inl (whole_write es e file (suc n) h f q long))
      | inl short ↦ ([], inr (torn_read es e file n h f q short))
    ]

    append-torn :
        (file : File) (w : Write)
        → (read sha256 file).recovery_required ≡ true
        → (append sha256 w.disk w.payload w.flags file).1 ≡ file
    unfolding append
    append-torn file w h = rw (h) refl

    same_bytes : (es : List Entry) (file : File) → IsLog es file → IsLog es (some (contents file))
    same_bytes es file h = record { bytes = h.bytes; sequenced = h.sequenced; fits = h.fits }

    -- One call, whatever the disk does and whether it returns.
    append-Holds :
        (es : List Entry) (file : File) (w : Write)
        → Holds es file
        → (more : List Entry) × Holds (es ++ more) (append sha256 w.disk w.payload w.flags file).1
    append-Holds es file w (inr torn) =
        ([], rw (append-nil es, append-torn file w torn.1) (inr torn))
    append-Holds es file w (inl h) =
        let e = next_entry es w in
        let step = append-IsLog es file w h in
        elim (Result-cases (encode_wal_frame sha256 (frame_of e))) [
          | inr (x, y) ↦ ([], rw (append-nil es, step, y) (inl (same_bytes es file h)))
          | inl (bytes, y) ↦
              let (fits, same) = encoded-Fits sha256 e bytes y in
              let (more, held) = partial_write es e file w.disk.kept h fits (omega arith) in
              (more, rw (step, y, ← same) held)
        ]

    history-Holds :
        (ws : List Write) (es : List Entry) (file : File)
        → Holds es file
        → (more : List Entry) × Holds (es ++ more) (append_all sha256 ws file)
    unfolding append_all
    history-Holds [] es file h = ([], rw (append-nil es) h)
    history-Holds (w ∷ ws) es file h =
        let (one, held) = append-Holds es file w h in
        let (more, last) = history-Holds ws (es ++ one) _ held in
        (one ++ more, rw (← append_assoc es one more) last)

    Holds-frames :
        (es : List Entry) (file : File)
        → Holds es file
        → (read sha256 file).frames ≡ map frame_of es
    Holds-frames es file (inl h) = (read-IsLog es file h).0
    Holds-frames es file (inr torn) = torn.0

map-append : (es fs : List Entry) → map frame_of (es ++ fs) ≡ map frame_of es ++ map frame_of fs
map-append [] fs = refl
map-append (e ∷ es) fs = ap (λ t. frame_of e ∷ t) (map-append es fs)

-- Over any appends to a new log, whatever part of a frame a write leaves in the file and whether the
-- calls return or throw, the frames that are read at one time are read at every later time, in the
-- same order and first.
pub frames_stay :
    (sha256 : Bytes → Bytes)
    → ((b : Bytes) → length (sha256 b) ≡ 32)
    → (ws later : List Write)
    → let file = append_all sha256 ws none in
      (more : List WalFrame) × ((read sha256 (append_all sha256 later file)).frames
        ≡ (read sha256 file).frames ++ more)
frames_stay sha256 hash_width ws later =
    let file = append_all sha256 ws none in
    let (es, held) = history-Holds sha256 hash_width ws [] none (inl (no_file-IsLog sha256)) in
    let (more, last) = history-Holds sha256 hash_width later es file held in
    (
      map frame_of more,
      Holds-frames sha256 hash_width (es ++ more) (append_all sha256 later file) last
          ∙ map-append es more
          ∙ ap (λ t. t ++ map frame_of more) (sym (Holds-frames sha256 hash_width es file held)),
    )
