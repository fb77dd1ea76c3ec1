-- ===== src/ArchiveB/Wal/Frame/Fuel.antt =====
-- The loop of `decodeWalFrames` in implementations/archive-b/src/wal.ts on any input: its fuel.
use co_net_dle.Common.{
  ℕ, zero, suc, ◌+◌, ◌≤◌, ◌<◌, ◌≡◌, ◌≢◌, ap, inl, inr, List, [], ◌∷◌, arith, Result, ok, err, ◌>>=◌,
  Result-cases, Bool, true, false, if◌then◌else◌, length, drop, take, Bytes, from_le, not, ltb,
  ◌||◌, ◌==◌, ◌++◌, text_beq, ok_injective,
}
use co_net_dle.ArchiveB.Wal.Errors.{
  WalError, out_of_fuel, err_wal_truncated, err_wal_header, err_wal_checksum,
}
use co_net_dle.ArchiveB.Wal.Frame.{
  WalFrame, magic, frame_version, header_bytes, checksum_bytes, subarray, decode_frame, decode_from,
  decode_wal_frames,
}

length-drop : (n : ℕ) (bs : Bytes) → length (drop n bs) ≤ length bs
length-drop zero bs = omega arith
length-drop (suc n) [] = omega arith
length-drop (suc n) (b ∷ bs) = omega (arith, length-drop n bs)

-- The tests of one round, in their order.
abbrev guarded : {A : Type 0} → Bool → Bool → Bool → Bool → Bool → A → Result WalError A
guarded short bad_header cut bad_hash bad_checksum x =
    if short
    then err err_wal_truncated
    else if bad_header
    then err err_wal_header
    else if cut
    then err err_wal_truncated
    else if bad_hash
    then err err_wal_checksum
    else if bad_checksum
    then err err_wal_checksum
    else ok x

guarded-ok : {A : Type 0} (s h c k m : Bool) (x y : A) → guarded s h c k m x ≡ ok y → x ≡ y
guarded-ok false false false false false x y e = ok_injective e
guarded-ok true h c k m x y e = cc
guarded-ok false true c k m x y e = cc
guarded-ok false false true k m x y e = cc
guarded-ok false false false true m x y e = cc
guarded-ok false false false false true x y e = cc

guarded-err :
    {A : Type 0} (s h c k m : Bool) (x : A) (e : WalError)
    → guarded s h c k m x ≡ err e
    → e ≢ out_of_fuel
guarded-err true h c k m x e d = ground arith
guarded-err false true c k m x e d = ground arith
guarded-err false false true k m x e d = ground arith
guarded-err false false false true m x e d = ground arith
guarded-err false false false false true x e d = ground arith
guarded-err false false false false false x e d = ground arith

-- The tests of one round on an input.
abbrev size_of : Bytes → ℕ
size_of bs = from_le (subarray 16 20 (take header_bytes bs))

abbrev is_short : Bytes → Bool
is_short bs = ltb (length bs) (header_bytes + checksum_bytes)

abbrev has_bad_header : Bytes → Bool
has_bad_header bs =
    not (text_beq (subarray 0 4 (take header_bytes bs)) magic)
    || not (from_le (subarray 4 6 (take header_bytes bs)) == frame_version)

abbrev is_cut : Bytes → Bool
is_cut bs = ltb (length bs) (header_bytes + size_of bs + checksum_bytes)

abbrev payload_in : Bytes → Bytes
payload_in bs = subarray header_bytes (header_bytes + size_of bs) bs

abbrev has_bad_hash : (Bytes → Bytes) → Bytes → Bool
has_bad_hash sha256 bs =
    not (text_beq (subarray 20 52 (take header_bytes bs)) (sha256 (payload_in bs)))

abbrev has_bad_checksum : (Bytes → Bytes) → Bytes → Bool
has_bad_checksum sha256 bs = not (
    text_beq (subarray (header_bytes + size_of bs) (header_bytes + size_of bs + checksum_bytes) bs)
      (sha256 (take header_bytes bs ++ payload_in bs)))

drop_shorter : (n b : ℕ) (bs : Bytes) → 0 < n → length (drop n (b ∷ bs)) ≤ length bs
drop_shorter zero b bs h = absurd (omega arith)
drop_shorter (suc n) b bs h = length-drop n bs

frame_rest :
    (sha256 : Bytes → Bytes) (b : ℕ) (bs : Bytes) (frame : WalFrame) (rest : Bytes)
    → decode_frame sha256 (b ∷ bs) ≡ ok (frame, rest)
    → length rest ≤ length bs
unfolding decode_frame
frame_rest sha256 b bs frame rest h =
    let input = b ∷ bs in
    let e =
      guarded-ok (is_short input) (has_bad_header input) (is_cut input) (has_bad_hash sha256 input)
        (has_bad_checksum sha256 input)
        (_, drop (header_bytes + size_of input + checksum_bytes) input) (frame, rest) h in
    rw (← ap (λ r. r.1) e)
      (drop_shorter (header_bytes + size_of input + checksum_bytes) b bs (omega arith))

frame_error :
    (sha256 : Bytes → Bytes) (bs : Bytes) (e : WalError)
    → decode_frame sha256 bs ≡ err e
    → e ≢ out_of_fuel
unfolding decode_frame
frame_error sha256 bs e h =
    guarded-err (is_short bs) (has_bad_header bs) (is_cut bs) (has_bad_hash sha256 bs)
      (has_bad_checksum sha256 bs) _ e h

error_injective :
    {A : Type 0} {d e : WalError} → ◌≡◌ {A = Result WalError A} (err d) (err e) → d ≡ e
error_injective h = cc

after_frame :
    (frame : WalFrame) (r : Result WalError (List WalFrame)) (e : WalError)
    → (r >>= λ frames. ok (frame ∷ frames)) ≡ err e
    → r ≡ err e
after_frame frame (ok frames) e h = cc
after_frame frame (err x) e h = ap err (error_injective h)

enough_fuel :
    (sha256 : Bytes → Bytes) (fuel : ℕ) (bs : Bytes)
    → length bs ≤ fuel
    → decode_from sha256 fuel bs ≢ err out_of_fuel
unfolding decode_from
enough_fuel sha256 fuel [] h e = cc
enough_fuel sha256 zero (b ∷ bs) h e = absurd (omega arith)
enough_fuel sha256 (suc fuel) (b ∷ bs) h e = elim (Result-cases (decode_frame sha256 (b ∷ bs))) [
  | inr (x, thrown) ↦
      frame_error sha256 (b ∷ bs) x thrown (error_injective (rw (thrown, decode_from) at e))
  | inl ((frame, rest), read) ↦
      enough_fuel sha256 fuel rest (omega (arith, frame_rest sha256 b bs frame rest read))
        (after_frame frame (decode_from sha256 fuel rest) out_of_fuel (rw (read, decode_from) at e))
]

-- The decoding of any bytes as a log of frames ends with the frames or with an error of the format, never
-- for want of fuel.
pub decode_wal_frames-terminates :
    (sha256 : Bytes → Bytes) (bytes : Bytes) → decode_wal_frames sha256 bytes ≢ err out_of_fuel
unfolding decode_wal_frames
decode_wal_frames-terminates sha256 bytes = enough_fuel sha256 (length bytes) bytes (omega arith)
