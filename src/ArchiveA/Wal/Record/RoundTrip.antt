-- ===== src/ArchiveA/Wal/Record/RoundTrip.antt =====
-- The fields of a safety record that the log of implementations/archive-a/src/core.ts reads back.
use co_net_dle.Common.{
  ℕ, ◌+◌, ◌*◌, ◌^◌, ◌<◌, ◌≡◌, refl, sym, ap, ◌∙◌, false, true, ◌++◌, arith, Result, ok, ok-bind,
  ok_injective, length, ltb, ◌==◌, Bytes, le_bytes, from_le, length-le_bytes, from_le-of_bytes,
  length-append,
}
use co_net_dle.ArchiveA.Ssz.{Thrown, uint_le, hex_to_bytes}
use co_net_dle.ArchiveA.Wal.{slice}
use co_net_dle.ArchiveA.Wal.Agreement.{ok-uint_le}
use co_net_dle.ArchiveA.Wal.Record.{
  ◌<>◌, WalSafetyRecord, encode_tail, encode_wal_safety_record, record_at, decode_wal_safety_record,
}

ok-hex :
    (b : Bytes) (n : ℕ) (bytes : Bytes) → hex_to_bytes b n ≡ ok bytes → (length b ≡ n) × (b ≡ bytes)
unfolding hex_to_bytes
ok-hex b n bytes h = ground arith

length-hex : (b : Bytes) (n : ℕ) (bytes : Bytes) → hex_to_bytes b n ≡ ok bytes → length bytes ≡ n
length-hex b n bytes h = let (size, same) = ok-hex b n bytes h in sym (ap length same) ∙ size

length-uint_le : (x n : ℕ) (bytes : Bytes) → uint_le x n ≡ ok bytes → length bytes ≡ n
length-uint_le x n bytes h =
    let (fits, same) = ok-uint_le x n bytes h in sym (ap length same) ∙ length-le_bytes n x

-- A result that has this many bytes where it is one.
abbrev HasSize : Result Thrown Bytes → ℕ → Type 0
HasSize r n = (bytes : Bytes) → r ≡ ok bytes → length bytes ≡ n

<>-fields :
    (a b : Result Thrown Bytes) (bytes : Bytes)
    → (a <> b) ≡ ok bytes
    → (x : Bytes) × (y : Bytes) × (a ≡ ok x) × (b ≡ ok y) × ((x ++ y) ≡ bytes)
unfolding ◌<>◌
<>-fields a b bytes h =
    let (x, p, h1) = ok-bind a _ bytes h in
    let (y, q, h2) = ok-bind b _ bytes h1 in (x, y, p, q, ok_injective h2)

<>-HasSize :
    {m n : ℕ} (a b : Result Thrown Bytes) → HasSize a m → HasSize b n → HasSize (a <> b) (m + n)
<>-HasSize a b p q bytes h =
    let (x, y, f, g, same) = <>-fields a b bytes h in
    let size_x = p x f in
    let size_y = q y g in sym (ap length same) ∙ (length-append x y ∙ omega arith)

-- The fields before the sign bytes, in the payload.
abbrev head_of : WalSafetyRecord → Bytes → Bytes
head_of r rest =
    le_bytes 2 1
    ++ (le_bytes 1 r.record_kind
        ++ (le_bytes 1 r.domain
            ++ (le_bytes 8 r.height
                ++ (le_bytes 4 r.round
                    ++ (le_bytes 1 r.step
                        ++ (le_bytes 4 (length r.canonical_sign_bytes) ++ rest))))))

encode_tail-HasSize : (r : WalSafetyRecord) → HasSize (encode_tail r) 321
unfolding encode_tail
encode_tail-HasSize r = <>-HasSize _ _ (length-hex r.signing_root 32) (
    <>-HasSize _ _ (length-hex r.signature 65) (
      <>-HasSize _ _ (length-hex r.proposal_hash 32) (
        <>-HasSize _ _ (length-hex r.locked_value 32) (
          <>-HasSize _ _ (length-uint_le r.locked_round 4) (
            <>-HasSize _ _ (length-hex r.valid_value 32) (
              <>-HasSize _ _ (length-uint_le r.valid_round 4) (
                <>-HasSize _ _ (length-hex r.qc_ref 32) (
                  <>-HasSize _ _ (length-hex r.tc_ref 32) (
                    <>-HasSize _ _ (length-uint_le r.membership_epoch 8) (
                      <>-HasSize _ _ (length-hex r.membership_root 32) (
                        <>-HasSize _ _ (length-uint_le r.key_epoch 8)
                          ((length-uint_le r.committed_height 8)))))))))))))

-- What the head of a payload says.
pub record Encoded (r : WalSafetyRecord) (payload : Bytes) : Type 0 where
  pub tail : Bytes
  pub layout : head_of r (r.canonical_sign_bytes ++ tail) ≡ payload
  pub size : length tail ≡ 321
  pub domain_fits : r.domain < 2 ^ (1 * 8)
  pub height_fits : r.height < 2 ^ (8 * 8)
  pub round_fits : r.round < 2 ^ (4 * 8)
  pub step_fits : r.step < 2 ^ (1 * 8)
  pub sign_bytes_fit : length r.canonical_sign_bytes < 2 ^ (4 * 8)

encoded :
    (r : WalSafetyRecord) (payload : Bytes)
    → encode_wal_safety_record r ≡ ok payload
    → Encoded r payload
unfolding encode_wal_safety_record
encoded r payload h =
    let (b0, t0, e0, h0, j0) = <>-fields (uint_le 1 2) _ payload h in
    let (b1, t1, e1, h1, j1) = <>-fields (uint_le r.record_kind 1) _ t0 h0 in
    let (b2, t2, e2, h2, j2) = <>-fields (uint_le r.domain 1) _ t1 h1 in
    let (b3, t3, e3, h3, j3) = <>-fields (uint_le r.height 8) _ t2 h2 in
    let (b4, t4, e4, h4, j4) = <>-fields (uint_le r.round 4) _ t3 h3 in
    let (b5, t5, e5, h5, j5) = <>-fields (uint_le r.step 1) _ t4 h4 in
    let (b6, t6, e6, h6, j6) = <>-fields (uint_le (length r.canonical_sign_bytes) 4) _ t5 h5 in
    let (b7, tail, e7, h7, j7) = <>-fields (ok r.canonical_sign_bytes) (encode_tail r) t6 h6 in
    let (fit0, is0) = ok-uint_le 1 2 b0 e0 in
    let (fit1, is1) = ok-uint_le r.record_kind 1 b1 e1 in
    let (fit2, is2) = ok-uint_le r.domain 1 b2 e2 in
    let (fit3, is3) = ok-uint_le r.height 8 b3 e3 in
    let (fit4, is4) = ok-uint_le r.round 4 b4 e4 in
    let (fit5, is5) = ok-uint_le r.step 1 b5 e5 in
    let (fit6, is6) = ok-uint_le (length r.canonical_sign_bytes) 4 b6 e6 in
    let sign_bytes = ok_injective e7 in
    record {
      tail = tail;
      layout = cc;
      size = encode_tail-HasSize r tail h7;
      domain_fits = fit2;
      height_fits = fit3;
      round_fits = fit4;
      step_fits = fit5;
      sign_bytes_fit = fit6;
    }

decode_parts :
    (n : ℕ) (payload : Bytes)
    → length payload ≡ 21 + n + 321
    → from_le (slice 0 2 payload) ≡ 1
    → from_le (slice 17 21 payload) ≡ n
    → decode_wal_safety_record payload ≡ ok (record_at n payload)
unfolding decode_wal_safety_record
decode_parts n payload total version canonical =
    let long : ltb (length payload) (21 + 321) ≡ false = rw total (ground arith) in
    let same : (length payload == 21 + n + 321) ≡ true = rw total (ground arith) in
    rw (long, version, canonical, same) refl

decode_layout :
    (r : WalSafetyRecord) (tail : Bytes)
    → length tail ≡ 321
    → length r.canonical_sign_bytes < 2 ^ (4 * 8)
    → decode_wal_safety_record (head_of r (r.canonical_sign_bytes ++ tail))
      ≡ ok (record_at (length r.canonical_sign_bytes) (head_of r (r.canonical_sign_bytes ++ tail)))
unfolding le_bytes from_le
decode_layout r tail size fits =
    let canonical : from_le (slice 17 21 (head_of r (r.canonical_sign_bytes ++ tail)))
        ≡ length r.canonical_sign_bytes =
      from_le-of_bytes 4 (length r.canonical_sign_bytes) fits in
    let total : length (head_of r (r.canonical_sign_bytes ++ tail))
        ≡ 21 + length r.canonical_sign_bytes + 321 =
      let joined = length-append r.canonical_sign_bytes tail in omega (arith, size, joined) in
    decode_parts (length r.canonical_sign_bytes) _ total refl canonical

-- A record's slot is written and read back as it stands.
pub record SameSlot (a b : WalSafetyRecord) : Type 0 where
  pub domain : a.domain ≡ b.domain
  pub height : a.height ≡ b.height
  pub round : a.round ≡ b.round
  pub step : a.step ≡ b.step

slot_of_record_at :
    (r : WalSafetyRecord) (n : ℕ) (rest : Bytes)
    → r.domain < 2 ^ (1 * 8)
    → r.height < 2 ^ (8 * 8)
    → r.round < 2 ^ (4 * 8)
    → r.step < 2 ^ (1 * 8)
    → SameSlot (record_at n (head_of r rest)) r
unfolding le_bytes
slot_of_record_at r n rest d g o s = record {
  domain = omega (arith, d);
  height = from_le-of_bytes 8 r.height g;
  round = from_le-of_bytes 4 r.round o;
  step = omega (arith, s);
}

-- What an encoded record is read back as has the record's slot.
pub decoded_slot :
    (r : WalSafetyRecord) (payload : Bytes)
    → encode_wal_safety_record r ≡ ok payload
    → (back : WalSafetyRecord) × (decode_wal_safety_record payload ≡ ok back) × SameSlot back r
decoded_slot r payload h =
    let e = encoded r payload h in
    let read_back = decode_layout r e.tail e.size e.sign_bytes_fit in
    (
      record_at (length r.canonical_sign_bytes) (head_of r (r.canonical_sign_bytes ++ e.tail)),
      ap decode_wal_safety_record (sym e.layout) ∙ read_back,
      slot_of_record_at r (length r.canonical_sign_bytes) (r.canonical_sign_bytes ++ e.tail)
          e.domain_fits e.height_fits e.round_fits e.step_fits,
    )
