-- ===== src/ArchiveB/Ssz/RoundTrip.antt =====
-- Containers that are encoded and decoded.
use co_net_dle.Common.{
  Value, bigint, number, decimal, hex, hexes, other, FixedRecord, value_at, ℕ, zero, suc, ◌*◌, ◌^◌,
  ◌<◌, ◌≡◌, refl, ap, true, none, some, List, [], ◌∷◌, ◌++◌, arith, ok, length, take, drop, Bytes,
  le_bytes, from_le, from_le-of_bytes, length-le_bytes, length-append, take-append_of,
  drop-append_of, ok-bind, ok_injective,
}
use native.Mathlib.Nat.{pow-suc}
use co_net_dle.ArchiveB.Ssz.{
  encode_uint, encode_hexes, FieldKind, bytes32, uint8, uint16, uint32, uint64, uint256, bytes32x5,
  bytes65x5, Field, width, parsed_uint, as_uint, all_width, concat, encode_field, encode_fields,
  assert_exact_keys, encode_container, decode_field, decode_fields, decode_container, slices,
  total_width,
}

-- A number in the type that decoding gives it.
abbrev as_read : FieldKind → ℕ → Value
as_read uint8 n = number n
as_read uint32 n = number n
as_read _ n = bigint n

abbrev canonical_uint : FieldKind → Value → Value
canonical_uint k v = elim (parsed_uint v) [ none ↦ v | some n ↦ as_read k n ]

-- The value as decoding gives it back.
abbrev pub canonical : FieldKind → Value → Value
canonical bytes32 v = v
canonical bytes32x5 v = v
canonical bytes65x5 v = v
canonical k v = canonical_uint k v

pub slices-concat :
    (w : ℕ) (items : List Bytes)
    → all_width w items ≡ true
    → slices w (length items) (concat items) ≡ items
slices-concat w [] h = refl
slices-concat w (item ∷ items) h =
    let e : length item ≡ w = ground arith in
    let tail : all_width w items ≡ true = ground arith in
    rw (take-append_of item (concat items) w e, drop-append_of item (concat items) w e)
      (ap (λ t. item ∷ t) (slices-concat w items tail))

length-concat :
    (w : ℕ) (items : List Bytes)
    → all_width w items ≡ true
    → length (concat items) ≡ length items * w
length-concat w [] h = omega arith
length-concat w (item ∷ items) h =
    let e : length item ≡ w = ground arith in
    let tail : all_width w items ≡ true = ground arith in
    rw (length-append item (concat items), length-concat w items tail, e) (omega arith)

hexes_read :
    (w : ℕ) (v : Value) (name : Prim.Native.String.String) (part : Bytes)
    → encode_hexes w v name ≡ ok part
    → (length part ≡ 5 * w) × (hexes (slices w 5 part) ≡ v)
hexes_read w (hexes items) name part h =
    let five : length items ≡ 5 = ground arith in
    let wide : all_width w items ≡ true = ground arith in
    let same : concat items ≡ part = ground arith in
    let cut : slices w 5 (concat items) ≡ items = rw five at (slices-concat w items wide) in
    let size : length (concat items) ≡ 5 * w = rw five at (length-concat w items wide) in
    rw (← same) (size, ap hexes cut)
hexes_read w (bigint n) name part h = ground arith
hexes_read w (number n) name part h = ground arith
hexes_read w (decimal n) name part h = ground arith
hexes_read w (hex b) name part h = ground arith
hexes_read w other name part h = ground arith

pub pow_bytes : (w : ℕ) → 2 ^ (w * 8) ≡ 256 ^ w
pow_bytes zero = refl
pow_bytes (suc w) =
    let e : suc w * 8 ≡ suc (suc (suc (suc (suc (suc (suc (suc (w * 8)))))))) = omega arith in
    simp (e, pow-suc, pow_bytes w) (omega arith)

uint_bytes :
    (w n : ℕ) → n < 2 ^ (w * 8) → (length (le_bytes w n) ≡ w) × (from_le (le_bytes w n) ≡ n)
uint_bytes w n h = (length-le_bytes w n, from_le-of_bytes w n (rw pow_bytes at h))

uint_reads :
    (w : ℕ) (v : Value) (name : Prim.Native.String.String) (part : Bytes)
    → encode_uint w v name ≡ ok part
    → (length part ≡ w) × (parsed_uint v ≡ some (from_le part))
unfolding as_uint
uint_reads w (bigint n) name part h = ground (arith, uint_bytes w n)
uint_reads w (number n) name part h = ground (arith, uint_bytes w n)
uint_reads w (decimal n) name part h = ground (arith, uint_bytes w n)
uint_reads w (hex b) name part h = ground arith
uint_reads w (hexes b) name part h = ground arith
uint_reads w other name part h = ground arith

abbrev FieldReads : FieldKind → Value → Bytes → Type 0
FieldReads k v part = (length part ≡ width k) × (decode_field k part ≡ canonical k v)

pub field_reads :
    (k : FieldKind) (v : Value) (name : Prim.Native.String.String) (part : Bytes)
    → encode_field k v name ≡ ok part
    → FieldReads k v part
unfolding encode_field decode_field
field_reads bytes32 v name part h = ground arith
field_reads bytes32x5 v name part h = hexes_read 32 v name part h
field_reads bytes65x5 v name part h = hexes_read 65 v name part h
field_reads uint8 v name part h = ground (arith, uint_reads 1 v name part h)
field_reads uint16 v name part h = ground (arith, uint_reads 2 v name part h)
field_reads uint32 v name part h = ground (arith, uint_reads 4 v name part h)
field_reads uint64 v name part h = ground (arith, uint_reads 8 v name part h)
field_reads uint256 v name part h = ground (arith, uint_reads 32 v name part h)

-- The fields of the schema with their values as decoding gives them back.
abbrev pub canonical_fields : FixedRecord → List Field → FixedRecord
canonical_fields value [] = []
canonical_fields value (f ∷ fs) =
    (f.name, canonical f.kind (value_at f.name value)) ∷ canonical_fields value fs

pub fields_read :
    (value : FixedRecord) (schema : List Field) (bytes : Bytes)
    → encode_fields value schema ≡ ok bytes
    → (length bytes ≡ total_width schema)
      × (decode_fields bytes schema ≡ canonical_fields value schema)
unfolding encode_fields decode_fields
fields_read value [] bytes h = ground arith
fields_read value (f ∷ fs) bytes h =
    let v = value_at f.name value in
    let (part, x, more) = ok-bind (encode_field f.kind v f.name) _ bytes h in
    let (rest, y, z) = ok-bind (encode_fields value fs) _ bytes more in
    let (size, read) = field_reads f.kind v f.name part x in
    let (sizes, reads) = fields_read value fs rest y in
    let whole : part ++ rest ≡ bytes = ok_injective z in
    let front : take (width f.kind) bytes ≡ part =
      rw (← whole) (take-append_of part rest (width f.kind) size) in
    let back : drop (width f.kind) bytes ≡ rest =
      rw (← whole) (drop-append_of part rest (width f.kind) size) in
    (rw (← whole, length-append part rest, size, sizes) refl, rw (front, back, read, reads) refl)

-- A container that is encoded decodes to a container with the schema's fields, each with the value
-- that was encoded, numbers in the type that decoding gives them.
pub decode-encode_container :
    (value : FixedRecord) (schema : List Field) (bytes : Bytes)
    → encode_container value schema ≡ ok bytes
    → decode_container bytes schema ≡ ok (canonical_fields value schema)
unfolding encode_container decode_container
decode-encode_container value schema bytes h =
    let (u, k, e) = ok-bind (assert_exact_keys value schema) _ bytes h in
    let (size, reads) = fields_read value schema bytes e in ground (arith, size, reads)
