-- ===== src/ArchiveB/Ssz/Canonical.antt =====
-- Bytes that are decoded as a container and encoded again.
use co_net_dle.Common.{
  Value, bigint, number, FixedRecord, max_safe_integer, keys, all_in, ℕ, zero, suc, ◌+◌, ◌*◌, ◌/◌,
  ◌%◌, ◌^◌, ◌<◌, ◌≤◌, ◌≡◌, refl, ap, true, false, List, [], ◌∷◌, ◌++◌, arith, ok, ◌==◌, length,
  take, drop, Bytes, le_bytes, from_le, length-take, length-drop, includes, set_size, Distinct,
  size-of_Distinct, string_eq,
}
use Prim.Native.String.{String}
use native.Mathlib.Nat.{pow-suc}
use co_net_dle.ArchiveB.Ssz.{
  FieldKind, bytes32, uint8, uint16, uint32, uint64, uint256, bytes32x5, bytes65x5, Field, width,
  as_uint, all_width, concat, slices, encode_field, encode_fields, assert_exact_keys,
  encode_container, decode_field, decode_fields, decode_container, encode_uint, total_width, names,
}
use co_net_dle.ArchiveB.Ssz.RoundTrip.{pow_bytes}

-- Each entry is a byte.
abbrev pub AllBytes : Bytes → Type 0
AllBytes [] = Unit {0}
AllBytes (b ∷ bs) = (b < 256) × AllBytes bs

AllBytes-take : (n : ℕ) (bs : Bytes) → AllBytes bs → AllBytes (take n bs)
AllBytes-take zero bs h = tt
AllBytes-take (suc n) [] h = tt
AllBytes-take (suc n) (b ∷ bs) h = (h.0, AllBytes-take n bs h.1)

AllBytes-drop : (n : ℕ) (bs : Bytes) → AllBytes bs → AllBytes (drop n bs)
AllBytes-drop zero bs h = h
AllBytes-drop (suc n) [] h = tt
AllBytes-drop (suc n) (b ∷ bs) h = AllBytes-drop n bs h.1

le_bytes-from_le : (bs : Bytes) → AllBytes bs → le_bytes (length bs) (from_le bs) ≡ bs
unfolding le_bytes from_le
le_bytes-from_le [] h = refl
le_bytes-from_le (b ∷ bs) h =
    let low : (from_le bs * 256 + b) % 256 ≡ b = omega (arith, h.0) in
    let high : (from_le bs * 256 + b) / 256 ≡ from_le bs = omega (arith, h.0) in
    rw (low, high, le_bytes-from_le bs h.1) refl

from_le-lt : (bs : Bytes) → AllBytes bs → from_le bs < 256 ^ length bs
unfolding from_le
from_le-lt [] h = omega arith
from_le-lt (b ∷ bs) h = rw pow-suc (omega (arith, from_le-lt bs h.1, h.0))

take-drop : (n : ℕ) (bs : Bytes) → take n bs ++ drop n bs ≡ bs
take-drop zero bs = refl
take-drop (suc n) [] = refl
take-drop (suc n) (b ∷ bs) = ap (λ t. b ∷ t) (take-drop n bs)

concat-slices :
    (w n : ℕ) (bs : Bytes)
    → length bs ≡ n * w
    → (concat (slices w n bs) ≡ bs) × (all_width w (slices w n bs) ≡ true)
concat-slices w zero [] h = (refl, refl)
concat-slices w zero (b ∷ bs) h = ground arith
concat-slices w (suc n) bs h =
    let split : length bs ≡ w + n * w = omega (arith, h) in
    let (same, wide) = concat-slices w n (drop w bs) (length-drop w (n * w) bs split) in
    let size = length-take w (n * w) bs split in
    (rw (same) (take-drop w bs), ground (arith, wide, size))

uint_value :
    (w : ℕ) (part : Bytes)
    → length part ≡ w
    → AllBytes part
    → (from_le part < 2 ^ (w * 8)) × (le_bytes w (from_le part) ≡ part)
uint_value w part n h =
    (rw pow_bytes (rw n at (from_le-lt part h)), rw n at (le_bytes-from_le part h))

bigint_again :
    (w : ℕ) (part : Bytes) (name : String)
    → length part ≡ w
    → AllBytes part
    → encode_uint w (bigint (from_le part)) name ≡ ok part
unfolding as_uint
bigint_again w part name n h = ground (arith, uint_value w part n h)

number_again :
    (w : ℕ) (part : Bytes) (name : String)
    → length part ≡ w
    → AllBytes part
    → from_le part ≤ max_safe_integer
    → encode_uint w (number (from_le part)) name ≡ ok part
unfolding as_uint
number_again w part name n h safe = ground (arith, uint_value w part n h)

field_again :
    (k : FieldKind) (name : String) (part : Bytes)
    → length part ≡ width k
    → AllBytes part
    → encode_field k (decode_field k part) name ≡ ok part
unfolding encode_field decode_field
field_again bytes32 name part n h = ground arith
field_again bytes32x5 name part n h = ground (arith, concat-slices 32 5 part)
field_again bytes65x5 name part n h = ground (arith, concat-slices 65 5 part)
field_again uint8 name part n h =
    number_again 1 part name n h (omega (arith, (uint_value 1 part n h).0))
field_again uint16 name part n h = bigint_again 2 part name n h
field_again uint32 name part n h =
    number_again 4 part name n h (omega (arith, (uint_value 4 part n h).0))
field_again uint64 name part n h = bigint_again 8 part name n h
field_again uint256 name part n h = bigint_again 32 part name n h

-- An entry that no field of the schema names is not read.
entry_skipped :
    (name : String) (v : Value) (value : FixedRecord) (schema : List Field)
    → includes name (names schema) ≡ false
    → encode_fields ((name, v) ∷ value) schema ≡ encode_fields value schema
unfolding encode_fields
entry_skipped name v value [] h = refl
entry_skipped name v value (f ∷ fs) h =
    let other_name : string_eq.beq f.name name ≡ false = ground arith in
    let rest : includes name (names fs) ≡ false = ground arith in
    rw (other_name, entry_skipped name v value fs rest) refl

fields_again :
    (bytes : Bytes) (schema : List Field)
    → length bytes ≡ total_width schema
    → AllBytes bytes
    → Distinct (names schema)
    → encode_fields (decode_fields bytes schema) schema ≡ ok bytes
unfolding encode_fields decode_fields
fields_again [] [] n h d = refl
fields_again (b ∷ bs) [] n h d = ground arith
fields_again bytes (f ∷ fs) n h d =
    let w = width f.kind in
    let v = decode_field f.kind (take w bytes) in
    let rest = decode_fields (drop w bytes) fs in
    let own : string_eq.beq f.name f.name ≡ true = (string_eq.beq_iff f.name f.name).1 refl in
    let one =
      field_again f.kind f.name (take w bytes) (length-take w (total_width fs) bytes n)
        (AllBytes-take w bytes h) in
    let more =
      fields_again (drop w bytes) fs (length-drop w (total_width fs) bytes n)
        (AllBytes-drop w bytes h) d.1 in
    rw (own, one, entry_skipped f.name v rest fs d.0, more, take-drop w bytes) refl

keys-decode_fields :
    (bytes : Bytes) (schema : List Field) → keys (decode_fields bytes schema) ≡ names schema
unfolding decode_fields
keys-decode_fields bytes [] = refl
keys-decode_fields bytes (f ∷ fs) =
    ap (λ t. f.name ∷ t) (keys-decode_fields (drop (width f.kind) bytes) fs)

all_in-cons : (x : String) (xs ys : List String) → all_in xs ys ≡ true → all_in xs (x ∷ ys) ≡ true
all_in-cons x [] ys h = refl
all_in-cons x (z ∷ xs) ys h = ground (arith, all_in-cons x xs ys)

all_in_self : (xs : List String) → all_in xs xs ≡ true
all_in_self [] = refl
all_in_self (x ∷ xs) =
    let own : string_eq.beq x x ≡ true = (string_eq.beq_iff x x).1 refl in
    rw (own, all_in-cons x xs xs (all_in_self xs)) refl

exact_again :
    (bytes : Bytes) (schema : List Field)
    → Distinct (names schema)
    → assert_exact_keys (decode_fields bytes schema) schema ≡ ok tt
unfolding assert_exact_keys
exact_again bytes schema d =
    let size : (length (names schema) == set_size (names schema)) ≡ true =
      ground (arith, size-of_Distinct (names schema) d) in
    rw (keys-decode_fields bytes schema, size, all_in_self (names schema)) refl

-- Bytes that decode under a schema of different names are what the decoded container encodes to: no
-- container has a second encoding.
pub encode-decode_container :
    (bytes : Bytes) (schema : List Field) (value : FixedRecord)
    → AllBytes bytes
    → Distinct (names schema)
    → decode_container bytes schema ≡ ok value
    → encode_container value schema ≡ ok bytes
unfolding encode_container decode_container
encode-decode_container bytes schema value h d e =
    let n : length bytes ≡ total_width schema = ground arith in
    let same : decode_fields bytes schema ≡ value = ground arith in
    rw (← same, exact_again bytes schema d) (fields_again bytes schema n h d)
