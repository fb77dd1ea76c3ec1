-- ===== src/ArchiveA/Ssz/Agreement.antt =====
-- The SSZ encoding of implementations/archive-a/src/core.ts beside that of
-- implementations/archive-b/src/ssz.ts.
pub mod Roots
use co_net_dle.Common.{
  Value, bigint, number, decimal, hex, hexes, other, FixedRecord, value_at, keys, all_in, ℕ, zero,
  suc, ◌+◌, ◌*◌, ◌^◌, ◌≡◌, refl, ap, Bool, true, false, List, [], ◌∷◌, ◌++◌, arith, Result, ok, err,
  ok-bind, ok_injective, length, Bytes, includes, string_eq, beq_sym, Bool-cases, inl, inr, ◌||◌,
}
use Prim.Native.String.{String}
use co_net_dle.ArchiveA.Ssz
use co_net_dle.ArchiveA.Ssz.{FieldType, concat_bytes, hex_to_bytes, uint_le}
use co_net_dle.ArchiveB.Ssz as B
use co_net_dle.ArchiveB.Ssz.{FieldKind, all_width, concat}

abbrev pub a_type : FieldKind → FieldType
a_type FieldKind.bytes32 = FieldType.bytes32
a_type FieldKind.uint8 = FieldType.uint8
a_type FieldKind.uint16 = FieldType.uint16
a_type FieldKind.uint32 = FieldType.uint32
a_type FieldKind.uint64 = FieldType.uint64
a_type FieldKind.uint256 = FieldType.uint256
a_type FieldKind.bytes32x5 = FieldType.bytes32x5
a_type FieldKind.bytes65x5 = FieldType.bytes65x5

abbrev a_field : B.Field → Ssz.Field
a_field f = record { name = f.name; type = a_type f.kind }

-- An archive-b schema as archive-a writes it.
abbrev pub a_fields : List B.Field → List Ssz.Field
a_fields [] = []
a_fields (f ∷ fs) = a_field f ∷ a_fields fs

concat-agrees :
    (w : ℕ) (items : List Bytes)
    → all_width w items ≡ true
    → concat_bytes items w ≡ ok (concat items)
unfolding hex_to_bytes
concat-agrees w [] h = refl
concat-agrees w (item ∷ items) h =
    let one : hex_to_bytes item w ≡ ok item = ground arith in
    let more : all_width w items ≡ true = ground arith in rw (one, concat-agrees w items more) refl

five_agrees :
    (w : ℕ) (v : Value) (name : String) (part : Bytes)
    → B.encode_hexes w v name ≡ ok part
    → Ssz.encode_five v w ≡ ok part
five_agrees w (hexes items) name part h = ground (arith, concat-agrees w items)
five_agrees w (bigint n) name part h = ground arith
five_agrees w (number n) name part h = ground arith
five_agrees w (decimal n) name part h = ground arith
five_agrees w (hex b) name part h = ground arith
five_agrees w other name part h = ground arith

uint_agrees :
    (w : ℕ) (v : Value) (name : String) (part : Bytes)
    → B.encode_uint w v name ≡ ok part
    → Ssz.encode_uint v w ≡ ok part
unfolding uint_le B.as_uint
uint_agrees w (bigint n) name part h = ground arith
uint_agrees w (number n) name part h = ground arith
uint_agrees w (decimal n) name part h = ground arith
uint_agrees w (hex b) name part h = ground arith
uint_agrees w (hexes b) name part h = ground arith
uint_agrees w other name part h = ground arith

hex_agrees :
    (v : Value) (name : String) (part : Bytes)
    → B.encode_field FieldKind.bytes32 v name ≡ ok part
    → Ssz.encode_hex v 32 ≡ ok part
unfolding B.encode_field hex_to_bytes
hex_agrees (bigint n) name part h = ground arith
hex_agrees (number n) name part h = ground arith
hex_agrees (decimal n) name part h = ground arith
hex_agrees (hex b) name part h = ground arith
hex_agrees (hexes b) name part h = ground arith
hex_agrees other name part h = ground arith

pub field_agrees :
    (k : FieldKind) (v : Value) (name : String) (part : Bytes)
    → B.encode_field k v name ≡ ok part
    → Ssz.encode_field (a_type k) v ≡ ok part
unfolding B.encode_field Ssz.encode_field
field_agrees FieldKind.bytes32 v name part h = hex_agrees v name part h
field_agrees FieldKind.bytes32x5 v name part h = five_agrees 32 v name part h
field_agrees FieldKind.bytes65x5 v name part h = five_agrees 65 v name part h
field_agrees FieldKind.uint8 v name part h = uint_agrees 1 v name part h
field_agrees FieldKind.uint16 v name part h = uint_agrees 2 v name part h
field_agrees FieldKind.uint32 v name part h = uint_agrees 4 v name part h
field_agrees FieldKind.uint64 v name part h = uint_agrees 8 v name part h
field_agrees FieldKind.uint256 v name part h = uint_agrees 32 v name part h

fields_agree :
    (value : FixedRecord) (schema : List B.Field) (bytes : Bytes)
    → B.encode_fields value schema ≡ ok bytes
    → Ssz.encode_fields value (a_fields schema) ≡ ok bytes
unfolding B.encode_fields Ssz.encode_fields
fields_agree value [] bytes h = ground arith
fields_agree value (f ∷ fs) bytes h =
    let v = value_at f.name value in
    let (part, x, more) = ok-bind (B.encode_field f.kind v f.name) _ bytes h in
    let (rest, y, z) = ok-bind (B.encode_fields value fs) _ bytes more in
    let whole : part ++ rest ≡ bytes = ok_injective z in
    rw (field_agrees f.kind v f.name part x, fields_agree value fs rest y, whole) refl

names_agree : (schema : List B.Field) → Ssz.names (a_fields schema) ≡ B.names schema
names_agree [] = refl
names_agree (f ∷ fs) = ap (λ t. f.name ∷ t) (names_agree fs)

-- A name without a key is read as `undefined`.
absent_other :
    (name : String) (value : FixedRecord)
    → includes name (keys value) ≡ false
    → value_at name value ≡ other
absent_other name [] h = refl
absent_other name ((key, v) ∷ rest) h =
    let apart : string_eq.beq key name ≡ false = ground arith in
    let more : includes name (keys rest) ≡ false = ground arith in
    rw (beq_sym key name apart) (absent_other name rest more)

-- `undefined` is not encoded.
other_refused :
    (k : FieldKind) (name : String) → (e : B.SszError) × (B.encode_field k other name ≡ err e)
unfolding B.encode_field
other_refused FieldKind.bytes32 name = (_, refl)
other_refused FieldKind.bytes32x5 name = (_, refl)
other_refused FieldKind.bytes65x5 name = (_, refl)
other_refused FieldKind.uint8 name = (B.err_invalid_canonical_ssz name, ground arith)
other_refused FieldKind.uint16 name = (B.err_invalid_canonical_ssz name, ground arith)
other_refused FieldKind.uint32 name = (B.err_invalid_canonical_ssz name, ground arith)
other_refused FieldKind.uint64 name = (B.err_invalid_canonical_ssz name, ground arith)
other_refused FieldKind.uint256 name = (B.err_invalid_canonical_ssz name, ground arith)

key_present :
    (k : FieldKind) (name : String) (value : FixedRecord) (part : Bytes)
    → B.encode_field k (value_at name value) name ≡ ok part
    → includes name (keys value) ≡ true
key_present k name value part h = elim (Bool-cases (includes name (keys value))) [
  | inl t ↦ t
  | inr f ↦
      let (e, x) = other_refused k name in
      let clash : err e ≡ ok part = rw (← x, ← absent_other name value f) h in ground arith
]

keys_present :
    (value : FixedRecord) (schema : List B.Field) (bytes : Bytes)
    → B.encode_fields value schema ≡ ok bytes
    → all_in (B.names schema) (keys value) ≡ true
unfolding B.encode_fields
keys_present value [] bytes h = refl
keys_present value (f ∷ fs) bytes h =
    let v = value_at f.name value in
    let (part, x, more) = ok-bind (B.encode_field f.kind v f.name) _ bytes h in
    let (rest, y, z) = ok-bind (B.encode_fields value fs) _ bytes more in
    rw (key_present f.kind f.name value part x) (keys_present value fs rest y)

exact_all_in :
    (value : FixedRecord) (schema : List B.Field)
    → B.assert_exact_keys value schema ≡ ok tt
    → all_in (keys value) (B.names schema) ≡ true
unfolding B.assert_exact_keys
exact_all_in value schema h = ground arith

-- Whatever archive-b encodes, archive-a encodes to the same bytes.
pub encodings_agree :
    (value : FixedRecord) (schema : List B.Field) (bytes : Bytes)
    → B.encode_container value schema ≡ ok bytes
    → Ssz.serialize_container (a_fields schema) value ≡ ok bytes
unfolding B.encode_container Ssz.serialize_container
encodings_agree value schema bytes h =
    let (u, x, y) = ok-bind (B.assert_exact_keys value schema) _ bytes h in
    rw (names_agree schema, exact_all_in value schema x, keys_present value schema bytes y)
      (fields_agree value schema bytes y)
