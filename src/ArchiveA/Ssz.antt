-- ===== src/ArchiveA/Ssz.antt =====
-- The SSZ encoding of implementations/archive-a/src/core.ts.
pub mod Root
pub mod Agreement
mod Tests
use co_net_dle.Common.{
  Value, bigint, number, decimal, hex, hexes, other, FixedRecord, value_at, keys, all_in, ℕ, zero,
  suc, ◌+◌, ◌*◌, ◌^◌, Bool, true, false, not, ◌&&◌, ◌||◌, Option, none, some, List, [], ◌∷◌, ◌++◌,
  Result, ok, err, ◌>>=◌, ◌>>◌, throw_if, ltb, leb, ◌==◌, if◌then◌else◌, length, take, drop, Bytes,
  le_bytes, from_le, string_eq, includes,
}
use Prim.Native.String.{String}
use co_net_dle.ArchiveA.Types.{DleError, invalid_canonical_ssz}

-- `DleProtocolError`, or what `BigInt` or a missing method throws.
pub data Thrown : Type 0 where
  dle : DleError → Thrown
  type_error : Thrown

pub data FieldType : Type 0 where
  bytes4 bytes32 bytes65 uint8 uint16 uint32 uint64 uint256 bytes32x5 bytes65x5 : FieldType

pub record Field : Type 0 where
  pub name : String
  pub type : FieldType

unfoldable pub field_byte_length : FieldType → ℕ
field_byte_length bytes4 = 4
field_byte_length bytes32 = 32
field_byte_length bytes65 = 65
field_byte_length uint8 = 1
field_byte_length uint16 = 2
field_byte_length uint32 = 4
field_byte_length uint64 = 8
field_byte_length uint256 = 32
field_byte_length bytes32x5 = 160
field_byte_length bytes65x5 = 325

-- `uintLE`, of a number that is not negative.
unfoldable pub uint_le : ℕ → ℕ → Result Thrown Bytes
uint_le value byte_length =
    if ltb value (2 ^ (byte_length * 8))
    then ok (le_bytes byte_length value)
    else err (dle invalid_canonical_ssz)

-- The bytes from the last to the first, as `BigInt` reads a hex text.
abbrev pub from_be : ℕ → Bytes → ℕ
from_be high [] = high
from_be high (b ∷ bs) = from_be (high * 256 + b) bs

-- `BigInt(value)`; a negative number, which is out of every range, is with the other values. An array is
-- read as the text that joins its items: an empty one is 0, and that of one item is the item.
abbrev pub big_int : Value → Option ℕ
big_int (bigint n) = some n
big_int (number n) = some n
big_int (decimal n) = some n
big_int (hex (b ∷ bs)) = some (from_be 0 (b ∷ bs))
big_int (hexes []) = some 0
big_int (hexes ((b ∷ bs) ∷ [])) = some (from_be 0 (b ∷ bs))
big_int _ = none

abbrev pub encode_uint : Value → ℕ → Result Thrown Bytes
encode_uint v w = elim (big_int v) [ none ↦ err type_error | some n ↦ uint_le n w ]

-- `hexToBytes(item, exactLength)` of a hex text, by its bytes.
unfoldable pub hex_to_bytes : Bytes → ℕ → Result Thrown Bytes
hex_to_bytes b exact_length =
    if length b == exact_length then ok b else err (dle invalid_canonical_ssz)

-- `hexToBytes(String(value), exactLength)`; an array of one text has that text.
abbrev pub encode_hex : Value → ℕ → Result Thrown Bytes
encode_hex (hex b) w = hex_to_bytes b w
encode_hex (hexes (b ∷ [])) w = hex_to_bytes b w
encode_hex _ w = err (dle invalid_canonical_ssz)

abbrev pub concat_bytes : List Bytes → ℕ → Result Thrown Bytes
concat_bytes [] w = ok []
concat_bytes (item ∷ items) w = do
  part ← hex_to_bytes item w
  rest ← concat_bytes items w
  ok (part ++ rest)

-- `values.length !== 5`, else `values.map`, which a text lacks: a decimal text may have five digits.
-- Any other value is `undefined` or `null`.
abbrev pub encode_five : Value → ℕ → Result Thrown Bytes
encode_five (hexes items) w =
    if not (length items == 5) then err (dle invalid_canonical_ssz) else concat_bytes items w
encode_five (decimal n) w =
    err (if leb 10000 n && ltb n 100000 then type_error else dle invalid_canonical_ssz)
encode_five other w = err type_error
encode_five _ w = err (dle invalid_canonical_ssz)

unfoldable pub encode_field : FieldType → Value → Result Thrown Bytes
unfolding uint_le hex_to_bytes
encode_field bytes4 v = encode_hex v 4
encode_field bytes32 v = encode_hex v 32
encode_field bytes65 v = encode_hex v 65
encode_field uint8 v = encode_uint v 1
encode_field uint16 v = encode_uint v 2
encode_field uint32 v = encode_uint v 4
encode_field uint64 v = encode_uint v 8
encode_field uint256 v = encode_uint v 32
encode_field bytes32x5 v = encode_five v 32
encode_field bytes65x5 v = encode_five v 65

abbrev pub names : List Field → List String
names [] = []
names (f ∷ fs) = f.name ∷ names fs

unfoldable pub encode_fields : FixedRecord → List Field → Result Thrown Bytes
unfolding encode_field
encode_fields value [] = ok []
encode_fields value (f ∷ fs) = do
  part ← encode_field f.type (value_at f.name value)
  rest ← encode_fields value fs
  ok (part ++ rest)

-- `serializeContainer`, of the container with these fields.
unfoldable pub serialize_container : List Field → FixedRecord → Result Thrown Bytes
unfolding encode_fields
serialize_container fields object = do
  throw_if (not (all_in (keys object) (names fields))) (dle invalid_canonical_ssz)
  throw_if (not (all_in (names fields) (keys object))) (dle invalid_canonical_ssz)
  encode_fields object fields

-- `Array.from({ length: 5 }, (_, i) => slice.slice(i * w, i * w + w))`.
abbrev pub slices : ℕ → ℕ → Bytes → List Bytes
slices w zero part = []
slices w (suc n) part = take w part ∷ slices w n (drop w part)

unfoldable pub decode_field : FieldType → Bytes → Value
decode_field bytes4 part = hex part
decode_field bytes32 part = hex part
decode_field bytes65 part = hex part
decode_field bytes32x5 part = hexes (slices 32 5 part)
decode_field bytes65x5 part = hexes (slices 65 5 part)
decode_field uint64 part = bigint (from_le part)
decode_field uint256 part = bigint (from_le part)
decode_field _ part = number (from_le part)

abbrev pub expected_length : List Field → ℕ
expected_length [] = 0
expected_length (f ∷ fs) = field_byte_length f.type + expected_length fs

-- The loop of `decodeContainer`; a container names each field once.
unfoldable pub decode_fields : List Field → Bytes → FixedRecord
unfolding decode_field field_byte_length
decode_fields [] bytes = []
decode_fields (f ∷ fs) bytes =
    let w = field_byte_length f.type in
    (f.name, decode_field f.type (take w bytes)) ∷ decode_fields fs (drop w bytes)

unfoldable pub decode_container : List Field → Bytes → Result Thrown FixedRecord
unfolding decode_fields field_byte_length
decode_container fields bytes =
    if not (length bytes == expected_length fields)
    then err (dle invalid_canonical_ssz)
    else ok (decode_fields fields bytes)
