-- ===== src/ArchiveB/Ssz.antt =====
-- implementations/archive-b/src/ssz.ts: containers with a schema, in the SSZ encoding.
pub mod Root
pub mod RoundTrip
mod Tests
pub mod Canonical
pub mod Keys
pub mod Bounds
pub mod Messages
use co_net_dle.Common.{
  ℕ, ◌+◌, ◌*◌, ◌^◌, Bool, true, false, not, ◌&&◌, ◌||◌, Option, none, some, List, [], ◌∷◌, ◌++◌,
  map, Result, ok, err, ◌>>=◌, ◌>>◌, throw_if, ltb, leb, ◌==◌, if◌then◌else◌, length, take, drop,
  Bytes, le_bytes, from_le, string_eq, set_size, Value, bigint, number, decimal, hex, hexes, other,
  FixedRecord, value_at, keys, all_in, max_safe_integer,
}
use Prim.Native.String.{String}

pub data SszError : Type 0 where
  -- `ERR_INVALID_CANONICAL_SSZ:` with what stands behind the colon.
  err_invalid_canonical_ssz : String → SszError
  err_nil_encoding err_invalid_valid_round : SszError

pub data FieldKind : Type 0 where
  bytes32 uint8 uint16 uint32 uint64 uint256 bytes32x5 bytes65x5 : FieldKind

pub record Field : Type 0 where
  pub name : String
  pub kind : FieldKind

-- `WIDTH`.
abbrev pub width : FieldKind → ℕ
width bytes32 = 32
width uint8 = 1
width uint16 = 2
width uint32 = 4
width uint64 = 8
width uint256 = 32
width bytes32x5 = 160
width bytes65x5 = 325

-- `parsed`, before the test of its range.
abbrev pub parsed_uint : Value → Option ℕ
parsed_uint (bigint n) = some n
parsed_uint (number n) = if leb n max_safe_integer then some n else none
parsed_uint (decimal n) = some n
parsed_uint _ = none

unfoldable pub as_uint : Value → ℕ → String → Result SszError ℕ
as_uint v bits field = elim (parsed_uint v) [
  | none ↦ err (err_invalid_canonical_ssz field)
  | some n ↦ if ltb n (2 ^ bits) then ok n else err (err_invalid_canonical_ssz field)
]

abbrev pub all_width : ℕ → List Bytes → Bool
all_width w [] = true
all_width w (item ∷ items) = length item == w && all_width w items

abbrev pub concat : List Bytes → Bytes
concat [] = []
concat (part ∷ parts) = part ++ concat parts

abbrev encode_hex : Value → String → Result SszError Bytes
encode_hex (hex b) name = if length b == 32 then ok b else err (err_invalid_canonical_ssz name)
encode_hex _ name = err (err_invalid_canonical_ssz name)

abbrev pub encode_hexes : ℕ → Value → String → Result SszError Bytes
encode_hexes w (hexes items) name =
    if not (length items == 5) || not (all_width w items)
    then err (err_invalid_canonical_ssz name)
    else ok (concat items)
encode_hexes w _ name = err (err_invalid_canonical_ssz name)

abbrev pub encode_uint : ℕ → Value → String → Result SszError Bytes
encode_uint w v name = as_uint v (w * 8) name >>= λ n. ok (le_bytes w n)

unfoldable pub encode_field : FieldKind → Value → String → Result SszError Bytes
unfolding as_uint
encode_field bytes32 v name = encode_hex v name
encode_field bytes32x5 v name = encode_hexes 32 v name
encode_field bytes65x5 v name = encode_hexes 65 v name
encode_field uint8 v name = encode_uint (width uint8) v name
encode_field uint16 v name = encode_uint (width uint16) v name
encode_field uint32 v name = encode_uint (width uint32) v name
encode_field uint64 v name = encode_uint (width uint64) v name
encode_field uint256 v name = encode_uint (width uint256) v name

abbrev pub names : List Field → List String
names [] = []
names (f ∷ fs) = f.name ∷ names fs

unfoldable pub assert_exact_keys : FixedRecord → List Field → Result SszError (Unit {0})
assert_exact_keys value schema =
    throw_if
      (not (length (keys value) == set_size (names schema))
        || not (all_in (keys value) (names schema)))
      (err_invalid_canonical_ssz "fields")

unfoldable pub encode_fields : FixedRecord → List Field → Result SszError Bytes
unfolding encode_field
encode_fields value [] = ok []
encode_fields value (f ∷ fs) = do
  part ← encode_field f.kind (value_at f.name value) f.name
  rest ← encode_fields value fs
  ok (part ++ rest)

unfoldable pub encode_container : FixedRecord → List Field → Result SszError Bytes
unfolding assert_exact_keys encode_fields
encode_container value schema = do assert_exact_keys value schema; encode_fields value schema

-- `Array.from({ length: n }, (_, i) => part.slice(i * w, i * w + w))`.
abbrev pub slices : ℕ → ℕ → Bytes → List Bytes
slices w Prim.Native.Nat.zero part = []
slices w (Prim.Native.Nat.suc n) part = take w part ∷ slices w n (drop w part)

unfoldable pub decode_field : FieldKind → Bytes → Value
decode_field bytes32 part = hex part
decode_field bytes32x5 part = hexes (slices 32 5 part)
decode_field bytes65x5 part = hexes (slices 65 5 part)
decode_field uint8 part = number (from_le part)
decode_field uint32 part = number (from_le part)
decode_field _ part = bigint (from_le part)

abbrev pub total_width : List Field → ℕ
total_width [] = 0
total_width (f ∷ fs) = width f.kind + total_width fs

-- The loop of `decodeContainer`; a schema names each field once.
unfoldable pub decode_fields : Bytes → List Field → FixedRecord
unfolding decode_field
decode_fields bytes [] = []
decode_fields bytes (f ∷ fs) =
    (f.name, decode_field f.kind (take (width f.kind) bytes))
    ∷ decode_fields (drop (width f.kind) bytes) fs

unfoldable pub decode_container : Bytes → List Field → Result SszError FixedRecord
unfolding decode_fields
decode_container bytes schema =
    if not (length bytes == total_width schema)
    then err (err_invalid_canonical_ssz "length")
    else ok (decode_fields bytes schema)
