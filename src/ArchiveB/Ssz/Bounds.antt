-- ===== src/ArchiveB/Ssz/Bounds.antt =====
-- Which containers are encoded.
use co_net_dle.Common.{
  Value, bigint, number, decimal, hex, hexes, other, FixedRecord, value_at, max_safe_integer, ℕ,
  ◌*◌, ◌^◌, ◌<◌, ◌≤◌, ◌≡◌, ◌↔◌, refl, true, List, [], ◌∷◌, ◌++◌, arith, Result, ok, err, ◌>>=◌,
  ◌>>◌, length, Bytes, keys, Distinct, string_eq,
}
use Prim.Native.String.{String}
use co_net_dle.ArchiveB.Ssz.{
  SszError, FieldKind, bytes32, uint8, uint16, uint32, uint64, uint256, bytes32x5, bytes65x5, Field,
  as_uint, all_width, encode_uint, encode_hexes, encode_field, encode_fields, assert_exact_keys,
  encode_container, names,
}
use co_net_dle.ArchiveB.Ssz.Keys.{SameKeys, assert_exact_keys_iff}

abbrev AllWide : ℕ → List Bytes → Type 0
AllWide w [] = Unit {0}
AllWide w (item ∷ items) = (length item ≡ w) × AllWide w items

-- A natural number of `w` bytes; a JavaScript number is a safe integer too.
abbrev FitsUint : ℕ → Value → Type 0
FitsUint w (bigint n) = n < 2 ^ (w * 8)
FitsUint w (number n) = (n < 2 ^ (w * 8)) × (n ≤ max_safe_integer)
FitsUint w (decimal n) = n < 2 ^ (w * 8)
FitsUint w _ = ⊥

abbrev FitsHexes : ℕ → Value → Type 0
FitsHexes w (hexes items) = (length items ≡ 5) × AllWide w items
FitsHexes w _ = ⊥

abbrev FitsHex : Value → Type 0
FitsHex (hex b) = length b ≡ 32
FitsHex _ = ⊥

abbrev Fits : FieldKind → Value → Type 0
Fits bytes32 v = FitsHex v
Fits bytes32x5 v = FitsHexes 32 v
Fits bytes65x5 v = FitsHexes 65 v
Fits uint8 v = FitsUint 1 v
Fits uint16 v = FitsUint 2 v
Fits uint32 v = FitsUint 4 v
Fits uint64 v = FitsUint 8 v
Fits uint256 v = FitsUint 32 v

-- Every field of the schema has a value that fits it.
abbrev pub AllFit : FixedRecord → List Field → Type 0
AllFit value [] = Unit {0}
AllFit value (f ∷ fs) = Fits f.kind (value_at f.name value) × AllFit value fs

-- The call returns.
abbrev pub IsOk : Result SszError Bytes → Type 0
IsOk (ok b) = Unit {0}
IsOk (err e) = ⊥

all_width_iff : (w : ℕ) (items : List Bytes) → (all_width w items ≡ true) ↔ AllWide w items
all_width_iff w [] = (λ _. tt, λ _. refl)
all_width_iff w (item ∷ items) = ground (arith, all_width_iff w items)

uint_iff : (w : ℕ) (v : Value) (name : String) → IsOk (encode_uint w v name) ↔ FitsUint w v
unfolding as_uint
uint_iff w (bigint n) name = ground arith
uint_iff w (number n) name = ground arith
uint_iff w (decimal n) name = ground arith
uint_iff w (hex b) name = ground arith
uint_iff w (hexes b) name = ground arith
uint_iff w other name = ground arith

hexes_iff : (w : ℕ) (v : Value) (name : String) → IsOk (encode_hexes w v name) ↔ FitsHexes w v
hexes_iff w (hexes items) name = ground (arith, all_width_iff w items)
hexes_iff w (bigint n) name = ground arith
hexes_iff w (number n) name = ground arith
hexes_iff w (decimal n) name = ground arith
hexes_iff w (hex b) name = ground arith
hexes_iff w other name = ground arith

hex_iff : (v : Value) (name : String) → IsOk (encode_field bytes32 v name) ↔ FitsHex v
unfolding encode_field
hex_iff (hexes items) name = ground arith
hex_iff (bigint n) name = ground arith
hex_iff (number n) name = ground arith
hex_iff (decimal n) name = ground arith
hex_iff (hex b) name = ground arith
hex_iff other name = ground arith

field_iff : (k : FieldKind) (v : Value) (name : String) → IsOk (encode_field k v name) ↔ Fits k v
unfolding encode_field
field_iff bytes32 v name = hex_iff v name
field_iff bytes32x5 v name = hexes_iff 32 v name
field_iff bytes65x5 v name = hexes_iff 65 v name
field_iff uint8 v name = uint_iff 1 v name
field_iff uint16 v name = uint_iff 2 v name
field_iff uint32 v name = uint_iff 4 v name
field_iff uint64 v name = uint_iff 8 v name
field_iff uint256 v name = uint_iff 32 v name

-- A chain returns when both of its calls do.
both_iff :
    (m r : Result SszError Bytes) (f : Bytes → Bytes → Bytes)
    → IsOk (m >>= λ a. r >>= λ b. ok (f a b)) ↔ (IsOk m × IsOk r)
both_iff (ok a) (ok b) f = ground arith
both_iff (ok a) (err e) f = ground arith
both_iff (err e) r f = ground arith

fields_iff :
    (value : FixedRecord) (schema : List Field)
    → IsOk (encode_fields value schema) ↔ AllFit value schema
unfolding encode_fields
fields_iff value [] = ground arith
fields_iff value (f ∷ fs) =
    let both =
      both_iff (encode_field f.kind (value_at f.name value) f.name) (encode_fields value fs)
        (λ a b. a ++ b) in
    let one = field_iff f.kind (value_at f.name value) f.name in
    let more = fields_iff value fs in
    (λ h. let b = both.0 h in (one.0 b.0, more.0 b.1), λ h. both.1 (one.1 h.0, more.1 h.1))

guard_iff :
    (m : Result SszError (Unit {0})) (r : Result SszError Bytes)
    → IsOk (m >> r) ↔ ((m ≡ ok tt) × IsOk r)
guard_iff (ok tt) r = ground arith
guard_iff (err e) r = ground arith

-- A container whose keys are distinct is encoded under a schema of distinct names exactly when it has
-- a key for each of the schema's fields and no others, and each of its fields fits: texts of the right
-- widths, five of them in an array, numbers below the bound of their width.
pub encode_container_iff :
    (value : FixedRecord) (schema : List Field)
    → Distinct (keys value)
    → Distinct (names schema)
    → IsOk (encode_container value schema) ↔ (SameKeys value schema × AllFit value schema)
unfolding encode_container
encode_container_iff value schema dv ds =
    let both = guard_iff (assert_exact_keys value schema) (encode_fields value schema) in
    let fit = fields_iff value schema in
    let same = assert_exact_keys_iff value schema dv ds in
    (λ h. let b = both.0 h in (same.0 b.0, fit.0 b.1), λ h. both.1 (same.1 h.0, fit.1 h.1))
