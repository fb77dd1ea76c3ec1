-- ===== src/ArchiveA/Ssz/Root.antt =====
-- The Merkle root of a container in implementations/archive-a/src/core.ts.
use co_net_dle.Common.{
  Value, hexes, FixedRecord, value_at, ℕ, zero, suc, ◌+◌, ◌-◌, ◌*◌, Bool, true, not, ◌&&◌, List, [],
  ◌∷◌, ◌++◌, Result, ok, err, ◌>>=◌, ◌>>◌, throw_if, ltb, ◌==◌, if◌then◌else◌, length, take, drop,
  replicate, Bytes,
}
use co_net_dle.ArchiveA.Types.{invalid_canonical_ssz}
use co_net_dle.ArchiveA.Ssz.{
  Thrown, dle, type_error, FieldType, bytes65, bytes32x5, bytes65x5, Field, encode_field,
  hex_to_bytes,
}

-- `while (current < value) current *= 2`, on the number of turns left.
abbrev pub grow : ℕ → ℕ → ℕ → ℕ
grow zero current value = current
grow (suc left) current value =
    let wider = grow left (current * 2) value in if ltb current value then wider else current

-- `nextPowerOfTwo`; as many turns as the value are enough.
abbrev pub next_power_of_two : ℕ → ℕ
next_power_of_two value = grow value 1 value

abbrev pub all_width : ℕ → List Bytes → Bool
all_width w [] = true
all_width w (chunk ∷ chunks) = length chunk == w && all_width w chunks

-- `Math.max(1, limit)`.
abbrev pub max_one : ℕ → ℕ
max_one zero = 1
max_one (suc n) = suc n

-- One turn of the loop over the layers, whose lengths are powers of two.
abbrev pub next_layer : (Bytes → Bytes) → List Bytes → List Bytes
next_layer sha256 (a ∷ b ∷ rest) = sha256 (a ++ b) ∷ next_layer sha256 rest
next_layer sha256 rest = rest

-- `while (layer.length > 1)`, on the number of turns left; then `layer[0]`.
abbrev pub layers : (Bytes → Bytes) → ℕ → List Bytes → Bytes
layers sha256 left [] = []
layers sha256 left (a ∷ []) = a
layers sha256 zero (a ∷ b ∷ rest) = a
layers sha256 (suc left) (a ∷ b ∷ rest) = layers sha256 left (next_layer sha256 (a ∷ b ∷ rest))

-- `sha256` is the library's hash. The limit is the number of the chunks at every call.
unfoldable pub merkleize : (Bytes → Bytes) → List Bytes → Result Thrown Bytes
merkleize sha256 chunks = do
  let width = next_power_of_two (max_one (length chunks))
  let layer = chunks ++ replicate (width - length chunks) (replicate 32 0)
  throw_if (not (all_width 32 layer)) (dle invalid_canonical_ssz)
  ok (layers sha256 (length chunks) layer)

-- `chunk.set(…)` on 32 zero bytes.
abbrev pub padded : Bytes → Bytes
padded b = b ++ replicate (32 - length b) 0

-- The loop of `byteVectorRoot` from an offset on, on the number of turns left.
abbrev pub vector_chunks : ℕ → ℕ → Bytes → List Bytes
vector_chunks zero offset value = []
vector_chunks (suc left) offset value =
    let rest = vector_chunks left (offset + 32) value in
    if ltb offset (length value) then padded (take 32 (drop offset value)) ∷ rest else []

-- A field has at most 65 bytes.
unfoldable pub byte_vector_root : (Bytes → Bytes) → Bytes → Result Thrown Bytes
unfolding merkleize
byte_vector_root sha256 value = merkleize sha256 (vector_chunks 3 0 value)

-- `value.map((item) => hexToBytes(item, 32))`.
abbrev pub item_chunks : List Bytes → Result Thrown (List Bytes)
item_chunks [] = ok []
item_chunks (item ∷ items) = do
  chunk ← hex_to_bytes item 32
  rest ← item_chunks items
  ok (chunk ∷ rest)

-- `value.map((item) => byteVectorRoot(hexToBytes(item, 65)))`.
unfoldable pub signature_chunks : (Bytes → Bytes) → List Bytes → Result Thrown (List Bytes)
unfolding byte_vector_root
signature_chunks sha256 [] = ok []
signature_chunks sha256 (item ∷ items) = do
  signature ← hex_to_bytes item 65
  root ← byte_vector_root sha256 signature
  rest ← signature_chunks sha256 items
  ok (root ∷ rest)

-- Only called on arrays of hex texts; another value has no `map`.
unfoldable pub five_root : (Bytes → Bytes) → FieldType → Value → Result Thrown Bytes
unfolding signature_chunks
five_root sha256 bytes32x5 (hexes items) = item_chunks items >>= merkleize sha256
five_root sha256 _ (hexes items) = signature_chunks sha256 items >>= merkleize sha256
five_root sha256 _ _ = err type_error

unfoldable pub field_root : (Bytes → Bytes) → FieldType → Value → Result Thrown Bytes
unfolding five_root
field_root sha256 bytes32x5 v = five_root sha256 bytes32x5 v
field_root sha256 bytes65x5 v = five_root sha256 bytes65x5 v
field_root sha256 bytes65 v = encode_field bytes65 v >>= byte_vector_root sha256
field_root sha256 type v = encode_field type v >>= λ b. ok (padded b)

unfoldable pub field_roots : (Bytes → Bytes) → FixedRecord → List Field → Result Thrown (List Bytes)
unfolding field_root
field_roots sha256 object [] = ok []
field_roots sha256 object (f ∷ fs) = do
  root ← field_root sha256 f.type (value_at f.name object)
  rest ← field_roots sha256 object fs
  ok (root ∷ rest)

-- `hashTreeRoot`, of the container with these fields.
unfoldable pub hash_tree_root : (Bytes → Bytes) → List Field → FixedRecord → Result Thrown Bytes
unfolding field_roots merkleize
hash_tree_root sha256 fields object = field_roots sha256 object fields >>= merkleize sha256
