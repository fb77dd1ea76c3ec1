-- ===== src/ArchiveB/Ssz/Root.antt =====
-- The Merkle root of a container in implementations/archive-b/src/ssz.ts.
pub mod Tree
use co_net_dle.Common.{
  FixedRecord, value_at, ℕ, zero, suc, ◌+◌, ◌-◌, ◌*◌, Bool, List, [], ◌∷◌, ◌++◌, Option, none, some,
  Result, ok, ◌>>=◌, ◌>>◌, ltb, if◌then◌else◌, length, get_elem?, take, drop, replicate, Bytes,
}
use co_net_dle.ArchiveB.Ssz.{
  SszError, FieldKind, bytes32, uint256, bytes32x5, bytes65x5, Field, encode_field,
  assert_exact_keys, slices,
}

-- `while (width < n) width *= 2`, on the number of turns left; `n` turns are enough.
abbrev pub widen : ℕ → ℕ → ℕ → ℕ
widen zero width n = width
widen (suc left) width n =
    let wider = widen left (width * 2) n in if ltb width n then wider else width

-- One turn of the loop over the levels: the hashes of the pairs.
abbrev pub hash_pairs : (Bytes → Bytes) → List Bytes → List Bytes
hash_pairs sha256 (a ∷ b ∷ rest) = sha256 (a ++ b) ∷ hash_pairs sha256 rest
hash_pairs sha256 rest = rest

-- `while (level.length > 1)`, on the number of turns left; then `level[0]`.
abbrev pub hash_levels : (Bytes → Bytes) → ℕ → List Bytes → Bytes
hash_levels sha256 left [] = []
hash_levels sha256 left (a ∷ []) = a
hash_levels sha256 zero (a ∷ b ∷ rest) = a
hash_levels sha256 (suc left) (a ∷ b ∷ rest) =
    hash_levels sha256 left (hash_pairs sha256 (a ∷ b ∷ rest))

-- `sha256` is the library's hash. A level is at most half as long as the one before.
unfoldable pub merkleize : (Bytes → Bytes) → List Bytes → Bytes
merkleize sha256 [] = replicate 32 0
merkleize sha256 (c ∷ cs) =
    let chunks = c ∷ cs in
    let width = widen (length chunks) 1 (length chunks) in
    hash_levels sha256 (length chunks)
      (chunks ++ replicate (width - length chunks) (replicate 32 0))

-- `chunk.set(encoded)`.
abbrev pub padded : Bytes → Bytes
padded b = b ++ replicate (32 - length b) 0

-- `signature[64] ?? 0`.
abbrev pub byte_at : ℕ → Bytes → ℕ
byte_at i b = elim (get_elem? b i) [ none ↦ 0 | some x ↦ x ]

abbrev pub signature_root : (Bytes → Bytes) → Bytes → Bytes
signature_root sha256 signature =
    merkleize sha256 (
      take 32 signature
      ∷ take 32 (drop 32 signature)
      ∷ (byte_at 64 signature ∷ replicate 31 0)
      ∷ [])

abbrev pub signature_roots : (Bytes → Bytes) → List Bytes → List Bytes
signature_roots sha256 [] = []
signature_roots sha256 (s ∷ rest) = signature_root sha256 s ∷ signature_roots sha256 rest

unfoldable pub field_root : (Bytes → Bytes) → FieldKind → Bytes → Bytes
unfolding merkleize
field_root sha256 bytes32 encoded = encoded
field_root sha256 uint256 encoded = encoded
field_root sha256 bytes32x5 encoded = merkleize sha256 (slices 32 5 encoded)
field_root sha256 bytes65x5 encoded =
    merkleize sha256 (signature_roots sha256 (slices 65 5 encoded))
field_root sha256 _ encoded = padded encoded

unfoldable pub field_roots :
    (Bytes → Bytes) → FixedRecord → List Field → Result SszError (List Bytes)
unfolding field_root
field_roots sha256 value [] = ok []
field_roots sha256 value (f ∷ fs) = do
  encoded ← encode_field f.kind (value_at f.name value) f.name
  rest ← field_roots sha256 value fs
  ok (field_root sha256 f.kind encoded ∷ rest)

unfoldable pub root_container : (Bytes → Bytes) → FixedRecord → List Field → Result SszError Bytes
unfolding field_roots
root_container sha256 value schema = do
  assert_exact_keys value schema
  roots ← field_roots sha256 value schema
  ok (merkleize sha256 roots)
