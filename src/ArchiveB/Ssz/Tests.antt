-- ===== src/ArchiveB/Ssz/Tests.antt =====
-- Containers at concrete values.
use co_net_dle.Common.{
  number, decimal, FixedRecord, ◌≡◌, refl, ◌↔◌, ℕ, ◌≤◌, ◌<◌, ◌+◌, ◌-◌, ◌^◌, List, [], ◌∷◌, ◌++◌, ok,
  replicate, Bytes, le_bytes, from_le, arith,
}
use co_net_dle.ArchiveB.Ssz.{
  Field, uint32, uint8, encode_container, decode_container, encode_field, encode_fields,
  decode_field, decode_fields, assert_exact_keys, as_uint,
}
use co_net_dle.ArchiveB.Ssz.RoundTrip.{canonical_fields, decode-encode_container}
use co_net_dle.ArchiveB.Ssz.Canonical.{encode-decode_container}
use co_net_dle.ArchiveB.Ssz.Bounds.{IsOk, AllFit, encode_container_iff}
use co_net_dle.ArchiveB.Ssz.Keys.{SameKeys}
use co_net_dle.ArchiveB.Ssz.Root.{merkleize}
use co_net_dle.ArchiveB.Ssz.Root.Tree.{tree, zero_chunks, merkleize-tree}

abbrev schema : List Field
schema = record { name = "round"; kind = uint32 } ∷ record { name = "step"; kind = uint8 } ∷ []

abbrev vote : FixedRecord
vote = ("round", decimal 7) ∷ ("step", number 2) ∷ []

abbrev read_vote : FixedRecord
read_vote = ("round", number 7) ∷ ("step", number 2) ∷ []

abbrev vote_bytes : Bytes
vote_bytes = 7 ∷ 0 ∷ 0 ∷ 0 ∷ 2 ∷ []

vote_encoded : encode_container vote schema ≡ ok vote_bytes
unfolding encode_container encode_fields encode_field assert_exact_keys as_uint le_bytes
vote_encoded = refl

vote_decoded : decode_container vote_bytes schema ≡ ok read_vote
unfolding decode_container decode_fields decode_field from_le
vote_decoded = refl

decode-encode_container_example :
    decode_container vote_bytes schema ≡ ok (canonical_fields vote schema)
decode-encode_container_example = decode-encode_container vote schema vote_bytes vote_encoded

encode-decode_container_example : encode_container read_vote schema ≡ ok vote_bytes
encode-decode_container_example =
    encode-decode_container vote_bytes schema read_vote (ground arith) (refl, (refl, tt))
      vote_decoded

encode_container_iff_example :
    IsOk (encode_container vote schema) ↔ (SameKeys vote schema × AllFit vote schema)
encode_container_iff_example =
    encode_container_iff vote schema (refl, (refl, tt)) (refl, (refl, tt))

abbrev first_byte : Bytes → Bytes
first_byte [] = replicate 32 1
first_byte (b ∷ bs) = replicate 32 (b + 1)

abbrev leaf : ℕ → Bytes
leaf b = replicate 32 b

merkleize-tree_example :
    (d : ℕ) × (3 ≤ 2 ^ d)
    × (2 ^ d < 6)
    × (merkleize first_byte (leaf 4 ∷ leaf 5 ∷ leaf 6 ∷ [])
        ≡ tree first_byte d ((leaf 4 ∷ leaf 5 ∷ leaf 6 ∷ []) ++ zero_chunks (2 ^ d - 3)))
merkleize-tree_example = merkleize-tree first_byte (leaf 4) (leaf 5 ∷ leaf 6 ∷ [])
