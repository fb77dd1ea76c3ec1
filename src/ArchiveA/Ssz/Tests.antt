-- ===== src/ArchiveA/Ssz/Tests.antt =====
-- A container that both implementations encode.
use co_net_dle.Common.{number, decimal, FixedRecord, ◌≡◌, refl, List, [], ◌∷◌, ok, Bytes, le_bytes}
use co_net_dle.ArchiveA.Ssz.{serialize_container}
use co_net_dle.ArchiveA.Ssz.Agreement.{a_fields, encodings_agree}
use co_net_dle.ArchiveB.Ssz.{
  Field, uint32, uint8, encode_container, encode_field, encode_fields, assert_exact_keys, as_uint,
}

abbrev schema : List Field
schema = record { name = "round"; kind = uint32 } ∷ record { name = "step"; kind = uint8 } ∷ []

abbrev vote : FixedRecord
vote = ("round", decimal 7) ∷ ("step", number 2) ∷ []

abbrev vote_bytes : Bytes
vote_bytes = 7 ∷ 0 ∷ 0 ∷ 0 ∷ 2 ∷ []

vote_encoded : encode_container vote schema ≡ ok vote_bytes
unfolding encode_container encode_fields encode_field assert_exact_keys as_uint le_bytes
vote_encoded = refl

encodings_agree_example : serialize_container (a_fields schema) vote ≡ ok vote_bytes
encodings_agree_example = encodings_agree vote schema vote_bytes vote_encoded
