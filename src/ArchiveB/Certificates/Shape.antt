-- ===== src/ArchiveB/Certificates/Shape.antt =====
-- `validateCertificate` of implementations/archive-b/src/certificates.ts: what passes.
use co_net_dle.Common.{ℕ, ◌+◌, List, [], ◌∷◌, if◌then◌else◌, text_eq, text_beq, Bytes}
use co_net_dle.ArchiveB.Certificates.{zero_signature, bit_of}

-- The signatures that are not the zero signature.
abbrev pub signed_count : List Bytes → ℕ
signed_count [] = 0
signed_count (s ∷ rest) = (if text_beq s zero_signature then 0 else 1) + signed_count rest

abbrev pub bits_from : ℕ → ℕ → List Bytes → ℕ
bits_from bitmap i [] = 0
bits_from bitmap i (s ∷ rest) = bit_of bitmap i + bits_from bitmap (i + 1) rest
