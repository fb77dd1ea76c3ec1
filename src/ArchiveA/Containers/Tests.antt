-- ===== src/ArchiveA/Containers/Tests.antt =====
-- A prevote certificate with one reference in both implementations.
use co_net_dle.Common.{
  number, bigint, hex, hexes, FixedRecord, ◌≡◌, refl, [], ◌∷◌, ok, length, replicate, Bytes,
  le_bytes, le_rest,
}
use co_net_dle.ArchiveA.Containers.{certificate_ref}
use co_net_dle.ArchiveA.Containers.Agreement.{references_agree}
use co_net_dle.ArchiveB.Certificates.{
  CertificateName, validate_certificate, check_signatures, uint_le,
}
use co_net_dle.ArchiveB.Certificates.Encoding.{certificate_reference, certificate_root}
use co_net_dle.ArchiveB.Ssz.{encode_field, assert_exact_keys, as_uint}
use co_net_dle.ArchiveB.Ssz.Root.{root_container, field_roots, field_root, merkleize}

abbrev digest : Bytes → Bytes
digest b = replicate 32 (length b)

abbrev certificate : FixedRecord
certificate =
    ("protocolVersion", hex (replicate 32 9))
    ∷ ("kind", number 1)
    ∷ ("l1ChainId", bigint 1)
    ∷ ("archiveGroupId", bigint 2)
    ∷ ("chainNftId", bigint 3)
    ∷ ("tipHeight", bigint 4)
    ∷ ("round", number 0)
    ∷ ("valueHashOrZero", hex (replicate 32 7))
    ∷ ("attemptNonce", bigint 0)
    ∷ ("membershipEpoch", bigint 1)
    ∷ ("membershipRoot", hex (replicate 32 8))
    ∷ ("keyEpoch", bigint 1)
    ∷ ("voteRoot", hex (replicate 32 6))
    ∷ ("signerBitmap", number 0b01111)
    ∷ (
      "signerIds",
      hexes
          (replicate 32 1 ∷ replicate 32 2 ∷ replicate 32 3 ∷ replicate 32 4 ∷ replicate 32 5 ∷ []),
    )
    ∷ (
      "signatures",
      hexes
          (replicate 65 1 ∷ replicate 65 2 ∷ replicate 65 3 ∷ replicate 65 4 ∷ replicate 65 0 ∷ []),
    )
    ∷ []

reference_made :
    certificate_reference digest CertificateName.prevote_qc certificate ≡ ok (replicate 32 55)
unfolding certificate_reference certificate_root validate_certificate check_signatures uint_le
    root_container field_roots field_root merkleize encode_field assert_exact_keys as_uint le_bytes
    le_rest
reference_made = refl

references_agree_example : certificate_ref digest certificate ≡ ok (replicate 32 55)
references_agree_example =
    references_agree digest (λ b. refl) CertificateName.prevote_qc certificate (replicate 32 55)
      refl reference_made
