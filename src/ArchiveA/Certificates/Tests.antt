-- ===== src/ArchiveA/Certificates/Tests.antt =====
-- A prevote certificate that both implementations accept.
use co_net_dle.Common.{◌≡◌, refl, [], ◌∷◌, ok, replicate, arith}
use co_net_dle.ArchiveA.Certificates.{Certificate, validate_certificate, popcount}
use co_net_dle.ArchiveA.Certificates.Refinement.{b_value, accepted_by_both}
use co_net_dle.ArchiveB.Certificates as B
use co_net_dle.ArchiveB.Certificates.{CertificateName}

abbrev certificate : Certificate
certificate = record {
  kind = 1;
  signer_bitmap = 0b01111;
  signer_ids =
      replicate 32 1 ∷ replicate 32 2 ∷ replicate 32 3 ∷ replicate 32 4 ∷ replicate 32 5 ∷ [];
  signatures =
      replicate 65 1 ∷ replicate 65 2 ∷ replicate 65 3 ∷ replicate 65 4 ∷ replicate 65 0 ∷ [];
  value_hash = [];
  prevote_qc_ref = [];
  reason_code = 0;
  evidence_hash = [];
}

certificate_valid : validate_certificate certificate ≡ ok tt
unfolding validate_certificate popcount
certificate_valid = refl

accepted_by_both_example :
    B.validate_certificate CertificateName.prevote_qc (b_value certificate) ≡ ok tt
accepted_by_both_example =
    accepted_by_both CertificateName.prevote_qc certificate refl (omega arith) refl refl
      certificate_valid
