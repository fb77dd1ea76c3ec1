-- ===== src/ArchiveA/Containers/Agreement.antt =====
-- The certificates of the two implementations: containers and references.
use co_net_dle.Common.{
  number, FixedRecord, value_at, ◌≡◌, refl, ap, arith, Result, ok, err, ok-bind, ok_injective,
  length, Bytes, le_rest,
}
use co_net_dle.ArchiveA.Ssz as A
use co_net_dle.ArchiveA.Ssz.Root.{hash_tree_root}
use co_net_dle.ArchiveA.Ssz.Agreement.{a_fields, encodings_agree}
use co_net_dle.ArchiveA.Ssz.Agreement.Roots.{sized_root}
use co_net_dle.ArchiveA.Containers.{
  ContainerName, containers, certificate_ref, certificate_container, kind_number,
}
use co_net_dle.ArchiveB.Certificates.{
  CertificateName, CertificateError, kind_of, validate_certificate, uint_le,
}
use co_net_dle.ArchiveB.Certificates.Encoding.{
  certificate_fields, certificate_value, encode_certificate, certificate_root,
  certificate_reference, from_certificate, from_ssz-ok,
}
use co_net_dle.ArchiveB.Ssz.{encode_container}
use co_net_dle.ArchiveB.Ssz.Root.{root_container}

-- The container of a certificate of archive-b.
abbrev pub container_of : CertificateName → ContainerName
container_of CertificateName.prevote_qc = ContainerName.prevote_qc
container_of CertificateName.archive_certificate = ContainerName.archive_certificate
container_of CertificateName.timeout_certificate = ContainerName.timeout_certificate
container_of CertificateName.candidate_reject = ContainerName.candidate_reject_certificate

fields_same :
    (name : CertificateName) → a_fields (certificate_fields name) ≡ containers (container_of name)
fields_same CertificateName.prevote_qc = refl
fields_same CertificateName.archive_certificate = refl
fields_same CertificateName.timeout_certificate = refl
fields_same CertificateName.candidate_reject = refl

-- A certificate that archive-b encodes is encoded by archive-a to the same bytes.
pub certificates_agree :
    (name : CertificateName) (value : FixedRecord) (bytes : Bytes)
    → encode_certificate name value ≡ ok bytes
    → A.serialize_container (containers (container_of name)) value ≡ ok bytes
unfolding encode_certificate
certificates_agree name value bytes h =
    let (u, x, y) =
      ok-bind (from_certificate (validate_certificate name (certificate_value value))) _ bytes h in
    let e = from_ssz-ok (encode_container value (certificate_fields name)) bytes y in
    rw (← fields_same name) (encodings_agree value (certificate_fields name) bytes e)

from_certificate-ok :
    {A : Type 0} (r : Result CertificateError A) (a : A) → from_certificate r ≡ ok a → r ≡ ok a
from_certificate-ok (ok x) a h = ap ok (ok_injective h)
from_certificate-ok (err e) a h = ground arith

-- The two read the kind's container and byte alike.
kind_agrees :
    (name : CertificateName) (value : FixedRecord)
    → value_at "kind" value ≡ number (kind_of name)
    → (certificate_container value ≡ ok (container_of name))
      × (kind_number (value_at "kind" value) ≡ kind_of name)
unfolding certificate_container
kind_agrees CertificateName.prevote_qc value h = rw (h) (refl, refl)
kind_agrees CertificateName.archive_certificate value h = rw (h) (refl, refl)
kind_agrees CertificateName.timeout_certificate value h = rw (h) (refl, refl)
kind_agrees CertificateName.candidate_reject value h = rw (h) (refl, refl)

kind_bytes :
    (name : CertificateName) (kind : Bytes)
    → uint_le (kind_of name) 1 ≡ ok kind
    → A.uint_le (kind_of name) 1 ≡ ok kind
unfolding uint_le A.uint_le le_rest
kind_bytes CertificateName.prevote_qc kind h = ap ok (ok_injective h)
kind_bytes CertificateName.archive_certificate kind h = ap ok (ok_injective h)
kind_bytes CertificateName.timeout_certificate kind h = ap ok (ok_injective h)
kind_bytes CertificateName.candidate_reject kind h = ap ok (ok_injective h)

-- A certificate whose kind is a number and that has a reference for archive-b has the same reference
-- for archive-a, where the hash gives 32 bytes.
pub references_agree :
    (sha256 : Bytes → Bytes)
    → ((b : Bytes) → length (sha256 b) ≡ 32)
    → (name : CertificateName) (value : FixedRecord) (reference : Bytes)
    → value_at "kind" value ≡ number (kind_of name)
    → certificate_reference sha256 name value ≡ ok reference
    → certificate_ref sha256 value ≡ ok reference
unfolding certificate_reference certificate_root certificate_ref A.hex_to_bytes
references_agree sha256 digest_size name value reference k h =
    let valid = from_certificate (validate_certificate name (certificate_value value)) in
    let (root, x, more) = ok-bind (certificate_root sha256 name value) _ reference h in
    let (u, v, y) = ok-bind valid _ root x in
    let (kind, z, last) = ok-bind (from_certificate (uint_le (kind_of name) 1)) _ reference more in
    let made = from_ssz-ok (root_container sha256 value (certificate_fields name)) root y in
    let (same, size) = sized_root sha256 digest_size value (certificate_fields name) root made in
    let same_root : hash_tree_root sha256 (containers (container_of name)) value ≡ ok root =
      rw (← fields_same name) same in
    let byte = kind_bytes name kind (from_certificate-ok (uint_le (kind_of name) 1) kind z) in
    let (container, number_read) = kind_agrees name value k in
    let whole : A.hex_to_bytes root 32 ≡ ok root = ground (arith, size) in
    rw (container, same_root, number_read, byte, whole) (ap ok (ok_injective last))
