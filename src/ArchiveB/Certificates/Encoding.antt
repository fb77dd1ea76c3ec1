-- ===== src/ArchiveB/Certificates/Encoding.antt =====
-- The containers of the certificates in implementations/archive-b/src/certificates.ts, with their
-- encoding, root and reference.
use co_net_dle.Common.{
  Value, bigint, number, decimal, hex, hexes, FixedRecord, value_at, ℕ, List, [], ◌∷◌, ◌++◌, Result,
  ok, err, ◌>>=◌, ◌>>◌, Bytes, ◌≡◌, ap, ok_injective, arith,
}
use co_net_dle.ArchiveB.Ssz.{
  SszError, Field, bytes32, uint8, uint16, uint32, uint64, uint256, bytes32x5, bytes65x5,
  encode_container,
}
use co_net_dle.ArchiveB.Ssz.Root.{root_container}
use co_net_dle.ArchiveB.Certificates.{
  CertificateName, prevote_qc, archive_certificate, timeout_certificate, candidate_reject,
  CertificateError, CertificateValue, kind_of, validate_certificate, uint_le,
}

-- `COMMON`.
abbrev pub common_fields : List Field
common_fields =
    record { name = "protocolVersion"; kind = bytes32 }
    ∷ record { name = "kind"; kind = uint8 }
    ∷ record { name = "l1ChainId"; kind = uint64 }
    ∷ record { name = "archiveGroupId"; kind = uint64 }
    ∷ record { name = "chainNftId"; kind = uint256 }
    ∷ record { name = "tipHeight"; kind = uint64 }
    ∷ record { name = "round"; kind = uint32 }
    ∷ []

-- `SIGNERS`.
abbrev pub signer_fields : List Field
signer_fields =
    record { name = "signerBitmap"; kind = uint8 }
    ∷ record { name = "signerIds"; kind = bytes32x5 }
    ∷ record { name = "signatures"; kind = bytes65x5 }
    ∷ []

-- The field `fields` of `CERTIFICATES`, between the common and the signer fields.
abbrev own_fields : CertificateName → List Field
own_fields prevote_qc =
    record { name = "valueHashOrZero"; kind = bytes32 }
    ∷ record { name = "attemptNonce"; kind = uint64 }
    ∷ record { name = "membershipEpoch"; kind = uint64 }
    ∷ record { name = "membershipRoot"; kind = bytes32 }
    ∷ record { name = "keyEpoch"; kind = uint64 }
    ∷ record { name = "voteRoot"; kind = bytes32 }
    ∷ []
own_fields archive_certificate =
    record { name = "valueHash"; kind = bytes32 }
    ∷ record { name = "attemptNonce"; kind = uint64 }
    ∷ record { name = "membershipEpoch"; kind = uint64 }
    ∷ record { name = "membershipRoot"; kind = bytes32 }
    ∷ record { name = "keyEpoch"; kind = uint64 }
    ∷ record { name = "prevoteQCRef"; kind = bytes32 }
    ∷ record { name = "voteRoot"; kind = bytes32 }
    ∷ []
own_fields timeout_certificate =
    record { name = "timeoutStep"; kind = uint8 }
    ∷ record { name = "attemptNonce"; kind = uint64 }
    ∷ record { name = "membershipEpoch"; kind = uint64 }
    ∷ record { name = "membershipRoot"; kind = bytes32 }
    ∷ record { name = "keyEpoch"; kind = uint64 }
    ∷ record { name = "highestPrevoteQCRefOrZero"; kind = bytes32 }
    ∷ record { name = "highestTimeoutQCRefOrZero"; kind = bytes32 }
    ∷ record { name = "timeoutVoteRoot"; kind = bytes32 }
    ∷ []
own_fields candidate_reject =
    record { name = "candidateId"; kind = bytes32 }
    ∷ record { name = "attemptNonce"; kind = uint64 }
    ∷ record { name = "membershipEpoch"; kind = uint64 }
    ∷ record { name = "membershipRoot"; kind = bytes32 }
    ∷ record { name = "keyEpoch"; kind = uint64 }
    ∷ record { name = "reasonCode"; kind = uint16 }
    ∷ record { name = "evidenceHash"; kind = bytes32 }
    ∷ record { name = "rejectVoteRoot"; kind = bytes32 }
    ∷ []

abbrev pub certificate_fields : CertificateName → List Field
certificate_fields name = common_fields ++ (own_fields name ++ signer_fields)

-- `Number(value)` with NaN, which no test here accepts, as the given number.
abbrev number_or : ℕ → Value → ℕ
number_or nan (bigint n) = n
number_or nan (number n) = n
number_or nan (decimal n) = n
number_or nan _ = nan

abbrev items_of : Value → List Bytes
items_of (hexes items) = items
items_of _ = []

abbrev bytes_of : Value → Bytes
bytes_of (hex b) = b
bytes_of _ = []

-- What `validateCertificate` reads of an object whose arrays hold hex texts. A hex text for `kind` or
-- `signerBitmap`, which `Number` would read, is not modelled.
abbrev pub certificate_value : FixedRecord → CertificateValue
certificate_value value = record {
  kind = number_or 0 (value_at "kind" value);
  signer_bitmap = number_or 32 (value_at "signerBitmap" value);
  signer_ids = items_of (value_at "signerIds" value);
  signatures = items_of (value_at "signatures" value);
  evidence_hash = bytes_of (value_at "evidenceHash" value);
}

pub data EncodeError : Type 0 where
  invalid : CertificateError → EncodeError
  not_canonical : SszError → EncodeError

abbrev pub from_certificate {ℓ} : {A : Type ℓ} → Result CertificateError A → Result EncodeError A
from_certificate (ok a) = ok a
from_certificate (err e) = err (invalid e)

abbrev pub from_ssz {ℓ} : {A : Type ℓ} → Result SszError A → Result EncodeError A
from_ssz (ok a) = ok a
from_ssz (err e) = err (not_canonical e)

unfoldable pub encode_certificate : CertificateName → FixedRecord → Result EncodeError Bytes
encode_certificate name value = do
  from_certificate (validate_certificate name (certificate_value value))
  from_ssz (encode_container value (certificate_fields name))

unfoldable pub certificate_root :
    (Bytes → Bytes) → CertificateName → FixedRecord → Result EncodeError Bytes
certificate_root sha256 name value = do
  from_certificate (validate_certificate name (certificate_value value))
  from_ssz (root_container sha256 value (certificate_fields name))

-- `dle.archive.certref.v2`.
abbrev pub reference_domain : Bytes
reference_domain =
    b'd' ∷ b'l' ∷ b'e' ∷ b'.' ∷ b'a' ∷ b'r' ∷ b'c' ∷ b'h' ∷ b'i' ∷ b'v' ∷ b'e' ∷ b'.' ∷ b'c' ∷ b'e'
    ∷ b'r' ∷ b't' ∷ b'r' ∷ b'e' ∷ b'f' ∷ b'.' ∷ b'v' ∷ b'2' ∷ []

unfoldable pub certificate_reference :
    (Bytes → Bytes) → CertificateName → FixedRecord → Result EncodeError Bytes
unfolding certificate_root
certificate_reference sha256 name value = do
  root ← certificate_root sha256 name value
  kind ← from_certificate (uint_le (kind_of name) 1)
  ok (sha256 (reference_domain ++ (kind ++ root)))

pub from_ssz-ok {ℓ} : {A : Type ℓ} (r : Result SszError A) (a : A) → from_ssz r ≡ ok a → r ≡ ok a
from_ssz-ok (ok x) a h = ap ok (ok_injective h)
from_ssz-ok (err e) a h = ground arith
