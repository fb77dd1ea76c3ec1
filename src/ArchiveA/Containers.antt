-- ===== src/ArchiveA/Containers.antt =====
-- The containers of implementations/archive-a/src/core.ts, their signing roots and the references of
-- certificates.
pub mod Agreement
mod Tests
use co_net_dle.Common.{
  Value, number, FixedRecord, value_at, ℕ, List, [], ◌∷◌, ◌++◌, Result, ok, err, ◌>>=◌, ◌==◌,
  if◌then◌else◌, Bytes,
}
use co_net_dle.ArchiveA.Types.{invalid_certificate_kind}
use co_net_dle.ArchiveA.Ssz.{
  Thrown, dle, Field, bytes32, uint8, uint16, uint32, uint64, uint256, bytes32x5, bytes65x5,
  uint_le, hex_to_bytes,
}
use co_net_dle.ArchiveA.Ssz.Root.{hash_tree_root}

pub data ContainerName : Type 0 where
  proposal_sign_bytes vote_sign_bytes prevote_qc archive_certificate : ContainerName
  timeout_certificate candidate_reject_certificate : ContainerName

abbrev pub containers : ContainerName → List Field
containers proposal_sign_bytes =
    record { name = "protocolVersion"; type = bytes32 }
    ∷ record { name = "l1ChainId"; type = uint64 }
    ∷ record { name = "archiveGroupId"; type = uint64 }
    ∷ record { name = "chainNftId"; type = uint256 }
    ∷ record { name = "tipHeight"; type = uint64 }
    ∷ record { name = "round"; type = uint32 }
    ∷ record { name = "proposalValueHash"; type = bytes32 }
    ∷ record { name = "validRoundOrNone"; type = uint32 }
    ∷ record { name = "validPrevoteQCRefOrZero"; type = bytes32 }
    ∷ record { name = "attemptNonce"; type = uint64 }
    ∷ record { name = "membershipEpoch"; type = uint64 }
    ∷ record { name = "membershipRoot"; type = bytes32 }
    ∷ record { name = "keyEpoch"; type = uint64 }
    ∷ []
containers vote_sign_bytes =
    record { name = "protocolVersion"; type = bytes32 }
    ∷ record { name = "l1ChainId"; type = uint64 }
    ∷ record { name = "archiveGroupId"; type = uint64 }
    ∷ record { name = "chainNftId"; type = uint256 }
    ∷ record { name = "tipHeight"; type = uint64 }
    ∷ record { name = "round"; type = uint32 }
    ∷ record { name = "step"; type = uint8 }
    ∷ record { name = "valueHashOrZero"; type = bytes32 }
    ∷ record { name = "attemptNonce"; type = uint64 }
    ∷ record { name = "membershipEpoch"; type = uint64 }
    ∷ record { name = "membershipRoot"; type = bytes32 }
    ∷ record { name = "keyEpoch"; type = uint64 }
    ∷ record { name = "prevoteQCRefOrZero"; type = bytes32 }
    ∷ []
containers prevote_qc =
    record { name = "protocolVersion"; type = bytes32 }
    ∷ record { name = "kind"; type = uint8 }
    ∷ record { name = "l1ChainId"; type = uint64 }
    ∷ record { name = "archiveGroupId"; type = uint64 }
    ∷ record { name = "chainNftId"; type = uint256 }
    ∷ record { name = "tipHeight"; type = uint64 }
    ∷ record { name = "round"; type = uint32 }
    ∷ record { name = "valueHashOrZero"; type = bytes32 }
    ∷ record { name = "attemptNonce"; type = uint64 }
    ∷ record { name = "membershipEpoch"; type = uint64 }
    ∷ record { name = "membershipRoot"; type = bytes32 }
    ∷ record { name = "keyEpoch"; type = uint64 }
    ∷ record { name = "voteRoot"; type = bytes32 }
    ∷ record { name = "signerBitmap"; type = uint8 }
    ∷ record { name = "signerIds"; type = bytes32x5 }
    ∷ record { name = "signatures"; type = bytes65x5 }
    ∷ []
containers archive_certificate =
    record { name = "protocolVersion"; type = bytes32 }
    ∷ record { name = "kind"; type = uint8 }
    ∷ record { name = "l1ChainId"; type = uint64 }
    ∷ record { name = "archiveGroupId"; type = uint64 }
    ∷ record { name = "chainNftId"; type = uint256 }
    ∷ record { name = "tipHeight"; type = uint64 }
    ∷ record { name = "round"; type = uint32 }
    ∷ record { name = "valueHash"; type = bytes32 }
    ∷ record { name = "attemptNonce"; type = uint64 }
    ∷ record { name = "membershipEpoch"; type = uint64 }
    ∷ record { name = "membershipRoot"; type = bytes32 }
    ∷ record { name = "keyEpoch"; type = uint64 }
    ∷ record { name = "prevoteQCRef"; type = bytes32 }
    ∷ record { name = "voteRoot"; type = bytes32 }
    ∷ record { name = "signerBitmap"; type = uint8 }
    ∷ record { name = "signerIds"; type = bytes32x5 }
    ∷ record { name = "signatures"; type = bytes65x5 }
    ∷ []
containers timeout_certificate =
    record { name = "protocolVersion"; type = bytes32 }
    ∷ record { name = "kind"; type = uint8 }
    ∷ record { name = "l1ChainId"; type = uint64 }
    ∷ record { name = "archiveGroupId"; type = uint64 }
    ∷ record { name = "chainNftId"; type = uint256 }
    ∷ record { name = "tipHeight"; type = uint64 }
    ∷ record { name = "round"; type = uint32 }
    ∷ record { name = "timeoutStep"; type = uint8 }
    ∷ record { name = "attemptNonce"; type = uint64 }
    ∷ record { name = "membershipEpoch"; type = uint64 }
    ∷ record { name = "membershipRoot"; type = bytes32 }
    ∷ record { name = "keyEpoch"; type = uint64 }
    ∷ record { name = "highestPrevoteQCRefOrZero"; type = bytes32 }
    ∷ record { name = "highestTimeoutQCRefOrZero"; type = bytes32 }
    ∷ record { name = "timeoutVoteRoot"; type = bytes32 }
    ∷ record { name = "signerBitmap"; type = uint8 }
    ∷ record { name = "signerIds"; type = bytes32x5 }
    ∷ record { name = "signatures"; type = bytes65x5 }
    ∷ []
containers candidate_reject_certificate =
    record { name = "protocolVersion"; type = bytes32 }
    ∷ record { name = "kind"; type = uint8 }
    ∷ record { name = "l1ChainId"; type = uint64 }
    ∷ record { name = "archiveGroupId"; type = uint64 }
    ∷ record { name = "chainNftId"; type = uint256 }
    ∷ record { name = "tipHeight"; type = uint64 }
    ∷ record { name = "round"; type = uint32 }
    ∷ record { name = "candidateId"; type = bytes32 }
    ∷ record { name = "attemptNonce"; type = uint64 }
    ∷ record { name = "membershipEpoch"; type = uint64 }
    ∷ record { name = "membershipRoot"; type = bytes32 }
    ∷ record { name = "keyEpoch"; type = uint64 }
    ∷ record { name = "reasonCode"; type = uint16 }
    ∷ record { name = "evidenceHash"; type = bytes32 }
    ∷ record { name = "rejectVoteRoot"; type = bytes32 }
    ∷ record { name = "signerBitmap"; type = uint8 }
    ∷ record { name = "signerIds"; type = bytes32x5 }
    ∷ record { name = "signatures"; type = bytes65x5 }
    ∷ []

-- `DOMAIN_TAGS`, in their bytes.
abbrev pub domain_tags : ContainerName → Bytes
domain_tags proposal_sign_bytes =
    b'd' ∷ b'l' ∷ b'e' ∷ b'.' ∷ b'a' ∷ b'r' ∷ b'c' ∷ b'h' ∷ b'i' ∷ b'v' ∷ b'e' ∷ b'.' ∷ b'p' ∷ b'r'
    ∷ b'o' ∷ b'p' ∷ b'o' ∷ b's' ∷ b'a' ∷ b'l' ∷ b'.' ∷ b'v' ∷ b'1' ∷ []
domain_tags vote_sign_bytes =
    b'd' ∷ b'l' ∷ b'e' ∷ b'.' ∷ b'a' ∷ b'r' ∷ b'c' ∷ b'h' ∷ b'i' ∷ b'v' ∷ b'e' ∷ b'.' ∷ b'v' ∷ b'o'
    ∷ b't' ∷ b'e' ∷ b'.' ∷ b'v' ∷ b'1' ∷ []
domain_tags prevote_qc =
    b'd' ∷ b'l' ∷ b'e' ∷ b'.' ∷ b'a' ∷ b'r' ∷ b'c' ∷ b'h' ∷ b'i' ∷ b'v' ∷ b'e' ∷ b'.' ∷ b'p' ∷ b'r'
    ∷ b'e' ∷ b'v' ∷ b'o' ∷ b't' ∷ b'e' ∷ b'-' ∷ b'q' ∷ b'c' ∷ b'.' ∷ b'v' ∷ b'2' ∷ []
domain_tags archive_certificate =
    b'd' ∷ b'l' ∷ b'e' ∷ b'.' ∷ b'a' ∷ b'r' ∷ b'c' ∷ b'h' ∷ b'i' ∷ b'v' ∷ b'e' ∷ b'.' ∷ b'a' ∷ b'c'
    ∷ b'.' ∷ b'v' ∷ b'2' ∷ []
domain_tags timeout_certificate =
    b'd' ∷ b'l' ∷ b'e' ∷ b'.' ∷ b'a' ∷ b'r' ∷ b'c' ∷ b'h' ∷ b'i' ∷ b'v' ∷ b'e' ∷ b'.' ∷ b't' ∷ b'c'
    ∷ b'.' ∷ b'v' ∷ b'2' ∷ []
domain_tags candidate_reject_certificate =
    b'd' ∷ b'l' ∷ b'e' ∷ b'.' ∷ b'a' ∷ b'r' ∷ b'c' ∷ b'h' ∷ b'i' ∷ b'v' ∷ b'e' ∷ b'.' ∷ b'r' ∷ b'e'
    ∷ b'j' ∷ b'e' ∷ b'c' ∷ b't' ∷ b'.' ∷ b'v' ∷ b'2' ∷ []

-- `keccak` is the library's hash.
unfoldable pub signing_root :
    (Bytes → Bytes) → (Bytes → Bytes) → ContainerName → FixedRecord → Result Thrown Bytes
signing_root sha256 keccak container object = do
  root ← hash_tree_root sha256 (containers container) object
  bytes ← hex_to_bytes root 32
  ok (keccak (domain_tags container ++ bytes))

abbrev by_kind : ℕ → Result Thrown ContainerName
by_kind k =
    if k == 1
    then ok prevote_qc
    else if k == 2
    then ok archive_certificate
    else if k == 3
    then ok timeout_certificate
    else if k == 4
    then ok candidate_reject_certificate
    else err (dle invalid_certificate_kind)

-- The `switch` compares with numbers.
abbrev kind_container : Value → Result Thrown ContainerName
kind_container (number k) = by_kind k
kind_container _ = err (dle invalid_certificate_kind)

abbrev pub kind_number : Value → ℕ
kind_number (number k) = k
kind_number _ = 0

unfoldable pub certificate_container : FixedRecord → Result Thrown ContainerName
certificate_container certificate = kind_container (value_at "kind" certificate)

-- `dle.archive.certref.v2`.
abbrev pub reference_domain : Bytes
reference_domain =
    b'd' ∷ b'l' ∷ b'e' ∷ b'.' ∷ b'a' ∷ b'r' ∷ b'c' ∷ b'h' ∷ b'i' ∷ b'v' ∷ b'e' ∷ b'.' ∷ b'c' ∷ b'e'
    ∷ b'r' ∷ b't' ∷ b'r' ∷ b'e' ∷ b'f' ∷ b'.' ∷ b'v' ∷ b'2' ∷ []

unfoldable pub certificate_ref : (Bytes → Bytes) → FixedRecord → Result Thrown Bytes
unfolding certificate_container
certificate_ref sha256 certificate = do
  container ← certificate_container certificate
  root ← hash_tree_root sha256 (containers container) certificate
  kind ← uint_le (kind_number (value_at "kind" certificate)) 1
  bytes ← hex_to_bytes root 32
  ok (sha256 (reference_domain ++ (kind ++ bytes)))
