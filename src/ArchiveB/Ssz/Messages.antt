-- ===== src/ArchiveB/Ssz/Messages.antt =====
-- The proposals and votes of implementations/archive-b/src/ssz.ts, with their validation.
pub mod Laws
use co_net_dle.Common.{
  Value, bigint, number, hex, FixedRecord, value_at, ℕ, Bool, true, false, not, ◌&&◌, ◌||◌, Option,
  none, some, List, [], ◌∷◌, ◌++◌, Result, ok, err, ◌>>=◌, ◌>>◌, throw_if, leb, ◌==◌, replicate,
  Bytes, text_beq,
}
use co_net_dle.ArchiveB.Types.{none_round}
use co_net_dle.ArchiveB.Ssz.Root.{root_container}
use co_net_dle.ArchiveB.Ssz.{
  SszError, err_nil_encoding, err_invalid_valid_round, bytes32, uint8, uint32, uint64, uint256,
  Field, encode_container, decode_container,
}

-- Hex texts are given as the bytes that they spell.
pub record ProposalSignBytesV1 : Type 0 where
  pub protocol_version : Bytes
  pub l1_chain_id : ℕ
  pub archive_group_id : ℕ
  pub chain_nft_id : ℕ
  pub tip_height : ℕ
  pub round : ℕ
  pub proposal_value_hash : Bytes
  pub valid_round_or_none : ℕ
  pub valid_prevote_qc_ref_or_zero : Bytes
  pub attempt_nonce : ℕ
  pub membership_epoch : ℕ
  pub membership_root : Bytes
  pub key_epoch : ℕ

pub record VoteSignBytesV1 : Type 0 where
  pub protocol_version : Bytes
  pub l1_chain_id : ℕ
  pub archive_group_id : ℕ
  pub chain_nft_id : ℕ
  pub tip_height : ℕ
  pub round : ℕ
  pub step : ℕ
  pub value_hash_or_zero : Bytes
  pub attempt_nonce : ℕ
  pub membership_epoch : ℕ
  pub membership_root : Bytes
  pub key_epoch : ℕ
  pub prevote_qc_ref_or_zero : Bytes

abbrev pub zero32 : Bytes
zero32 = replicate 32 0

abbrev pub proposal_fields : List Field
proposal_fields =
    record { name = "protocolVersion"; kind = bytes32 }
    ∷ record { name = "l1ChainId"; kind = uint64 }
    ∷ record { name = "archiveGroupId"; kind = uint64 }
    ∷ record { name = "chainNftId"; kind = uint256 }
    ∷ record { name = "tipHeight"; kind = uint64 }
    ∷ record { name = "round"; kind = uint32 }
    ∷ record { name = "proposalValueHash"; kind = bytes32 }
    ∷ record { name = "validRoundOrNone"; kind = uint32 }
    ∷ record { name = "validPrevoteQCRefOrZero"; kind = bytes32 }
    ∷ record { name = "attemptNonce"; kind = uint64 }
    ∷ record { name = "membershipEpoch"; kind = uint64 }
    ∷ record { name = "membershipRoot"; kind = bytes32 }
    ∷ record { name = "keyEpoch"; kind = uint64 }
    ∷ []

abbrev pub vote_fields : List Field
vote_fields =
    record { name = "protocolVersion"; kind = bytes32 }
    ∷ record { name = "l1ChainId"; kind = uint64 }
    ∷ record { name = "archiveGroupId"; kind = uint64 }
    ∷ record { name = "chainNftId"; kind = uint256 }
    ∷ record { name = "tipHeight"; kind = uint64 }
    ∷ record { name = "round"; kind = uint32 }
    ∷ record { name = "step"; kind = uint8 }
    ∷ record { name = "valueHashOrZero"; kind = bytes32 }
    ∷ record { name = "attemptNonce"; kind = uint64 }
    ∷ record { name = "membershipEpoch"; kind = uint64 }
    ∷ record { name = "membershipRoot"; kind = bytes32 }
    ∷ record { name = "keyEpoch"; kind = uint64 }
    ∷ record { name = "prevoteQCRefOrZero"; kind = bytes32 }
    ∷ []

-- The object as a `FixedRecord`: heights and epochs are bigints, rounds and steps are numbers.
abbrev pub proposal_record : ProposalSignBytesV1 → FixedRecord
proposal_record p =
    ("protocolVersion", hex p.protocol_version)
    ∷ ("l1ChainId", bigint p.l1_chain_id)
    ∷ ("archiveGroupId", bigint p.archive_group_id)
    ∷ ("chainNftId", bigint p.chain_nft_id)
    ∷ ("tipHeight", bigint p.tip_height)
    ∷ ("round", number p.round)
    ∷ ("proposalValueHash", hex p.proposal_value_hash)
    ∷ ("validRoundOrNone", number p.valid_round_or_none)
    ∷ ("validPrevoteQCRefOrZero", hex p.valid_prevote_qc_ref_or_zero)
    ∷ ("attemptNonce", bigint p.attempt_nonce)
    ∷ ("membershipEpoch", bigint p.membership_epoch)
    ∷ ("membershipRoot", hex p.membership_root)
    ∷ ("keyEpoch", bigint p.key_epoch)
    ∷ []

abbrev pub vote_record : VoteSignBytesV1 → FixedRecord
vote_record v =
    ("protocolVersion", hex v.protocol_version)
    ∷ ("l1ChainId", bigint v.l1_chain_id)
    ∷ ("archiveGroupId", bigint v.archive_group_id)
    ∷ ("chainNftId", bigint v.chain_nft_id)
    ∷ ("tipHeight", bigint v.tip_height)
    ∷ ("round", number v.round)
    ∷ ("step", number v.step)
    ∷ ("valueHashOrZero", hex v.value_hash_or_zero)
    ∷ ("attemptNonce", bigint v.attempt_nonce)
    ∷ ("membershipEpoch", bigint v.membership_epoch)
    ∷ ("membershipRoot", hex v.membership_root)
    ∷ ("keyEpoch", bigint v.key_epoch)
    ∷ ("prevoteQCRefOrZero", hex v.prevote_qc_ref_or_zero)
    ∷ []

-- `decoded as unknown as …`: the fields of a record that decoding has made.
abbrev hex_of : Value → Bytes
hex_of (hex b) = b
hex_of _ = []

abbrev uint_of : Value → ℕ
uint_of (bigint n) = n
uint_of (number n) = n
uint_of _ = 0

abbrev pub as_proposal : FixedRecord → ProposalSignBytesV1
as_proposal r = record {
  protocol_version = hex_of (value_at "protocolVersion" r);
  l1_chain_id = uint_of (value_at "l1ChainId" r);
  archive_group_id = uint_of (value_at "archiveGroupId" r);
  chain_nft_id = uint_of (value_at "chainNftId" r);
  tip_height = uint_of (value_at "tipHeight" r);
  round = uint_of (value_at "round" r);
  proposal_value_hash = hex_of (value_at "proposalValueHash" r);
  valid_round_or_none = uint_of (value_at "validRoundOrNone" r);
  valid_prevote_qc_ref_or_zero = hex_of (value_at "validPrevoteQCRefOrZero" r);
  attempt_nonce = uint_of (value_at "attemptNonce" r);
  membership_epoch = uint_of (value_at "membershipEpoch" r);
  membership_root = hex_of (value_at "membershipRoot" r);
  key_epoch = uint_of (value_at "keyEpoch" r);
}

abbrev pub as_vote : FixedRecord → VoteSignBytesV1
as_vote r = record {
  protocol_version = hex_of (value_at "protocolVersion" r);
  l1_chain_id = uint_of (value_at "l1ChainId" r);
  archive_group_id = uint_of (value_at "archiveGroupId" r);
  chain_nft_id = uint_of (value_at "chainNftId" r);
  tip_height = uint_of (value_at "tipHeight" r);
  round = uint_of (value_at "round" r);
  step = uint_of (value_at "step" r);
  value_hash_or_zero = hex_of (value_at "valueHashOrZero" r);
  attempt_nonce = uint_of (value_at "attemptNonce" r);
  membership_epoch = uint_of (value_at "membershipEpoch" r);
  membership_root = hex_of (value_at "membershipRoot" r);
  key_epoch = uint_of (value_at "keyEpoch" r);
  prevote_qc_ref_or_zero = hex_of (value_at "prevoteQCRefOrZero" r);
}

abbrev is_zero : Bytes → Bool
is_zero b = text_beq b zero32

abbrev same_bool : Bool → Bool → Bool
same_bool true b = b
same_bool false b = not b

unfoldable pub validate_proposal : ProposalSignBytesV1 → Result SszError (Unit {0})
validate_proposal p = do
  let no_valid_round = p.valid_round_or_none == none_round
  throw_if (is_zero p.proposal_value_hash) err_nil_encoding
  throw_if (not (same_bool no_valid_round (is_zero p.valid_prevote_qc_ref_or_zero)))
      err_invalid_valid_round
  throw_if (not no_valid_round && leb p.round p.valid_round_or_none) err_invalid_valid_round

unfoldable pub validate_vote : VoteSignBytesV1 → Result SszError (Unit {0})
validate_vote v = do
  throw_if (v.step == 1 && not (is_zero v.prevote_qc_ref_or_zero)) err_nil_encoding
  throw_if (v.step == 2 && not (is_zero v.value_hash_or_zero) && is_zero v.prevote_qc_ref_or_zero)
      err_nil_encoding

unfoldable pub encode_proposal : ProposalSignBytesV1 → Result SszError Bytes
encode_proposal p = do validate_proposal p; encode_container (proposal_record p) proposal_fields

unfoldable pub encode_vote : VoteSignBytesV1 → Result SszError Bytes
encode_vote v = do validate_vote v; encode_container (vote_record v) vote_fields

unfoldable pub decode_proposal : Bytes → Result SszError ProposalSignBytesV1
decode_proposal canonical_ssz = do
  decoded ← decode_container canonical_ssz proposal_fields
  let value = as_proposal decoded
  validate_proposal value
  ok value

unfoldable pub decode_vote : Bytes → Result SszError VoteSignBytesV1
decode_vote canonical_ssz = do
  decoded ← decode_container canonical_ssz vote_fields
  let value = as_vote decoded
  validate_vote value
  ok value

unfoldable pub proposal_root : (Bytes → Bytes) → ProposalSignBytesV1 → Result SszError Bytes
proposal_root sha256 p = do
  validate_proposal p
  root_container sha256 (proposal_record p) proposal_fields

unfoldable pub vote_root : (Bytes → Bytes) → VoteSignBytesV1 → Result SszError Bytes
vote_root sha256 v = do validate_vote v; root_container sha256 (vote_record v) vote_fields

-- `keccak256` is the library's hash, and the domain tag is given in its bytes.
unfoldable pub signing_root : (Bytes → Bytes) → Bytes → Bytes → Bytes
signing_root keccak256 domain_tag object_root = keccak256 (domain_tag ++ object_root)
