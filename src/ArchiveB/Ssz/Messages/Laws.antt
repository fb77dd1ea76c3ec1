-- ===== src/ArchiveB/Ssz/Messages/Laws.antt =====
-- Proposals and votes that are encoded and decoded.
use co_net_dle.Common.{number, ℕ, ◌≡◌, refl, ok, Bytes, arith, ok-bind}
use co_net_dle.ArchiveB.Ssz.{uint32, uint8}
use co_net_dle.ArchiveB.Ssz.RoundTrip.{canonical, canonical_fields, decode-encode_container}
use co_net_dle.ArchiveB.Ssz.Messages.{
  ProposalSignBytesV1, VoteSignBytesV1, proposal_fields, vote_fields, proposal_record, vote_record,
  as_proposal, as_vote, validate_proposal, validate_vote, encode_proposal, encode_vote,
  decode_proposal, decode_vote,
}

safe32 : (n : ℕ) → canonical uint32 (number n) ≡ number n
safe32 n = ground arith

safe8 : (n : ℕ) → canonical uint8 (number n) ≡ number n
safe8 n = ground arith

as_proposal_lem :
    (p : ProposalSignBytesV1)
    → as_proposal (canonical_fields (proposal_record p) proposal_fields) ≡ p
as_proposal_lem p = rw (safe32 p.round, safe32 p.valid_round_or_none) refl

as_vote_lem : (v : VoteSignBytesV1) → as_vote (canonical_fields (vote_record v) vote_fields) ≡ v
as_vote_lem v = rw (safe32 v.round, safe8 v.step) refl

-- A proposal that is encoded decodes to the same proposal.
pub decode-encode_proposal :
    (p : ProposalSignBytesV1) (bytes : Bytes)
    → encode_proposal p ≡ ok bytes
    → decode_proposal bytes ≡ ok p
unfolding encode_proposal decode_proposal
decode-encode_proposal p bytes h =
    let (u, valid, encoded) = ok-bind (validate_proposal p) _ bytes h in
    rw
      (
        decode-encode_container (proposal_record p) proposal_fields bytes encoded,
        as_proposal_lem p,
        valid,
      )
      refl

-- A vote that is encoded decodes to the same vote.
pub decode-encode_vote :
    (v : VoteSignBytesV1) (bytes : Bytes) → encode_vote v ≡ ok bytes → decode_vote bytes ≡ ok v
unfolding encode_vote decode_vote
decode-encode_vote v bytes h =
    let (u, valid, encoded) = ok-bind (validate_vote v) _ bytes h in
    rw (decode-encode_container (vote_record v) vote_fields bytes encoded, as_vote_lem v, valid)
      refl
