-- ===== src/Runtime/Bft/Quorum.antt =====
-- runtime/src/archive/bft/quorum.ts, with the vote tests of mac.ts: which votes an archive takes, and
-- whose votes make a certificate.
pub mod Signers
pub mod Store
pub mod Safety
pub mod Certificates
use co_net_dle.Common.{
  ℕ, suc, Bool, true, false, not, ◌&&◌, ◌||◌, Option, none, some, List, [], ◌∷◌, Result, ok, err,
  ◌>>=◌, ◌>>◌, throw_if, leb, ◌==◌, if◌then◌else◌, is_none, length, nat_eq, includes,
}
use co_net_dle.Runtime.Bft.Round.{Hex}

-- A domain's name and other texts are numbers, given in the order of the texts; 0 is the empty text.
abbrev pub DomainId : Type 0
DomainId = ℕ

abbrev pub archive_quorum : ℕ
archive_quorum = 4

abbrev pub vote_step_prevote : ℕ
vote_step_prevote = 1

abbrev pub vote_step_precommit : ℕ
vote_step_precommit = 2

pub data VoteError : Type 0 where
  err_signer_not_active err_invalid_vote err_membership_root_mismatch : VoteError
  err_bft_hmac_cutover err_bft_vote_sig err_bft_hash_index_root err_wal_double_sign : VoteError
  err_invalid_quorum : VoteError

-- A field that may be missing is `none`.
pub record ArchiveVote : Type 0 where
  pub schema_known : Bool
  pub domain_id : DomainId
  pub height : ℕ
  pub round : ℕ
  pub step : ℕ
  pub value_hash : Hex
  pub membership_root : Hex
  pub hash_index_root : Hex
  pub prevote_qc_ref : Hex
  pub eip712 : Option Bool
  pub hmac_forgeable : Option Bool
  pub mac : Option Hex
  pub signature : Option Hex
  pub signer : Option ℕ

-- `x === true` and `x === false`, for a flag that may be missing.
abbrev is_true : Option Bool → Bool
is_true none = false
is_true (some b) = b

abbrev is_false : Option Bool → Bool
is_false none = false
is_false (some b) = not b

unfoldable pub is_hmac_bft_vote : ArchiveVote → Bool
is_hmac_bft_vote v =
    v.schema_known
    && (is_true v.hmac_forgeable
        || (not (is_none v.mac) && not (is_true v.eip712))
        || not (is_true v.eip712)
        || is_none v.signature)

-- `verifyEip712BftVote`; `recovers` is what the signature library says of the vote: the signature's
-- and the named signer's address are both the seat's.
unfoldable pub verify_eip712_bft_vote : (ArchiveVote → Bool) → ArchiveVote → Bool
verify_eip712_bft_vote recovers v =
    v.schema_known
    && is_true v.eip712
    && is_false v.hmac_forgeable
    && not (is_none v.signature)
    && not (is_none v.signer)
    && recovers v

-- `x ?? ''`.
abbrev or_empty : Option ℕ → ℕ
or_empty none = 0
or_empty (some x) = x

unfoldable pub votes_equal : ArchiveVote → ArchiveVote → Bool
votes_equal l r =
    l.domain_id == r.domain_id
    && l.height == r.height
    && l.round == r.round
    && l.step == r.step
    && l.value_hash == r.value_hash
    && l.membership_root == r.membership_root
    && l.hash_index_root == r.hash_index_root
    && l.prevote_qc_ref == r.prevote_qc_ref
    && or_empty l.signature == or_empty r.signature
    && or_empty l.signer == or_empty r.signer
    && or_empty l.mac == or_empty r.mac

-- `expected !== undefined && root !== expected`.
abbrev pub differs : Option ℕ → ℕ → Bool
differs none x = false
differs (some e) x = not (x == e)

abbrev pub conflicts : Option ArchiveVote → ArchiveVote → Bool
conflicts none v = false
conflicts (some old) v = not (votes_equal old v)

pub record AcceptInput : Type 0 where
  pub vote : ArchiveVote
  pub existing : Option ArchiveVote
  pub active_domain_ids : List DomainId
  pub membership_root : Hex
  pub expected_hash_index_root : Option Hex

unfoldable pub accept_vote : (ArchiveVote → Bool) → AcceptInput → Result VoteError ArchiveVote
unfolding is_hmac_bft_vote verify_eip712_bft_vote votes_equal
accept_vote recovers input = do
  let vote = input.vote
  throw_if (not (includes vote.domain_id input.active_domain_ids)) err_signer_not_active
  throw_if (not vote.schema_known) err_invalid_vote
  throw_if (not (vote.membership_root == input.membership_root)) err_membership_root_mismatch
  throw_if (not (vote.step == vote_step_prevote) && not (vote.step == vote_step_precommit))
      err_invalid_vote
  throw_if (is_hmac_bft_vote vote) err_bft_hmac_cutover
  throw_if (not (verify_eip712_bft_vote recovers vote)) err_bft_vote_sig
  throw_if (differs input.expected_hash_index_root vote.hash_index_root) err_bft_hash_index_root
  throw_if (conflicts input.existing vote) err_wal_double_sign
  ok vote

-- What a certificate's votes must agree on.
pub record Topic : Type 0 where
  pub step : ℕ
  pub value_hash : Hex
  pub height : ℕ
  pub round : ℕ
  pub membership_root : Hex
  pub hash_index_root : Option Hex
  pub prevote_qc_ref : Option Hex

unfoldable pub matches : Topic → ArchiveVote → Bool
matches t v =
    v.step == t.step
    && v.height == t.height
    && v.round == t.round
    && v.value_hash == t.value_hash
    && v.membership_root == t.membership_root
    && not (differs t.hash_index_root v.hash_index_root)
    && not (differs t.prevote_qc_ref v.prevote_qc_ref)

unfoldable pub matching_votes : Topic → List ArchiveVote → List ArchiveVote
matching_votes t [] = []
matching_votes t (v ∷ vs) = if matches t v then v ∷ matching_votes t vs else matching_votes t vs

-- The loop of `uniqueActiveSigners` over the votes, with the set `seen`.
unfoldable pub collect : List DomainId → List DomainId → List ArchiveVote → List DomainId
collect active seen [] = []
collect active seen (v ∷ vs) =
    let skip = not (includes v.domain_id active) || includes v.domain_id seen in
    let rest = collect active (if skip then seen else v.domain_id ∷ seen) vs in
    if skip then rest else v.domain_id ∷ rest

-- `sort()`.
unfoldable pub insert_sorted : DomainId → List DomainId → List DomainId
insert_sorted d [] = d ∷ []
insert_sorted d (x ∷ xs) = if leb d x then d ∷ x ∷ xs else x ∷ insert_sorted d xs

unfoldable pub sort : List DomainId → List DomainId
unfolding insert_sorted
sort [] = []
sort (x ∷ xs) = insert_sorted x (sort xs)

unfoldable pub unique_active_signers : List ArchiveVote → List DomainId → List DomainId
unfolding collect sort
unique_active_signers votes active = sort (collect active [] votes)

unfoldable pub has_quorum : List DomainId → Bool
has_quorum signers = leb archive_quorum (length signers)
