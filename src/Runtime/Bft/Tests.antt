-- ===== src/Runtime/Bft/Tests.antt =====
-- The round's and the quorum's properties at concrete votes.
use co_net_dle.Common.{ℕ, ◌≡◌, refl, true, false, Bool, Option, none, some, List, [], ◌∷◌, arith}
use co_net_dle.Runtime.Bft.Round
use co_net_dle.Runtime.Bft.Round.{ArchiveRoundInput, round_safe, create_empty_round_state}
use co_net_dle.Runtime.Bft.Quorum.{
  ArchiveVote, Topic, matches, matching_votes, collect, unique_active_signers, has_quorum,
  accept_vote, insert_sorted, sort, is_hmac_bft_vote, verify_eip712_bft_vote, votes_equal,
}
use co_net_dle.Runtime.Bft.Quorum.Store.{same_slot, find, put, ingest_vote, ingest_all}
use co_net_dle.Runtime.Bft.Quorum.Certificates.{
  CertificateInput, ArchiveCertificate, build_archive_certificate, one_certificate_value,
}
use co_net_dle.Runtime.Bft.Quorum.Safety.{one_quorum_value}

abbrev first_inputs : List ArchiveRoundInput
first_inputs =
    Round.proposal
      (record { value = 7; available = true; valid_round = 0xffff_ffff; valid_prevote_qc_ref = 0 })
    ∷ Round.prevote_qc 7 21
    ∷ []

abbrev last_inputs : List ArchiveRoundInput
last_inputs = Round.precommit_qc 7 22 ∷ Round.precommit_qc 8 23 ∷ []

round_safe_example :
    let s = Round.run (create_empty_round_state 5 0) first_inputs in
    Round.IsSound s × Round.IsLater s (Round.run s last_inputs)
round_safe_example = round_safe 5 0 first_inputs last_inputs

abbrev vote_of : ℕ → ArchiveVote
vote_of domain = record {
  schema_known = true;
  domain_id = domain;
  height = 5;
  round = 0;
  step = 1;
  value_hash = 7;
  membership_root = 4;
  hash_index_root = 6;
  prevote_qc_ref = 0;
  eip712 = some true;
  hmac_forgeable = some false;
  mac = none;
  signature = some 9;
  signer = some domain;
}

abbrev accepts : ArchiveVote → Bool
accepts v = true

abbrev members : List ℕ
members = 1 ∷ 2 ∷ 3 ∷ 4 ∷ 5 ∷ []

-- The fourth vote comes once more with another value.
abbrev received : List (ArchiveVote × Option ℕ)
received =
    (vote_of 1, none)
    ∷ (vote_of 2, some 6)
    ∷ (vote_of 3, none)
    ∷ (vote_of 4, none)
    ∷ (record (vote_of 4) { value_hash = 8 }, none)
    ∷ []

abbrev topic : Topic
topic = record {
  step = 1;
  value_hash = 7;
  height = 5;
  round = 0;
  membership_root = 4;
  hash_index_root = none;
  prevote_qc_ref = none;
}

abbrev indexed_topic : Topic
indexed_topic = record topic { hash_index_root = some 6 }

one_quorum_value_example : topic.value_hash ≡ indexed_topic.value_hash
unfolding ingest_all ingest_vote accept_vote is_hmac_bft_vote verify_eip712_bft_vote votes_equal
    same_slot find put matches matching_votes collect unique_active_signers insert_sorted sort
    has_quorum
one_quorum_value_example =
    one_quorum_value accepts members 4 received topic indexed_topic (omega arith)
      (record { same_step = refl; same_height = refl; same_round = refl }) refl refl

-- The precommits of four members, and the certificate that they make.
abbrev precommit_of : ℕ → ArchiveVote
precommit_of domain = record (vote_of domain) { step = 2; prevote_qc_ref = 9 }

abbrev precommits : List (ArchiveVote × Option ℕ)
precommits =
    (precommit_of 1, none)
    ∷ (precommit_of 2, none)
    ∷ (precommit_of 3, none)
    ∷ (precommit_of 4, none)
    ∷ []

-- A second vote of a member, which is refused, and the vote of a fifth.
abbrev later_precommits : List (ArchiveVote × Option ℕ)
later_precommits = (record (precommit_of 4) { value_hash = 8 }, none) ∷ (precommit_of 5, none) ∷ []

abbrev built_from : CertificateInput
built_from = record {
  value_hash = 7;
  tip_state_root = 30;
  membership_root = 4;
  hash_index_root = 6;
  height = 5;
  round = 0;
  prevote_qc_ref = 9;
  signers = 1 ∷ 2 ∷ 3 ∷ 4 ∷ [];
}

abbrev built : ArchiveCertificate
built = record {
  kind = 2;
  height = 5;
  round = 0;
  value_hash = 7;
  tip_state_root = 30;
  prevote_qc_ref = 9;
  membership_root = 4;
  hash_index_root = 6;
  quorum = 4;
  signers = 1 ∷ 2 ∷ 3 ∷ 4 ∷ [];
}

abbrev rebuilt : ArchiveCertificate
rebuilt = record built { signers = 1 ∷ 2 ∷ 3 ∷ 4 ∷ 5 ∷ [] }

one_certificate_value_example : built.value_hash ≡ rebuilt.value_hash
unfolding ingest_all ingest_vote accept_vote is_hmac_bft_vote verify_eip712_bft_vote votes_equal
    same_slot find put matches matching_votes collect unique_active_signers insert_sorted sort
    has_quorum build_archive_certificate
one_certificate_value_example =
    one_certificate_value accepts members 4 precommits later_precommits built_from
      (record built_from { signers = 1 ∷ 2 ∷ 3 ∷ 4 ∷ 5 ∷ [] }) built rebuilt (omega arith) refl refl
      refl refl refl refl
