-- ===== src/ArchiveB/Certificates/Tests.antt =====
-- The certificate's shape and the coordinator at concrete values.
use co_net_dle.Common.{refl, List, [], ◌∷◌, replicate, text_eq, Bytes, le_bytes, le_rest, from_le}
use co_net_dle.ArchiveB.Certificates.{
  CertificateValue, CoordinatorInput, CoordinatorDetails, sort_members, uint_le, insert_member,
  draw, select_coordinator_details,
}
use mathlib.Core.List.{Perm}
use co_net_dle.ArchiveB.Certificates.Roster.{Rising}
use co_net_dle.ArchiveB.Certificates.Coordinator.{base_of, IsDraw, selected_coordinator}

abbrev certificate : CertificateValue
certificate = record {
  kind = 4;
  signer_bitmap = 15;
  signer_ids =
      replicate 32 1 ∷ replicate 32 2 ∷ replicate 32 3 ∷ replicate 32 4 ∷ replicate 32 5 ∷ [];
  signatures =
      replicate 65 1 ∷ replicate 65 1 ∷ replicate 65 1 ∷ replicate 65 1 ∷ replicate 65 0 ∷ [];
  evidence_hash = replicate 32 9;
}

abbrev input : CoordinatorInput
input = record {
  archive_group_id = 1;
  chain_nft_id = 2;
  tip_height = 3;
  attempt_nonce = 0;
  membership_root = [];
  round = 1;
  active_roster = (5 ∷ []) ∷ (4 ∷ []) ∷ (3 ∷ []) ∷ (2 ∷ []) ∷ (1 ∷ []) ∷ [];
}

-- A hash that is the same for all bytes.
abbrev digest_of : Bytes → Bytes
digest_of b = replicate 32 6

abbrev details : CoordinatorDetails
details = record {
  canonical_roster = (1 ∷ []) ∷ (2 ∷ []) ∷ (3 ∷ []) ∷ (4 ∷ []) ∷ (5 ∷ []) ∷ [];
  digest = replicate 32 6;
  sample = 0x0606060606060606;
  index = 3;
  coordinator = 4 ∷ [];
  counter = 0;
}

selected_coordinator_example :
    (roster : List Bytes) × Perm roster input.active_roster
    × Rising roster
    × IsDraw digest_of (base_of input) roster 0 details
unfolding select_coordinator_details draw uint_le sort_members insert_member le_bytes le_rest
    from_le
selected_coordinator_example = selected_coordinator digest_of input 2 details refl
