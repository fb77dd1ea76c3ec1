-- ===== src/Runtime/Bft/Quorum/Certificates.antt =====
-- `buildPrevoteQc` and `buildArchiveCertificate` of runtime/src/archive/bft/quorum.ts: what an archive
-- makes of a quorum of the votes that it keeps.
use co_net_dle.Common.{
  ℕ, ◌≤◌, ◌≡◌, refl, sym, ap, ◌∙◌, Bool, true, not, Option, some, List, [], arith, Result, ok, err,
  if◌then◌else◌, length, inl, inr, ◌∷◌, Bool-cases, Option-cases, some_injective,
}
use mathlib.Core.Path.{subst}
use co_net_dle.Runtime.Bft.Round.{Hex, zero32}
use co_net_dle.Runtime.Bft.Quorum.{
  DomainId, archive_quorum, VoteError, err_invalid_quorum, ArchiveVote, Topic, vote_step_precommit,
  matches, matching_votes, sort, unique_active_signers, has_quorum,
}
use co_net_dle.Runtime.Bft.Quorum.Store.{
  same_slot, find, UniqueSlots, Has, SameContent, SameContent-trans, slot_sym, KeptAs,
  kept_vote_stays, ingest_all, ingest_all-UniqueSlots,
}
use co_net_dle.Runtime.Bft.Quorum.Safety.{
  find-none, SameStep, HasQuorum, shared_signer, shared_value,
}

-- The fields that `topicQcRef` hashes, each of its own width.
pub record TopicRef : Type 0 where
  pub kind : ℕ
  pub value_hash : Hex
  pub membership_root : Hex
  pub hash_index_root : Hex
  pub height : ℕ
  pub round : ℕ
  pub prevote_qc_ref : Hex

abbrev pub cert_kind_prevote_qc : ℕ
cert_kind_prevote_qc = 1

abbrev pub cert_kind_archive : ℕ
cert_kind_archive = 2

-- The fields of a certificate that are not constants.
pub record ArchivePrevoteQc : Type 0 where
  pub kind : ℕ
  pub height : ℕ
  pub round : ℕ
  pub value_hash : Hex
  pub membership_root : Hex
  pub hash_index_root : Hex
  pub qc_ref : Hex
  pub quorum : ℕ
  pub signers : List DomainId

pub record ArchiveCertificate : Type 0 where
  pub kind : ℕ
  pub height : ℕ
  pub round : ℕ
  pub value_hash : Hex
  pub tip_state_root : Hex
  pub prevote_qc_ref : Hex
  pub membership_root : Hex
  pub hash_index_root : Hex
  pub quorum : ℕ
  pub signers : List DomainId

pub record PrevoteQcInput : Type 0 where
  pub value_hash : Hex
  pub membership_root : Hex
  pub hash_index_root : Hex
  pub height : ℕ
  pub round : ℕ
  pub signers : List DomainId

pub record CertificateInput : Type 0 where
  pub value_hash : Hex
  pub tip_state_root : Hex
  pub membership_root : Hex
  pub hash_index_root : Hex
  pub height : ℕ
  pub round : ℕ
  pub prevote_qc_ref : Hex
  pub signers : List DomainId

-- `topic_qc_ref` is the hash of the fields; a reference that is missing counts as the zero hash.
unfoldable pub build_prevote_qc :
    (TopicRef → Hex) → PrevoteQcInput → Result VoteError ArchivePrevoteQc
unfolding has_quorum
build_prevote_qc topic_qc_ref i =
    if not (has_quorum i.signers)
    then err err_invalid_quorum
    else ok (record {
      kind = cert_kind_prevote_qc;
      height = i.height;
      round = i.round;
      value_hash = i.value_hash;
      membership_root = i.membership_root;
      hash_index_root = i.hash_index_root;
      qc_ref = topic_qc_ref (record {
        kind = cert_kind_prevote_qc;
        value_hash = i.value_hash;
        membership_root = i.membership_root;
        hash_index_root = i.hash_index_root;
        height = i.height;
        round = i.round;
        prevote_qc_ref = zero32;
      });
      quorum = archive_quorum;
      signers = sort i.signers;
    })

unfoldable pub build_archive_certificate : CertificateInput → Result VoteError ArchiveCertificate
unfolding has_quorum
build_archive_certificate i =
    if not (has_quorum i.signers)
    then err err_invalid_quorum
    else ok (record {
      kind = cert_kind_archive;
      height = i.height;
      round = i.round;
      value_hash = i.value_hash;
      tip_state_root = i.tip_state_root;
      prevote_qc_ref = i.prevote_qc_ref;
      membership_root = i.membership_root;
      hash_index_root = i.hash_index_root;
      quorum = archive_quorum;
      signers = sort i.signers;
    })

certificate_quorum :
    (i : CertificateInput) (c : ArchiveCertificate)
    → build_archive_certificate i ≡ ok c
    → (has_quorum i.signers ≡ true)
      × (c.value_hash ≡ i.value_hash)
      × (c.height ≡ i.height)
      × (c.round ≡ i.round)
unfolding build_archive_certificate
certificate_quorum i c h = ground arith

-- The precommits for a value among the votes that an archive keeps.
abbrev pub precommits_for : CertificateInput → Topic
precommits_for i = record {
  step = vote_step_precommit;
  value_hash = i.value_hash;
  height = i.height;
  round = i.round;
  membership_root = i.membership_root;
  hash_index_root = some i.hash_index_root;
  prevote_qc_ref = some i.prevote_qc_ref;
}

-- The input's signers are those of the kept precommits for its value.
abbrev pub SignedBy : List DomainId → List ArchiveVote → CertificateInput → Type 0
SignedBy active votes i =
    i.signers ≡ unique_active_signers (matching_votes (precommits_for i) votes) active

slot_refl : (x : ArchiveVote) → same_slot x x ≡ true
unfolding same_slot
slot_refl x = ground arith

SameContent-refl : (x : ArchiveVote) → SameContent x x
SameContent-refl x = record {
  same_domain = refl;
  same_height = refl;
  same_round = refl;
  same_step = refl;
  same_value = refl;
  same_membership = refl;
  same_index_root = refl;
  same_reference = refl;
  same_signature = refl;
  same_signer = refl;
  same_mac = refl;
}

-- A kept vote is what its slot holds.
find-Has :
    (v : ArchiveVote) (xs : List ArchiveVote) → UniqueSlots xs → Has v xs → find v xs ≡ some v
unfolding find
find-Has v [] u h = absurd h
find-Has v (x ∷ xs) u (inl e) = rw (e, slot_refl x) refl
find-Has v (x ∷ xs) u (inr m) = elim (Bool-cases (same_slot x v)) [
  | inl same ↦ ground (arith, find-none x v xs u.0 m, slot_sym x v)
  | inr other ↦ rw other (find-Has v xs u.1 m)
]

Has-find : (v w : ArchiveVote) (xs : List ArchiveVote) → find v xs ≡ some w → Has w xs
unfolding find
Has-find v w [] h = ground arith
Has-find v w (x ∷ xs) h = elim (Bool-cases (same_slot x v)) [
  | inl same ↦ inl (sym (some_injective (rw same at h)))
  | inr other ↦ inr (Has-find v w xs (rw other at h))
]

-- A vote with the content of one that is kept is kept after whatever votes come later.
still_kept :
    (recovers : ArchiveVote → Bool) (active : List DomainId) (root : Hex)
    (later : List (ArchiveVote × Option Hex)) (votes : List ArchiveVote) (v : ArchiveVote)
    → UniqueSlots votes
    → Has v votes
    → (x : ArchiveVote) × Has x (ingest_all recovers active root later votes) × SameContent v x
still_kept recovers active root later votes v unique has =
    let votes' = ingest_all recovers active root later votes in
    let kept : KeptAs (find v votes') v =
      kept_vote_stays recovers active root later votes v
        (subst (λ o. KeptAs o v) (sym (find-Has v votes unique has)) (SameContent-refl v)) in
    elim (Option-cases (find v votes')) [
      | inl empty ↦ absurd (subst (λ o. KeptAs o v) empty kept)
      | inr (x, found) ↦
          let content = subst (λ o. KeptAs o v) found kept in
          (x, Has-find v x votes' found, SameContent-trans x v x content (SameContent-refl x))
    ]

content_matches :
    (t : Topic) (v x : ArchiveVote) → SameContent v x → matches t v ≡ true → matches t x ≡ true
unfolding matches
content_matches t v x c m =
    rw
      (
        ← c.same_step,
        ← c.same_height,
        ← c.same_round,
        ← c.same_value,
        ← c.same_membership,
        ← c.same_index_root,
        ← c.same_reference,
      )
      m

-- A quorum at one moment and one at a later moment, with more votes received between the two.
quorums_over_time :
    (recovers : ArchiveVote → Bool) (active : List DomainId) (root : Hex)
    (received later : List (ArchiveVote × Option Hex)) (t u : Topic)
    → length active ≤ 7
    → SameStep t u
    → HasQuorum active t (ingest_all recovers active root received [])
    → HasQuorum active u
        (ingest_all recovers active root later (ingest_all recovers active root received []))
    → t.value_hash ≡ u.value_hash
unfolding has_quorum
quorums_over_time recovers active root received later t u few same qt qu =
    let votes = ingest_all recovers active root received [] in
    let votes' = ingest_all recovers active root later votes in
    let (d, in_t, in_u) = shared_signer active votes votes' t u few qt qu in
    let unique = ingest_all-UniqueSlots recovers active root received [] tt in
    let unique' = ingest_all-UniqueSlots recovers active root later votes unique in
    let (v, has_v, of_v, fits_v) = in_t in
    let (x, has_x, content) = still_kept recovers active root later votes v unique has_v in
    shared_value d votes' t u unique' same
      (x, has_x, sym content.same_domain ∙ of_v, content_matches t v x content fits_v) in_u

-- Two archive certificates for one height and round, which an archive builds at two moments from the
-- precommits that it keeps of whatever votes have reached it by then, are for one value, whatever
-- votes come between the two, in a group of at most seven.
pub one_certificate_value :
    (recovers : ArchiveVote → Bool) (active : List DomainId) (root : Hex)
    (received later : List (ArchiveVote × Option Hex)) (i j : CertificateInput)
    (c d : ArchiveCertificate)
    → length active ≤ 7
    → SignedBy active (ingest_all recovers active root received []) i
    → SignedBy active
        (ingest_all recovers active root later (ingest_all recovers active root received []))
        j
    → build_archive_certificate i ≡ ok c
    → build_archive_certificate j ≡ ok d
    → c.height ≡ d.height
    → c.round ≡ d.round
    → c.value_hash ≡ d.value_hash
one_certificate_value recovers active root received later i j c d few si sj bi bj height round =
    let (qi, vi, hi, ri) = certificate_quorum i c bi in
    let (qj, vj, hj, rj) = certificate_quorum j d bj in
    let same : SameStep (precommits_for i) (precommits_for j) = record {
      same_step = refl;
      same_height = sym hi ∙ height ∙ hj;
      same_round = sym ri ∙ round ∙ rj;
    } in
    let e =
      quorums_over_time recovers active root received later (precommits_for i) (precommits_for j)
        few same (ap has_quorum (sym si) ∙ qi) (ap has_quorum (sym sj) ∙ qj) in
    vi ∙ e ∙ sym vj
