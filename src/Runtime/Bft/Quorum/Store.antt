-- ===== src/Runtime/Bft/Quorum/Store.antt =====
-- The votes that an archive keeps, one to a slot: the `Map` under `voteSlotKey` in `ingestVote` of
-- runtime/src/archive/bft/engine.ts.
use co_net_dle.Common.{
  ℕ, ◌≡◌, refl, sym, ap, ◌∙◌, ◌⊎◌, inl, inr, Bool, true, false, ◌&&◌, Option, none, some, List, [],
  ◌∷◌, arith, ok, err, ◌==◌, if◌then◌else◌, Bool-cases, nat_eq, includes, Result, Result-cases,
}
use mathlib.Core.Path.{subst}
use co_net_dle.Runtime.Bft.Round.{Hex}
use co_net_dle.Runtime.Bft.Quorum.{
  DomainId, ArchiveVote, VoteError, accept_vote, AcceptInput, votes_equal, conflicts,
}

-- Two votes have one `voteSlotKey`; the key's text is one to one, since numbers have no colon.
unfoldable pub same_slot : ArchiveVote → ArchiveVote → Bool
same_slot v w =
    v.domain_id == w.domain_id && v.height == w.height && v.round == w.round && v.step == w.step

-- `votes.get(voteSlotKey(v))`.
unfoldable pub find : ArchiveVote → List ArchiveVote → Option ArchiveVote
find v [] = none
find v (x ∷ xs) = if same_slot x v then some x else find v xs

-- `votes.set(voteSlotKey(v), v)`.
unfoldable pub put : ArchiveVote → List ArchiveVote → List ArchiveVote
put v [] = v ∷ []
put v (x ∷ xs) = if same_slot x v then v ∷ xs else x ∷ put v xs

module _ (recovers : ArchiveVote → Bool) (active : List DomainId) (root : Hex) where
  -- The part of the engine's `ingestVote` that changes the votes, on a vote that parsed.
  unfoldable pub ingest_vote :
      Option Hex → ArchiveVote → List ArchiveVote → Result VoteError (List ArchiveVote)
  ingest_vote expected v votes =
      elim (accept_vote recovers (record {
        vote = v;
        existing = find v votes;
        active_domain_ids = active;
        membership_root = root;
        expected_hash_index_root = expected;
      })) [ ok w ↦ ok (put w votes) | err e ↦ err e ]

  -- A message's votes in turn, each with the index root that is expected when it comes; a vote that
  -- is refused changes nothing.
  unfoldable pub ingest_all : List (ArchiveVote × Option Hex) → List ArchiveVote → List ArchiveVote
  ingest_all [] votes = votes
  ingest_all ((v, expected) ∷ vs) votes =
      ingest_all vs (elim (ingest_vote expected v votes) [ ok next ↦ next | err _ ↦ votes ])

-- No slot stands twice.
abbrev pub UniqueSlots : List ArchiveVote → Type 0
UniqueSlots [] = Unit
UniqueSlots (x ∷ xs) = (find x xs ≡ none) × UniqueSlots xs

abbrev pub Has : ArchiveVote → List ArchiveVote → Type 0
Has v [] = ⊥
Has v (x ∷ xs) = (v ≡ x) ⊎ Has v xs

pub slot_sym : (v w : ArchiveVote) → same_slot v w ≡ same_slot w v
unfolding same_slot
slot_sym v w = ground arith

slot_trans : (u v w : ArchiveVote) → same_slot u v ≡ true → same_slot u w ≡ same_slot v w
unfolding same_slot
slot_trans u v w h = ground arith

slot_right : (x v w : ArchiveVote) → same_slot v w ≡ true → same_slot x v ≡ same_slot x w
unfolding same_slot
slot_right x v w h = ground arith

find-put_ne :
    (v w : ArchiveVote) (xs : List ArchiveVote)
    → same_slot v w ≡ false
    → find w (put v xs) ≡ find w xs
unfolding find put
find-put_ne v w [] h = rw h
find-put_ne v w (x ∷ xs) h = ground (arith, find-put_ne v w xs, slot_trans x v w)

find-put_self :
    (v w : ArchiveVote) (xs : List ArchiveVote) → same_slot v w ≡ true → find w (put v xs) ≡ some v
unfolding find put
find-put_self v w [] h = rw h
find-put_self v w (x ∷ xs) h = ground (arith, find-put_self v w xs, slot_right x v w)

find_slot :
    (v w : ArchiveVote) (xs : List ArchiveVote) → same_slot v w ≡ true → find v xs ≡ find w xs
unfolding find
find_slot v w [] h = refl
find_slot v w (x ∷ xs) h =
    ground (arith, find_slot v w xs h, slot_sym x v, slot_sym x w, slot_trans v w x)

put-UniqueSlots :
    (v : ArchiveVote) (xs : List ArchiveVote) → UniqueSlots xs → UniqueSlots (put v xs)
unfolding put
put-UniqueSlots v [] u = (unfold find in refl, tt)
put-UniqueSlots v (x ∷ xs) u = elim (Bool-cases (same_slot x v)) [
  | inl same ↦ rw same (find_slot v x xs (slot_sym v x ∙ same) ∙ u.0, u.1)
  | inr other ↦ rw other (find-put_ne v x xs (slot_sym v x ∙ other) ∙ u.0, put-UniqueSlots v xs u.1)
]

-- What `acceptVote` lets through: the vote itself, of an active domain, that does not conflict.
accept-ok :
    (recovers : ArchiveVote → Bool) (i : AcceptInput) {w : ArchiveVote}
    → accept_vote recovers i ≡ ok w
    → (w ≡ i.vote)
      × (includes i.vote.domain_id i.active_domain_ids ≡ true)
      × (recovers i.vote ≡ true)
      × (conflicts i.existing i.vote ≡ false)
unfolding accept_vote
accept-ok recovers i h = ground arith

abbrev text_of : Option ℕ → ℕ
text_of none = 0
text_of (some x) = x

-- What `votesEqual` compares.
pub record SameContent (l r : ArchiveVote) : Type 0 where
  pub same_domain : l.domain_id ≡ r.domain_id
  pub same_height : l.height ≡ r.height
  pub same_round : l.round ≡ r.round
  pub same_step : l.step ≡ r.step
  pub same_value : l.value_hash ≡ r.value_hash
  pub same_membership : l.membership_root ≡ r.membership_root
  pub same_index_root : l.hash_index_root ≡ r.hash_index_root
  pub same_reference : l.prevote_qc_ref ≡ r.prevote_qc_ref
  pub same_signature : text_of l.signature ≡ text_of r.signature
  pub same_signer : text_of l.signer ≡ text_of r.signer
  pub same_mac : text_of l.mac ≡ text_of r.mac

votes_equal→SameContent : (l r : ArchiveVote) → votes_equal l r ≡ true → SameContent l r
unfolding votes_equal
votes_equal→SameContent l r h = ground arith

pub SameContent-trans : (y v x : ArchiveVote) → SameContent y v → SameContent y x → SameContent v x
SameContent-trans y v x h k = record {
  same_domain = sym h.same_domain ∙ k.same_domain;
  same_height = sym h.same_height ∙ k.same_height;
  same_round = sym h.same_round ∙ k.same_round;
  same_step = sym h.same_step ∙ k.same_step;
  same_value = sym h.same_value ∙ k.same_value;
  same_membership = sym h.same_membership ∙ k.same_membership;
  same_index_root = sym h.same_index_root ∙ k.same_index_root;
  same_reference = sym h.same_reference ∙ k.same_reference;
  same_signature = sym h.same_signature ∙ k.same_signature;
  same_signer = sym h.same_signer ∙ k.same_signer;
  same_mac = sym h.same_mac ∙ k.same_mac;
}

-- The vote that a slot keeps has the content of `v`.
abbrev pub KeptAs : Option ArchiveVote → ArchiveVote → Type 0
KeptAs none v = ⊥
KeptAs (some x) v = SameContent x v

module _ (recovers : ArchiveVote → Bool) (active : List DomainId) (root : Hex) where
  abbrev input : Option Hex → ArchiveVote → List ArchiveVote → AcceptInput
  input expected v votes = record {
    vote = v;
    existing = find v votes;
    active_domain_ids = active;
    membership_root = root;
    expected_hash_index_root = expected;
  }

  -- One vote leaves the votes as they are, or is put into its slot, where no other vote stood.
  ingest_cases :
      (expected : Option Hex) (v : ArchiveVote) (votes : List ArchiveVote)
      → ((e : VoteError) × (ingest_vote recovers active root expected v votes ≡ err e))
        ⊎ ((ingest_vote recovers active root expected v votes ≡ ok (put v votes))
            × (conflicts (find v votes) v ≡ false))
  unfolding ingest_vote
  ingest_cases expected v votes =
      elim (Result-cases (accept_vote recovers (input expected v votes))) [
        | inr (e, failed) ↦ inl (e, rw (failed, ingest_vote) refl)
        | inl (w, passed) ↦
            let facts = accept-ok recovers (input expected v votes) passed in
            inr (rw (passed, ingest_vote) (ap (λ x. ok (put x votes)) facts.0), facts.3)
      ]

  pub ingest_all-UniqueSlots :
      (vs : List (ArchiveVote × Option Hex)) (votes : List ArchiveVote)
      → UniqueSlots votes
      → UniqueSlots (ingest_all recovers active root vs votes)
  unfolding ingest_all
  ingest_all-UniqueSlots [] votes u = u
  ingest_all-UniqueSlots ((v, expected) ∷ vs) votes u = elim (ingest_cases expected v votes) [
    | inl (e, failed) ↦ rw failed (ingest_all-UniqueSlots vs votes u)
    | inr (passed, _) ↦
        rw passed (ingest_all-UniqueSlots vs (put v votes) (put-UniqueSlots v votes u))
  ]

  KeptAs-put :
      (v x : ArchiveVote) (votes : List ArchiveVote)
      → conflicts (find v votes) v ≡ false
      → KeptAs (find x votes) x
      → KeptAs (find x (put v votes)) x
  KeptAs-put v x votes fits kept = elim (Bool-cases (same_slot v x)) [
    | inr other ↦ rw (find-put_ne v x votes other) kept
    | inl same ↦
        rw (find-put_self v x votes same) (replaced (find v votes) (find_slot v x votes same) fits)
  ]
    where
      replaced :
          (o : Option ArchiveVote) → o ≡ find x votes → conflicts o v ≡ false → SameContent v x
      replaced none e c = absurd (subst (λ o. KeptAs o x) (sym e) kept)
      replaced (some y) e c =
          SameContent-trans y v x (votes_equal→SameContent y v (ground arith))
            (subst (λ o. KeptAs o x) (sym e) kept)

  -- A vote that an archive keeps is never replaced by a different one: whatever votes come later, its
  -- slot still holds a vote with the same content.
  pub kept_vote_stays :
      (vs : List (ArchiveVote × Option Hex)) (votes : List ArchiveVote) (x : ArchiveVote)
      → KeptAs (find x votes) x
      → KeptAs (find x (ingest_all recovers active root vs votes)) x
  unfolding ingest_all
  kept_vote_stays [] votes x k = k
  kept_vote_stays ((v, expected) ∷ vs) votes x k = elim (ingest_cases expected v votes) [
    | inl (e, failed) ↦ rw failed (kept_vote_stays vs votes x k)
    | inr (passed, fits) ↦
        rw passed (kept_vote_stays vs (put v votes) x (KeptAs-put v x votes fits k))
  ]
