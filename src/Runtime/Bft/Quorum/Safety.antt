-- ===== src/Runtime/Bft/Quorum/Safety.antt =====
-- The quorums of the votes that one archive keeps, by quorum.ts of runtime/src/archive/bft.
use co_net_dle.Common.{
  ℕ, ◌≤◌, ◌≡◌, refl, sym, ◌∙◌, inl, inr, Bool, true, false, not, ◌||◌, Option, none, List, [], ◌∷◌,
  arith, ◌==◌, ==_iff, Bool-cases, length, nat_eq, includes,
}
use co_net_dle.Runtime.Bft.Round.{Hex}
use co_net_dle.Runtime.Bft.Quorum.{
  DomainId, ArchiveVote, Topic, matches, matching_votes, collect, unique_active_signers, has_quorum,
}
use co_net_dle.Runtime.Bft.Quorum.Signers.{
  share_member, signers-Distinct, signers-Subset, includes-signers,
}
use co_net_dle.Runtime.Bft.Quorum.Store.{
  same_slot, find, UniqueSlots, Has, ingest_all, ingest_all-UniqueSlots,
}

pub find-none :
    (v w : ArchiveVote) (xs : List ArchiveVote)
    → find v xs ≡ none
    → Has w xs
    → same_slot w v ≡ false
unfolding find
find-none v w [] h m = absurd m
find-none v w (x ∷ xs) h (inl e) = ground arith
find-none v w (x ∷ xs) h (inr m) = ground (arith, find-none v w xs)

-- Two kept votes of one slot are one vote.
one_vote :
    (v w : ArchiveVote) (xs : List ArchiveVote)
    → UniqueSlots xs
    → Has v xs
    → Has w xs
    → same_slot v w ≡ true
    → same_slot w v ≡ true
    → v ≡ w
one_vote v w [] u h k s t = absurd h
one_vote v w (x ∷ xs) u (inl e) (inl f) s t = e ∙ sym f
one_vote v w (x ∷ xs) u (inl e) (inr k) s t = ground (arith, find-none x w xs u.0 k)
one_vote v w (x ∷ xs) u (inr h) (inl f) s t = ground (arith, find-none x v xs u.0 h)
one_vote v w (x ∷ xs) u (inr h) (inr k) s t = one_vote v w xs u.1 h k s t

-- A matching vote of the domain, among the votes.
abbrev pub VoteOf : ℕ → Topic → List ArchiveVote → Type 0
VoteOf d t vs = (v : ArchiveVote) × Has v vs × (v.domain_id ≡ d) × (matches t v ≡ true)

signer_voted :
    (d : ℕ) (t : Topic) (active seen : List ℕ) (vs : List ArchiveVote)
    → includes d (collect active seen (matching_votes t vs)) ≡ true
    → VoteOf d t vs
unfolding matching_votes collect
signer_voted d t active seen [] h = cc
signer_voted d t active seen (v ∷ vs) h = elim (Bool-cases (matches t v)) [
  | inr out ↦
      let (w, has, of, fits) = signer_voted d t active seen vs (ground arith) in
      (w, inr has, of, fits)
  | inl fit ↦ elim (Bool-cases (v.domain_id == d)) [
    | inl here ↦ (v, inl refl, (==_iff v.domain_id d).0 here, fit)
    | inr other ↦
        elim (Bool-cases (not (includes v.domain_id active) || includes v.domain_id seen)) [
          | inl skip ↦
              let (w, has, of, fits) = signer_voted d t active seen vs (ground arith) in
              (w, inr has, of, fits)
          | inr take ↦
              let (w, has, of, fits) =
                signer_voted d t active (v.domain_id ∷ seen) vs (ground arith) in
              (w, inr has, of, fits)
        ]
  ]
]

-- Two topics about one step of one round.
pub record SameStep (t u : Topic) : Type 0 where
  pub same_step : t.step ≡ u.step
  pub same_height : t.height ≡ u.height
  pub same_round : t.round ≡ u.round

slots_meet :
    (t u : Topic) (v w : ArchiveVote)
    → SameStep t u
    → v.domain_id ≡ w.domain_id
    → matches t v ≡ true
    → matches u w ≡ true
    → (same_slot v w ≡ true)
      × (same_slot w v ≡ true)
      × (v.value_hash ≡ t.value_hash)
      × (w.value_hash ≡ u.value_hash)
unfolding same_slot matches
slots_meet t u v w s e h k = ground arith

-- The votes give the topic a quorum.
abbrev pub HasQuorum : List ℕ → Topic → List ArchiveVote → Type 0
HasQuorum active t votes = has_quorum (unique_active_signers (matching_votes t votes) active) ≡ true

pub shared_value :
    (d : ℕ) (votes : List ArchiveVote) (t u : Topic)
    → UniqueSlots votes
    → SameStep t u
    → VoteOf d t votes
    → VoteOf d u votes
    → t.value_hash ≡ u.value_hash
shared_value d votes t u unique same (v, hv, dv, mv) (w, hw, dw, mw) =
    let (vw, wv, tv, uw) = slots_meet t u v w same (dv ∙ sym dw) mv mw in
    ground (arith, one_vote v w votes unique hv hw vw wv)

-- Two quorums, each of the votes of its own moment, have a signer in common.
pub shared_signer :
    (active : List ℕ) (votes votes' : List ArchiveVote) (t u : Topic)
    → length active ≤ 7
    → HasQuorum active t votes
    → HasQuorum active u votes'
    → (d : ℕ) × VoteOf d t votes × VoteOf d u votes'
unfolding has_quorum
shared_signer active votes votes' t u few qt qu =
    let ts = matching_votes t votes in
    let us = matching_votes u votes' in
    let (d, in_t, in_u) =
      share_member (unique_active_signers ts active) (unique_active_signers us active) active
        (signers-Distinct ts active) (signers-Distinct us active) (signers-Subset ts active)
        (signers-Subset us active) (ground arith) in
    (
      d,
      signer_voted d t active [] votes (sym (includes-signers d ts active) ∙ in_t),
      signer_voted d u active [] votes' (sym (includes-signers d us active) ∙ in_u),
    )

one_value :
    (active : List ℕ) (votes : List ArchiveVote) (t u : Topic)
    → length active ≤ 7
    → UniqueSlots votes
    → SameStep t u
    → HasQuorum active t votes
    → HasQuorum active u votes
    → t.value_hash ≡ u.value_hash
one_value active votes t u few unique same qt qu =
    let (d, in_t, in_u) = shared_signer active votes votes t u few qt qu in
    shared_value d votes t u unique same in_t in_u

-- Whatever votes reach an archive, in whatever order, the votes that it keeps give a quorum of active
-- signers to at most one value in each step of a round, in a group of at most seven.
pub one_quorum_value :
    (recovers : ArchiveVote → Bool) (active : List DomainId) (root : Hex)
    (received : List (ArchiveVote × Option Hex)) (t u : Topic)
    → length active ≤ 7
    → SameStep t u
    → HasQuorum active t (ingest_all recovers active root received [])
    → HasQuorum active u (ingest_all recovers active root received [])
    → t.value_hash ≡ u.value_hash
one_quorum_value recovers active root received t u few same =
    one_value active (ingest_all recovers active root received []) t u few
      (ingest_all-UniqueSlots recovers active root received [] tt) same
