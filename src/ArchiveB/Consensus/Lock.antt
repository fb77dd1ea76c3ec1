-- ===== src/ArchiveB/Consensus/Lock.antt =====
-- The rounds and the lock of `ArchiveTendermint` in implementations/archive-b/src/consensus.ts over
-- sequences of calls.
use co_net_dle.Common.{
  ℕ, ◌≤◌, ◌≡◌, refl, ◌≢◌, ◌⊎◌, Option, none, some, List, [], ◌∷◌, arith, is_none, ◌∙◌,
}
use co_net_dle.ArchiveB.Types.{TendermintState}
use co_net_dle.ArchiveB.Consensus.{
  DurableTransition, ArchiveTendermint, initial_tendermint_state, Call, proposed, prevote_quorum,
  prevote_expired, precommit_quorum, precommit_expired, recover, rejected, accepted, finalised,
  step, run,
}

-- A nullable round is absent or at most `n`.
abbrev pub AtMost : Option ℕ → ℕ → Type 0
AtMost none n = Unit
AtMost (some r) n = r ≤ n

-- What holds of the state between two calls.
pub record IsSound (s : TendermintState) : Type 0 where
  pub lock_below : AtMost s.locked_round s.round
  pub lock_paired : is_none s.locked_round ≡ is_none s.locked_value_hash
  pub lock_valid : s.locked_value_hash ≡ s.valid_value_hash
  pub lock_valid_round : s.locked_round ≡ s.valid_round
  pub valid_referenced : is_none s.valid_prevote_qc_ref ≡ is_none s.valid_value_hash
  pub reference_nonzero : s.valid_prevote_qc_ref ≢ some 0

pub initial-IsSound : (h r : ℕ) → IsSound (initial_tendermint_state h r)
unfolding initial_tendermint_state
initial-IsSound h r = ground arith

-- Every call keeps the invariant.
pub step-IsSound :
    (persist : DurableTransition) (c : Call) (a : ArchiveTendermint)
    → IsSound a.state
    → IsSound (step persist c a).1.state
unfolding step
step-IsSound persist (proposed p) a h = ground arith
step-IsSound persist (prevote_quorum r none q) a h = ground arith
step-IsSound persist (prevote_quorum r (some v) q) a h = ground arith
step-IsSound persist (prevote_expired r) a h = ground arith
step-IsSound persist (precommit_quorum r none c) a h = ground arith
step-IsSound persist (precommit_quorum r (some v) c) a h = ground arith
step-IsSound persist (precommit_expired r) a h = ground arith
step-IsSound persist (recover code) a h = ground arith
step-IsSound persist (rejected k) a h = ground arith
step-IsSound persist (accepted k) a h = ground arith
step-IsSound persist (finalised k) a h = h

-- After any sequence of calls the invariant holds.
pub run-IsSound :
    (persist : DurableTransition) (cs : List Call) (a : ArchiveTendermint)
    → IsSound a.state
    → IsSound (run persist cs a).state
unfolding run
run-IsSound persist [] a h = h
run-IsSound persist (c ∷ cs) a h =
    run-IsSound persist cs (step persist c a).1 (step-IsSound persist c a h)

-- A nullable round that may be set or rise, and is never dropped.
abbrev pub Rises : Option ℕ → Option ℕ → Type 0
Rises none t = Unit
Rises (some r) none = ⊥
Rises (some r) (some t) = r ≤ t

-- The later of two states of one archive.
pub record IsLater (s t : TendermintState) : Type 0 where
  pub same_height : t.height ≡ s.height
  pub round_rises : s.round ≤ t.round
  pub lock_rises : Rises s.locked_round t.locked_round

pub Rises-refl : (l : Option ℕ) → Rises l l
Rises-refl none = tt
Rises-refl (some r) = omega arith

Rises-trans : (l m n : Option ℕ) → Rises l m → Rises m n → Rises l n
Rises-trans none m n h k = tt
Rises-trans (some l) none n h k = absurd h
Rises-trans (some l) (some m) none h k = absurd k
Rises-trans (some l) (some m) (some n) h k = omega arith

pub IsLater-trans : (s t u : TendermintState) → IsLater s t → IsLater t u → IsLater s u
IsLater-trans s t u h k = record {
  same_height = k.same_height ∙ h.same_height;
  round_rises = omega arith;
  lock_rises = Rises-trans s.locked_round t.locked_round u.locked_round h.lock_rises k.lock_rises;
}

step-IsLater :
    (persist : DurableTransition) (c : Call) (a : ArchiveTendermint)
    → IsSound a.state
    → IsLater a.state (step persist c a).1.state
unfolding step
step-IsLater persist (proposed p) a h = ground (arith, Rises-refl a.state.locked_round)
step-IsLater persist (prevote_quorum r none q) a h = ground (arith, Rises-refl a.state.locked_round)
step-IsLater persist (prevote_quorum r (some v) q) a h =
    ground (arith, Rises-refl a.state.locked_round)
step-IsLater persist (prevote_expired r) a h = ground (arith, Rises-refl a.state.locked_round)
step-IsLater persist (precommit_quorum r none c) a h =
    ground (arith, Rises-refl a.state.locked_round)
step-IsLater persist (precommit_quorum r (some v) c) a h =
    ground (arith, Rises-refl a.state.locked_round)
step-IsLater persist (precommit_expired r) a h = ground (arith, Rises-refl a.state.locked_round)
step-IsLater persist (recover code) a h = ground (arith, Rises-refl a.state.locked_round)
step-IsLater persist (rejected k) a h = ground (arith, Rises-refl a.state.locked_round)
step-IsLater persist (accepted k) a h = ground (arith, Rises-refl a.state.locked_round)
step-IsLater persist (finalised k) a h = ground (arith, Rises-refl a.state.locked_round)

-- Over any sequence of calls from a sound state, each made when the one before has settled, the height
-- stays, the round never falls, and a lock is never dropped and never moves to an earlier round.
pub run-IsLater :
    (persist : DurableTransition) (cs : List Call) (a : ArchiveTendermint)
    → IsSound a.state
    → IsLater a.state (run persist cs a).state
unfolding run
run-IsLater persist [] a h = record {
  same_height = refl;
  round_rises = omega arith;
  lock_rises = Rises-refl a.state.locked_round;
}
run-IsLater persist (c ∷ cs) a h =
    IsLater-trans a.state (step persist c a).1.state (run persist (c ∷ cs) a).state
      (step-IsLater persist c a h)
      (run-IsLater persist cs (step persist c a).1 (step-IsSound persist c a h))

-- What a call that moves the lock must be: a prevote quorum for a value, of the current round, with a
-- reference that is not zero.
abbrev pub LocksBy : Call → ArchiveTendermint → TendermintState → Type 0
LocksBy (prevote_quorum r (some v) q) a t =
    (r ≡ a.state.round) × (q ≢ 0) × (t.locked_value_hash ≡ some v) × (t.locked_round ≡ some r)
LocksBy _ a t = ⊥

-- One call leaves the locked value and its round as they were, or is a prevote quorum certificate for
-- a value in the current round, with a non-zero reference, and locks that value at that round.
pub step_locks :
    (persist : DurableTransition) (c : Call) (a : ArchiveTendermint)
    → let t = (step persist c a).1.state in
      ((t.locked_value_hash ≡ a.state.locked_value_hash) × (t.locked_round ≡ a.state.locked_round))
      ⊎ LocksBy c a t
unfolding step
step_locks persist (proposed p) a = ground arith
step_locks persist (prevote_quorum r none q) a = ground arith
step_locks persist (prevote_quorum r (some v) q) a = ground arith
step_locks persist (prevote_expired r) a = ground arith
step_locks persist (precommit_quorum r none c) a = ground arith
step_locks persist (precommit_quorum r (some v) c) a = ground arith
step_locks persist (precommit_expired r) a = ground arith
step_locks persist (recover code) a = ground arith
step_locks persist (rejected k) a = ground arith
step_locks persist (accepted k) a = ground arith
step_locks persist (finalised k) a = ground arith
