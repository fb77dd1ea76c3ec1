-- ===== src/ArchiveB/Machine/Safety.antt =====
-- Traces of `applyTendermintInput` in implementations/archive-b/src/consensus.ts.
use co_net_dle.Common.{ℕ, ◌≡◌, refl, ◌≢◌, ap, List, [], ◌∷◌, arith}
use co_net_dle.ArchiveB.Types.{TendermintState, voting, err_wal_recovery_required}
use co_net_dle.ArchiveB.Consensus.{initial_tendermint_state}
use co_net_dle.ArchiveB.Consensus.Lock.{
  IsSound, initial-IsSound, IsLater, IsLater-trans, Rises-refl,
}
use co_net_dle.ArchiveB.Machine.{
  TendermintInputV2, proposal, prevote_qc, precommit_qc, prevote_timeout, precommit_timeout,
  reject_cert, Transition, apply_tendermint_input, run, fail,
}

apply-IsSound :
    (s : TendermintState) (i : TendermintInputV2)
    → IsSound s
    → IsSound (apply_tendermint_input s i).state
unfolding apply_tendermint_input
apply-IsSound s (proposal p) h = ground arith
apply-IsSound s (prevote_qc v q) h = ground arith
apply-IsSound s prevote_timeout h = ground arith
apply-IsSound s (precommit_qc v c) h = ground arith
apply-IsSound s (precommit_timeout tc) h = ground arith
apply-IsSound s (reject_cert r after) h = ground arith

apply-IsLater :
    (s : TendermintState) (i : TendermintInputV2)
    → IsSound s
    → IsLater s (apply_tendermint_input s i).state
unfolding apply_tendermint_input
apply-IsLater s (proposal p) h = ground (arith, Rises-refl s.locked_round)
apply-IsLater s (prevote_qc v q) h = ground (arith, Rises-refl s.locked_round)
apply-IsLater s prevote_timeout h = ground (arith, Rises-refl s.locked_round)
apply-IsLater s (precommit_qc v c) h = ground (arith, Rises-refl s.locked_round)
apply-IsLater s (precommit_timeout tc) h = ground (arith, Rises-refl s.locked_round)
apply-IsLater s (reject_cert r after) h = ground (arith, Rises-refl s.locked_round)

run_safe :
    (s : TendermintState) (is : List TendermintInputV2)
    → IsSound s
    → IsSound (run s is) × IsLater s (run s is)
unfolding run
run_safe s [] h = (
  h,
  record { same_height = refl; round_rises = omega arith; lock_rises = Rises-refl s.locked_round },
)
run_safe s (i ∷ is) h =
    let t = (apply_tendermint_input s i).state in
    let (sound, later) = run_safe t is (apply-IsSound s i h) in
    (sound, IsLater-trans s t (run s (i ∷ is)) (apply-IsLater s i h) later)

-- From a first state, over every trace of inputs, the locked value is the valid value with its round
-- and a non-zero certificate reference, the lock is never above the round, and neither the round nor
-- the lock's round falls between any two points of the trace.
pub trace_safe :
    (height round : ℕ) (is js : List TendermintInputV2)
    → let s = run (initial_tendermint_state height round) is in IsSound s × IsLater s (run s js)
trace_safe height round is js =
    let sound =
      (run_safe (initial_tendermint_state height round) is (initial-IsSound height round)).0 in
    (sound, (run_safe (run (initial_tendermint_state height round) is) js sound).1)

refuse :
    (s : TendermintState) (i : TendermintInputV2)
    → s.mode ≢ voting
    → apply_tendermint_input s i ≡ fail s err_wal_recovery_required
unfolding apply_tendermint_input
refuse s i h = ground arith

-- A state that does not vote is left alone by every trace, and every input is answered with
-- `ERR_WAL_RECOVERY_REQUIRED` and no output.
pub not_voting_absorbs :
    (s : TendermintState) (i : TendermintInputV2) (is : List TendermintInputV2)
    → s.mode ≢ voting
    → (run s is ≡ s) × (apply_tendermint_input (run s is) i ≡ fail s err_wal_recovery_required)
unfolding run
not_voting_absorbs s i [] h = (refl, refuse s i h)
not_voting_absorbs s i (j ∷ is) h =
    rw (ap (λ (t : Transition). t.state) (refuse s j h)) (not_voting_absorbs s i is h)
