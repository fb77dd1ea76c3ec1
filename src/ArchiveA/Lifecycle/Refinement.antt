-- ===== src/ArchiveA/Lifecycle/Refinement.antt =====
-- The member replacement of implementations/archive-a/src/core.ts beside that of
-- implementations/archive-b/src/lifecycle.ts.
use co_net_dle.Common.{
  ℕ, ◌≡◌, ◌≢◌, refl, List, [], ◌∷◌, map, ok, err, arith, ◌⊎◌, inl, inr, nat_eq, Result-cases,
}
use co_net_dle.ArchiveA.Lifecycle.{
  LifecyclePhase, ArchiveLifecycleState, LifecycleInput, Next, apply_lifecycle_input, run,
}
use co_net_dle.ArchiveB.Lifecycle.Machine
use co_net_dle.ArchiveB.Lifecycle.Machine.{
  LifecycleMachineState, LifecycleMachineInput, err_lifecycle_transition,
}

abbrev b_phase : LifecyclePhase → Machine.Phase
b_phase LifecyclePhase.active = Machine.Phase.active
b_phase LifecyclePhase.exit_requested = Machine.Phase.exit_requested
b_phase LifecyclePhase.draining = Machine.Phase.draining
b_phase LifecyclePhase.standby_syncing = Machine.Phase.standby_syncing
b_phase LifecyclePhase.handover_ready = Machine.Phase.handover_ready
b_phase LifecyclePhase.membership_switched = Machine.Phase.membership_switched

abbrev pub b_state : ArchiveLifecycleState → LifecycleMachineState
b_state s = record {
  phase = b_phase s.phase;
  membership_epoch = s.membership_epoch;
  key_epoch = s.key_epoch;
  active = s.active;
  standby = s.standby;
  exiting = s.exiting;
  promoted = s.promoted;
}

abbrev pub b_input : LifecycleInput → LifecycleMachineInput
b_input (LifecycleInput.request_exit member) = Machine.request_exit member
b_input LifecycleInput.begin_drain = Machine.begin_drain
b_input LifecycleInput.begin_standby_sync = Machine.begin_standby_sync
b_input LifecycleInput.mark_handover_ready = Machine.mark_handover_ready
b_input LifecycleInput.activate_switch = Machine.activate_switch

abbrev pub b_next : Next → Machine.Next
b_next (ok s) = ok (b_state s)
b_next (err e) = err err_lifecycle_transition

-- The standby that has been chosen, once one has.
abbrev Chosen : LifecyclePhase → ℕ → Type 0
Chosen LifecyclePhase.standby_syncing promoted = promoted ≢ 0
Chosen LifecyclePhase.handover_ready promoted = promoted ≢ 0
Chosen _ promoted = Unit {0}

-- Before the switch: two standbys, the first and the chosen one not the zero hash.
abbrev Before : ArchiveLifecycleState → List ℕ → Type 0
Before s (first ∷ second ∷ []) = (first ≢ 0) × Chosen s.phase s.promoted
Before s _ = ⊥

abbrev pub Prepared : ArchiveLifecycleState → Type 0
Prepared s = Before s s.standby ⊎ (s.phase ≡ LifecyclePhase.membership_switched)

step_agrees :
    (s : ArchiveLifecycleState) (i : LifecycleInput)
    → Prepared s
    → Machine.apply_lifecycle_input (b_state s) (b_input i) ≡ b_next (apply_lifecycle_input s i)
unfolding apply_lifecycle_input Machine.apply_lifecycle_input
step_agrees s (LifecycleInput.request_exit member) h = ground arith
step_agrees s LifecycleInput.begin_drain h = ground arith
step_agrees s LifecycleInput.begin_standby_sync h = ground arith
step_agrees s LifecycleInput.mark_handover_ready h = ground arith
step_agrees s LifecycleInput.activate_switch h = ground arith

-- An accepted input leads to a prepared state.
abbrev KeepsPrepared : Next → Type 0
KeepsPrepared (ok t) = Prepared t
KeepsPrepared (err e) = Unit {0}

step-Prepared :
    (s : ArchiveLifecycleState) (i : LifecycleInput)
    → Prepared s
    → KeepsPrepared (apply_lifecycle_input s i)
unfolding apply_lifecycle_input
step-Prepared s (LifecycleInput.request_exit member) h = ground arith
step-Prepared s LifecycleInput.begin_drain h = ground arith
step-Prepared s LifecycleInput.begin_standby_sync h = ground arith
step-Prepared s LifecycleInput.mark_handover_ready h = ground arith
step-Prepared s LifecycleInput.activate_switch h = ground arith

-- From a state with two standbys, the first and any chosen one not the zero hash, or a switched
-- state, every sequence of inputs gets the same state or refusal from the two implementations.
pub runs_agree :
    (s : ArchiveLifecycleState) (is : List LifecycleInput)
    → Prepared s
    → Machine.run (b_state s) (map b_input is) ≡ b_next (run s is)
unfolding run Machine.run
runs_agree s [] h = refl
runs_agree s (i ∷ is) h = elim (Result-cases (apply_lifecycle_input s i)) [
  | inl (t, e) ↦
      let p : Prepared t = rw e at (step-Prepared s i h) in
      rw (step_agrees s i h, e, run, Machine.run) (runs_agree t is p)
  | inr (x, e) ↦ rw (step_agrees s i h, e, run, Machine.run) refl
]
