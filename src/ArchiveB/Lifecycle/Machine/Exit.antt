-- ===== src/ArchiveB/Lifecycle/Machine/Exit.antt =====
-- A whole exit through `applyLifecycleInput` of implementations/archive-b/src/lifecycle.ts.
use co_net_dle.Common.{
  ℕ, ◌+◌, ◌≡◌, refl, sym, ap, ◌∙◌, true, false, List, [], ◌∷◌, arith, ok, drop, nat_eq, includes,
}
use mathlib.Core.Path.{subst}
use co_net_dle.ArchiveB.Lifecycle.Machine.{
  Phase, handover_ready, LifecycleMachineState, LifecycleMachineInput, request_exit, begin_drain,
  begin_standby_sync, mark_handover_ready, activate_switch, apply_lifecycle_input, run,
}
use co_net_dle.ArchiveB.Lifecycle.Machine.Invariant.{
  IsSound, handover-IsReady, switched, switch_accepted, switched-IsSound, switch_replaces, KeptBut,
}

switch_phase :
    (s : LifecycleMachineState) {t : LifecycleMachineState}
    → apply_lifecycle_input s activate_switch ≡ ok t
    → s.phase ≡ handover_ready
unfolding apply_lifecycle_input
switch_phase s e = ground arith

switch-IsSound :
    (s : LifecycleMachineState) {t : LifecycleMachineState}
    → IsSound s
    → apply_lifecycle_input s activate_switch ≡ ok t
    → IsSound t
switch-IsSound s {t} h e =
    let (i, rest, r) = handover-IsReady s h (switch_phase s e) in
    let same : switched s i ≡ t = cc (switch_accepted s i rest h r) in
    subst IsSound same (switched-IsSound s i rest h r)

-- Every input keeps the invariant, where it is accepted.
pub apply_lifecycle_input-IsSound :
    (s : LifecycleMachineState) (i : LifecycleMachineInput) {t : LifecycleMachineState}
    → IsSound s
    → apply_lifecycle_input s i ≡ ok t
    → IsSound t
unfolding apply_lifecycle_input
apply_lifecycle_input-IsSound s (request_exit m) h e = ground arith
apply_lifecycle_input-IsSound s begin_drain h e = ground arith
apply_lifecycle_input-IsSound s begin_standby_sync h e = ground arith
apply_lifecycle_input-IsSound s mark_handover_ready h e = ground arith
apply_lifecycle_input-IsSound s activate_switch h e = switch-IsSound s h e

-- The state after the four inputs before the switch.
abbrev ready_state : LifecycleMachineState → ℕ → ℕ → LifecycleMachineState
ready_state s m p = record s { phase = handover_ready; exiting = m; promoted = p }

ready_state-IsSound :
    (s : LifecycleMachineState) (m p : ℕ) (rest : List ℕ)
    → IsSound s
    → includes m s.active ≡ true
    → s.standby ≡ p ∷ rest
    → IsSound (ready_state s m p)
ready_state-IsSound s m p rest h i e = record {
  five_members = h.five_members;
  few_standbys = h.few_standbys;
  members_distinct = h.members_distinct;
  standbys_distinct = h.standbys_distinct;
  standbys_apart = h.standbys_apart;
  leaving = i;
  promotion = rw e refl;
}

abbrev pub exit_inputs : ℕ → List LifecycleMachineInput
exit_inputs m =
    request_exit m ∷ begin_drain ∷ begin_standby_sync ∷ mark_handover_ready ∷ activate_switch ∷ []

reaches_handover :
    (s : LifecycleMachineState) (m p : ℕ) (rest : List ℕ)
    → IsSound s
    → s.phase ≡ Phase.active
    → includes m s.active ≡ true
    → s.standby ≡ p ∷ rest
    → run s (exit_inputs m) ≡ run (ready_state s m p) (activate_switch ∷ [])
unfolding run apply_lifecycle_input
reaches_handover s m p rest h a i e = ground arith

-- From a sound group in the phase ACTIVE with a standby, the exit of any active member completes: the
-- five inputs in order are all accepted, and end in a sound group in which the member is replaced by
-- the first standby, the other members are still active, and both epochs have gone up by one.
pub exit_completes :
    (s : LifecycleMachineState) (m p : ℕ) (rest : List ℕ)
    → IsSound s
    → s.phase ≡ Phase.active
    → includes m s.active ≡ true
    → s.standby ≡ p ∷ rest
    → (t : LifecycleMachineState) × (run s (exit_inputs m) ≡ ok t)
      × IsSound t
      × (includes m t.active ≡ false)
      × (includes p t.active ≡ true)
      × (t.standby ≡ rest)
      × KeptBut m s.active t.active
      × (t.membership_epoch ≡ s.membership_epoch + 1)
      × (t.key_epoch ≡ s.key_epoch + 1)
unfolding run
exit_completes s m p rest h a i e =
    let sound = ready_state-IsSound s m p rest h i e in
    let (t, ok_t, out, on, standbys, others, epoch, key) =
      switch_replaces (ready_state s m p) sound refl in
    (
      t,
      reaches_handover s m p rest h a i e ∙ rw (ok_t, run) refl,
      switch-IsSound (ready_state s m p) sound ok_t,
      out,
      on,
      ap (drop 1) (sym standbys ∙ e),
      others,
      epoch,
      key,
    )
