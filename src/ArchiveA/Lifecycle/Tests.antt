-- ===== src/ArchiveA/Lifecycle/Tests.antt =====
-- A member's replacement at a concrete group.
use co_net_dle.Common.{◌≡◌, refl, [], ◌∷◌, List, map, arith, ok, inl, nat_eq}
use co_net_dle.ArchiveA.Lifecycle.{
  LifecyclePhase, ArchiveLifecycleState, LifecycleInput, apply_lifecycle_input, run,
}
use co_net_dle.ArchiveA.Lifecycle.Refinement.{b_state, b_input, b_next, runs_agree}
use co_net_dle.ArchiveB.Lifecycle.Machine

abbrev group : ArchiveLifecycleState
group = record {
  phase = LifecyclePhase.active;
  membership_epoch = 3;
  key_epoch = 4;
  active = 11 ∷ 12 ∷ 13 ∷ 14 ∷ 15 ∷ [];
  standby = 16 ∷ 17 ∷ [];
  exiting = 0;
  promoted = 0;
}

abbrev inputs : List LifecycleInput
inputs =
    LifecycleInput.request_exit 13
    ∷ LifecycleInput.begin_drain
    ∷ LifecycleInput.begin_standby_sync
    ∷ LifecycleInput.mark_handover_ready
    ∷ LifecycleInput.activate_switch
    ∷ []

run_of_inputs :
    run group inputs
    ≡ ok (record group {
      phase = LifecyclePhase.membership_switched;
      membership_epoch = 4;
      key_epoch = 5;
      active = 11 ∷ 12 ∷ 16 ∷ 14 ∷ 15 ∷ [];
      standby = 17 ∷ [];
      exiting = 13;
      promoted = 16;
    })
unfolding run apply_lifecycle_input
run_of_inputs = refl

runs_agree_example : Machine.run (b_state group) (map b_input inputs) ≡ b_next (run group inputs)
runs_agree_example = runs_agree group inputs (inl (omega arith, tt))
