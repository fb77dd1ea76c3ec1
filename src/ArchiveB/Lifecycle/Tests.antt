-- ===== src/ArchiveB/Lifecycle/Tests.antt =====
-- The properties of the lifecycle at concrete groups.
use co_net_dle.Common.{◌+◌, ◌≡◌, refl, true, false, [], ◌∷◌, arith, ok, includes, nat_eq}
use co_net_dle.ArchiveB.Lifecycle.Machine.{Phase, LifecycleMachineState, run}
use co_net_dle.ArchiveB.Lifecycle.Machine.Invariant.{IsSound, KeptBut}
use co_net_dle.ArchiveB.Lifecycle.Machine.Exit.{exit_inputs, exit_completes}

abbrev group : LifecycleMachineState
group = record {
  phase = Phase.active;
  membership_epoch = 3;
  key_epoch = 4;
  active = 11 ∷ 12 ∷ 13 ∷ 14 ∷ 15 ∷ [];
  standby = 16 ∷ 17 ∷ [];
  exiting = 0;
  promoted = 0;
}

group-IsSound : IsSound group
group-IsSound = record {
  five_members = refl;
  few_standbys = omega arith;
  members_distinct = (refl, (refl, (refl, (refl, (refl, tt)))));
  standbys_distinct = (refl, (refl, tt));
  standbys_apart = (refl, ground arith, (refl, ground arith, tt));
  leaving = tt;
  promotion = tt;
}

exit_completes_example :
    (t : LifecycleMachineState) × (run group (exit_inputs 13) ≡ ok t)
    × IsSound t
    × (includes 13 t.active ≡ false)
    × (includes 16 t.active ≡ true)
    × (t.standby ≡ 17 ∷ [])
    × KeptBut 13 group.active t.active
    × (t.membership_epoch ≡ 3 + 1)
    × (t.key_epoch ≡ 4 + 1)
exit_completes_example = exit_completes group 13 16 (17 ∷ []) group-IsSound refl refl refl
