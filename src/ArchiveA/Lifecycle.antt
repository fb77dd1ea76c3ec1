-- ===== src/ArchiveA/Lifecycle.antt =====
-- `applyLifecycleInput` of implementations/archive-a/src/core.ts: the replacement of a member.
pub mod Refinement
mod Tests
use co_net_dle.Common.{
  ℕ, ◌+◌, Bool, not, ◌||◌, Option, none, some, List, [], ◌∷◌, Result, ok, err, ◌==◌, if◌then◌else◌,
  length, set, get_elem?, nat_eq, includes, set_size, index_of,
}
use co_net_dle.ArchiveA.Types.{Hex, zero32, DleError, lifecycle_transition}

pub data LifecyclePhase : Type 0 where
  active exit_requested draining standby_syncing handover_ready : LifecyclePhase
  membership_switched : LifecyclePhase

pub record ArchiveLifecycleState : Type 0 where
  pub phase : LifecyclePhase
  pub membership_epoch : ℕ
  pub key_epoch : ℕ
  pub active : List Hex
  pub standby : List Hex
  pub exiting : Hex
  pub promoted : Hex

pub data LifecycleInput : Type 0 where
  request_exit : Hex → LifecycleInput
  begin_drain begin_standby_sync mark_handover_ready activate_switch : LifecycleInput

abbrev pub Next : Type 0
Next = Result DleError ArchiveLifecycleState

abbrev pub refused : Next
refused = err lifecycle_transition

-- `state.standby[i]!`; only read where there are two standbys.
abbrev pub standby_at : ℕ → ArchiveLifecycleState → Hex
standby_at i s = elim (get_elem? s.standby i) [ none ↦ zero32 | some h ↦ h ]

abbrev swap_in : Option ℕ → ArchiveLifecycleState → Next
swap_in none s = refused
swap_in (some replacement_index) s =
    let members = set s.active replacement_index s.promoted in
    if not (set_size members == 5)
    then refused
    else ok (record s {
      phase = membership_switched;
      membership_epoch = s.membership_epoch + 1;
      key_epoch = s.key_epoch + 1;
      active = members;
      standby = standby_at 1 s ∷ [];
    })

-- The `switch` over the input's type, and the guard on the phase in each case.
unfoldable pub dispatch : LifecycleInput → LifecyclePhase → ArchiveLifecycleState → Next
dispatch (request_exit member) LifecyclePhase.active s =
    if includes member s.active
    then ok (record s { phase = exit_requested; exiting = member })
    else refused
dispatch begin_drain exit_requested s = ok (record s { phase = draining })
dispatch begin_standby_sync draining s =
    ok (record s { phase = standby_syncing; promoted = standby_at 0 s })
dispatch mark_handover_ready standby_syncing s = ok (record s { phase = handover_ready })
dispatch activate_switch handover_ready s = swap_in (index_of s.exiting s.active) s
dispatch _ _ s = refused

unfoldable pub apply_lifecycle_input : ArchiveLifecycleState → LifecycleInput → Next
unfolding dispatch
apply_lifecycle_input s i =
    if not (length s.active == 5) || not (length s.standby == 2)
    then refused
    else dispatch i s.phase s

-- Inputs one after the other; the first refusal stops.
unfoldable pub run : ArchiveLifecycleState → List LifecycleInput → Next
run s [] = ok s
run s (i ∷ is) = elim (apply_lifecycle_input s i) [ ok t ↦ run t is | err e ↦ err e ]
