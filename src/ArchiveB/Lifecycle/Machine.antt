-- ===== src/ArchiveB/Lifecycle/Machine.antt =====
-- `applyLifecycleInput`: the machine that replaces one of five active members by a standby.
pub mod Invariant
pub mod Exit
use co_net_dle.Common.{
  ℕ, suc, ◌+◌, Bool, true, false, not, ◌&&◌, ◌||◌, Option, none, some, List, [], ◌∷◌, Result, ok,
  err, ltb, ◌==◌, if◌then◌else◌, length, set, drop, nat_eq, includes, set_size, index_of,
}
use co_net_dle.ArchiveB.Types.{Hex, zero32}

pub data Phase : Type 0 where
  active exit_requested draining standby_syncing handover_ready membership_switched : Phase

pub record LifecycleMachineState : Type 0 where
  pub phase : Phase
  pub membership_epoch : ℕ
  pub key_epoch : ℕ
  pub active : List Hex
  pub standby : List Hex
  pub exiting : Hex
  pub promoted : Hex

pub data LifecycleMachineInput : Type 0 where
  request_exit : Hex → LifecycleMachineInput
  begin_drain begin_standby_sync mark_handover_ready activate_switch : LifecycleMachineInput

-- The one error, `ERR_LIFECYCLE_TRANSITION`.
pub data TransitionError : Type 0 where
  err_lifecycle_transition : TransitionError

abbrev pub Next : Type 0
Next = Result TransitionError LifecycleMachineState

abbrev pub refused : Next
refused = err err_lifecycle_transition

-- `{ ...state, phase: 'STANDBY_SYNCING', promoted: state.standby[0] }`, with its guard; a standby is
-- a hex text, so never the empty text.
abbrev sync_first : List Hex → LifecycleMachineState → Next
sync_first [] s = refused
sync_first (first ∷ rest) s = ok (record s { phase = standby_syncing; promoted = first })

abbrev swap_in : Option ℕ → LifecycleMachineState → Next
swap_in none s = refused
swap_in (some replacement) s =
    let members = set s.active replacement s.promoted in
    if s.promoted == zero32
    then refused
    else if not (set_size members == 5)
    then refused
    else ok (record s {
      phase = membership_switched;
      membership_epoch = s.membership_epoch + 1;
      key_epoch = s.key_epoch + 1;
      active = members;
      standby = drop 1 s.standby;
    })

-- The `switch` over the input's type, and the guard on the phase in each case.
unfoldable pub dispatch : LifecycleMachineInput → Phase → LifecycleMachineState → Next
dispatch (request_exit member) Phase.active s =
    if includes member s.active
    then ok (record s { phase = exit_requested; exiting = member })
    else refused
dispatch begin_drain exit_requested s = ok (record s { phase = draining })
dispatch begin_standby_sync draining s = sync_first s.standby s
dispatch mark_handover_ready standby_syncing s = ok (record s { phase = handover_ready })
dispatch activate_switch handover_ready s = swap_in (index_of s.exiting s.active) s
dispatch _ _ s = refused

unfoldable pub apply_lifecycle_input : LifecycleMachineState → LifecycleMachineInput → Next
unfolding dispatch
apply_lifecycle_input s i =
    if not (length s.active == 5) || ltb 2 (length s.standby) then refused else dispatch i s.phase s

-- The calls of one exit, in order; the first refusal stops it.
unfoldable pub run : LifecycleMachineState → List LifecycleMachineInput → Next
run s [] = ok s
run s (i ∷ is) = elim (apply_lifecycle_input s i) [ ok t ↦ run t is | err e ↦ err e ]
