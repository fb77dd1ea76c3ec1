-- ===== src/ArchiveB/Tests.antt =====
-- The roster's and the membership's properties at concrete values.
use co_net_dle.Common.{◌≡◌, refl, true, false, [], ◌∷◌, ok}
use co_net_dle.ArchiveB.Types.{MembershipView}
use co_net_dle.ArchiveB.Roster.{lower_unit, ArchiveGroupRoster, validate_five_plus_two}

abbrev roster : ArchiveGroupRoster
roster = record {
  group_id = 1;
  active = (1 ∷ []) ∷ (2 ∷ []) ∷ (3 ∷ []) ∷ (4 ∷ []) ∷ (5 ∷ []) ∷ [];
  standbys = (6 ∷ []) ∷ (7 ∷ []) ∷ [];
  active_operator_domains = (1 ∷ []) ∷ (2 ∷ []) ∷ (3 ∷ []) ∷ (4 ∷ []) ∷ (5 ∷ []) ∷ [];
  standby_operator_domains = (6 ∷ []) ∷ (7 ∷ []) ∷ [];
  assignment_frozen = false;
}

abbrev view : MembershipView
view = record {
  activation_height = 10;
  old_membership_root = 1;
  old_key_epoch = 2;
  new_membership_root = 3;
  new_key_epoch = 4;
  l1_switch_final = true;
}

roster_passes : validate_five_plus_two roster ≡ ok tt
unfolding validate_five_plus_two lower_unit
roster_passes = refl
