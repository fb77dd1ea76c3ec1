-- ===== src/ArchiveB/Roster.antt =====
-- The five-plus-two roster of implementations/archive-b/src/lifecycle.ts.
use co_net_dle.Common.{
  ℕ, ◌+◌, ◌≡◌, refl, ◌↔◌, Bool, true, false, not, ◌&&◌, ◌||◌, List, [], ◌∷◌, ◌++◌, map, arith,
  Result, ok, err, ◌>>◌, throw_if, ltb, leb, ◌==◌, if◌then◌else◌, length, length-append, ap, ◌∙◌,
  suc, text_eq, Text, set_size, Distinct, size-of_Distinct, Distinct-of_size,
}

pub data RosterError : Type 0 where
  err_invalid_five_plus_two_roster err_roster_overlap err_operator_domain_overlap : RosterError
  err_no_ready_standby : RosterError

pub record ArchiveGroupRoster : Type 0 where
  pub group_id : ℕ
  pub active : List Text
  pub standbys : List Text
  pub active_operator_domains : List Text
  pub standby_operator_domains : List Text
  pub assignment_frozen : Bool

-- `value.toLowerCase()`, on the ASCII texts that name archives and operators.
unfoldable pub lower_unit : ℕ → ℕ
lower_unit c = if leb b'A' c && leb c b'Z' then c + 32 else c

abbrev pub to_lower_case : Text → Text
to_lower_case = map lower_unit

abbrev pub identities : ArchiveGroupRoster → List Text
identities r = map to_lower_case (r.active ++ r.standbys)

abbrev pub operators : ArchiveGroupRoster → List Text
operators r = map to_lower_case (r.active_operator_domains ++ r.standby_operator_domains)

unfoldable pub validate_five_plus_two : ArchiveGroupRoster → Result RosterError (Unit {0})
validate_five_plus_two r = do
  throw_if (not (length r.active == 5) || not (length r.standbys == 2))
      err_invalid_five_plus_two_roster
  throw_if (not (set_size (identities r) == 7)) err_roster_overlap
  throw_if (not (length (operators r) == 7) || not (set_size (operators r) == 7))
      err_operator_domain_overlap

unfoldable pub can_accept_new_chain : ArchiveGroupRoster → Bool
unfolding validate_five_plus_two
can_accept_new_chain r = elim (validate_five_plus_two r) [
  | ok _ ↦ not r.assignment_frozen
  | err _ ↦ false
]

unfoldable pub emergency_promotion : ArchiveGroupRoster → ℕ → Result RosterError ArchiveGroupRoster
unfolding validate_five_plus_two
emergency_promotion r ready = do
  validate_five_plus_two r
  throw_if (ltb ready 1) err_no_ready_standby
  ok (record r { assignment_frozen = ltb ready 2 })

-- Five active archives and two standbys, no two of the seven alike up to case, run by seven operators,
-- no two of them alike up to case.
pub record IsFivePlusTwo (r : ArchiveGroupRoster) : Type 0 where
  pub five_active : length r.active ≡ 5
  pub two_standbys : length r.standbys ≡ 2
  pub members_distinct : Distinct (identities r)
  pub seven_operators : length (operators r) ≡ 7
  pub operators_distinct : Distinct (operators r)

length-map {ℓ κ} :
    {A : Type ℓ} {B : Type κ} (f : A → B) (xs : List A) → length (map f xs) ≡ length xs
length-map f [] = refl
length-map f (x ∷ xs) = ap suc (length-map f xs)

length-identities :
    (r : ArchiveGroupRoster) → length (identities r) ≡ length r.active + length r.standbys
length-identities r =
    length-map to_lower_case (r.active ++ r.standbys) ∙ length-append r.active r.standbys

-- Validation passes exactly on a five-plus-two roster.
pub validate_iff : (r : ArchiveGroupRoster) → (validate_five_plus_two r ≡ ok tt) ↔ IsFivePlusTwo r
unfolding validate_five_plus_two
validate_iff r = (
  λ h.
      ground (
        arith,
        length-identities r,
        Distinct-of_size (identities r),
        Distinct-of_size (operators r),
      ),
  λ h.
      ground (
        arith,
        length-identities r,
        size-of_Distinct (identities r),
        size-of_Distinct (operators r),
      ),
)

-- A roster takes a new chain exactly when it is valid and its assignment is not frozen, and an
-- emergency promotion of a valid roster changes only that: it freezes the assignment exactly when
-- fewer than two standbys are ready, and with none ready it throws.
pub promotion_freezes :
    (r : ArchiveGroupRoster) (ready : ℕ)
    → IsFivePlusTwo r
    → (emergency_promotion r 0 ≡ err err_no_ready_standby)
      × (emergency_promotion r 1 ≡ ok (record r { assignment_frozen = true }))
      × (emergency_promotion r (ready + 2) ≡ ok (record r { assignment_frozen = false }))
      × (can_accept_new_chain r ≡ not r.assignment_frozen)
unfolding emergency_promotion can_accept_new_chain
promotion_freezes r ready h = let v = (validate_iff r).1 h in ground arith
